-- ===== src/Resolver/PartialFill/Secret.antt =====
-- backend/resolver/src/services/ResolverServiceV2.ts, the handler of secret:reveal: which secrets it
-- takes.
use fusion_plus_aptos_extens.Base.{
  ℕ, String, Bool, true, ◌≡◌, ◌⊎◌, inl, inr, refl, arith, some, Option, [], ap, List, ◌∷◌, ◌++◌,
  get_elem?, Bool-cases, Option-cases,
}
use fusion_plus_aptos_extens.Base.Dict.{Dict, lookup}
use fusion_plus_aptos_extens.Order.{Order, PartialFillSecrets}
use fusion_plus_aptos_extens.Resolver.PartialFill.{
  PartialFill, Pending, State, Action, complete_swap,
}
use fusion_plus_aptos_extens.Resolver.PartialFill.Revealed.{
  Reveal, Keccak, is_text, has_index, find_by_index, complete_part, reveal_part, reveal_whole,
  on_reveal,
}

find_by_index-has_index :
    (order_id : String) (index : ℕ) (fills : Dict PartialFill) (id : String) (fill : PartialFill)
    → find_by_index order_id index fills ≡ some (id, fill)
    → has_index order_id index fill ≡ true
unfolding find_by_index
find_by_index-has_index order_id index [] id fill h = cc
find_by_index-has_index order_id index ((k, f) ∷ fills) id fill h =
    elim (Bool-cases (has_index order_id index f)) [
      | inl fits ↦ (ground (arith, fits))
      | inr other ↦ find_by_index-has_index order_id index fills id fill (rw other at (h))
    ]

-- A secret that is revealed for a part of an order. Either nothing happens, or the order is active,
-- the secret is the order's own at the given index, and it is used for a monitored fill of that
-- order with that index.
pub reveal_part_lem :
    (keccak : Keccak) (completed : Bool) (event : Reveal) (index : ℕ) (s : State)
    → (reveal_part keccak completed event index s ≡ s)
      ⊎ ((order : Order) × (secrets : PartialFillSecrets) × (id : String) × (fill : PartialFill)
          × (lookup event.order_id s.active_orders ≡ some order)
          × (order.partial_fill_secrets ≡ some secrets)
          × (is_text event.secret (get_elem? secrets.secrets index) ≡ true)
          × (has_index event.order_id index fill ≡ true)
          × (reveal_part keccak completed event index s
              ≡ complete_part keccak completed event id fill
                  (lookup event.order_id s.pending_secret_reveals)
                  s))
unfolding reveal_part
reveal_part_lem keccak completed event index s =
    elim (Option-cases (lookup event.order_id s.active_orders)) [
      | inl inactive ↦ inl (rw (inactive, reveal_part) refl)
      | inr (order, active) ↦ elim (Option-cases order.partial_fill_secrets) [
        | inl plain ↦ inl (rw (active, plain, reveal_part) refl)
        | inr (secrets, listed) ↦
            elim (Bool-cases (is_text event.secret (get_elem? secrets.secrets index))) [
              | inr wrong ↦ inl (rw (active, listed, wrong, reveal_part) refl)
              | inl right ↦
                  elim (Option-cases (find_by_index event.order_id index s.monitoring_fills)) [
                    | inl missing ↦ inl (rw (active, listed, right, missing, reveal_part) refl)
                    | inr ((id, fill), found) ↦ inr (
                      order,
                      secrets,
                      id,
                      fill,
                      active,
                      listed,
                      right,
                      find_by_index-has_index event.order_id index s.monitoring_fills id fill found,
                      (rw (active, listed, right, found, reveal_part) refl),
                    )
                  ]
            ]
      ]
    ]

-- A pending swap with other hashes in its order and its fill.
abbrev pub rehashed : Option String → Option String → Pending → Pending
rehashed order_hash fill_hash p = record p {
  order = record (p.order) { dto = record (p.order.dto) { secret_hash = order_hash } };
  fill = record (p.fill) { secret_hash = fill_hash };
}

-- The secret and the two escrows of each swap that is started.
abbrev pub swaps : List Action → List (String × List ℕ × String)
swaps [] = []
swaps (complete_swap order fill secret source destination ∷ actions) =
    (secret, source, destination) ∷ swaps actions
swaps (_ ∷ actions) = swaps actions

swaps-append : (xs ys : List Action) → swaps (xs ++ ys) ≡ swaps xs ++ swaps ys
swaps-append [] ys = refl
swaps-append (complete_swap order fill secret source destination ∷ xs) ys =
    ap (λ l. (secret, source, destination) ∷ l) (swaps-append xs ys)
swaps-append (_ ∷ xs) ys = swaps-append xs ys

-- Whether a revealed secret starts a swap does not depend on the hashes that the pending order and
-- its fill are locked with: with any other hashes in their place the same event starts the same
-- swaps, as to their secrets and escrows, for whole orders and for parts.
pub on_reveal-unchecked :
    (keccak : Keccak) (completed : Bool) (event : Reveal) (s t : State) (pending : Pending)
    (order_hash fill_hash : Option String)
    → lookup event.order_id s.pending_secret_reveals ≡ some pending
    → lookup event.order_id t.pending_secret_reveals ≡ some (rehashed order_hash fill_hash pending)
    → t.active_orders ≡ s.active_orders
    → t.monitoring_fills ≡ s.monitoring_fills
    → t.actions ≡ s.actions
    → swaps (on_reveal keccak completed event t).actions
      ≡ swaps (on_reveal keccak completed event s).actions
unfolding on_reveal reveal_whole reveal_part
on_reveal-unchecked keccak completed event s t pending order_hash fill_hash here there active fills
      same =
    grind (arith, here, there, active, fills, same, swaps-append)
