-- ===== src/Resolver/PartialFill/Revealed.antt =====
-- backend/resolver/src/services/ResolverServiceV2.ts, the handler of secret:reveal. ethers' getBytes
-- (`none` is a throw) and keccak256 are parameters, and so is whether completeSwap succeeds; if it
-- throws, what comes after it is not done.
use fusion_plus_aptos_extens.Base.{
  ℕ, String, Bool, false, not, ◌&&◌, Option, none, some, [], ◌∷◌, get_elem?, ◌==◌, str_eq,
  if◌then◌else◌,
}
use fusion_plus_aptos_extens.Base.Dict.{Dict, lookup, erase}
use fusion_plus_aptos_extens.Resolver.PartialFill.{
  PartialFill, Pending, State, act, swap_completed, complete_swap,
}

pub record Reveal : Type 0 where
  pub order_id : String
  pub secret : String
  pub secret_hash : Option String
  pub is_partial_fill : Bool
  pub secret_index : Option ℕ
  pub fill_percentage : Option ℕ

pub record Keccak : Type 0 where
  pub get_bytes : String → Option String
  pub keccak256 : String → String

-- `a === b` of a text and one that may be undefined.
abbrev pub is_text : String → Option String → Bool
is_text secret none = false
is_text secret (some expected) = str_eq expected secret

abbrev pub has_index : String → ℕ → PartialFill → Bool
has_index order_id index fill = str_eq fill.order_id order_id && (fill.secret_index == index)

-- The loop over the monitored fills: the first one of the order with the index.
unfoldable pub find_by_index : String → ℕ → Dict PartialFill → Option (String × PartialFill)
find_by_index order_id index [] = none
find_by_index order_id index ((id, fill) ∷ fills) =
    let rest = find_by_index order_id index fills in
    if has_index order_id index fill then some (id, fill) else rest

-- completeSwap, and the clean-up if it succeeds.
abbrev pub finish_swap : Bool → String → Pending → PartialFill → String → String → State → State
finish_swap completed order_id pending fill bytes destination s =
    let s' =
      act (complete_swap pending.order fill bytes pending.source_escrow_id destination ∷ []) s in
    if completed
    then record s' { pending_secret_reveals = erase order_id s'.pending_secret_reveals }
    else s'

abbrev pub complete_part :
    Keccak → Bool → Reveal → String → PartialFill → Option Pending → State → State
complete_part keccak completed event id fill none s =
    act (swap_completed event.order_id event.fill_percentage ∷ []) s
complete_part keccak completed event id fill (some pending) s =
    elim (keccak.get_bytes event.secret) [
      | none ↦ s
      | some bytes ↦ finish_swap completed event.order_id pending fill bytes id s
    ]

unfoldable pub reveal_part : Keccak → Bool → Reveal → ℕ → State → State
reveal_part keccak completed event index s = elim (lookup event.order_id s.active_orders) [
  | none ↦ s
  | some order ↦ elim order.partial_fill_secrets [
    | none ↦ s
    | some secrets ↦
        if not (is_text event.secret (get_elem? secrets.secrets index))
        then s
        else elim (find_by_index event.order_id index s.monitoring_fills) [
          | none ↦ s
          | some (id, fill) ↦
              complete_part keccak completed event id fill
                (lookup event.order_id s.pending_secret_reveals) s
        ]
  ]
]

unfoldable pub reveal_whole : Keccak → Bool → Reveal → State → State
reveal_whole keccak completed event s = elim (lookup event.order_id s.pending_secret_reveals) [
  | none ↦ s
  | some pending ↦ elim (keccak.get_bytes event.secret) [
    | none ↦ s
    | some bytes ↦
        if not (is_text (keccak.keccak256 bytes) event.secret_hash)
        then s
        else finish_swap completed event.order_id pending pending.fill bytes
            pending.destination_escrow_id s
  ]
]

-- `if (data.isPartialFill && data.secretIndex !== undefined)`
unfoldable pub on_reveal : Keccak → Bool → Reveal → State → State
on_reveal keccak completed event s =
    if event.is_partial_fill
    then elim event.secret_index [
      | none ↦ reveal_whole keccak completed event s
      | some index ↦ reveal_part keccak completed event index s
    ]
    else reveal_whole keccak completed event s
