-- ===== src/Resolver/PartialFill/SourceEscrow.antt =====
-- backend/resolver/src/services/ResolverServiceV2.ts, handleAPTEscrowCreated: when the resolver asks
-- for the secret.
use fusion_plus_aptos_extens.Base.{
  String, true, ◌≡◌, ◌⊎◌, inl, inr, refl, ◌∷◌, ◌++◌, [], some, arith, str_eq, str_eq_refl,
  Bool-cases, Option-cases,
}
use fusion_plus_aptos_extens.Base.Dict.{Dict, lookup, lookup-insert}
use fusion_plus_aptos_extens.Order.{Order}
use fusion_plus_aptos_extens.Resolver.PartialFill.{PartialFill, State, Pending, secret_request}
use fusion_plus_aptos_extens.Resolver.PartialFill.Reported.{
  AptEscrow, matches, find_fill, escrow_id_hex, handle_apt_escrow_created,
}

find_fill-matches :
    (event : AptEscrow) (fills : Dict PartialFill) (id : String) (fill : PartialFill)
    → find_fill event fills ≡ some (id, fill)
    → matches event fill ≡ true
unfolding find_fill
find_fill-matches event [] id fill h = cc
find_fill-matches event ((k, f) ∷ fills) id fill h = elim (Bool-cases (matches event f)) [
  | inl fits ↦ (ground (arith, fits))
  | inr other ↦ (find_fill-matches event fills id fill (rw other at (h)))
]

-- What is kept for a secret that was asked for.
abbrev pub pending_of : AptEscrow → String → PartialFill → Order → Pending
pending_of event id fill order = record {
  order = order;
  fill = fill;
  source_escrow_id = escrow_id_hex event.escrow_id;
  destination_escrow_id = id;
}

-- After the user's escrow on Aptos was reported, either nothing changed, or exactly one secret was
-- asked for: that of the active order which the report names, for a monitored fill of this order whose
-- secret hash is the reported one if one was reported; and what is kept for it is that order, that
-- fill and the ids of the two escrows.
pub handle_apt_escrow_created_lem :
    (event : AptEscrow) (s : State)
    → (handle_apt_escrow_created event s ≡ s)
      ⊎ ((id : String) × (fill : PartialFill) × (order : Order) × (matches event fill ≡ true)
          × (lookup event.order_id s.active_orders ≡ some order)
          × (lookup order.id (handle_apt_escrow_created event s).pending_secret_reveals
              ≡ some (pending_of event id fill order))
          × ((handle_apt_escrow_created event s).actions
              ≡ s.actions ++ secret_request order.id ∷ []))
unfolding handle_apt_escrow_created
handle_apt_escrow_created_lem event s = elim (Option-cases (find_fill event s.monitoring_fills)) [
  | inl missing ↦ inl (rw (missing, handle_apt_escrow_created) refl)
  | inr ((id, fill), found) ↦ elim (Option-cases (lookup event.order_id s.active_orders)) [
    | inl inactive ↦ inl (rw (found, inactive, handle_apt_escrow_created) refl)
    | inr (order, active) ↦ elim (Bool-cases (str_eq id "")) [
      | inl empty ↦ inl (rw (found, active, empty, handle_apt_escrow_created) refl)
      | inr given ↦ inr (
        id,
        fill,
        order,
        find_fill-matches event s.monitoring_fills id fill found,
        active,
        (rw
            (
              found,
              active,
              given,
              handle_apt_escrow_created,
              lookup-insert order.id order.id (pending_of event id fill order)
                  s.pending_secret_reveals,
              str_eq_refl order.id,
            )
            refl),
        (rw (found, active, given, handle_apt_escrow_created) refl),
      )
    ]
  ]
]
