-- ===== src/Resolver/Signed/Announced.antt =====
-- backend/resolver/src/services/ResolverServiceV2.ts: what the handlers of signed orders say of a
-- source escrow, against what happened on the chain.
use mathlib.Core.List.{append-nil}
use fusion_plus_aptos_extens.Base.{
  Bool, true, false, not, ◌&&◌, ◌≡◌, refl, arith, List, [], ◌∷◌, ◌++◌, Option-cases, inl, inr,
}
use fusion_plus_aptos_extens.Base.Exec.{ok, err}
use fusion_plus_aptos_extens.Base.Dict.{Dict, lookup}
use fusion_plus_aptos_extens.Order.{aptos, Order}
use fusion_plus_aptos_extens.Auction.{Ratio}
use fusion_plus_aptos_extens.Resolver.Opening.{
  Step, order_error, order_failed, submit, Answers, Setup, Opening,
}
use fusion_plus_aptos_extens.Resolver.Opening.Branches.{told, told-append}
use fusion_plus_aptos_extens.Resolver.Opening.MultiAgent.{handle_multi_agent_aptos_order}
use fusion_plus_aptos_extens.Resolver.Signed.{
  SignedData, Kind, sponsored, plain, sponsored_v2, sponsored_v3, with_permit, multi_agent, Aptos,
  handle_signed_aptos_order, handle_permit_based_aptos_order, handle_sponsored_aptos_order_v2,
  handle_sponsored_aptos_order_v3, on_signed,
}

-- Nothing that the user is told, and nothing that waits for a secret, differs.
abbrev pub SameNews : Opening → Opening → Type 0
SameNews t s =
    (told t.steps ≡ told s.steps)
    × (t.pending_secret_reveals ≡ s.pending_secret_reveals)
    × (t.monitoring_fills ≡ s.monitoring_fills)

-- The transaction did not go through, not even when it is looked up later.
abbrev pub fails : Aptos → Bool
fails chain =
    not (elim chain.executed [ ok b ↦ b | err _ ↦ false ])
    && not (elim chain.found_later [ ok b ↦ b | err _ ↦ false ])

told-quiet :
    (steps : List Step) (step : Step)
    → told (step ∷ []) ≡ []
    → told (steps ++ step ∷ []) ≡ told steps
told-quiet steps step h = rw (told-append steps (step ∷ []), h) (append-nil (told steps))

module _ (chain : Aptos) (signed : SignedData) (active : Dict Order) (s : Opening)
    (failed : fails chain ≡ true) where
  handle_signed-SameNews : SameNews (handle_signed_aptos_order chain signed active s).1 s
  unfolding handle_signed_aptos_order
  handle_signed-SameNews = elim (Option-cases (lookup signed.order_id active)) [
    | inl inactive ↦ ground (arith, inactive)
    | inr (order, found) ↦ ground (
      arith,
      found,
      told-quiet s.steps (submit order.id) refl,
      told-quiet s.steps (order_failed signed.order_id) refl,
      told-quiet (s.steps ++ submit order.id ∷ []) (order_failed signed.order_id) refl,
    )
  ]

  handle_permit-SameNews : SameNews (handle_permit_based_aptos_order chain signed active s).1 s
  unfolding handle_permit_based_aptos_order
  handle_permit-SameNews = ground (arith, handle_signed-SameNews)

  sponsored_v2-SameNews : SameNews (handle_sponsored_aptos_order_v2 chain signed active s).1 s
  unfolding handle_sponsored_aptos_order_v2
  sponsored_v2-SameNews = ground (
    arith,
    told-quiet s.steps (submit signed.order_id) refl,
    told-quiet s.steps (order_error signed.order_id) refl,
    told-quiet (s.steps ++ submit signed.order_id ∷ []) (order_error signed.order_id) refl,
  )

  sponsored_v3-SameNews :
      (answers : Answers)
      → SameNews (handle_sponsored_aptos_order_v3 answers chain signed active s).1 s
  unfolding handle_sponsored_aptos_order_v3
  sponsored_v3-SameNews answers = ground (
    arith,
    told-quiet s.steps (submit signed.order_id) refl,
    told-quiet s.steps (order_error signed.order_id) refl,
    told-quiet (s.steps ++ submit signed.order_id ∷ []) (order_error signed.order_id) refl,
  )

  multi_agent-SameNews :
      (setup : Setup) (answers : Answers) (rate : Ratio)
      → SameNews
          (handle_multi_agent_aptos_order setup answers chain.executed rate
            (record { order_id = signed.order_id; escrow_hex = signed.escrow_hex })
            active
            s).1
          s
  unfolding handle_multi_agent_aptos_order
  multi_agent-SameNews setup answers rate = elim (Option-cases (lookup signed.order_id active)) [
    | inl inactive ↦ ground (arith, inactive)
    | inr (order, found) ↦ ground (
      arith,
      found,
      told-quiet s.steps (submit order.id) refl,
      told-quiet (s.steps ++ submit order.id ∷ []) (order_error signed.order_id) refl,
    )
  ]

-- The handlers of these events submit a transaction; the first one of sponsored orders does not.
abbrev pub submits : Kind → Bool
submits (sponsored _ _ _ _) = false
submits _ = true

-- A signed order from Aptos whose transaction does not go through, and is not found later either:
-- whichever of the five events whose handlers submit a transaction brings it, nothing is said of a
-- source escrow, no secret is requested, and neither what waits for a secret nor what is monitored
-- changes.
pub on_signed-SameNews :
    (setup : Setup) (answers : Answers) (chain : Aptos) (rate : Ratio) (kind : Kind)
    (signed : SignedData) (active : Dict Order) (s : Opening)
    → submits kind ≡ true
    → signed.from_chain ≡ aptos
    → fails chain ≡ true
    → SameNews (on_signed setup answers chain rate kind signed active s).1 s
unfolding on_signed
on_signed-SameNews setup answers chain rate (sponsored c a d n) signed active s able from failed =
    cc
on_signed-SameNews setup answers chain rate plain signed active s able from failed =
    ground (arith, handle_signed-SameNews chain signed active s failed)
on_signed-SameNews setup answers chain rate sponsored_v2 signed active s able from failed =
    ground (arith, sponsored_v2-SameNews chain signed active s failed)
on_signed-SameNews setup answers chain rate sponsored_v3 signed active s able from failed =
    ground (arith, sponsored_v3-SameNews chain signed active s failed answers)
on_signed-SameNews setup answers chain rate with_permit signed active s able from failed = ground (
  arith,
  handle_permit-SameNews chain signed active s failed,
  handle_signed-SameNews chain signed active s failed,
)
on_signed-SameNews setup answers chain rate multi_agent signed active s able from failed = ground (
  arith,
  multi_agent-SameNews chain signed active s failed setup answers rate,
  handle_signed-SameNews chain signed active s failed,
)
