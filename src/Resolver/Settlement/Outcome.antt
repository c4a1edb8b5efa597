-- ===== src/Resolver/Settlement/Outcome.antt =====
-- backend/resolver/src/services/ResolverServiceV2.ts, completeSwap: how a settlement ends.
use mathlib.Core.List.{append-nil, append_assoc}
use fusion_plus_aptos_extens.Base.{
  ℕ, String, Bool, true, false, not, ◌&&◌, ◌||◌, leb, ◌≡◌, refl, arith, List, [], ◌∷◌, ◌++◌,
  if◌then◌else◌, Bool-cases, inl, inr,
}
use fusion_plus_aptos_extens.Base.Exec.{Result, ok, err}
use fusion_plus_aptos_extens.Base.Dict.{erase}
use fusion_plus_aptos_extens.Order.{FillStatus, Order}
use fusion_plus_aptos_extens.Resolver.Settlement.{
  HeldFill, SourceId, Failure, Step, set_status, source_withdrawn, track, Answers, Hex, Settling,
  log, is_done, announcement, latest_percentage, is_partial, settle, complete_swap,
}
use fusion_plus_aptos_extens.Resolver.Settlement.Traces.{
  statuses, told, statuses-append, told-append, is_ready, source_call, destination_steps,
  withdraw_source-ready, withdraw_source-unready, withdraw_destination-steps,
}

abbrev pub is_ok : {A : Type 0} → Result Failure A → Bool
is_ok (ok _) = true
is_ok (err _) = false

-- Whether the source is withdrawn and the balances were read after it.
abbrev pub source_done : Hex → Answers → Order → SourceId → Bool
source_done hex answers order source =
    is_ready hex answers order source && is_ok answers.source && is_ok answers.tracked

module _ (hex : Hex) (answers : Answers) (order : Order) (fill : HeldFill) (secret : String)
    (source : SourceId) (destination : String) where
  abbrev sets : FillStatus → Step
  sets = set_status fill.order_id fill.id

  abbrev fails : List Step
  fails = sets FillStatus.failed ∷ []

  -- The steps once the source is withdrawn, for the percentage at the end.
  abbrev end_trace : ℕ → String → List Step
  end_trace total tx =
      sets FillStatus.source_withdrawn
      ∷ (if is_ok (answers.status_set FillStatus.source_withdrawn)
          then source_withdrawn fill.order_id source (hex.hexlify secret) tx
            ∷ (destination_steps hex answers order fill secret source destination
                ++ (sets FillStatus.completed
                    ∷ (if is_ok (answers.status_set FillStatus.completed)
                        then announcement order fill total ∷ []
                        else fails)))
          else fails)

  abbrev source_trace : ℕ → List Step
  source_trace total = source_call hex order secret source ∷ elim answers.source [
    | err _ ↦ fails
    | ok tx ↦
        track "After withdrawing from source escrow"
        ∷ (if is_ok answers.tracked then end_trace total tx else fails)
  ]

  -- All steps of a settlement of a fill that is not done.
  abbrev pub trace : ℕ → List Step
  trace total =
      sets FillStatus.source_created
      ∷ (if is_ok (answers.status_set FillStatus.source_created)
            && is_ready hex answers order source
          then source_trace total
          else fails)

  abbrev pub succeeds : Bool
  succeeds =
      is_ok (answers.status_set FillStatus.source_created)
      && source_done hex answers order source
      && is_ok (answers.status_set FillStatus.source_withdrawn)
      && is_ok (answers.status_set FillStatus.completed)

  pub complete_swap-steps :
      (s : Settling)
      → is_done fill.status ≡ false
      → (complete_swap hex answers order fill secret source destination s).1.steps
        ≡ s.steps ++ trace (latest_percentage order s)
  unfolding complete_swap settle
  complete_swap-steps s h = elim (Bool-cases (is_ready hex answers order source)) [
    | inl ready ↦ grind (
      arith,
      append_assoc,
      append-nil,
      withdraw_source-ready hex answers order secret source
          (log (set_status fill.order_id fill.id FillStatus.source_created) s) ready,
      withdraw_destination-steps hex answers order secret source fill destination,
    )
    | inr unready ↦ grind (
      arith,
      append_assoc,
      (withdraw_source-unready hex answers order secret source
          (log (set_status fill.order_id fill.id FillStatus.source_created) s) unready).1,
    )
  ]

  is_ok-complete_swap :
      (s : Settling)
      → is_done fill.status ≡ false
      → is_ok (complete_swap hex answers order fill secret source destination s).0 ≡ succeeds
  unfolding complete_swap settle
  is_ok-complete_swap s h = elim (Bool-cases (is_ready hex answers order source)) [
    | inl ready ↦ ground (
      arith,
      withdraw_source-ready hex answers order secret source
          (log (set_status fill.order_id fill.id FillStatus.source_created) s) ready,
      withdraw_destination-steps hex answers order secret source fill destination,
    )
    | inr unready ↦ ground (
      arith,
      (withdraw_source-unready hex answers order secret source
          (log (set_status fill.order_id fill.id FillStatus.source_created) s) unready).1,
    )
  ]

  -- The statuses that the order engine is told.
  abbrev pub history : List FillStatus
  history =
      FillStatus.source_created
      ∷ (if is_ok (answers.status_set FillStatus.source_created)
            && source_done hex answers order source
          then FillStatus.source_withdrawn
            ∷ (if is_ok (answers.status_set FillStatus.source_withdrawn)
                then FillStatus.completed
                  ∷ (if is_ok (answers.status_set FillStatus.completed)
                      then []
                      else FillStatus.failed ∷ [])
                else FillStatus.failed ∷ [])
          else FillStatus.failed ∷ [])

  statuses-destination_steps :
      statuses (destination_steps hex answers order fill secret source destination) ≡ []
  statuses-destination_steps = ground arith

  statuses-trace : (total : ℕ) → statuses (trace total) ≡ history
  statuses-trace total = ground (
    arith,
    statuses-destination_steps,
    statuses-append (destination_steps hex answers order fill secret source destination)
        (sets FillStatus.completed ∷ announcement order fill total ∷ []),
    statuses-append (destination_steps hex answers order fill secret source destination)
        (sets FillStatus.completed ∷ fails),
  )

  -- The steps that hand out the secret: the withdrawal from the source first, and the others only
  -- after it has succeeded, the balances were read and the order engine took the status.
  abbrev pub handed_out : List Step
  handed_out =
      if is_ok (answers.status_set FillStatus.source_created) && is_ready hex answers order source
      then source_call hex order secret source ∷ elim answers.source [
        | err _ ↦ []
        | ok tx ↦
            if is_ok answers.tracked && is_ok (answers.status_set FillStatus.source_withdrawn)
            then source_withdrawn fill.order_id source (hex.hexlify secret) tx
              ∷ told (destination_steps hex answers order fill secret source destination)
            else []
      ]
      else []

  told-trace : (total : ℕ) → told (trace total) ≡ handed_out
  told-trace total = ground (
    arith,
    append-nil (told (destination_steps hex answers order fill secret source destination)),
    told-append (destination_steps hex answers order fill secret source destination)
        (sets FillStatus.completed ∷ announcement order fill total ∷ []),
    told-append (destination_steps hex answers order fill secret source destination)
        (sets FillStatus.completed ∷ fails),
  )

  -- A settlement of a fill that is not done succeeds exactly if the order engine takes the three
  -- statuses, the source can be withdrawn and the balances can be read after it; the statuses that
  -- it sends are those up to the first that fails, and then that the fill failed. What becomes of
  -- the withdrawal for the user plays no part.
  pub complete_swap_lem :
      (s : Settling)
      → is_done fill.status ≡ false
      → (is_ok (complete_swap hex answers order fill secret source destination s).0 ≡ succeeds)
        × (statuses (complete_swap hex answers order fill secret source destination s).1.steps
            ≡ statuses s.steps ++ history)
  complete_swap_lem s h = (
    is_ok-complete_swap s h,
    rw
        (
          complete_swap-steps s h,
          statuses-append s.steps (trace (latest_percentage order s)),
          statuses-trace (latest_percentage order s),
        )
        refl,
  )

  -- The secret of a fill that is not done is handed to nobody before the withdrawal from the source,
  -- which itself is only tried once the order engine has taken the status and its escrow is ready.
  -- Nobody else is handed it, neither on the destination chain nor on the socket nor across chains,
  -- unless the source is withdrawn, the balances are read and the order engine takes the next
  -- status; then the socket comes first and the withdrawal for the user after it.
  pub told-complete_swap :
      (s : Settling)
      → is_done fill.status ≡ false
      → told (complete_swap hex answers order fill secret source destination s).1.steps
        ≡ told s.steps ++ handed_out
  told-complete_swap s h =
      rw
        (
          complete_swap-steps s h,
          told-append s.steps (trace (latest_percentage order s)),
          told-trace (latest_percentage order s),
        )
        refl

  monitoring_fills-complete_swap :
      (s : Settling)
      → is_done fill.status ≡ false
      → succeeds ≡ true
      → (complete_swap hex answers order fill secret source destination s).1.monitoring_fills ≡ (
          if not (is_partial order) || leb 30000 (latest_percentage order s)
          then erase destination s.monitoring_fills
          else s.monitoring_fills)
  unfolding complete_swap settle
  monitoring_fills-complete_swap s h good =
      let ready : is_ready hex answers order source ≡ true = ground arith in
      ground (
        arith,
        ready,
        withdraw_source-ready hex answers order secret source
            (log (set_status fill.order_id fill.id FillStatus.source_created) s) ready,
        withdraw_destination-steps hex answers order secret source fill destination,
      )

  -- When the order engine and the source chain answer, a fill that is not done is settled: the call
  -- returns, the source is withdrawn and the secret published before the withdrawal for the user is
  -- tried, the fill is completed and announced last, and the fill is no longer monitored if the
  -- order is not filled in parts or is full. This holds for every answer to the withdrawal for the
  -- user, an error included.
  pub complete_swap_completes :
      (s : Settling) (tx : String)
      → is_done fill.status ≡ false
      → succeeds ≡ true
      → answers.source ≡ ok tx
      → ((complete_swap hex answers order fill secret source destination s).0 ≡ ok tt)
        × ((complete_swap hex answers order fill secret source destination s).1.steps
            ≡ s.steps
              ++ (sets FillStatus.source_created
                  ∷ source_call hex order secret source
                  ∷ track "After withdrawing from source escrow"
                  ∷ sets FillStatus.source_withdrawn
                  ∷ source_withdrawn fill.order_id source (hex.hexlify secret) tx
                  ∷ (destination_steps hex answers order fill secret source destination
                      ++ (sets FillStatus.completed
                          ∷ announcement order fill (latest_percentage order s)
                          ∷ []))))
        × ((complete_swap hex answers order fill secret source destination s).1.monitoring_fills ≡ (
            if not (is_partial order) || leb 30000 (latest_percentage order s)
            then erase destination s.monitoring_fills
            else s.monitoring_fills))
  unfolding complete_swap settle
  complete_swap_completes s tx h good paid = (
    ground (arith, is_ok-complete_swap s h),
    rw (complete_swap-steps s h) (ground arith),
    monitoring_fills-complete_swap s h good,
  )

  -- The fill that is settled is not changed by it, so settling it again with the same answers goes
  -- through all its statuses again: a fill that is not done has no guard against a second settlement.
  pub complete_swap_twice :
      (s : Settling)
      → is_done fill.status ≡ false
      → statuses
          (complete_swap hex answers order fill secret source destination
            (complete_swap hex answers order fill secret source destination s).1).1.steps
        ≡ statuses s.steps ++ (history ++ history)
  complete_swap_twice s h =
      rw
        (
          (complete_swap_lem (complete_swap hex answers order fill secret source destination s).1
              h).1,
          (complete_swap_lem s h).1,
        )
        (append_assoc (statuses s.steps) history history)
