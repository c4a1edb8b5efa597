-- ===== src/Resolver/Settlement/Recorded.antt =====
-- The settlement of a fill (backend/resolver/src/services/ResolverServiceV2.ts, completeSwap and
-- updateFillStatus) against the order engine that takes its statuses
-- (backend/order-engine/src/services/OrderService.ts, updateFillStatus).
use fusion_plus_aptos_extens.Base.{
  ℕ, String, Bool, true, false, ◌≡◌, refl, ap, ◌∙◌, arith, none, some, List, [], ◌∷◌, ◌++◌, find,
  str_eq, str_eq_refl, if◌then◌else◌, Bool-cases, inl, inr,
}
use fusion_plus_aptos_extens.Base.Dict.{lookup}
use fusion_plus_aptos_extens.Order.{FillStatus, Fill, Order}
use fusion_plus_aptos_extens.Signature.{Ethers}
use fusion_plus_aptos_extens.OrderService.{Service, with_status}
use fusion_plus_aptos_extens.OrderService.Commands.{Command, fill_status, step, run}
use fusion_plus_aptos_extens.OrderService.Cancelling.{update_fill_status_lem}
use fusion_plus_aptos_extens.Resolver.Settlement.{
  HeldFill, SourceId, Step, set_status, Answers, Hex, Settling, is_done, announcement,
  latest_percentage, complete_swap,
}
use fusion_plus_aptos_extens.Resolver.Settlement.Traces.{destination_steps}
use fusion_plus_aptos_extens.Resolver.Settlement.Outcome.{
  is_ok, source_done, trace, history, complete_swap-steps,
}

-- The calls on the order engine among the steps. The route reads only the status and two hashes of
-- the body, and the resolver sends its own data under other names, so no hash is set.
abbrev pub calls : ℕ → List Step → List Command
calls now [] = []
calls now (set_status order_id fill_id status ∷ steps) =
    fill_status now order_id fill_id status none none ∷ calls now steps
calls now (_ ∷ steps) = calls now steps

calls-append : (now : ℕ) (xs ys : List Step) → calls now (xs ++ ys) ≡ calls now xs ++ calls now ys
calls-append now [] ys = refl
calls-append now (set_status o f status ∷ xs) ys =
    ap (λ l. fill_status now o f status none none ∷ l) (calls-append now xs ys)
calls-append now (_ ∷ xs) ys = calls-append now xs ys

abbrev last_of : FillStatus → List FillStatus → FillStatus
last_of status [] = status
last_of status (x ∷ xs) = last_of x xs

abbrev updates : ℕ → String → String → List FillStatus → List Command
updates now order_id fill_id [] = []
updates now order_id fill_id (x ∷ xs) =
    fill_status now order_id fill_id x none none ∷ updates now order_id fill_id xs

-- An order that holds a fill with the status, and whose own status is as given.
abbrev pub Holds : Service → String → String → FillStatus → Order → Type 0
Holds s order_id fill_id status o =
    (o' : Order) × (g : Fill) × (lookup order_id s.orders ≡ some o')
    × (find (λ f. str_eq f.id fill_id) o'.fills ≡ some g)
    × (g.status ≡ status)
    × (o'.status ≡ o.status)
    × (o'.filled_amount ≡ o.filled_amount)

run-updates :
    (ethers : Ethers) (now : ℕ) (order_id fill_id : String) (o : Order) (sts : List FillStatus)
    (s : Service) (status : FillStatus)
    → Holds s order_id fill_id status o
    → Holds
        (run ethers (updates now order_id fill_id sts) s)
        order_id
        fill_id
        (last_of status sts)
        o
unfolding run step
run-updates ethers now order_id fill_id o [] s status h = h
run-updates ethers now order_id fill_id o (x ∷ xs) s status (o', g, found, held, e, same, amount) =
    let r : _ = (update_fill_status_lem now order_id s o' found fill_id x none none g held).1 in
    run-updates ethers now order_id fill_id o xs
      (step ethers (fill_status now order_id fill_id x none none) s) x
      (
        r.0,
        with_status x now none none g,
        r.1,
        r.2 fill_id ∙ (rw (str_eq_refl fill_id)),
        refl,
        r.3 ∙ same,
        r.4 ∙ amount,
      )

-- The statuses of a settlement that the order engine takes.
abbrev ending : Bool → List FillStatus
ending paid =
    FillStatus.source_created
    ∷ (if paid
        then FillStatus.source_withdrawn ∷ FillStatus.completed ∷ []
        else FillStatus.failed ∷ [])

module _ (hex : Hex) (answers : Answers) (order : Order) (fill : HeldFill) (secret : String)
    (source : SourceId) (destination : String) where
  calls-destination_steps :
      (now : ℕ)
      → calls now (destination_steps hex answers order fill secret source destination) ≡ []
  calls-destination_steps now = ground arith

  calls-trace :
      (now total : ℕ)
      → calls now (trace hex answers order fill secret source destination total)
        ≡ updates now fill.order_id fill.id
            (history hex answers order fill secret source destination)
  calls-trace now total = ground (
    arith,
    calls-destination_steps now,
    calls-append now (destination_steps hex answers order fill secret source destination) (
        set_status fill.order_id fill.id FillStatus.completed ∷ announcement order fill total ∷ []),
    calls-append now (destination_steps hex answers order fill secret source destination) (
        set_status fill.order_id fill.id FillStatus.completed
        ∷ set_status fill.order_id fill.id FillStatus.failed
        ∷ []),
  )

  history-taken :
      ((status : FillStatus) → is_ok (answers.status_set status) ≡ true)
      → history hex answers order fill secret source destination
        ≡ ending (source_done hex answers order source)
  history-taken taken = ground (
    arith,
    taken FillStatus.source_created,
    taken FillStatus.source_withdrawn,
    taken FillStatus.completed,
  )

  -- While the order engine takes every status, the calls of one settlement of a fill that it has
  -- leave that fill completed if the source was withdrawn and the balances were read after it, and
  -- failed otherwise. The status of the order and its filled amount stay.
  pub run-complete_swap :
      (ethers : Ethers) (now : ℕ) (s : Settling) (engine : Service) (o : Order) (g : Fill)
      → is_done fill.status ≡ false
      → s.steps ≡ []
      → ((status : FillStatus) → is_ok (answers.status_set status) ≡ true)
      → lookup fill.order_id engine.orders ≡ some o
      → find (λ f. str_eq f.id fill.id) o.fills ≡ some g
      → Holds
          (run ethers
            (calls now (complete_swap hex answers order fill secret source destination s).1.steps)
            engine)
          fill.order_id
          fill.id
          (if source_done hex answers order source then FillStatus.completed else FillStatus.failed)
          o
  run-complete_swap ethers now s engine o g undone start taken found held =
      rw
        (
          complete_swap-steps hex answers order fill secret source destination s undone,
          start,
          calls-trace now (latest_percentage order s)
              ∙ ap (updates now fill.order_id fill.id) (history-taken taken),
        )
        (elim (Bool-cases (source_done hex answers order source)) [
          | inl paid ↦ rw paid (
              run-updates ethers now fill.order_id fill.id o (ending true) engine g.status
                (o, g, found, held, refl, refl, refl))
          | inr unpaid ↦ rw unpaid (
              run-updates ethers now fill.order_id fill.id o (ending false) engine g.status
                (o, g, found, held, refl, refl, refl))
        ])
