-- ===== src/Resolver/Monitoring/Unpaid.antt =====
-- backend/resolver/src/services/ResolverServiceV2.ts, handleSourceEscrowCreated: it takes the secret
-- from fillSecrets, which the service deletes from and never writes to.
use fusion_plus_aptos_extens.Base.{
  String, ◌≡◌, refl, arith, ap, List, [], ◌∷◌, ◌++◌, Option-cases, inl, inr,
}
use fusion_plus_aptos_extens.Order.{FillStatus}
use fusion_plus_aptos_extens.Resolver.Settlement.{
  HeldFill, Answers, Hex, Settling, Step, set_status, withdraw_aptos, withdraw_gasless,
  withdraw_ethereum,
}
use fusion_plus_aptos_extens.Resolver.Monitoring.{
  EscrowCreated, Monitor, find_by_hashlock, handle_source_escrow_created, settle_created, on_escrow,
  poll, polls,
}

-- The withdrawals among the steps.
abbrev pub withdrawals : List Step → List Step
withdrawals [] = []
withdrawals (withdraw_aptos id secret ∷ steps) = withdraw_aptos id secret ∷ withdrawals steps
withdrawals (withdraw_gasless id secret ∷ steps) = withdraw_gasless id secret ∷ withdrawals steps
withdrawals (withdraw_ethereum id secret ∷ steps) = withdraw_ethereum id secret ∷ withdrawals steps
withdrawals (_ ∷ steps) = withdrawals steps

withdrawals-set_status :
    (steps : List Step) (o f : String) (st : FillStatus)
    → withdrawals (steps ++ set_status o f st ∷ []) ≡ withdrawals steps
withdrawals-set_status [] o f st = refl
withdrawals-set_status (withdraw_aptos id secret ∷ steps) o f st =
    ap (λ l. withdraw_aptos id secret ∷ l) (withdrawals-set_status steps o f st)
withdrawals-set_status (withdraw_gasless id secret ∷ steps) o f st =
    ap (λ l. withdraw_gasless id secret ∷ l) (withdrawals-set_status steps o f st)
withdrawals-set_status (withdraw_ethereum id secret ∷ steps) o f st =
    ap (λ l. withdraw_ethereum id secret ∷ l) (withdrawals-set_status steps o f st)
withdrawals-set_status (_ ∷ steps) o f st = withdrawals-set_status steps o f st

-- No secret is stored, and the withdrawals are the given ones.
abbrev pub Unpaid : List Step → Settling → Type 0
Unpaid paid s = (s.fill_secrets ≡ []) × (withdrawals s.steps ≡ paid)

module _ (hex : Hex) where
  handle-Unpaid :
      (answers : Answers) (fill : HeldFill) (source : String) (paid : List Step) (s : Settling)
      → Unpaid paid s
      → Unpaid paid (handle_source_escrow_created hex answers fill source s).1
  unfolding handle_source_escrow_created settle_created
  handle-Unpaid answers fill source paid s h = ground (
    arith,
    withdrawals-set_status s.steps fill.order_id fill.id FillStatus.source_created,
    withdrawals-set_status
        (s.steps ++ set_status fill.order_id fill.id FillStatus.source_created ∷ []) fill.order_id
        fill.id FillStatus.failed,
  )

  on_escrow-Unpaid :
      (answers : Answers) (e : EscrowCreated) (paid : List Step) (m : Monitor)
      → Unpaid paid m.settling
      → Unpaid paid (on_escrow hex answers e m).1.settling
  unfolding on_escrow
  on_escrow-Unpaid answers e paid m h =
      elim (Option-cases (find_by_hashlock e.hashlock m.settling.monitoring_fills)) [
        | inl missing ↦ ground (arith, missing)
        | inr (fill, found) ↦
            ground (arith, found, handle-Unpaid answers fill e.escrow_id paid m.settling h)
      ]

  poll-Unpaid :
      (answers : Answers) (events : List EscrowCreated) (paid : List Step) (m : Monitor)
      → Unpaid paid m.settling
      → Unpaid paid (poll hex answers events m).1.settling
  unfolding poll
  poll-Unpaid answers [] paid m h = h
  poll-Unpaid answers (e ∷ events) paid m h = ground (
    arith,
    on_escrow-Unpaid answers e paid m h,
    poll-Unpaid answers events paid (on_escrow hex answers e m).1,
  )

  -- From a state without stored secrets no number of polls withdraws from an escrow, whatever events
  -- and answers they get, and no secret is stored by them.
  pub polls-Unpaid :
      (ps : List (Answers × List EscrowCreated)) (paid : List Step) (m : Monitor)
      → Unpaid paid m.settling
      → Unpaid paid (polls hex ps m).settling
  unfolding polls
  polls-Unpaid [] paid m h = h
  polls-Unpaid ((answers, events) ∷ ps) paid m h =
      polls-Unpaid ps paid (poll hex answers events m).1 (poll-Unpaid answers events paid m h)
