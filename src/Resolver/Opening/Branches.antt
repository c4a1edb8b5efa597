-- ===== src/Resolver/Opening/Branches.antt =====
-- backend/resolver/src/services/ResolverServiceV2.ts, createDestinationEscrow: what it leaves where the
-- destination escrow is not created.
use mathlib.Core.List.{append-nil, append_assoc}
use fusion_plus_aptos_extens.Base.{
  ℕ, String, Bool, true, false, not, ◌&&◌, ◌≡◌, refl, ap, arith, some, List, [], ◌∷◌, ◌++◌, ltb,
  if◌then◌else◌,
}
use fusion_plus_aptos_extens.Base.Exec.{ok, err}
use fusion_plus_aptos_extens.Order.{FillStatus, aptos, ethereum, Order}
use fusion_plus_aptos_extens.Auction.{Ratio}
use fusion_plus_aptos_extens.Resolver.Settlement.{HeldFill}
use fusion_plus_aptos_extens.Resolver.Prices.{output_units}
use fusion_plus_aptos_extens.Resolver.Opening.{
  Failure, Step, create_fill, create_escrow, set_status, destination_created, source_created,
  secret_request, order_error, insufficient_balance, Answers, Setup, Opening, escrow_name,
  secret_hash_of, lock_funds, log, approval_steps, create_destination_escrow, open_swap,
  created_fill, own_address,
}

-- What the user is told of an escrow, and the statuses that the order engine is told.
abbrev pub told : List Step → List Step
told [] = []
told (destination_created o id n ∷ steps) = destination_created o id n ∷ told steps
told (source_created o id n ∷ steps) = source_created o id n ∷ told steps
told (secret_request o ∷ steps) = secret_request o ∷ told steps
told (_ ∷ steps) = told steps

abbrev pub statuses : List Step → List FillStatus
statuses [] = []
statuses (set_status _ _ status ∷ steps) = status ∷ statuses steps
statuses (_ ∷ steps) = statuses steps

pub told-append : (xs ys : List Step) → told (xs ++ ys) ≡ told xs ++ told ys
told-append [] ys = refl
told-append (destination_created o id n ∷ xs) ys =
    ap (λ l. destination_created o id n ∷ l) (told-append xs ys)
told-append (source_created o id n ∷ xs) ys =
    ap (λ l. source_created o id n ∷ l) (told-append xs ys)
told-append (secret_request o ∷ xs) ys = ap (λ l. secret_request o ∷ l) (told-append xs ys)
told-append (_ ∷ xs) ys = told-append xs ys

statuses-append : (xs ys : List Step) → statuses (xs ++ ys) ≡ statuses xs ++ statuses ys
statuses-append [] ys = refl
statuses-append (set_status o f status ∷ xs) ys = ap (λ l. status ∷ l) (statuses-append xs ys)
statuses-append (_ ∷ xs) ys = statuses-append xs ys

-- Whether the balance covers the amount on Ethereum, and whether the escrow is created.
abbrev pub covers : Answers → Order → ℕ → Bool
covers answers order amount = elim order.to_chain [
  | aptos ↦ true
  | ethereum ↦ elim answers.balance [ ok n ↦ not (ltb n amount) | err _ ↦ false ]
]

abbrev pub locks : Answers → Order → ℕ → Bool
locks answers order amount =
    covers answers order amount && elim answers.escrow [ ok _ ↦ true | err _ ↦ false ]

abbrev pub tries : Answers → Order → String → ℕ → List Step
tries answers order id amount =
    if covers answers order amount then create_escrow order.to_chain id amount ∷ [] else []

abbrev pub refusal : Answers → Order → ℕ → Failure
refusal answers order amount =
    if covers answers order amount
    then elim answers.escrow [ ok _ ↦ insufficient_balance | err e ↦ e ]
    else elim answers.balance [ ok _ ↦ insufficient_balance | err e ↦ e ]

module _ (setup : Setup) (answers : Answers) (order : Order) (amount : ℕ) where
  lock_funds-refused :
      (id : String) (s : Opening)
      → locks answers order amount ≡ false
      → lock_funds answers order id amount s ≡ (
        err (refusal answers order amount),
        record s { steps = s.steps ++ tries answers order id amount },
      )
  lock_funds-refused id s h = ground (arith, append-nil s.steps)

  open_swap-refused :
      (fill : HeldFill) (s : Opening)
      → locks answers order amount ≡ false
      → open_swap setup answers order amount fill s ≡ (
        err (refusal answers order amount),
        record s {
          steps =
              s.steps
              ++ tries answers order
                  (escrow_name setup order "-dest-" (secret_hash_of setup order))
                  amount;
        },
      )
  unfolding open_swap
  open_swap-refused fill s h = ground (arith, append-nil s.steps)

  told-tries : (id : String) → told (tries answers order id amount) ≡ []
  told-tries id = ground arith

  statuses-tries : (id : String) → statuses (tries answers order id amount) ≡ []
  statuses-tries id = ground arith

  told-approval_steps : told (approval_steps setup answers order) ≡ []
  told-approval_steps = ground arith

  statuses-approval_steps : statuses (approval_steps setup answers order) ≡ []
  statuses-approval_steps = ground arith

  -- The state after a refusal.
  abbrev refused_state : String → Opening → Opening
  refused_state id s = record s {
    steps =
        (((s.steps ++ approval_steps setup answers order)
            ++ create_fill order.id amount (own_address setup order) ∷ [])
          ++ tries answers order (escrow_name setup order "-dest-" (secret_hash_of setup order))
              amount)
        ++ order_error order.id ∷ set_status order.id id FillStatus.failed ∷ [];
  }

  create_destination_escrow-refused :
      (rate : Ratio) (s : Opening) (id : String)
      → output_units rate order ≡ some amount
      → answers.fill ≡ ok id
      → answers.status_set FillStatus.failed ≡ ok tt
      → locks answers order amount ≡ false
      → create_destination_escrow setup answers rate order s
        ≡ (err (refusal answers order amount), refused_state id s)
  unfolding create_destination_escrow
  create_destination_escrow-refused rate s id units filled failed h = grind (
    arith,
    append_assoc,
    open_swap-refused (created_fill order amount (secret_hash_of setup order) id)
        (log (create_fill order.id amount (own_address setup order))
          (record s { steps = s.steps ++ approval_steps setup answers order }))
        h,
  )

  -- Where the balance does not cover the amount or the chain does not create the escrow, the call
  -- throws and leaves what is monitored and what waits for a secret as it was; the user is told of
  -- no escrow, and the order engine of one status, that the fill failed.
  pub create_destination_escrow_refused :
      (rate : Ratio) (s : Opening) (id : String)
      → output_units rate order ≡ some amount
      → answers.fill ≡ ok id
      → answers.status_set FillStatus.failed ≡ ok tt
      → locks answers order amount ≡ false
      → let r = create_destination_escrow setup answers rate order s in
        (r.0 ≡ err (refusal answers order amount))
        × (r.1.monitoring_fills ≡ s.monitoring_fills)
        × (r.1.pending_secret_reveals ≡ s.pending_secret_reveals)
        × (told r.1.steps ≡ told s.steps)
        × (statuses r.1.steps ≡ statuses s.steps ++ FillStatus.failed ∷ [])
  create_destination_escrow_refused rate s id units filled failed h =
      rw (create_destination_escrow-refused rate s id units filled failed h) (
        refl,
        refl,
        refl,
        simp (told-append, told-tries, told-approval_steps, append-nil),
        simp (statuses-append, statuses-tries, statuses-approval_steps, append-nil),
      )
