-- ===== src/Resolver/Settlement/Traces.antt =====
-- backend/resolver/src/services/ResolverServiceV2.ts, completeSwap: what its steps record of the
-- status of a fill and of who is told the secret.
use mathlib.Core.List.{append-nil, append_assoc}
use fusion_plus_aptos_extens.Base.{
  filter, filter-append, String, Bool, true, false, ◌&&◌, ◌≡◌, refl, ap, arith, none, some, List,
  [], ◌∷◌, ◌++◌, if◌then◌else◌,
}
use fusion_plus_aptos_extens.Base.Exec.{ok, err}
use fusion_plus_aptos_extens.Order.{FillStatus, ethereum, aptos, Order}
use fusion_plus_aptos_extens.Resolver.Settlement.{
  HeldFill, SourceId, name, Failure, out_of_gas, invalid_escrow_id, escrow_missing, Step,
  swap_completed, fill_completed, set_status, manual_withdrawal, reveal_cross_chain, withdraw_aptos,
  withdraw_gasless, withdraw_ethereum, track, Answers, Hex, Settling, log, id_bytes,
  withdraw_source, withdraw_destination, is_gasless, has_gasless_data,
}

-- The statuses that are sent to the order engine, oldest first.
abbrev pub statuses : List Step → List FillStatus
statuses [] = []
statuses (set_status _ _ status ∷ steps) = status ∷ statuses steps
statuses (_ ∷ steps) = statuses steps

-- Whether the step hands the secret to someone: a chain or the socket.
abbrev hands_out : Step → Bool
hands_out (set_status _ _ _) = false
hands_out (track _) = false
hands_out (swap_completed _ _) = false
hands_out (fill_completed _ _ _ _) = false
hands_out _ = true

-- The steps that hand the secret to someone, oldest first: the withdrawals from the source and from
-- the destination, and what is sent to the socket and across chains.
abbrev pub told : List Step → List Step
told steps = filter hands_out steps

pub statuses-append : (xs ys : List Step) → statuses (xs ++ ys) ≡ statuses xs ++ statuses ys
statuses-append [] ys = refl
statuses-append (set_status o f status ∷ xs) ys = ap (λ l. status ∷ l) (statuses-append xs ys)
statuses-append (_ ∷ xs) ys = statuses-append xs ys

pub told-append : (xs ys : List Step) → told (xs ++ ys) ≡ told xs ++ told ys
told-append xs ys = filter-append hands_out xs ys

-- What withdrawing from the source needs before it is called: nothing on Ethereum, and on Aptos an
-- id that can be read of an escrow that exists.
abbrev pub is_ready : Hex → Answers → Order → SourceId → Bool
is_ready hex answers order source = elim order.from_chain [
  | ethereum ↦ true
  | aptos ↦ elim (id_bytes hex source) [
    | none ↦ false
    | some _ ↦ elim answers.escrow_exists [ ok b ↦ b | err _ ↦ false ]
  ]
]

-- The call that withdraws from the source, and those that withdraw for the user.
abbrev pub source_call : Hex → Order → String → SourceId → Step
source_call hex order secret source = elim order.from_chain [
  | ethereum ↦
      if is_gasless order && has_gasless_data order
      then withdraw_gasless source (hex.hexlify secret)
      else withdraw_ethereum source (hex.hexlify secret)
  | aptos ↦ elim (id_bytes hex source) [
    | none ↦ withdraw_aptos [] secret
    | some id ↦ withdraw_aptos id secret
  ]
]

-- The error of a withdrawal that is not ready.
abbrev early_failure : Hex → Answers → SourceId → Failure
early_failure hex answers source = elim (id_bytes hex source) [
  | none ↦ invalid_escrow_id
  | some _ ↦ elim answers.escrow_exists [ ok _ ↦ escrow_missing | err e ↦ e ]
]

abbrev pub after_failure : Hex → Order → HeldFill → String → String → Failure → List Step
after_failure hex order fill secret destination out_of_gas =
    manual_withdrawal order.id (hex.hexlify secret) destination fill.amount ∷ []
after_failure hex order fill secret destination _ = []

abbrev pub destination_steps :
    Hex → Answers → Order → HeldFill → String → SourceId → String → List Step
destination_steps hex answers order fill secret source destination = elim order.to_chain [
  | aptos ↦ elim (hex.get_bytes destination) [
    | none ↦ []
    | some id ↦ withdraw_aptos id secret ∷ elim answers.destination [
      | ok _ ↦ reveal_cross_chain source secret ∷ []
      | err e ↦ after_failure hex order fill secret destination e
    ]
  ]
  | ethereum ↦
      (if is_gasless order
        then withdraw_gasless (name destination) (hex.hexlify secret)
        else withdraw_ethereum (name destination) (hex.hexlify secret))
      ∷ elim answers.destination [
        | ok _ ↦ track "After withdrawing WETH to user" ∷ elim answers.tracked_again [
          | ok _ ↦ []
          | err e ↦ after_failure hex order fill secret destination e
        ]
        | err e ↦ after_failure hex order fill secret destination e
      ]
]

module _ (hex : Hex) (answers : Answers) (order : Order) (secret : String) (source : SourceId) where
  -- It ends with the answer of the chain, or before the call with an error.
  pub withdraw_source-ready :
      (s : Settling)
      → is_ready hex answers order source ≡ true
      → withdraw_source hex answers order secret source s
        ≡ (answers.source, log (source_call hex order secret source) s)
  unfolding withdraw_source
  withdraw_source-ready s h = ground arith

  pub withdraw_source-unready :
      (s : Settling)
      → is_ready hex answers order source ≡ false
      → (e : Failure) × (withdraw_source hex answers order secret source s ≡ (err e, s))
  unfolding withdraw_source
  withdraw_source-unready s h = (early_failure hex answers source, ground arith)

  pub withdraw_destination-steps :
      (fill : HeldFill) (destination : String) (s : Settling)
      → withdraw_destination hex answers order fill secret source destination s ≡ (
        ok tt,
        record s {
          steps = s.steps ++ destination_steps hex answers order fill secret source destination;
        },
      )
  unfolding withdraw_destination
  withdraw_destination-steps fill destination s = grind (arith, append-nil, append_assoc)
