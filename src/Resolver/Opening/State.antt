-- ===== src/Resolver/Opening/State.antt =====
-- backend/resolver/src/services/ResolverServiceV2.ts: the state of the escrows that begin a swap, and
-- executeGaslessWETHEscrow, which creates a source escrow on behalf of the user.
use fusion_plus_aptos_extens.Base.{
  ℕ, String, ◌&&◌, Option, none, some, List, [], ◌∷◌, ◌++◌, ◌==◌, str_eq, if◌then◌else◌,
}
use fusion_plus_aptos_extens.Base.Exec.{Result, Exec, or_throw, modify, ◌>>=◌, ◌>>◌}
use fusion_plus_aptos_extens.Base.Dict.{Dict, lookup, insert}
use fusion_plus_aptos_extens.Base.Truthy.{truthy}
use fusion_plus_aptos_extens.Amount.{Amount}
use fusion_plus_aptos_extens.Order.{FillStatus, Chain, Order, GaslessData}
use fusion_plus_aptos_extens.Signature.{codes}
use fusion_plus_aptos_extens.Resolver.Settlement.{HeldFill}
use fusion_plus_aptos_extens.Resolver.Monitoring.{EventKey, auto}
use fusion_plus_aptos_extens.Resolver.Prices.{Tokens}

pub data Failure : Type 0 where
  call_failed bad_amount insufficient_balance gasless_required : Failure
  no_gasless_data not_configured gasless_failed transaction_failed timed_out unreadable : Failure

pub data Step : Type 0 where
  approve : Step
  create_fill : String → ℕ → String → Step
  -- The chain, the escrow's id and the amount.
  create_escrow : Chain → String → ℕ → Step
  set_status : String → String → FillStatus → Step
  destination_created : String → String → ℕ → Step
  -- createEscrowWithMetaTx, with the escrow's id and amount.
  create_with_meta_tx : String → Amount → Step
  source_created : String → String → Amount → Step
  secret_request : String → Step
  permit_transfer : String → Step
  create_escrow_for : String → String → Amount → Step
  order_error : String → Step
  -- A transaction on Aptos for the order.
  submit : String → Step
  order_failed : String → Step

pub record Answers : Type 0 where
  pub allowance : Result Failure ℕ
  pub fill : Result Failure String
  pub balance : Result Failure ℕ
  pub escrow : Result Failure String
  pub status_set : FillStatus → Result Failure Unit
  pub meta_tx : Result Failure String
  pub permit : Result Failure String
  pub source : Result Failure String

-- The service's constants: the two addresses, the one of the gasless contract if it is configured,
-- the hash that stands for a missing one, and ethers.id.
pub record Setup : Type 0 where
  pub tokens : Tokens
  pub ethereum_address : String
  pub aptos_address : String
  pub gasless_escrow : Option String
  pub random_hash : String
  pub id : List ℕ → String

pub record Pending : Type 0 where
  pub order : Order
  pub fill : HeldFill
  pub source_escrow_id : String
  pub destination_escrow_id : String

pub record Opening : Type 0 where
  pub monitoring_fills : Dict HeldFill
  pub pending_secret_reveals : Dict Pending
  pub processed_events : List EventKey
  pub steps : List Step

abbrev pub Open : Type 0 → Type 0
Open A = Exec Failure Opening A

abbrev pub log : Step → Opening → Opening
log step s = record s { steps = s.steps ++ step ∷ [] }

abbrev pub call : {A : Type 0} → Step → Result Failure A → Open A
call step answer s = (answer, log step s)

abbrev pub send : Step → Open Unit
send step = modify (log step)

-- `order.id + '-dest-' + secretHash`, hashed.
abbrev pub escrow_name : Setup → Order → String → String → String
escrow_name setup order kind hash = setup.id (codes order.id ++ (codes kind ++ codes hash))

abbrev pub await_secret : Order → HeldFill → String → String → Opening → Opening
await_secret order fill source destination s = record s {
  pending_secret_reveals =
      insert order.id
        (record {
          order = order;
          fill = fill;
          source_escrow_id = source;
          destination_escrow_id = destination;
        })
        s.pending_secret_reveals;
}

abbrev pub process : String → Opening → Opening
process id s = record s { processed_events = auto id ∷ s.processed_events }

-- The first monitored fill of the order with the index, with its escrow's id.
unfoldable pub find_part : String → ℕ → Dict HeldFill → Option (String × HeldFill)
find_part order_id index [] = none
find_part order_id index ((id, fill) ∷ fills) =
    let rest = find_part order_id index fills in
    if str_eq fill.order_id order_id && (fill.secret_index == index) then some (id, fill) else rest

-- The template text of a hash that may be undefined.
abbrev pub hash_text : Option String → String
hash_text none = "undefined"
hash_text (some hash) = hash

abbrev or_given : HeldFill → Option HeldFill → HeldFill
or_given fill none = fill
or_given fill (some held) = held

-- The destination escrow that the fill is tracked by, and the fill held for it.
unfoldable pub tracked : Setup → Order → HeldFill → Dict HeldFill → String × HeldFill
unfolding find_part
tracked setup order fill fills = elim fill.fill_percentage [
  | some _ ↦ elim (find_part order.id fill.secret_index fills) [
    | none ↦ (order.id, fill)
    | some (id, held) ↦ (id, held)
  ]
  | none ↦
      let id = escrow_name setup order "-dest-" (hash_text order.secret_hash) in
      (id, or_given fill (lookup id fills))
]

-- `fill.actualEscrowId || gaslessData.escrowId`
abbrev pub announced_id : HeldFill → GaslessData → String
announced_id fill gasless = elim (truthy fill.actual_escrow_id) [
  | none ↦ gasless.escrow_id
  | some id ↦ id
]

abbrev pub request_secret : Setup → Order → HeldFill → GaslessData → Opening → Opening
request_secret setup order fill gasless s =
    let (destination, held) = tracked setup order fill s.monitoring_fills in
    await_secret order held gasless.escrow_id destination
      (log (secret_request order.id) (process gasless.escrow_id s))

unfoldable pub execute_gasless_weth_escrow : Setup → Answers → Order → HeldFill → Open Unit
unfolding tracked
execute_gasless_weth_escrow setup answers order fill = do
  gasless ← or_throw order.gasless_data no_gasless_data
  contract ← or_throw (truthy setup.gasless_escrow) not_configured
  call (create_with_meta_tx gasless.escrow_id gasless.amount) answers.meta_tx
  send (source_created order.id (announced_id fill gasless) fill.amount)
  modify (request_secret setup order fill gasless)
