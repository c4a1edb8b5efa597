-- ===== src/Resolver/Opening.antt =====
-- backend/resolver/src/services/ResolverServiceV2.ts, createDestinationEscrow and
-- executeGaslessWETHEscrow: the escrows that begin the swap of a whole order. The calls and messages
-- are kept, in order, as steps; what they answer is in `Answers`, an error where they throw. The
-- clock only sets timelocks, which are left out, and so is what is only logged: an Aptos source
-- escrow is not created but awaited.
mod State
pub mod Branches
pub mod Stranded
pub mod Gasless
pub mod MultiAgent
mod Tests
unfoldable pub use State.*
use fusion_plus_aptos_extens.Base.{
  ℕ, ◌*◌, ◌^◌, String, Bool, true, false, not, ◌&&◌, ◌||◌, Option, none, some, List, [], ◌∷◌, ◌++◌,
  ltb, ◌==◌, str_eq, if◌then◌else◌,
}
use fusion_plus_aptos_extens.Base.Exec.{
  Result, ok, err, Exec, pure, throw, gets, or_throw, modify, throw_if, ◌>>=◌, ◌>>◌,
}
use fusion_plus_aptos_extens.Base.Dict.{Dict, lookup, insert}
use fusion_plus_aptos_extens.Base.Truthy.{truthy}
use fusion_plus_aptos_extens.Amount.{Amount, to_string, amount_eq}
use fusion_plus_aptos_extens.Order.{FillStatus, Chain, ethereum, aptos, Order, GaslessData}
use fusion_plus_aptos_extens.Signature.{codes, to_lower_case}
use fusion_plus_aptos_extens.Auction.{Ratio}
use fusion_plus_aptos_extens.Resolver.Settlement.{HeldFill, is_gasless}
use fusion_plus_aptos_extens.Resolver.Monitoring.{EventKey, auto}
use fusion_plus_aptos_extens.Resolver.Prices.{Tokens, output_units}

-- `currentAllowance < parseEther('100')`; errors are only logged.
abbrev approval_steps : Setup → Answers → Order → List Step
approval_steps setup answers order = elim order.to_chain [
  | aptos ↦ []
  | ethereum ↦
      if str_eq order.to_token setup.tokens.zero_address then [] else elim answers.allowance [
        | err _ ↦ []
        | ok n ↦ if ltb n (100 * 10 ^ 18) then approve ∷ [] else []
      ]
]

abbrev pub secret_hash_of : Setup → Order → String
secret_hash_of setup order = elim (truthy order.secret_hash) [
  | none ↦ setup.random_hash
  | some h ↦ h
]

abbrev pub is_weth_order : Setup → Order → Bool
is_weth_order setup order = elim order.from_chain [
  | ethereum ↦ amount_eq (to_lower_case order.from_token) (to_lower_case setup.tokens.weth)
  | aptos ↦ false
]

abbrev pub is_apt_order : Setup → Order → Bool
is_apt_order setup order = elim order.from_chain [
  | ethereum ↦ false
  | aptos ↦ str_eq order.from_token setup.tokens.aptos_coin
]

abbrev pub has_permit : Order → Bool
has_permit order = elim order.permit [
  | none ↦ false
  | some _ ↦ elim (truthy order.permit_signature) [ none ↦ false | some _ ↦ true ]
]

abbrev pub own_address : Setup → Order → String
own_address setup order = elim order.to_chain [
  | ethereum ↦ setup.ethereum_address
  | aptos ↦ setup.aptos_address
]

-- The fill as the order engine gives it back.
abbrev pub created_fill : Order → ℕ → String → String → HeldFill
created_fill order amount hash id = record {
  id = id;
  order_id = order.id;
  amount = to_string amount;
  secret_hash = hash;
  status = FillStatus.pending;
  fill_percentage = none;
  secret_index = 0;
  merkle_index = some 0;
  actual_escrow_id = none;
  destination_escrow_id = none;
}

-- On Ethereum the balance is read once more before the escrow.
abbrev pub lock_funds : Answers → Order → String → ℕ → Open String
lock_funds answers order id amount = elim order.to_chain [
  | ethereum ↦ do
    balance ← λ s. (answers.balance, s)
    throw_if (ltb balance amount) insufficient_balance
    call (create_escrow ethereum id amount) answers.escrow
  | aptos ↦ call (create_escrow aptos id amount) answers.escrow
]

abbrev pub monitor : String → HeldFill → Opening → Opening
monitor id fill s = record s {
  monitoring_fills = insert id (record fill { destination_escrow_id = some id }) s.monitoring_fills;
}

-- The source escrow from a permit; an error is only logged.
abbrev pub open_source : Setup → Answers → Order → HeldFill → String → String → Opening → Opening
open_source setup answers order fill hash destination s =
    let id = escrow_name setup order "-source-" hash in
    let tried : Opening = log (create_escrow_for id order.maker order.from_amount) s in
    elim answers.source [
      | err _ ↦ tried
      | ok _ ↦ await_secret order fill id destination (
          log (secret_request order.id)
            (process id (log (source_created order.id id order.from_amount) tried)))
    ]

abbrev pub weth_source : Setup → Answers → Order → HeldFill → Open Unit
weth_source setup answers order fill s = elim order.gasless_data [
  | none ↦ (err gasless_required, s)
  | some _ ↦
      if not (is_gasless order)
      then (err gasless_required, s)
      else let (r, s') = execute_gasless_weth_escrow setup answers order fill s in
        elim r [ ok _ ↦ (ok tt, s') | err _ ↦ (err gasless_failed, s') ]
]

abbrev permit_source : Setup → Answers → Order → HeldFill → String → String → Open Unit
permit_source setup answers order fill hash destination s =
    let tried : Opening = log (permit_transfer order.id) s in
    elim answers.permit [
      | err _ ↦ (ok tt, tried)
      | ok _ ↦ (ok tt, open_source setup answers order fill hash destination tried)
    ]

abbrev is_ethereum : Chain → Bool
is_ethereum ethereum = true
is_ethereum aptos = false

-- What follows the destination escrow, by the kind of the source.
unfoldable pub begin_source : Setup → Answers → Order → HeldFill → String → String → Open Unit
begin_source setup answers order fill hash destination s =
    if not (is_apt_order setup order) && is_weth_order setup order
    then weth_source setup answers order fill s
    else if not (has_permit order)
    then (ok tt, s)
    else if not (is_apt_order setup order) && is_ethereum order.from_chain
    then permit_source setup answers order fill hash destination s
    else (ok tt, open_source setup answers order fill hash destination s)

-- The body of the `try` once the fill is created.
unfoldable pub open_swap : Setup → Answers → Order → ℕ → HeldFill → Open Unit
unfolding begin_source
open_swap setup answers order amount fill = do
  let hash = secret_hash_of setup order
  let id = escrow_name setup order "-dest-" hash
  tx ← lock_funds answers order id amount
  call (set_status order.id fill.id FillStatus.destination_created)
      (answers.status_set FillStatus.destination_created)
  modify (monitor id fill)
  send (destination_created order.id id amount)
  begin_source setup answers order fill hash id

-- The `catch` reports the error, sets the status, and throws again.
abbrev or_failed :
    Answers → Order → HeldFill → Result Failure Unit × Opening → Result Failure Unit × Opening
or_failed answers order fill (ok tt, s) = (ok tt, s)
or_failed answers order fill (err e, s) =
    (do
      send (order_error order.id)
      call (set_status order.id fill.id FillStatus.failed) (answers.status_set FillStatus.failed)
      λ s'. (err e, s'))
      s

abbrev after_fill : Setup → Answers → Order → ℕ → Opening → Result Failure Unit × Opening
after_fill setup answers order amount s = elim answers.fill [
  | err e ↦ (err e, log (order_error order.id) s)
  | ok id ↦
      let fill : HeldFill = created_fill order amount (secret_hash_of setup order) id in
      or_failed answers order fill (open_swap setup answers order amount fill s)
]

-- createDestinationEscrow at a rate. A malformed amount throws before anything is sent.
unfoldable pub create_destination_escrow : Setup → Answers → Ratio → Order → Open Unit
unfolding open_swap
create_destination_escrow setup answers rate order s =
    let approved : Opening = record s { steps = s.steps ++ approval_steps setup answers order } in
    elim (output_units rate order) [
      | none ↦ (err bad_amount, approved)
      | some amount ↦
          after_fill setup answers order amount
            (log (create_fill order.id amount (own_address setup order)) approved)
    ]
