-- ===== src/Resolver/Signed.antt =====
-- backend/resolver/src/services/ResolverServiceV2.ts: the events that carry an order signed by its
-- user, and their handlers for Aptos, handleSignedAptosOrder, handlePermitBasedAptosOrder and the
-- second and third version of handleSponsoredAptosOrder; Signed/Simulated has the first one.
-- Building, signing and submitting a transaction is one call; what it answers is in `Aptos`. Orders
-- are never removed from the active ones, so the order of a monitored fill is active.
mod Simulated
unfoldable pub use Simulated.*
pub mod Announced
pub mod FirstFill
use fusion_plus_aptos_extens.Base.{
  ℕ, ◌+◌, String, Bool, true, false, not, ◌&&◌, Option, none, some, List, [], ◌∷◌, find, map, ltb,
  str_eq, if◌then◌else◌,
}
use fusion_plus_aptos_extens.Base.Exec.{Result, ok, err, or_throw, modify, throw_if, ◌>>=◌, ◌>>◌}
use fusion_plus_aptos_extens.Base.Dict.{Dict, lookup, values}
use fusion_plus_aptos_extens.Base.Truthy.{truthy}
use fusion_plus_aptos_extens.Amount.{Amount}
use fusion_plus_aptos_extens.Order.{FillStatus, Chain, ethereum, aptos, Order, GaslessData}
use fusion_plus_aptos_extens.Auction.{Ratio}
use fusion_plus_aptos_extens.Resolver.Settlement.{HeldFill, is_partial}
use fusion_plus_aptos_extens.Resolver.Opening.{
  Failure, insufficient_balance, transaction_failed, timed_out, unreadable, Step, submit,
  source_created, secret_request, set_status, order_error, order_failed, Answers, Setup, Opening,
  Open, log, call, send, await_secret, execute_gasless_weth_escrow,
}
use fusion_plus_aptos_extens.Resolver.Opening.MultiAgent.{
  SignedOrder, handle_multi_agent_aptos_order,
}

-- The data of a signed order. `funded` says that the user created the escrow, `payload` that the
-- event has its transaction or permit, and `escrow_amount` is that of a part of an order.
pub record SignedData : Type 0 where
  pub order_id : String
  pub from_chain : Chain
  pub payload : Bool
  pub funded : Bool
  pub escrow_hex : String
  pub amount : ℕ
  pub from_amount : Amount
  pub is_partial_fill : Bool
  pub fill_percentage : ℕ
  pub escrow_amount : Option Amount
  pub gasless_data : Option GaslessData
  pub secret_hash : Option String

pub data Kind : Type 0 where
  -- With the chain, the amount and the depositor that only this event has, and its time.
  sponsored : Chain → Amount → String → ℕ → Kind
  plain sponsored_v2 sponsored_v3 with_permit multi_agent : Kind

-- The resolver's balance, whether key and signature can be read, the success of the transaction,
-- and that of the transaction when it is looked up after a timeout.
pub record Aptos : Type 0 where
  pub balance : Result Failure ℕ
  pub readable : Bool
  pub executed : Result Failure Bool
  pub found_later : Result Failure Bool

-- The first monitored fill of an order.
abbrev pub fill_of : String → Opening → Option HeldFill
fill_of order_id s = find (λ f. str_eq f.order_id order_id) (values s.monitoring_fills)

-- A transaction counts when it was executed with success.
abbrev pub executes : String → Aptos → Open Unit
executes order_id chain = do
  success ← call (submit order_id) chain.executed
  throw_if (not success) transaction_failed

abbrev pub announce : SignedData → String → Amount → Open Unit
announce signed order_id amount = send (source_created order_id signed.escrow_hex amount)

-- try { m } catch: the error is reported by a message.
abbrev pub or_report : Step → Open Unit → Open Unit
or_report step m s =
    let (r, s') = m s in elim r [ ok _ ↦ (ok tt, s') | err _ ↦ (ok tt, log step s') ]

-- The resolver pays the amount and a deposit of 0.001 APT.
abbrev pub delegate : Aptos → SignedData → Order → Open Unit
delegate chain signed order = do
  balance ← λ s. (chain.balance, s)
  throw_if (ltb balance (signed.amount + 100000)) insufficient_balance
  throw_if (not chain.readable) unreadable
  executes order.id chain
  announce signed order.id order.from_amount

unfoldable pub handle_signed_aptos_order : Aptos → SignedData → Dict Order → Open Unit
handle_signed_aptos_order chain signed active s = elim (lookup signed.order_id active) [
  | none ↦ (ok tt, s)
  | some order ↦ if signed.funded then (ok tt, s) else elim (fill_of order.id s) [
    | none ↦ (ok tt, s)
    | some _ ↦ or_report (order_failed signed.order_id) (delegate chain signed order) s
  ]
]

-- The permit is not used: the order is handled like any signed one.
unfoldable pub handle_permit_based_aptos_order : Aptos → SignedData → Dict Order → Open Unit
unfolding handle_signed_aptos_order
handle_permit_based_aptos_order chain signed active s = elim (lookup signed.order_id active) [
  | none ↦ (ok tt, s)
  | some _ ↦ handle_signed_aptos_order chain signed active s
]

abbrev link : SignedData → Option Order → Option HeldFill → Opening → Opening
link signed none fill s = s
link signed (some order) none s = s
link signed (some order) (some fill) s = elim (truthy fill.destination_escrow_id) [
  | none ↦ s
  | some destination ↦
      log (secret_request signed.order_id) (await_secret order fill signed.escrow_hex destination s)
]

unfoldable pub handle_sponsored_aptos_order_v2 : Aptos → SignedData → Dict Order → Open Unit
handle_sponsored_aptos_order_v2 chain signed active = or_report (order_error signed.order_id) do
  throw_if (not chain.readable) unreadable
  executes signed.order_id chain
  announce signed signed.order_id signed.from_amount
  modify λ s. link signed (lookup signed.order_id active) (fill_of signed.order_id s) s

-- The user's page announces the escrow of an order that is filled in parts.
abbrev announces : Option Order → Bool
announces none = true
announces (some order) = not (is_partial order)

abbrev mark_created : Answers → SignedData → Option Order → Option HeldFill → Open Unit
mark_created answers signed none fill s = (ok tt, s)
mark_created answers signed (some order) none s = (ok tt, s)
mark_created answers signed (some order) (some fill) s =
    call (set_status signed.order_id fill.id FillStatus.source_created)
      (answers.status_set FillStatus.source_created) s

abbrev sponsor_v3 : Answers → Aptos → SignedData → Dict Order → Open Unit
sponsor_v3 answers chain signed active = do
  throw_if (not chain.readable) unreadable
  executes signed.order_id chain
  λ s.
      if announces (lookup signed.order_id active)
      then announce signed signed.order_id signed.from_amount s
      else (ok tt, s)
  λ s. mark_created answers signed (lookup signed.order_id active) (fill_of signed.order_id s) s

-- After a timeout the transaction is looked up once more.
abbrev recover_v3 :
    Aptos → SignedData → Result Failure Unit × Opening → Result Failure Unit × Opening
recover_v3 chain signed (ok tt, s) = (ok tt, s)
recover_v3 chain signed (err timed_out, s) = elim chain.found_later [
  | ok true ↦ announce signed signed.order_id signed.from_amount s
  | _ ↦ (ok tt, log (order_error signed.order_id) s)
]
recover_v3 chain signed (err _, s) = (ok tt, log (order_error signed.order_id) s)

unfoldable pub handle_sponsored_aptos_order_v3 :
    Answers → Aptos → SignedData → Dict Order → Open Unit
handle_sponsored_aptos_order_v3 answers chain signed active s =
    recover_v3 chain signed (sponsor_v3 answers chain signed active s)

-- order:signed from Ethereum. A part takes the amount, the gasless data and the hash of the event.
abbrev pub part_order : SignedData → Order → Order
part_order signed order = record order {
  dto = record (order.dto) { gasless_data = signed.gasless_data; secret_hash = signed.secret_hash };
}

abbrev pub gasless_event : Setup → Answers → SignedData → Option Order → Option HeldFill → Open Unit
gasless_event setup answers signed none fill s = (ok tt, s)
gasless_event setup answers signed (some order) none s = (ok tt, s)
gasless_event setup answers signed (some order) (some fill) s = elim signed.escrow_amount [
  | none ↦ execute_gasless_weth_escrow setup answers order fill s
  | some amount ↦
      if signed.is_partial_fill
      then execute_gasless_weth_escrow setup answers (part_order signed order)
          (record fill { amount = amount }) s
      else execute_gasless_weth_escrow setup answers order fill s
]

abbrev handle_order_signed : Setup → Answers → Aptos → SignedData → Dict Order → Open Unit
handle_order_signed setup answers chain signed active s = elim signed.from_chain [
  | aptos ↦ handle_signed_aptos_order chain signed active s
  | ethereum ↦
      gasless_event setup answers signed (lookup signed.order_id active) (fill_of signed.order_id s)
        s
]

abbrev from_aptos : SignedData → Bool
from_aptos signed = elim signed.from_chain [ ethereum ↦ false | aptos ↦ signed.payload ]

abbrev pub sponsored_data : Aptos → SignedData → Chain → Amount → String → ℕ → Sponsored
sponsored_data chain signed to_chain to_amount depositor now = record {
  order_id = signed.order_id;
  from_chain = signed.from_chain;
  to_chain = to_chain;
  from_amount = signed.from_amount;
  to_amount = to_amount;
  depositor = depositor;
  secret_hash = signed.secret_hash;
  escrow_hex = signed.escrow_hex;
  readable = chain.readable;
  now = now;
}

-- The listeners of the socket, by the kind of the event.
unfoldable pub on_signed :
    Setup → Answers → Aptos → Ratio → Kind → SignedData → Dict Order → Open Unit
on_signed setup answers chain rate plain data' active s =
    handle_order_signed setup answers chain data' active s
on_signed setup answers chain rate (sponsored to_chain to_amount depositor now) data' active s =
    if from_aptos data'
    then handle_sponsored_aptos_order (sponsored_data chain data' to_chain to_amount depositor now)
        s
    else (ok tt, s)
on_signed setup answers chain rate sponsored_v2 data' active s =
    if from_aptos data' then handle_sponsored_aptos_order_v2 chain data' active s else (ok tt, s)
on_signed setup answers chain rate sponsored_v3 data' active s =
    if from_aptos data'
    then handle_sponsored_aptos_order_v3 answers chain data' active s
    else (ok tt, s)
on_signed setup answers chain rate with_permit data' active s =
    if from_aptos data'
    then handle_permit_based_aptos_order chain data' active s
    else handle_signed_aptos_order chain data' active s
on_signed setup answers chain rate multi_agent data' active s =
    if from_aptos data'
    then handle_multi_agent_aptos_order setup answers chain.executed rate
        (record { order_id = data'.order_id; escrow_hex = data'.escrow_hex }) active s
    else handle_signed_aptos_order chain data' active s
