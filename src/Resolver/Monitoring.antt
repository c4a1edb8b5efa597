-- ===== src/Resolver/Monitoring.antt =====
-- backend/resolver/src/services/ResolverServiceV2.ts, startEscrowMonitoring and
-- handleSourceEscrowCreated: the events of escrows on Ethereum that the service polls for, and the
-- settlement of the fills that they belong to. The wait of fifteen seconds is left out.
pub mod Polls
pub mod Unpaid
use fusion_plus_aptos_extens.Base.{
  ℕ, String, Bool, true, false, ◌&&◌, Option, none, some, List, [], ◌∷◌, any, ◌==◌, str_eq,
  if◌then◌else◌,
}
use fusion_plus_aptos_extens.Base.Exec.{Result, ok, err, gets, or_throw, modify, ◌>>=◌, ◌>>◌}
use fusion_plus_aptos_extens.Base.Dict.{Dict, lookup, erase}
use fusion_plus_aptos_extens.Base.Truthy.{truthy}
use fusion_plus_aptos_extens.Amount.{Amount}
use fusion_plus_aptos_extens.Order.{FillStatus, ethereum, aptos, Order, GaslessData}
use fusion_plus_aptos_extens.Resolver.Settlement.{
  HeldFill, name, Failure, secret_not_found, withdraw_gasless, withdraw_ethereum, withdraw_aptos,
  reveal_cross_chain, track, source_withdrawn, swap_completed, manual_withdrawal, out_of_gas,
  call_failed, Answers, Hex, Settling, Settle, call, send, log, caught, update_status, is_done,
  is_gasless,
}

-- `order.gaslessData?.baseOrderId || order.id`
abbrev base_id : Order → GaslessData → String
base_id order gasless = elim (truthy gasless.base_order_id) [ none ↦ order.id | some id ↦ id ]

-- The escrow of a part of an order has an id of its own.
abbrev gasless_id : Hex → Order → GaslessData → HeldFill → String → String
gasless_id hex order gasless fill source = elim order.partial_fill_secrets [
  | none ↦ source
  | some _ ↦ elim fill.merkle_index [
    | none ↦ source
    | some index ↦ hex.packed_id (base_id order gasless) index
  ]
]

abbrev regular : Hex → Answers → String → String → Settle String
regular hex answers secret source =
    call (withdraw_ethereum (name source) (hex.hexlify secret)) answers.source

abbrev withdraw_for : Hex → Answers → HeldFill → Option Order → String → String → Settle String
withdraw_for hex answers fill none secret source = regular hex answers secret source
withdraw_for hex answers fill (some order) secret source = elim order.gasless_data [
  | none ↦ regular hex answers secret source
  | some gasless ↦
      if is_gasless order
      then call
          (withdraw_gasless (name (gasless_id hex order gasless fill source)) (hex.hexlify secret))
          answers.source
      else regular hex answers secret source
]

abbrev ask_manual : Hex → HeldFill → String → String → Failure → Settling → Settling
ask_manual hex fill secret destination out_of_gas s =
    log (manual_withdrawal fill.order_id (hex.hexlify secret) destination fill.amount) s
ask_manual hex fill secret destination _ s = s

abbrev pay_user : Hex → Answers → HeldFill → String → String → String → Settle Unit
pay_user hex answers fill secret source destination =
    caught (ask_manual hex fill secret destination) do
      id ← or_throw (hex.get_bytes destination) call_failed
      call (withdraw_aptos id secret) answers.destination
      send (reveal_cross_chain (name source) secret)

-- Only an Aptos destination whose escrow is known is withdrawn from.
abbrev pay_if_aptos : Hex → Answers → HeldFill → Option Order → String → String → Settle Unit
pay_if_aptos hex answers fill none secret source s = (ok tt, s)
pay_if_aptos hex answers fill (some order) secret source s = elim order.to_chain [
  | ethereum ↦ (ok tt, s)
  | aptos ↦ elim (truthy fill.destination_escrow_id) [
    | none ↦ (ok tt, s)
    | some destination ↦ pay_user hex answers fill secret source destination s
  ]
]

abbrev received : HeldFill → Option Order → Amount
received fill none = fill.amount
received fill (some order) = elim order.to_chain [
  | ethereum ↦ fill.amount
  | aptos ↦ order.min_to_amount
]

abbrev stop_monitoring : HeldFill → Settling → Settling
stop_monitoring fill s = elim fill.destination_escrow_id [
  | none ↦ s
  | some id ↦ record s { monitoring_fills = erase id s.monitoring_fills }
]

settle_created : Hex → Answers → HeldFill → String → Settle Unit
settle_created hex answers fill source = do
  update_status answers fill FillStatus.source_created
  secret ← or_throw (← gets (λ s. lookup fill.id s.fill_secrets)) secret_not_found
  order ← gets (λ s. lookup fill.order_id s.active_orders)
  tx ← withdraw_for hex answers fill order secret source
  call (track "After withdrawing from source escrow") answers.tracked
  update_status answers fill FillStatus.source_withdrawn
  send (source_withdrawn fill.order_id (name source) (hex.hexlify secret) tx)
  pay_if_aptos hex answers fill order secret source
  send (swap_completed fill.order_id (received fill order))
  update_status answers fill FillStatus.completed
  modify (stop_monitoring fill)

-- The `catch` does not throw again, but setting the status may throw.
abbrev or_failed :
    Answers → HeldFill → Result Failure Unit × Settling → Result Failure Unit × Settling
or_failed answers fill (ok tt, s) = (ok tt, s)
or_failed answers fill (err e, s) = update_status answers fill FillStatus.failed s

unfoldable pub handle_source_escrow_created : Hex → Answers → HeldFill → String → Settle Unit
unfolding settle_created
handle_source_escrow_created hex answers fill source s =
    if is_done fill.status
    then (ok tt, s)
    else or_failed answers fill (settle_created hex answers fill source s)

-- The texts `${blockNumber}-${transactionIndex}` and `auto-${escrowId}` in one set.
pub data EventKey : Type 0 where
  transaction : ℕ → ℕ → EventKey
  auto : String → EventKey

abbrev pub key_eq : EventKey → EventKey → Bool
key_eq (transaction b i) (transaction c j) = (b == c) && (i == j)
key_eq (auto x) (auto y) = str_eq x y
key_eq (transaction _ _) (auto _) = false
key_eq (auto _) (transaction _ _) = false

pub record EscrowCreated : Type 0 where
  pub block_number : ℕ
  pub transaction_index : ℕ
  pub escrow_id : String
  pub hashlock : String

pub record Monitor : Type 0 where
  pub settling : Settling
  pub processed_events : List EventKey

abbrev pub has : EventKey → List EventKey → Bool
has key keys = any (λ k. key_eq k key) keys

abbrev pub key_of : EscrowCreated → EventKey
key_of e = transaction e.block_number e.transaction_index

-- The loop over the monitored fills: the first one with the hashlock.
unfoldable pub find_by_hashlock : String → Dict HeldFill → Option HeldFill
find_by_hashlock hashlock [] = none
find_by_hashlock hashlock ((_, fill) ∷ fills) =
    let rest = find_by_hashlock hashlock fills in
    if str_eq fill.secret_hash hashlock then some fill else rest

abbrev mark : EventKey → Monitor → Monitor
mark key m = record m { processed_events = key ∷ m.processed_events }

abbrev handle_match :
    Hex → Answers → EscrowCreated → Option HeldFill → Monitor → Result Failure Unit × Monitor
handle_match hex answers e none m = (ok tt, m)
handle_match hex answers e (some fill) m =
    let (r, s) = handle_source_escrow_created hex answers fill e.escrow_id m.settling in
    (r, record m { settling = s })

unfoldable pub on_escrow : Hex → Answers → EscrowCreated → Monitor → Result Failure Unit × Monitor
unfolding find_by_hashlock
on_escrow hex answers e m =
    if has (key_of e) m.processed_events
    then (ok tt, m)
    else if has (auto e.escrow_id) m.processed_events
    then (ok tt, mark (key_of e) m)
    else handle_match hex answers e (find_by_hashlock e.hashlock m.settling.monitoring_fills)
        (mark (key_of e) m)

abbrev poll_rest :
    Result Failure Unit × Monitor
    → (Monitor → Result Failure Unit × Monitor)
    → Result Failure Unit × Monitor
poll_rest (ok tt, m) rest = rest m
poll_rest (err e, m) rest = (err e, m)

-- One poll: an error that escapes the handler ends it, and is ignored.
unfoldable pub poll : Hex → Answers → List EscrowCreated → Monitor → Result Failure Unit × Monitor
poll hex answers [] m = (ok tt, m)
poll hex answers (e ∷ events) m = poll_rest (on_escrow hex answers e m) (poll hex answers events)

-- The polls of the interval, each with the answers of its time; the result of a poll is ignored.
unfoldable pub polls : Hex → List (Answers × List EscrowCreated) → Monitor → Monitor
polls hex [] m = m
polls hex ((answers, events) ∷ rest) m = polls hex rest (poll hex answers events m).1
