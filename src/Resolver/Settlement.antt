-- ===== src/Resolver/Settlement.antt =====
-- backend/resolver/src/services/ResolverServiceV2.ts, completeSwap: the withdrawals that end a fill.
-- The calls on the chains and on the order engine and the messages on the socket are kept, in order,
-- as steps; what they answer is in `Answers`, an error where they throw. An error whose message names
-- missing gas is `out_of_gas`. A secret is the text of its bytes.
pub mod Traces
pub mod Outcome
pub mod Recorded
mod Tests
use fusion_plus_aptos_extens.Base.{
  ℕ, String, Bool, true, false, not, ◌&&◌, ◌||◌, Option, none, some, List, [], ◌∷◌, ◌++◌, leb,
  str_eq, if◌then◌else◌,
}
use fusion_plus_aptos_extens.Base.Exec.{
  Result, ok, err, Exec, pure, gets, or_throw, modify, throw_if, ◌>>=◌, ◌>>◌,
}
use fusion_plus_aptos_extens.Base.Dict.{Dict, lookup, erase}
use fusion_plus_aptos_extens.Amount.{Amount}
use fusion_plus_aptos_extens.Order.{FillStatus, ethereum, aptos, Order}
use text.Mathlib.Text.{starts_with}

pub record HeldFill : Type 0 where
  pub id : String
  pub order_id : String
  pub amount : Amount
  pub secret_hash : String
  pub status : FillStatus
  pub fill_percentage : Option ℕ
  pub secret_index : ℕ
  pub merkle_index : Option ℕ
  pub actual_escrow_id : Option String
  pub destination_escrow_id : Option String

-- The id of a source escrow: an array of bytes, a text, or an older object with a field `data`.
pub data SourceId : Type 0 where
  bytes : List ℕ → SourceId
  name : String → SourceId
  boxed : List ℕ → SourceId

pub data Failure : Type 0 where
  call_failed out_of_gas invalid_escrow_id escrow_missing secret_not_found : Failure

pub data Step : Type 0 where
  -- updateFillStatus of an order's fill.
  set_status : String → String → FillStatus → Step
  withdraw_aptos : List ℕ → String → Step
  withdraw_gasless : SourceId → String → Step
  withdraw_ethereum : SourceId → String → Step
  reveal_cross_chain : SourceId → String → Step
  track : String → Step
  -- The socket's events: the order, the escrow, the secret and the transaction; and so on.
  source_withdrawn : String → SourceId → String → String → Step
  manual_withdrawal : String → String → String → Amount → Step
  swap_completed : String → Amount → Step
  fill_completed : String → String → ℕ → ℕ → Step

pub record Answers : Type 0 where
  pub status_set : FillStatus → Result Failure Unit
  pub escrow_exists : Result Failure Bool
  pub source : Result Failure String
  pub tracked : Result Failure Unit
  pub destination : Result Failure String
  pub tracked_again : Result Failure Unit

-- What is taken from ethers: getBytes, which may throw, hexlify, and keccak256 of an order's id and
-- an index, packed.
pub record Hex : Type 0 where
  pub get_bytes : String → Option (List ℕ)
  pub hexlify : String → String
  pub packed_id : String → ℕ → String

pub record Settling : Type 0 where
  pub active_orders : Dict Order
  pub monitoring_fills : Dict HeldFill
  pub fill_secrets : Dict String
  pub steps : List Step

abbrev pub Settle : Type 0 → Type 0
Settle A = Exec Failure Settling A

abbrev pub log : Step → Settling → Settling
log step s = record s { steps = s.steps ++ step ∷ [] }

-- A call that is made, and what it answers.
abbrev pub call : {A : Type 0} → Step → Result Failure A → Settle A
call step answer s = (answer, log step s)

abbrev pub send : Step → Settle Unit
send step = modify (log step)

-- try { m } catch (error) { handle(error) }, where the handler does not throw.
abbrev pub caught : (Failure → Settling → Settling) → Settle Unit → Settle Unit
caught handle m s = let (r, s') = m s in elim r [ ok a ↦ (ok a, s') | err e ↦ (ok tt, handle e s') ]

abbrev pub update_status : Answers → HeldFill → FillStatus → Settle Unit
update_status answers fill status =
    call (set_status fill.order_id fill.id status) (answers.status_set status)

abbrev pub is_done : FillStatus → Bool
is_done FillStatus.completed = true
is_done FillStatus.source_withdrawn = true
is_done _ = false

unfoldable pub id_bytes : Hex → SourceId → Option (List ℕ)
id_bytes hex (bytes bs) = some bs
id_bytes hex (name id) = if starts_with "0x" id then hex.get_bytes id else none
id_bytes hex (boxed bs) = some bs

abbrev pub is_gasless : Order → Bool
is_gasless order = elim order.gasless [ none ↦ false | some b ↦ b ]

abbrev pub has_gasless_data : Order → Bool
has_gasless_data order = elim order.gasless_data [ none ↦ false | some _ ↦ true ]

unfoldable pub withdraw_source : Hex → Answers → Order → String → SourceId → Settle String
withdraw_source hex answers order secret source s = elim order.from_chain [
  | aptos ↦
      (do
        id ← or_throw (id_bytes hex source) invalid_escrow_id
        exists ← λ s'. (answers.escrow_exists, s')
        throw_if (not exists) escrow_missing
        call (withdraw_aptos id secret) answers.source)
        s
  | ethereum ↦
      if is_gasless order && has_gasless_data order
      then call (withdraw_gasless source (hex.hexlify secret)) answers.source s
      else call (withdraw_ethereum source (hex.hexlify secret)) answers.source s
]

-- The user is told to withdraw where the resolver has no gas; other errors are only logged.
abbrev pub ask_manual : Hex → Order → HeldFill → String → String → Failure → Settling → Settling
ask_manual hex order fill secret destination out_of_gas s =
    log (manual_withdrawal order.id (hex.hexlify secret) destination fill.amount) s
ask_manual hex order fill secret destination _ s = s

abbrev pub withdraw_to_user : Hex → Answers → Order → String → SourceId → String → Settle Unit
withdraw_to_user hex answers order secret source destination s = elim order.to_chain [
  | aptos ↦
      (do
        id ← or_throw (hex.get_bytes destination) call_failed
        call (withdraw_aptos id secret) answers.destination
        send (reveal_cross_chain source secret))
        s
  | ethereum ↦
      (do
        call
            (if is_gasless order
              then withdraw_gasless (name destination) (hex.hexlify secret)
              else withdraw_ethereum (name destination) (hex.hexlify secret))
            answers.destination
        call (track "After withdrawing WETH to user") answers.tracked_again)
        s
]

unfoldable pub withdraw_destination :
    Hex → Answers → Order → HeldFill → String → SourceId → String → Settle Unit
withdraw_destination hex answers order fill secret source destination =
    caught (ask_manual hex order fill secret destination)
      (withdraw_to_user hex answers order secret source destination)

-- `order.partialFillEnabled || order.partialFillAllowed`
abbrev pub is_partial : Order → Bool
is_partial order = order.partial_fill_enabled || order.partial_fill_allowed

-- The percentage of the latest copy of the order, `|| 0`.
abbrev pub latest_percentage : Order → Settling → ℕ
latest_percentage order s = elim (lookup order.id s.active_orders) [
  | none ↦ 0
  | some latest ↦ latest.filled_percentage
]

abbrev pub or_zero : Option ℕ → ℕ
or_zero none = 0
or_zero (some n) = n

abbrev pub announcement : Order → HeldFill → ℕ → Step
announcement order fill total =
    if is_partial order
    then (if leb 30000 total
        then swap_completed order.id order.min_to_amount
        else fill_completed order.id fill.id (or_zero fill.fill_percentage) total)
    else swap_completed order.id fill.amount

abbrev pub clean_up : Order → HeldFill → String → Settling → Settling
clean_up order fill destination s =
    let s' : Settling = record s { fill_secrets = erase fill.id s.fill_secrets } in
    if not (is_partial order) || leb 30000 (latest_percentage order s)
    then record s' { monitoring_fills = erase destination s.monitoring_fills }
    else s'

-- The body of the `try` after its first check.
unfoldable pub settle : Hex → Answers → Order → HeldFill → String → SourceId → String → Settle Unit
unfolding withdraw_source withdraw_destination
settle hex answers order fill secret source destination = do
  update_status answers fill FillStatus.source_created
  tx ← withdraw_source hex answers order secret source
  call (track "After withdrawing from source escrow") answers.tracked
  update_status answers fill FillStatus.source_withdrawn
  send (source_withdrawn fill.order_id source (hex.hexlify secret) tx)
  withdraw_destination hex answers order fill secret source destination
  update_status answers fill FillStatus.completed
  total ← gets (latest_percentage order)
  send (announcement order fill total)
  modify (clean_up order fill destination)

-- The `catch` sets the status and throws again; if setting it throws, that error is thrown.
abbrev pub or_failed :
    Answers → HeldFill → Result Failure Unit × Settling → Result Failure Unit × Settling
or_failed answers fill (ok tt, s) = (ok tt, s)
or_failed answers fill (err e, s) =
    (do update_status answers fill FillStatus.failed; λ s'. (err e, s')) s

unfoldable pub complete_swap :
    Hex → Answers → Order → HeldFill → String → SourceId → String → Settle Unit
unfolding settle
complete_swap hex answers order fill secret source destination s =
    if is_done fill.status
    then (ok tt, s)
    else or_failed answers fill (settle hex answers order fill secret source destination s)
