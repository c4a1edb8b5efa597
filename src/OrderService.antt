-- ===== src/OrderService.antt =====
-- backend/order-engine/src/services/OrderService.ts: the store of orders. A method is an action on
-- the service that may throw. `new_id` is the result of `uuidv4()`, `now` that of `Date.now()` in
-- milliseconds, and the emitted events are kept in a list, oldest first.
mod State
pub mod Market
mod Counting
pub mod Methods
pub mod Commands
pub mod Closed
pub mod Filling
pub mod Makers
pub mod Cleanup
pub mod Atomic
pub mod Cancelling
mod Tests
unfoldable pub use State.*
unfoldable pub use Counting.*
use fusion_plus_aptos_extens.Base.{
  ℕ, zero, ◌+◌, ◌*◌, ◌/◌, String, Bool, true, false, not, ◌&&◌, ◌||◌, List, [], ◌∷◌, ◌++◌, Option,
  none, some, filter, find, any, map, ltb, leb, ◌==◌, str_eq, if◌then◌else◌,
}
use fusion_plus_aptos_extens.Base.Exec.{
  Result, ok, err, Exec, pure, throw, gets, or_throw, modify, throw_if, ◌>>=◌, ◌>>◌,
}
use fusion_plus_aptos_extens.Base.Dict.{Dict, lookup, insert, values}
use fusion_plus_aptos_extens.Amount.{
  Amount, big_int, to_string, amount_eq, hundred, percent, floor_percent,
}
use fusion_plus_aptos_extens.Order.{
  OrderStatus, Chain, ethereum, aptos, CreateOrderDto, FillStatus, FillData, Fill, Order,
}
use fusion_plus_aptos_extens.Signature.{Ethers, validate_order_signature}

unfoldable pub create_order : Ethers → ℕ → String → CreateOrderDto → Method Order
create_order ethers now new_id dto = do
  throw_if (not (validate_order_signature ethers dto)) invalid_order_signature
  throw_if (ltb (dto.deadline * 1000) now) deadline_passed
  let order = fresh_order dto now new_id
  modify (store_order order)
  modify (emit (new_order order))
  pure order

unfoldable pub get_order : String → Service → Option Order
get_order order_id s = lookup order_id s.orders

-- `ids.map(id => orders.get(id)).filter(order => order !== undefined)`
pub orders_of : Dict Order → List String → List Order
orders_of orders [] = []
orders_of orders (id ∷ ids) =
    let rest = orders_of orders ids in
    elim (lookup id orders) [ none ↦ rest | some order ↦ order ∷ rest ]

pub get_orders_by_maker : String → Service → List Order
unfolding orders_of
get_orders_by_maker maker s = orders_of s.orders (get_or_empty (lookup maker s.orders_by_maker))

abbrev pub is_active : OrderStatus → Bool
is_active OrderStatus.pending = true
is_active OrderStatus.partially_filled = true
is_active _ = false

pub get_active_orders : Service → List Order
get_active_orders s = filter (λ order. is_active order.status) (values s.orders)

abbrev pub new_fill : String → FillData → ℕ → String → Fill
new_fill order_id fill now new_id = record {
  content = fill;
  id = new_id;
  order_id = order_id;
  created_at = now;
  updated_at = now;
}

abbrev pub push_fill : Fill → ℕ → Order → Order
push_fill f now o = record o { fills = o.fills ++ f ∷ []; updated_at = now }

pub fill_order : Fill → ℕ → OrderMethod Event
fill_order f now = do
  throw_if (not (is_fillable (← gets (λ o. o.status)))) not_fillable
  modify (push_fill f now)
  recount
  modify (λ o. record o { status = filled_status o })
  order ← gets (λ o. o)
  pure (order_fill order f)

pub create_fill : ℕ → String → String → FillData → Method Fill
create_fill now new_id order_id fill = do
  let f = new_fill order_id fill now new_id
  on_order order_id (fill_order f now)
  pure f

-- `if (txHash?.x) fill.x = txHash.x`
abbrev pub updated_hash : Option String → Option String → Option String
updated_hash none old = old
updated_hash (some h) old = if str_eq h "" then old else some h

abbrev pub with_status : FillStatus → ℕ → Option String → Option String → Fill → Fill
with_status status now source_hash dest_hash f = record f {
  content = record (f.content) {
    status = status;
    source_chain_tx_hash = updated_hash source_hash f.source_chain_tx_hash;
    dest_chain_tx_hash = updated_hash dest_hash f.dest_chain_tx_hash;
  };
  updated_at = now;
}

-- Changes the first fill with the given id, as `find` gives it.
pub update_first : String → (Fill → Fill) → List Fill → List Fill
update_first id change [] = []
update_first id change (f ∷ fills) =
    let rest = update_first id change fills in if str_eq f.id id then change f ∷ fills else f ∷ rest

pub set_fill_status : String → FillStatus → ℕ → Option String → Option String → OrderMethod Event
unfolding update_first
set_fill_status fill_id status now source_hash dest_hash = do
  f ← or_throw (← gets (λ o. find (λ f. str_eq f.id fill_id) o.fills)) fill_not_found
  let change = with_status status now source_hash dest_hash
  modify (λ o. record o { fills = update_first fill_id change o.fills; updated_at = now })
  order ← gets (λ o. o)
  pure (fill_status_update order (change f))

pub update_fill_status :
    ℕ → String → String → FillStatus → Option String → Option String → Method Unit
update_fill_status now order_id fill_id status source_hash dest_hash =
    on_order order_id (set_fill_status fill_id status now source_hash dest_hash)

abbrev pub is_filled : OrderStatus → Bool
is_filled OrderStatus.filled = true
is_filled _ = false

pub cancel : String → ℕ → OrderMethod Event
cancel maker now = do
  throw_if (not (str_eq (← gets (λ o. o.maker)) maker)) only_maker_can_cancel
  throw_if (is_filled (← gets (λ o. o.status))) cannot_cancel_filled
  modify (λ o. record o { status = OrderStatus.cancelled; updated_at = now })
  order ← gets (λ o. o)
  pure (order_cancelled order)

pub cancel_order : ℕ → String → String → Method Unit
cancel_order now order_id maker = on_order order_id (cancel maker now)

abbrev pub percentage_status : ℕ → OrderStatus → OrderStatus
percentage_status percentage old =
    if leb 30000 percentage
    then OrderStatus.filled
    else if ltb 0 percentage
    then OrderStatus.partially_filled
    else old

pub set_percentage : ℕ → ℕ → OrderMethod Event
set_percentage percentage now = do
  modify λ o. record o {
    filled_percentage = percentage;
    updated_at = now;
    status = percentage_status percentage o.status;
  }
  order ← gets (λ o. o)
  pure (order_update order)

pub update_order_filled_percentage : ℕ → String → ℕ → Method Unit
update_order_filled_percentage now order_id percentage =
    on_order order_id (set_percentage percentage now)

abbrev pub is_pending : OrderStatus → Bool
is_pending OrderStatus.pending = true
is_pending _ = false

abbrev pub is_overdue : ℕ → Order → Bool
is_overdue now o = is_pending o.status && ltb (o.deadline * 1000) now

abbrev pub expire : ℕ → Order → Order
expire now o =
    if is_overdue now o then record o { status = OrderStatus.expired; updated_at = now } else o

-- The loop over `orders.values()`, which changes each order in place.
pub expire_all : ℕ → Dict Order → Dict Order
expire_all now [] = []
expire_all now ((id, o) ∷ orders) = (id, expire now o) ∷ expire_all now orders

pub expired_events : ℕ → Dict Order → List Event
expired_events now [] = []
expired_events now ((id, o) ∷ orders) =
    let rest = expired_events now orders in
    if is_overdue now o then order_expired (expire now o) ∷ rest else rest

pub cleanup_expired_orders : ℕ → Service → Service
unfolding expire_all expired_events
cleanup_expired_orders now s = record s {
  orders = expire_all now s.orders;
  events = s.events ++ expired_events now s.orders;
}
