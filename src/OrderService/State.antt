-- ===== src/OrderService/State.antt =====
-- backend/order-engine/src/services/OrderService.ts: the state of the service, its errors and events,
-- and how a method changes it. An order is one shared object in the source: a method changes it in
-- place, so what it wrote before a throw stays. `on_order` models this.
use fusion_plus_aptos_extens.Base.{
  ℕ, String, List, [], ◌∷◌, ◌++◌, Option, none, some, any, str_eq, if◌then◌else◌,
}
use fusion_plus_aptos_extens.Base.Exec.{Result, Exec, gets, or_throw, modify, ◌>>=◌}
use fusion_plus_aptos_extens.Base.Dict.{Dict, lookup, insert}
use fusion_plus_aptos_extens.Order.{OrderStatus, CreateOrderDto, Fill, Order}

-- The errors that the methods throw, and the two of `BigInt`.
pub data Error : Type 0 where
  invalid_order_signature deadline_passed order_not_found not_fillable fill_not_found : Error
  only_maker_can_cancel cannot_cancel_filled : Error
  syntax_error division_by_zero : Error

pub data Event : Type 0 where
  new_order : Order → Event
  order_fill : Order → Fill → Event
  fill_status_update : Order → Fill → Event
  order_cancelled : Order → Event
  order_update : Order → Event
  order_expired : Order → Event

pub record Service : Type 0 where
  pub orders : Dict Order
  pub orders_by_maker : Dict (List String)
  pub events : List Event

abbrev pub init : Service
init = record { orders = []; orders_by_maker = []; events = [] }

abbrev pub Method : Type 0 → Type 0
Method A = Exec Error Service A

abbrev pub OrderMethod : Type 0 → Type 0
OrderMethod A = Exec Error Order A

abbrev pub emit : Event → Service → Service
emit e s = record s { events = s.events ++ e ∷ [] }

abbrev run_on : String → OrderMethod Event → Order → Service → Result Error Event × Service
run_on id m order s =
    let (r, order') = m order in (r, record s { orders = insert id order' s.orders })

-- Looks an order up, changes it in place and emits the event that the change returns.
unfoldable pub on_order : String → OrderMethod Event → Method Unit
on_order id m = do
  order ← or_throw (← gets (λ s. lookup id s.orders)) order_not_found
  event ← run_on id m order
  modify (emit event)

-- `Set.add`
abbrev pub add : String → List String → List String
add x xs = if any (λ y. str_eq y x) xs then xs else xs ++ x ∷ []

abbrev pub get_or_empty : Option (List String) → List String
get_or_empty none = []
get_or_empty (some ids) = ids

abbrev pub fresh_order : CreateOrderDto → ℕ → String → Order
fresh_order dto now new_id = record {
  dto = dto;
  id = new_id;
  status = OrderStatus.pending;
  filled_amount = 48 ∷ [];
  filled_percentage = 0;
  created_at = now;
  updated_at = now;
  fills = [];
}

abbrev pub store_order : Order → Service → Service
store_order order s = record s {
  orders = insert order.id order s.orders;
  orders_by_maker =
      insert order.maker (add order.id (get_or_empty (lookup order.maker s.orders_by_maker)))
        s.orders_by_maker;
}
