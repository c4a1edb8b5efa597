-- ===== src/OrderService/Methods.antt =====
-- What a change of one order does to the whole service.
use fusion_plus_aptos_extens.Base.{
  ℕ, String, ◌≡◌, Option, none, some, arith, str_eq, str_eq_iff, if◌then◌else◌, Option-cases, inl,
  inr, [], ◌∷◌, ◌++◌, ◌*◌, ◌⊎◌, ltb, Bool-cases,
}
use fusion_plus_aptos_extens.Base.Exec.{Result, ok, err}
use fusion_plus_aptos_extens.Base.Dict.{lookup, lookup-insert, insert}
use fusion_plus_aptos_extens.Order.{Order, FillData, CreateOrderDto}
use fusion_plus_aptos_extens.Signature.{Ethers, validate_order_signature}
use fusion_plus_aptos_extens.OrderService.{
  Service, OrderMethod, Event, Error, order_not_found, on_order, emit, new_order, fresh_order,
  store_order, create_order, create_fill, fill_order, new_fill, deadline_passed,
  invalid_order_signature, percentage_status, order_update, update_order_filled_percentage,
  set_percentage,
}

-- The order after a change, where there is one.
abbrev pub changed : OrderMethod Event → Option Order → Option Order
changed m none = none
changed m (some o) = some (m o).1

-- The event of a change that did not throw.
abbrev pub event_of : Result Error Event → Service → Service
event_of (ok e) s = record s { events = s.events ++ e ∷ [] }
event_of (err _) s = s

-- The result of a change, without the event.
abbrev pub outcome : Result Error Event → Result Error Unit
outcome (ok _) = ok tt
outcome (err e) = err e

module _ (id : String) (m : OrderMethod Event) (s : Service) where
  pub lookup-on_order :
      (j : String)
      → lookup j (on_order id m s).1.orders
        ≡ (if str_eq id j then changed m (lookup id s.orders) else lookup j s.orders)
  unfolding on_order
  lookup-on_order j = elim (Option-cases (lookup id s.orders)) [
    | inl e ↦ ground (arith, str_eq_iff id j)
    | inr (o, e) ↦ ground (arith, lookup-insert id j (m o).1 s.orders)
  ]

  -- The call is missing its order, or it ends as the change ends.
  pub on_order-found :
      {o : Order} → lookup id s.orders ≡ some o → (on_order id m s).0 ≡ outcome (m o).0
  unfolding on_order
  on_order-found e = ground arith

  pub on_order-missing : lookup id s.orders ≡ none → on_order id m s ≡ (err order_not_found, s)
  unfolding on_order
  on_order-missing e = ground arith

  pub orders_by_maker-on_order : (on_order id m s).1.orders_by_maker ≡ s.orders_by_maker
  unfolding on_order
  orders_by_maker-on_order = ground arith

-- createFill changes the service as the change of its order does.
pub create_fill-state :
    (now : ℕ) (new_id id : String) (f : FillData) (s : Service)
    → (create_fill now new_id id f s).1
      ≡ (on_order id (fill_order (new_fill id f now new_id) now) s).1
unfolding create_fill
create_fill-state now new_id id f s = ground arith

-- createOrder throws and changes nothing, or stores the new order and emits one event.
pub create_order-state :
    (ethers : Ethers) (now : ℕ) (new_id : String) (dto : CreateOrderDto) (s : Service)
    → ((create_order ethers now new_id dto s).1 ≡ s)
      ⊎ ((create_order ethers now new_id dto s).1
          ≡ emit
              (new_order (fresh_order dto now new_id))
              (store_order (fresh_order dto now new_id) s))
unfolding create_order
create_order-state ethers now new_id dto s =
    elim (Bool-cases (validate_order_signature ethers dto)) [
      | inl valid ↦ elim (Bool-cases (ltb (dto.deadline * 1000) now)) [
        | inl late ↦ inl (rw (valid, late))
        | inr early ↦ inr (rw (valid, early))
      ]
      | inr invalid ↦ inl (rw invalid)
    ]

-- createOrder throws, or it returns the order that it stored.
pub create_order-result :
    (ethers : Ethers) (now : ℕ) (new_id : String) (dto : CreateOrderDto) (s : Service)
    → ((e : Error) × (create_order ethers now new_id dto s ≡ (err e, s)))
      ⊎ (create_order ethers now new_id dto s ≡ (
        ok (fresh_order dto now new_id),
        emit (new_order (fresh_order dto now new_id)) (store_order (fresh_order dto now new_id) s),
      ))
unfolding create_order
create_order-result ethers now new_id dto s =
    elim (Bool-cases (validate_order_signature ethers dto)) [
      | inl valid ↦ elim (Bool-cases (ltb (dto.deadline * 1000) now)) [
        | inl late ↦ inl (deadline_passed, rw (valid, late))
        | inr early ↦ inr (rw (valid, early))
      ]
      | inr invalid ↦ inl (invalid_order_signature, rw invalid)
    ]

-- The order that updateOrderFilledPercentage leaves.
abbrev pub with_percentage : ℕ → ℕ → Order → Order
with_percentage p now o = record o {
  filled_percentage = p;
  updated_at = now;
  status = percentage_status p o.status;
}

pub update_order_filled_percentage-found :
    (now : ℕ) (id : String) (p : ℕ) (s : Service) (o : Order)
    → lookup id s.orders ≡ some o
    → (update_order_filled_percentage now id p s).1
      ≡ emit
          (order_update (with_percentage p now o))
          (record s { orders = insert id (with_percentage p now o) s.orders })
unfolding update_order_filled_percentage on_order set_percentage
update_order_filled_percentage-found now id p s o h = ground arith

pub update_order_filled_percentage-missing :
    (now : ℕ) (id : String) (p : ℕ) (s : Service)
    → lookup id s.orders ≡ none
    → (update_order_filled_percentage now id p s).1 ≡ s
unfolding update_order_filled_percentage on_order set_percentage
update_order_filled_percentage-missing now id p s h = ground arith
