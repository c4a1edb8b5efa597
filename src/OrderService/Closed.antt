-- ===== src/OrderService/Closed.antt =====
-- backend/order-engine/src/services/OrderService.ts: the calls of the service on filled and
-- cancelled orders.
use fusion_plus_aptos_extens.Base.{
  ℕ, ◌<◌, String, false, ◌≡◌, refl, ◌≢◌, ◌⊎◌, inl, inr, Option, none, some, List, [], ◌∷◌, All,
  arith, str_eq, str_eq_iff, Option-cases, Bool-cases,
}
use fusion_plus_aptos_extens.Base.Dict.{Dict, lookup, lookup-insert}
use fusion_plus_aptos_extens.Amount.{Amount}
use fusion_plus_aptos_extens.Order.{OrderStatus, FillStatus, Fill, Order}
use fusion_plus_aptos_extens.Signature.{Ethers}
use fusion_plus_aptos_extens.OrderService.{
  Service, OrderMethod, Event, is_fillable, fresh_order, new_fill, fill_order, set_fill_status,
  cancel, set_percentage, expire, expire_all, create_order, create_fill, update_fill_status,
  cancel_order, on_order, update_order_filled_percentage, cleanup_expired_orders,
}
use fusion_plus_aptos_extens.OrderService.Methods.{lookup-on_order}
use fusion_plus_aptos_extens.OrderService.Commands.{
  Command, create, fill, fill_status, cancels, percentage, cleanup, step, run,
}

-- The status and the filled amount of an order.
abbrev pub Settlement : Type 0
Settlement = OrderStatus × Amount

abbrev pub settlement : Order → Settlement
settlement o = (o.status, o.filled_amount)

abbrev pub settlement_of : Option Order → Option Settlement
settlement_of none = none
settlement_of (some o) = some (settlement o)

abbrev pub settlement_at : String → Service → Option Settlement
settlement_at id s = settlement_of (lookup id s.orders)

-- Neither a new order under the same id, nor a positive percentage for the order.
abbrev pub Respects : String → Command → Type 0
Respects id (create _ new_id _) = new_id ≢ id
Respects id (percentage _ order_id p) = (order_id ≢ id) ⊎ (p ≡ 0)
Respects id _ = Unit {0}

-- A change of one order that leaves a closed order's settlement alone.
abbrev Settles : OrderMethod Event → Type 0
Settles m = (o : Order) → is_fillable o.status ≡ false → settlement (m o).1 ≡ settlement o

fill_order-Settles : (f : Fill) (now : ℕ) → Settles (fill_order f now)
unfolding fill_order
fill_order-Settles f now o h = ground arith

set_fill_status-Settles :
    (id : String) (st : FillStatus) (now : ℕ) (sh dh : Option String)
    → Settles (set_fill_status id st now sh dh)
unfolding set_fill_status
set_fill_status-Settles id st now sh dh o h = ground arith

cancel-Settles : (maker : String) (now : ℕ) → Settles (cancel maker now)
unfolding cancel
cancel-Settles maker now o h = ground arith

set_zero-Settles : (now : ℕ) → Settles (set_percentage 0 now)
unfolding set_percentage
set_zero-Settles now o h = refl

on_order-settlement :
    (id order_id : String) (m : OrderMethod Event) (s : Service) (o : Order)
    → Settles m
    → lookup id s.orders ≡ some o
    → is_fillable o.status ≡ false
    → settlement_at id (on_order order_id m s).1 ≡ some (settlement o)
on_order-settlement id order_id m s o keeps found closed =
    rw (lookup-on_order order_id m s id) (elim (Bool-cases (str_eq order_id id)) [
      | inl same ↦ ground (arith, str_eq_iff order_id id, keeps o closed)
      | inr other ↦ ground arith
    ])

lookup-expire_all :
    (now : ℕ) (id : String) (orders : Dict Order)
    → lookup id (expire_all now orders)
      ≡ elim (lookup id orders) [ none ↦ none | some o ↦ some (expire now o) ]
unfolding expire_all
lookup-expire_all now id [] = refl
lookup-expire_all now id ((j, o) ∷ orders) = ground (arith, lookup-expire_all now id orders)

module _ (ethers : Ethers) (id : String) (o : Order) (closed : is_fillable o.status ≡ false) where
  expire-closed : (now : ℕ) → expire now o ≡ o
  expire-closed now = ground arith

  step-settlement :
      (c : Command) (s : Service)
      → Respects id c
      → lookup id s.orders ≡ some o
      → settlement_at id (step ethers c s) ≡ some (settlement o)
  unfolding step create_fill update_fill_status cancel_order update_order_filled_percentage
      create_order cleanup_expired_orders
  step-settlement (create now new_id dto) s h found =
      ground
        (arith, lookup-insert new_id id (fresh_order dto now new_id) s.orders, str_eq_iff new_id id)
  step-settlement (fill now new_id order_id f) s h found = ground (
    arith,
    on_order-settlement id order_id (fill_order (new_fill order_id f now new_id) now) s o
        (fill_order-Settles (new_fill order_id f now new_id) now) found closed,
  )
  step-settlement (fill_status now order_id fill_id st sh dh) s h found =
      on_order-settlement id order_id _ s o (set_fill_status-Settles fill_id st now sh dh) found
        closed
  step-settlement (cancels now order_id maker) s h found =
      on_order-settlement id order_id _ s o (cancel-Settles maker now) found closed
  step-settlement (percentage now order_id p) s (inl other) found =
      rw (lookup-on_order order_id (set_percentage p now) s id)
        (ground (arith, str_eq_iff order_id id))
  step-settlement (percentage now order_id p) s (inr none_filled) found =
      on_order-settlement id order_id (set_percentage p now) s o
        (rw none_filled (set_zero-Settles now)) found closed
  step-settlement (cleanup now) s h found =
      rw (lookup-expire_all now id s.orders, found, expire-closed now)

module _ (ethers : Ethers) (id : String) {st : OrderStatus} {a : Amount}
    (closed : is_fillable st ≡ false) where
  step-settlement_at :
      (c : Command) (s : Service)
      → Respects id c
      → settlement_at id s ≡ some (st, a)
      → settlement_at id (step ethers c s) ≡ some (st, a)
  step-settlement_at c s h e = elim (Option-cases (lookup id s.orders)) [
    | inl missing ↦ absurd (ground arith)
    | inr (o, found) ↦
        ground
          (arith, λ (k : is_fillable o.status ≡ false). step-settlement ethers id o k c s h found)
  ]

  -- A filled or cancelled order keeps its status and its filled amount under any sequence of
  -- calls, failing ones included, in which no new order takes its id and its percentage is not
  -- set to a positive number.
  pub run-closed :
      (cs : List Command) (s : Service)
      → All (Respects id) cs
      → settlement_at id s ≡ some (st, a)
      → settlement_at id (run ethers cs s) ≡ some (st, a)
  unfolding run
  run-closed [] s h e = e
  run-closed (c ∷ cs) s h e = run-closed cs (step ethers c s) h.1 (step-settlement_at c s h.0 e)

-- Setting the percentage of any order, a cancelled or an expired one too, to a number strictly
-- between 0 and 100 % makes it partially filled, so that it accepts fills again.
pub percentage_reopens :
    (ethers : Ethers) (now p : ℕ) (id : String) (s : Service) {o : Order}
    → lookup id s.orders ≡ some o
    → 0 < p
    → p < 30000
    → settlement_at id (step ethers (percentage now id p) s)
      ≡ some (OrderStatus.partially_filled, o.filled_amount)
unfolding step update_order_filled_percentage set_percentage
percentage_reopens ethers now p id s found h k =
    rw (lookup-on_order id (set_percentage p now) s id) (ground (arith, str_eq_iff id id))
