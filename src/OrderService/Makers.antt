-- ===== src/OrderService/Makers.antt =====
-- backend/order-engine/src/services/OrderService.ts: the index of orders by maker, ordersByMaker.
mod Keys
use fusion_plus_aptos_extens.Base.{
  ℕ, String, Bool, true, false, ◌≡◌, refl, ◌≢◌, ap, ◌∙◌, sym, Option, none, some, List, [], ◌∷◌,
  ◌++◌, filter, arith, str_eq, str_eq_iff, str_eq_refl, if◌then◌else◌, Option-cases, Bool-cases,
  inl, inr,
}
use fusion_plus_aptos_extens.Base.Exec.{ok, err, ◌>>=◌}
use fusion_plus_aptos_extens.Base.Dict.{Dict, lookup, insert, values, lookup-insert, insert_new}
use fusion_plus_aptos_extens.Order.{OrderStatus, CreateOrderDto, FillStatus, Fill, Order}
use fusion_plus_aptos_extens.Signature.{Ethers}
use fusion_plus_aptos_extens.OrderService.{
  Service, init, OrderMethod, Event, add, get_or_empty, new_fill, fresh_order, fill_order,
  set_fill_status, cancel, set_percentage, recount, recount_by_amount, recount_by_percentage,
  expire, expire_all, create_order, create_fill, update_fill_status, cancel_order, on_order,
  orders_of, get_orders_by_maker, update_order_filled_percentage, cleanup_expired_orders,
  store_order,
}
use fusion_plus_aptos_extens.OrderService.Commands.{
  Command, create, fill, fill_status, cancels, percentage, cleanup, step,
}
use fusion_plus_aptos_extens.OrderService.Methods.{create_order-state, create_fill-state}
use Keys.{
  ids_of, UniqueKeys, add_new, ids_of-append, ids_of-insert, UniqueKeys-append, UniqueKeys-insert,
  ids_of-expire_all, UniqueKeys-expire_all, orders_of-ids_of, ids_of-missing,
}

-- `uuidv4()` returns an id that no stored order has.
abbrev pub Fresh : Command → Service → Type 0
Fresh (create _ new_id _) s = lookup new_id s.orders ≡ none
Fresh _ s = Unit {0}

-- The states that the service reaches from the empty one.
pub data Reachable (ethers : Ethers) : Service → Type 0 where
  start : Reachable ethers init
  next :
      {s : Service} (c : Command)
      → Reachable ethers s
      → Fresh c s
      → Reachable ethers (step ethers c s)

pub record IsIndexed (s : Service) : Type 0 where
  pub unique : UniqueKeys s.orders
  pub index :
      (maker : String) → get_or_empty (lookup maker s.orders_by_maker) ≡ ids_of maker s.orders

-- A change of one order that keeps its maker.
abbrev KeepsMaker : OrderMethod Event → Type 0
KeepsMaker m = (o : Order) → (m o).1.maker ≡ o.maker

recount-maker : (o : Order) → (recount o).1.maker ≡ o.maker
unfolding recount recount_by_amount recount_by_percentage
recount-maker o = ground arith

fill_order-KeepsMaker : (f : Fill) (now : ℕ) → KeepsMaker (fill_order f now)
unfolding fill_order
fill_order-KeepsMaker f now o =
    ground (arith, recount-maker (record o { fills = o.fills ++ f ∷ []; updated_at = now }))

set_fill_status-KeepsMaker :
    (id : String) (st : FillStatus) (now : ℕ) (sh dh : Option String)
    → KeepsMaker (set_fill_status id st now sh dh)
unfolding set_fill_status
set_fill_status-KeepsMaker id st now sh dh o = ground arith

cancel-KeepsMaker : (maker : String) (now : ℕ) → KeepsMaker (cancel maker now)
unfolding cancel
cancel-KeepsMaker maker now o = ground arith

set_percentage-KeepsMaker : (p now : ℕ) → KeepsMaker (set_percentage p now)
unfolding set_percentage
set_percentage-KeepsMaker p now o = refl

on_order-IsIndexed :
    (id : String) (m : OrderMethod Event) (s : Service)
    → KeepsMaker m
    → IsIndexed s
    → IsIndexed (on_order id m s).1
unfolding on_order
on_order-IsIndexed id m s keeps h = elim (Option-cases (lookup id s.orders)) [
  | inl missing ↦ rw (missing, on_order) h
  | inr (o, found) ↦ record {
    unique = ground (arith, h.unique, UniqueKeys-insert id o (m o).1 s.orders found h.unique);
    index = λ maker.
        ground (arith, h.index maker, ids_of-insert maker id o (m o).1 s.orders found (keeps o));
  }
]

store-IsIndexed :
    (o : Order) (s : Service)
    → lookup o.id s.orders ≡ none
    → IsIndexed s
    → IsIndexed (store_order o s)
store-IsIndexed o s fresh h = record {
  unique = rw (insert_new o.id o s.orders fresh) (UniqueKeys-append s.orders o.id o h.unique fresh);
  index = λ maker.
      rw
        (
          insert_new o.id o s.orders fresh,
          ids_of-append maker s.orders o.id o,
          lookup-insert o.maker maker (add o.id (get_or_empty (lookup o.maker s.orders_by_maker)))
              s.orders_by_maker,
        )
        (elim (Bool-cases (str_eq o.maker maker)) [
          | inl same ↦ ground (
            arith,
            h.index o.maker,
            add_new o.maker o.id s.orders fresh,
            str_eq_iff o.maker maker,
          )
          | inr other ↦ ground (arith, h.index maker)
        ]);
}

step-IsIndexed :
    (ethers : Ethers) (c : Command) (s : Service)
    → Fresh c s
    → IsIndexed s
    → IsIndexed (step ethers c s)
unfolding step update_fill_status cancel_order update_order_filled_percentage cleanup_expired_orders
step-IsIndexed ethers (create now new_id dto) s fresh h =
    let o : Order = fresh_order dto now new_id in
    let stored : IsIndexed (store_order o s) = store-IsIndexed o s fresh h in
    elim (create_order-state ethers now new_id dto s) [
      | inl thrown ↦ rw thrown h
      | inr done ↦ rw done (record { unique = stored.unique; index = stored.index })
    ]
step-IsIndexed ethers (fill now new_id id f) s fresh h =
    rw (create_fill-state now new_id id f s)
      (on_order-IsIndexed id _ s (fill_order-KeepsMaker (new_fill id f now new_id) now) h)
step-IsIndexed ethers (fill_status now id fill_id st sh dh) s fresh h =
    on_order-IsIndexed id _ s (set_fill_status-KeepsMaker fill_id st now sh dh) h
step-IsIndexed ethers (cancels now id maker) s fresh h =
    on_order-IsIndexed id _ s (cancel-KeepsMaker maker now) h
step-IsIndexed ethers (percentage now id p) s fresh h =
    on_order-IsIndexed id _ s (set_percentage-KeepsMaker p now) h
step-IsIndexed ethers (cleanup now) s fresh h = record {
  unique = UniqueKeys-expire_all now s.orders h.unique;
  index = λ maker. rw (ids_of-expire_all maker now s.orders) (h.index maker);
}

Reachable-IsIndexed : {ethers : Ethers} {s : Service} → Reachable ethers s → IsIndexed s
Reachable-IsIndexed start = record { unique = tt; index = λ maker. refl }
Reachable-IsIndexed {ethers} (next {s = s} c r fresh) =
    step-IsIndexed ethers c s fresh (Reachable-IsIndexed r)

-- In every state that the service reaches, getOrdersByMaker gives exactly the stored orders whose
-- maker is the given one, in the order in which they were created.
pub get_orders_by_maker_lem :
    {ethers : Ethers} {s : Service} (maker : String)
    → Reachable ethers s
    → get_orders_by_maker maker s ≡ filter (λ o. str_eq o.maker maker) (values s.orders)
unfolding get_orders_by_maker
get_orders_by_maker_lem {s = s} maker r =
    let h : IsIndexed s = Reachable-IsIndexed r in
    rw (h.index maker) (orders_of-ids_of maker s.orders h.unique)
