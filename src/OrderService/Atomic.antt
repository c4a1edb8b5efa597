-- ===== src/OrderService/Atomic.antt =====
-- What a call that throws leaves behind.
use fusion_plus_aptos_extens.Base.{
  ℕ, String, Bool, true, false, ◌≡◌, ap, Option, none, some, [], ◌∷◌, arith, Bool-cases,
  Option-cases, inl, inr,
}
use fusion_plus_aptos_extens.Base.Exec.{Result, ok, err}
use fusion_plus_aptos_extens.Base.Dict.{Dict, lookup, insert}
use fusion_plus_aptos_extens.Order.{CreateOrderDto, FillData, Fill, FillStatus, Order}
use fusion_plus_aptos_extens.Signature.{Ethers}
use fusion_plus_aptos_extens.OrderService.{
  Service, Error, syntax_error, division_by_zero, OrderMethod, Event, is_fillable, new_fill,
  fill_order, push_fill, recount, recount_by_amount, recount_by_percentage, set_fill_status, cancel,
  set_percentage, create_order, create_fill, update_fill_status, cancel_order, on_order,
  update_order_filled_percentage,
}
use fusion_plus_aptos_extens.OrderService.Methods.{create_fill-state}
use fusion_plus_aptos_extens.OrderService.Filling.Steps.{finish_fill, fill_order-open}
use fusion_plus_aptos_extens.OrderService.Commands.{
  Command, create, fill, fill_status, cancels, percentage, cleanup, step,
}

abbrev pub error_of : {A : Type 0} → Result Error A → Option Error
error_of (ok _) = none
error_of (err e) = some e

-- The error that a call throws, if it does.
unfoldable pub thrown : Ethers → Command → Service → Option Error
thrown ethers (create now new_id dto) s = error_of (create_order ethers now new_id dto s).0
thrown ethers (fill now new_id id f) s = error_of (create_fill now new_id id f s).0
thrown ethers (fill_status now id fill_id st sh dh) s =
    error_of (update_fill_status now id fill_id st sh dh s).0
thrown ethers (cancels now id maker) s = error_of (cancel_order now id maker s).0
thrown ethers (percentage now id p) s = error_of (update_order_filled_percentage now id p s).0
thrown ethers (cleanup now) s = none

-- The errors of `BigInt` itself.
abbrev pub is_number_error : Error → Bool
is_number_error syntax_error = true
is_number_error division_by_zero = true
is_number_error _ = false

insert_same :
    (id : String) (o : Order) (orders : Dict Order)
    → lookup id orders ≡ some o
    → insert id o orders ≡ orders
insert_same id o [] h = cc
insert_same id o ((k, p) ∷ orders) h = ground (arith, insert_same id o orders)

-- A change that throws an error of its own leaves the order alone.
abbrev IsAtomic : OrderMethod Event → Type 0
IsAtomic m = (o : Order) (e : Error) → (m o).0 ≡ err e → is_number_error e ≡ false → (m o).1 ≡ o

on_order-atomic :
    (id : String) (m : OrderMethod Event) (s : Service) (e : Error)
    → IsAtomic m
    → (on_order id m s).0 ≡ err e
    → is_number_error e ≡ false
    → (on_order id m s).1 ≡ s
unfolding on_order
on_order-atomic id m s e atomic h own = elim (Option-cases (lookup id s.orders)) [
  | inl missing ↦ rw missing
  | inr (o, found) ↦ ground (arith, atomic o e, insert_same id o s.orders found)
]

recount-number_error : (o : Order) (e : Error) → (recount o).0 ≡ err e → is_number_error e ≡ true
unfolding recount recount_by_amount recount_by_percentage
recount-number_error o e h = ground arith

finish_fill-err :
    (f : Fill) (e : Error) (r : Result Error Unit × Order)
    → (finish_fill f r).0 ≡ err e
    → r.0 ≡ err e
finish_fill-err f e (ok _, o) h = cc
finish_fill-err f e (err e', o) h = cc

fill_order-IsAtomic : (f : Fill) (now : ℕ) → IsAtomic (fill_order f now)
fill_order-IsAtomic f now o e h own = elim (Bool-cases (is_fillable o.status)) [
  | inl open_order ↦ cc (
    own,
    recount-number_error (push_fill f now o) e
        (finish_fill-err f e _ (rw (fill_order-open f now o open_order) at h)),
  )
  | inr closed ↦ unfold fill_order in ground arith
]

set_fill_status-IsAtomic :
    (id : String) (st : FillStatus) (now : ℕ) (sh dh : Option String)
    → IsAtomic (set_fill_status id st now sh dh)
unfolding set_fill_status
set_fill_status-IsAtomic id st now sh dh o e h own = ground arith

cancel-IsAtomic : (maker : String) (now : ℕ) → IsAtomic (cancel maker now)
unfolding cancel
cancel-IsAtomic maker now o e h own = ground arith

set_percentage-IsAtomic : (p now : ℕ) → IsAtomic (set_percentage p now)
unfolding set_percentage
set_percentage-IsAtomic p now o e h own = ground arith

error_of-err : {A : Type 0} (r : Result Error A) (e : Error) → error_of r ≡ some e → r ≡ err e
error_of-err (ok a) e h = cc
error_of-err (err e') e h = cc

create_fill-error :
    (now : ℕ) (new_id id : String) (f : FillData) (s : Service) (e : Error)
    → (create_fill now new_id id f s).0 ≡ err e
    → (on_order id (fill_order (new_fill id f now new_id) now) s).0 ≡ err e
unfolding create_fill
create_fill-error now new_id id f s e h = ground arith

pub create_order-atomic :
    (ethers : Ethers) (now : ℕ) (new_id : String) (dto : CreateOrderDto) (s : Service) (e : Error)
    → (create_order ethers now new_id dto s).0 ≡ err e
    → (create_order ethers now new_id dto s).1 ≡ s
unfolding create_order
create_order-atomic ethers now new_id dto s e h = ground arith

-- A call that throws one of the service's own errors changes nothing: no order, no index and no
-- event. Only the two errors of `BigInt`, in createFill, may leave a trace.
pub thrown_atomic :
    (ethers : Ethers) (c : Command) (s : Service) (e : Error)
    → thrown ethers c s ≡ some e
    → is_number_error e ≡ false
    → step ethers c s ≡ s
unfolding thrown step update_fill_status cancel_order update_order_filled_percentage
thrown_atomic ethers (create now new_id dto) s e h own =
    create_order-atomic ethers now new_id dto s e (error_of-err _ e h)
thrown_atomic ethers (fill now new_id id f) s e h own = rw (create_fill-state now new_id id f s) (
    on_order-atomic id _ s e (fill_order-IsAtomic (new_fill id f now new_id) now)
      (create_fill-error now new_id id f s e (error_of-err _ e h)) own)
thrown_atomic ethers (fill_status now id fill_id st sh dh) s e h own =
    on_order-atomic id _ s e (set_fill_status-IsAtomic fill_id st now sh dh) (error_of-err _ e h)
      own
thrown_atomic ethers (cancels now id maker) s e h own =
    on_order-atomic id _ s e (cancel-IsAtomic maker now) (error_of-err _ e h) own
thrown_atomic ethers (percentage now id p) s e h own =
    on_order-atomic id _ s e (set_percentage-IsAtomic p now) (error_of-err _ e h) own
thrown_atomic ethers (cleanup now) s e h own = absurd (cc h)

-- The same for the calls by their own names.
module _ (ethers : Ethers) (now : ℕ) (id : String) (s : Service) (e : Error) where
  pub create_fill-atomic :
      (new_id : String) (f : FillData)
      → (create_fill now new_id id f s).0 ≡ err e
      → is_number_error e ≡ false
      → (create_fill now new_id id f s).1 ≡ s
  unfolding thrown step
  create_fill-atomic new_id f h own =
      thrown_atomic ethers (fill now new_id id f) s e (ap error_of h) own

  pub update_fill_status-atomic :
      (fill_id : String) (st : FillStatus) (sh dh : Option String)
      → (update_fill_status now id fill_id st sh dh s).0 ≡ err e
      → is_number_error e ≡ false
      → (update_fill_status now id fill_id st sh dh s).1 ≡ s
  unfolding thrown step
  update_fill_status-atomic fill_id st sh dh h own =
      thrown_atomic ethers (fill_status now id fill_id st sh dh) s e (ap error_of h) own

  pub cancel_order-atomic :
      (maker : String)
      → (cancel_order now id maker s).0 ≡ err e
      → is_number_error e ≡ false
      → (cancel_order now id maker s).1 ≡ s
  unfolding thrown step
  cancel_order-atomic maker h own =
      thrown_atomic ethers (cancels now id maker) s e (ap error_of h) own
