-- ===== src/OrderService/Filling/Steps.antt =====
-- createFill step by step: the order is found and open, the fill is pushed, and the fills are counted.
use fusion_plus_aptos_extens.Base.{
  ℕ, String, true, ◌≡◌, ap, some, [], ◌∷◌, arith, str_eq_iff, if◌then◌else◌, Bool-cases, inl, inr,
  ==_iff, ◌==◌,
}
use fusion_plus_aptos_extens.Base.Exec.{Result, ok, err}
use fusion_plus_aptos_extens.Base.Dict.{lookup}
use fusion_plus_aptos_extens.Amount.{to_string, amount_eq}
use fusion_plus_aptos_extens.Amount.Roundtrip.{to_string-injective, amount_eq_iff}
use fusion_plus_aptos_extens.Order.{OrderStatus, FillData, Fill, Order}
use fusion_plus_aptos_extens.OrderService.{
  Service, Event, Error, is_fillable, new_fill, push_fill, fill_order, recount, filled_status,
  create_fill, order_fill,
}
use fusion_plus_aptos_extens.OrderService.Methods.{lookup-on_order, on_order-found}

-- The status that the fills of a raw-amount order give it.
abbrev pub status_for : ℕ → ℕ → OrderStatus → OrderStatus
status_for total from old =
    if total == from
    then OrderStatus.filled
    else if total == 0
    then old
    else OrderStatus.partially_filled

pub amount_eq-to_string : (a b : ℕ) → amount_eq (to_string a) (to_string b) ≡ (a == b)
amount_eq-to_string a b = elim (Bool-cases (a == b)) [
  | inl same ↦
      ground (arith, amount_eq_iff (to_string a) (to_string b), ap to_string ((==_iff a b).0 same))
  | inr other ↦ ground (arith, amount_eq_iff (to_string a) (to_string b), to_string-injective a b)
]

pub amount_eq-zero : (a : ℕ) → amount_eq (to_string a) (48 ∷ []) ≡ (a == 0)
unfolding to_string
amount_eq-zero a = amount_eq-to_string a 0

-- What createFill does after the counting.
abbrev pub finish_fill : Fill → Result Error Unit × Order → Result Error Event × Order
finish_fill f (ok _, o) =
    let o' = record o { status = filled_status o } in (ok (order_fill o' f), o')
finish_fill f (err e, o) = (err e, o)

pub fill_order-open :
    (f : Fill) (now : ℕ) (o : Order)
    → is_fillable o.status ≡ true
    → fill_order f now o ≡ finish_fill f (recount (push_fill f now o))
unfolding fill_order
fill_order-open f now o h = rw (h, fill_order) (ground arith)

-- The result of createFill, by how the change of the order ended.
abbrev pub fill_result : Fill → Result Error Event → Result Error Fill
fill_result f (ok _) = ok f
fill_result f (err e) = err e

module _ (now : ℕ) (new_id id : String) (content : FillData) (s : Service) (o : Order) where
  abbrev pub added : Fill
  added = new_fill id content now new_id

  pub create_fill-found :
      lookup id s.orders ≡ some o
      → ((create_fill now new_id id content s).0 ≡ fill_result added (fill_order added now o).0)
        × (lookup id (create_fill now new_id id content s).1.orders
            ≡ some (fill_order added now o).1)
  unfolding create_fill
  create_fill-found found = (
    ground (arith, on_order-found id (fill_order added now) s found),
    ground (arith, found, lookup-on_order id (fill_order added now) s id, str_eq_iff id id),
  )
