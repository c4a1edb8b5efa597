-- ===== src/OrderService/Cancelling.antt =====
-- cancelOrder and updateFillStatus: who may cancel, and what a status update touches.
use fusion_plus_aptos_extens.Base.{
  not, ◌&&◌, ℕ, String, false, ◌≡◌, refl, ◌↔◌, Option, sym, ap, ◌∙◌, str_eq_refl, some, List, [],
  ◌∷◌, find, arith, str_eq, str_eq_iff, if◌then◌else◌,
}
use mathlib.Core.Option
use fusion_plus_aptos_extens.Base.Exec.{ok}
use fusion_plus_aptos_extens.Base.Dict.{lookup}
use fusion_plus_aptos_extens.Order.{OrderStatus, Fill, FillStatus, Order}
use fusion_plus_aptos_extens.OrderService.{
  Service, OrderMethod, Event, is_filled, cancel, cancel_order, on_order, set_fill_status,
  update_fill_status, update_first, with_status,
}
use fusion_plus_aptos_extens.OrderService.Methods.{lookup-on_order, on_order-found, outcome}

-- What the call leaves of the order.
cancel-order :
    (maker : String) (now : ℕ) (o : Order)
    → (cancel maker now o).1 ≡ (
        if str_eq o.maker maker && not (is_filled o.status)
        then record o { status = OrderStatus.cancelled; updated_at = now }
        else o)
unfolding cancel
cancel-order maker now o = ground arith

cancel-allowed :
    (maker : String) (now : ℕ) (o : Order)
    → outcome (cancel maker now o).0 ≡ ok tt
    → (o.maker ≡ maker)
      × (is_filled o.status ≡ false)
      × ((cancel maker now o).1 ≡ record o { status = OrderStatus.cancelled; updated_at = now })
unfolding cancel
cancel-allowed maker now o h = ground (arith, str_eq_iff o.maker maker)

cancel-succeeds :
    (maker : String) (now : ℕ) (o : Order)
    → o.maker ≡ maker
    → is_filled o.status ≡ false
    → outcome (cancel maker now o).0 ≡ ok tt
unfolding cancel
cancel-succeeds maker now o same open_order = ground (arith, str_eq_iff o.maker maker)

module _ (now : ℕ) (id : String) (s : Service) (o : Order)
    (found : lookup id s.orders ≡ some o) where
  -- On a stored order the call succeeds exactly if the caller names the order's maker and the
  -- order is not filled. Then the order becomes cancelled and changes but for its time stamp in
  -- nothing else, and otherwise it stays as it was.
  pub cancel_order_lem :
      (maker : String)
      → (((cancel_order now id maker s).0 ≡ ok tt)
          ↔ ((o.maker ≡ maker) × (is_filled o.status ≡ false)))
        × (lookup id (cancel_order now id maker s).1.orders
            ≡ some (
                if str_eq o.maker maker && not (is_filled o.status)
                then record o { status = OrderStatus.cancelled; updated_at = now }
                else o))
  unfolding cancel_order
  cancel_order_lem maker =
      let e : (on_order id (cancel maker now) s).0 ≡ outcome (cancel maker now o).0 =
        on_order-found id (cancel maker now) s found in
      let allowed : outcome (cancel maker now o).0 ≡ ok tt → _ = cancel-allowed maker now o in
      (
        (
          λ h. let a : _ = allowed (sym e ∙ h) in (a.0, a.1),
          λ h. e ∙ cancel-succeeds maker now o h.0 h.1,
        ),
        rw (lookup-on_order id (cancel maker now) s id, found, str_eq_refl id)
            (ap some (cancel-order maker now o)),
      )

find-update_first :
    (id j : String) (change : Fill → Fill) (fills : List Fill)
    → ((f : Fill) → (change f).id ≡ f.id)
    → find (λ f. str_eq f.id j) (update_first id change fills) ≡ (
        if str_eq id j
        then Option.map change (find (λ f. str_eq f.id j) fills)
        else find (λ f. str_eq f.id j) fills)
unfolding update_first
find-update_first id j change [] keeps = ground arith
find-update_first id j change (f ∷ fills) keeps = ground (
  arith,
  find-update_first id j change fills keeps,
  keeps f,
  str_eq_iff id j,
  str_eq_iff f.id id,
  str_eq_iff f.id j,
)

set_fill_status-found :
    (fill_id : String) (st : FillStatus) (now : ℕ) (sh dh : Option String) (o : Order) (f : Fill)
    → find (λ g. str_eq g.id fill_id) o.fills ≡ some f
    → (outcome (set_fill_status fill_id st now sh dh o).0 ≡ ok tt)
      × ((set_fill_status fill_id st now sh dh o).1 ≡ record o {
        fills = update_first fill_id (with_status st now sh dh) o.fills;
        updated_at = now;
      })
unfolding set_fill_status
set_fill_status-found fill_id st now sh dh o f e = (rw e, rw e)

module _ (now : ℕ) (id : String) (s : Service) (o : Order)
    (found : lookup id s.orders ≡ some o) where
  -- A status update of a fill that the order has succeeds. Looking a fill up afterwards gives the
  -- updated fill at that id and what it gave before at any other, and the order keeps its status,
  -- its filled amount and its percentage.
  pub update_fill_status_lem :
      (fill_id : String) (st : FillStatus) (sh dh : Option String) (f : Fill)
      → find (λ g. str_eq g.id fill_id) o.fills ≡ some f
      → ((update_fill_status now id fill_id st sh dh s).0 ≡ ok tt)
        × ((o' : Order) × (lookup id (update_fill_status now id fill_id st sh dh s).1.orders
              ≡ some o')
            × ((j : String)
                → find (λ g. str_eq g.id j) o'.fills ≡ (
                    if str_eq fill_id j
                    then some (with_status st now sh dh f)
                    else find (λ g. str_eq g.id j) o.fills))
            × (o'.status ≡ o.status)
            × (o'.filled_amount ≡ o.filled_amount)
            × (o'.filled_percentage ≡ o.filled_percentage))
  unfolding update_fill_status
  update_fill_status_lem fill_id st sh dh f e =
      let m : OrderMethod Event = set_fill_status fill_id st now sh dh in
      let r : _ = set_fill_status-found fill_id st now sh dh o f e in
      let change : Fill → Fill = with_status st now sh dh in
      (
        on_order-found id m s found ∙ r.0,
        (
          record o { fills = update_first fill_id change o.fills; updated_at = now },
          rw (lookup-on_order id m s id, found, str_eq_refl id) (ap some r.1),
          λ j.
              rw (find-update_first fill_id j change o.fills (λ g. refl))
                (ground (arith, str_eq_iff fill_id j, e)),
          refl,
          refl,
          refl,
        ),
      )
