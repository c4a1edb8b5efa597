-- ===== src/OrderService/Cleanup.antt =====
-- cleanupExpiredOrders: which orders stay on offer.
use fusion_plus_aptos_extens.Base.{ℕ, not, ◌≡◌, refl, [], ◌∷◌, filter, arith, Bool-cases, inl, inr}
use fusion_plus_aptos_extens.Base.Dict.{Dict, values}
use mathlib.Core.List.{append-nil}
use fusion_plus_aptos_extens.Order.{Order}
use fusion_plus_aptos_extens.OrderService.{
  Service, is_active, is_overdue, expire_all, expired_events, get_active_orders,
  cleanup_expired_orders,
}

active_after :
    (now : ℕ) (orders : Dict Order)
    → filter (λ o. is_active o.status) (values (expire_all now orders))
      ≡ filter (λ o. not (is_overdue now o)) (filter (λ o. is_active o.status) (values orders))
unfolding expire_all
active_after now [] = refl
active_after now ((id, o) ∷ orders) = elim (Bool-cases (is_overdue now o)) [
  | inl late ↦ ground (arith, active_after now orders)
  | inr early ↦ rw early (ground (arith, active_after now orders, early))
]

no_more_events : (now : ℕ) (orders : Dict Order) → expired_events now (expire_all now orders) ≡ []
unfolding expire_all expired_events
no_more_events now [] = refl
no_more_events now ((id, o) ∷ orders) = elim (Bool-cases (is_overdue now o)) [
  | inl late ↦ rw (late, no_more_events now orders)
  | inr early ↦ rw (early, early, no_more_events now orders)
]

-- After a cleanup the active orders are those of before that are not overdue, unchanged and in
-- order, where only a pending order can be overdue; a second cleanup at the same time does not
-- emit an event.
pub cleanup_expired_orders_lem :
    (now : ℕ) (s : Service)
    → (get_active_orders (cleanup_expired_orders now s)
        ≡ filter (λ o. not (is_overdue now o)) (get_active_orders s))
      × ((cleanup_expired_orders now (cleanup_expired_orders now s)).events
          ≡ (cleanup_expired_orders now s).events)
unfolding cleanup_expired_orders get_active_orders
cleanup_expired_orders_lem now s =
    (active_after now s.orders, rw (no_more_events now s.orders) (append-nil _))
