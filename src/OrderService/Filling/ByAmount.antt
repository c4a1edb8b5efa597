-- ===== src/OrderService/Filling/ByAmount.antt =====
-- createFill on an order that is counted by the amounts of its fills.
use fusion_plus_aptos_extens.Base.{
  ℕ, ◌+◌, ◌*◌, ◌/◌, ◌<◌, String, true, false, ◌≡◌, some, List, [], ◌∷◌, ◌++◌, arith, Option-cases,
  inl, inr,
}
use fusion_plus_aptos_extens.Base.Exec.{ok}
use fusion_plus_aptos_extens.Base.Dict.{lookup}
use fusion_plus_aptos_extens.Amount.{big_int, to_string}
use fusion_plus_aptos_extens.Amount.Roundtrip.{big_int-to_string}
use fusion_plus_aptos_extens.Order.{FillData, Fill, Order}
use fusion_plus_aptos_extens.OrderService.{
  Service, is_fillable, new_fill, push_fill, fill_order, recount, uses_percentage, sum_amounts,
  recount_by_amount, create_fill, order_fill,
}
use fusion_plus_aptos_extens.OrderService.Filling.Steps.{
  status_for, amount_eq-to_string, amount_eq-zero, fill_order-open, create_fill-found,
}

-- The sum in the code is the sum of the parsed amounts, or fails if one does not parse.
sum_amounts-append :
    (sum : ℕ) (fills : List Fill) (f : Fill) (total n : ℕ)
    → sum_amounts sum fills ≡ some total
    → big_int f.amount ≡ some n
    → sum_amounts sum (fills ++ f ∷ []) ≡ some (total + n)
unfolding sum_amounts
sum_amounts-append sum [] f total n e h = ground arith
sum_amounts-append sum (g ∷ fills) f total n e h = elim (Option-cases (big_int g.amount)) [
  | inl bad ↦ absurd (ground arith)
  | inr (k, p) ↦ ground (arith, sum_amounts-append (sum + k) fills f total n)
]

module _ (now : ℕ) (f : Fill) (o : Order) {total n from : ℕ}
    (open_order : is_fillable o.status ≡ true) (raw : uses_percentage (push_fill f now o) ≡ false)
    (before : sum_amounts 0 o.fills ≡ some total) (amount : big_int f.amount ≡ some n)
    (from_amount : o.from_amount ≡ to_string from) (positive : 0 < from) where
  abbrev after : Order
  after = record (push_fill f now o) {
    filled_amount = to_string (total + n);
    filled_percentage = (total + n) * 100 / from * 300;
    status = status_for (total + n) from o.status;
  }

  abbrev counted : Order
  counted = record (push_fill f now o) {
    filled_amount = to_string (total + n);
    filled_percentage = (total + n) * 100 / from * 300;
  }

  recount-by_amount : recount (push_fill f now o) ≡ (ok tt, counted)
  unfolding recount recount_by_amount
  recount-by_amount =
      ground (arith, sum_amounts-append 0 o.fills f total n before amount, big_int-to_string from)

  fill_order-by_amount : fill_order f now o ≡ (ok (order_fill after f), after)
  fill_order-by_amount =
      rw (fill_order-open f now o open_order, recount-by_amount)
        (ground (arith, amount_eq-to_string (total + n) from, amount_eq-zero (total + n)))

module _ (now : ℕ) (new_id id : String) (content : FillData) (s : Service) (o : Order)
    (total n from : ℕ) where
  -- A fill of an order that is counted by amounts (a same-chain swap, or a cross-chain one none
  -- of whose fills has a percentage) succeeds if the order is open, its amount is positive and
  -- all amounts parse. The filled amount becomes the sum of all fills, the percentage that share
  -- of the order's amount in whole percents, and the order is filled exactly if the sum equals
  -- its amount, and else partially filled if the sum is positive.
  pub create_fill-by_amount :
      lookup id s.orders ≡ some o
      → is_fillable o.status ≡ true
      → uses_percentage (push_fill (new_fill id content now new_id) now o) ≡ false
      → sum_amounts 0 o.fills ≡ some total
      → big_int content.amount ≡ some n
      → o.from_amount ≡ to_string from
      → 0 < from
      → ((create_fill now new_id id content s).0 ≡ ok (new_fill id content now new_id))
        × (lookup id (create_fill now new_id id content s).1.orders
            ≡ some (record o {
              filled_amount = to_string (total + n);
              filled_percentage = (total + n) * 100 / from * 300;
              status = status_for (total + n) from o.status;
              updated_at = now;
              fills = o.fills ++ (new_fill id content now new_id) ∷ [];
            }))
  create_fill-by_amount found open_order raw before amount from_amount positive =
      rw
        (fill_order-by_amount now (new_fill id content now new_id) o open_order raw before amount
          from_amount positive)
        at (create_fill-found now new_id id content s o found)
