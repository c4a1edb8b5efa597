-- ===== src/OrderService/Filling/ByPercentage.antt =====
-- createFill on an order that is counted by the percentages of its fills.
use fusion_plus_aptos_extens.Base.{
  ℕ, ◌*◌, ◌/◌, ◌≤◌, ◌<◌, String, true, ◌≡◌, some, List, [], ◌∷◌, ◌++◌, arith, if◌then◌else◌,
  Bool-cases, inl, inr, ◌==◌, leb,
}
use fusion_plus_aptos_extens.Base.Exec.{ok}
use fusion_plus_aptos_extens.Base.Dict.{lookup}
use fusion_plus_aptos_extens.Amount.{to_string}
use fusion_plus_aptos_extens.Amount.Roundtrip.{big_int-to_string}
use fusion_plus_aptos_extens.Order.{OrderStatus, FillData, Fill, Order}
use fusion_plus_aptos_extens.OrderService.{
  Service, is_fillable, new_fill, push_fill, fill_order, recount, uses_percentage, total_percentage,
  min_hundred, recount_by_percentage, create_fill, order_fill,
}
use fusion_plus_aptos_extens.OrderService.Filling.Steps.{
  amount_eq-to_string, amount_eq-zero, fill_order-open, create_fill-found,
}

-- Whole percents of an amount reach the amount only at 100 %.
share-eq_iff :
    (from p : ℕ) → 0 < from → p ≤ 30000 → ((from * (p / 300) / 100 == from) ≡ leb 30000 p)
share-eq_iff from p pos bound = elim (Bool-cases (leb 30000 p)) [
  | inl full ↦ ground arith
  | inr less ↦
      let k : p / 300 ≤ 99 = ground arith in
      let m : from * (p / 300) ≤ from * 99 = grind arith in ground arith
]

-- The percentage of an order with one more fill, capped at 100 %.
abbrev pub capped_total : List Fill → Fill → ℕ
capped_total fills f = min_hundred (total_percentage (fills ++ f ∷ []))

-- The filled amount that a percentage gives: whole percents of the order's amount.
abbrev pub share : ℕ → ℕ → ℕ
share from p = from * (p / 300) / 100

-- The status that the percentage gives: the text of the share decides between open and partial.
abbrev pub status_at : ℕ → ℕ → OrderStatus → OrderStatus
status_at from p old =
    if leb 30000 p
    then OrderStatus.filled
    else if share from p == 0
    then old
    else OrderStatus.partially_filled

share-le : (from p : ℕ) → p ≤ 30000 → share from p ≤ from
share-le from p h =
    let k : p / 300 ≤ 100 = ground arith in
    let m : from * (p / 300) ≤ from * 100 = grind arith in ground arith

module _ (now : ℕ) (f : Fill) (o : Order) {from : ℕ} (open_order : is_fillable o.status ≡ true)
    (percentages : uses_percentage (push_fill f now o) ≡ true)
    (from_amount : o.from_amount ≡ to_string from) (positive : 0 < from) where
  abbrev total : ℕ
  total = total_percentage (o.fills ++ f ∷ [])

  abbrev capped : ℕ
  capped = min_hundred total

  abbrev counted : Order
  counted = record (push_fill f now o) {
    filled_percentage = capped;
    filled_amount = to_string (share from capped);
  }

  abbrev after : Order
  after = record counted { status = status_at from total o.status }

  recount-by_percentage : recount (push_fill f now o) ≡ (ok tt, counted)
  unfolding recount recount_by_percentage
  recount-by_percentage = (ground (arith, big_int-to_string from))

  fill_order-by_percentage : fill_order f now o ≡ (ok (order_fill after f), after)
  fill_order-by_percentage =
      rw (fill_order-open f now o open_order, recount-by_percentage)
        (ground (
          arith,
          amount_eq-to_string (share from capped) from,
          amount_eq-zero (share from capped),
          share-eq_iff from capped,
        ))

module _ (now : ℕ) (new_id id : String) (content : FillData) (s : Service) (o : Order)
    (from : ℕ) where
  -- A fill of a cross-chain order, one of whose fills has a percentage, succeeds if the order is
  -- open and its amount a positive number. The percentage becomes the total of all fills capped at
  -- 100 %, the filled amount whole percents of the order's amount, and the order is filled exactly
  -- if the total reaches 100 %, and else partially filled if the filled amount is positive. The
  -- filled amount never exceeds the order's amount.
  pub create_fill-by_percentage :
      lookup id s.orders ≡ some o
      → is_fillable o.status ≡ true
      → uses_percentage (push_fill (new_fill id content now new_id) now o) ≡ true
      → o.from_amount ≡ to_string from
      → 0 < from
      → ((create_fill now new_id id content s).0 ≡ ok (new_fill id content now new_id))
        × (lookup id (create_fill now new_id id content s).1.orders
            ≡ some (record o {
              filled_percentage = capped_total o.fills (new_fill id content now new_id);
              filled_amount =
                  to_string (share from (capped_total o.fills (new_fill id content now new_id)));
              status =
                  status_at from
                    (total_percentage (o.fills ++ new_fill id content now new_id ∷ []))
                    o.status;
              updated_at = now;
              fills = o.fills ++ new_fill id content now new_id ∷ [];
            }))
        × (share from (capped_total o.fills (new_fill id content now new_id)) ≤ from)
  create_fill-by_percentage found open_order percentages from_amount positive =
      let f : Fill = new_fill id content now new_id in
      let r : _ =
        rw (fill_order-by_percentage now f o open_order percentages from_amount positive) at
          (create_fill-found now new_id id content s o found) in
      (r.0, r.1, share-le from _ (ground arith))
