-- ===== src/OrderService/Filling/Poisoned.antt =====
-- createFill on an order one of whose fills has an amount that is no number.
use fusion_plus_aptos_extens.Base.{
  ◌⊎◌, ℕ, ◌+◌, String, true, false, ◌≡◌, none, some, List, [], ◌∷◌, ◌++◌, arith, Option-cases, inl,
  inr,
}
use fusion_plus_aptos_extens.Base.Exec.{err}
use fusion_plus_aptos_extens.Base.Dict.{lookup}
use fusion_plus_aptos_extens.Amount.{big_int}
use fusion_plus_aptos_extens.Order.{FillData, Fill, Order}
use fusion_plus_aptos_extens.OrderService.{
  Service, syntax_error, is_fillable, new_fill, push_fill, fill_order, recount, uses_percentage,
  sum_amounts, recount_by_amount, create_fill,
}
use fusion_plus_aptos_extens.OrderService.Filling.Steps.{fill_order-open, create_fill-found}

sum_amounts-bad_before :
    (sum : ℕ) (fills : List Fill) (f : Fill)
    → sum_amounts sum fills ≡ none
    → sum_amounts sum (fills ++ f ∷ []) ≡ none
unfolding sum_amounts
sum_amounts-bad_before sum [] f e = cc
sum_amounts-bad_before sum (g ∷ fills) f e = elim (Option-cases (big_int g.amount)) [
  | inl bad ↦ ground arith
  | inr (k, p) ↦ ground (arith, sum_amounts-bad_before (sum + k) fills f)
]

sum_amounts-bad_last :
    (sum : ℕ) (fills : List Fill) (f : Fill)
    → big_int f.amount ≡ none
    → sum_amounts sum (fills ++ f ∷ []) ≡ none
unfolding sum_amounts
sum_amounts-bad_last sum [] f e = ground arith
sum_amounts-bad_last sum (g ∷ fills) f e = elim (Option-cases (big_int g.amount)) [
  | inl bad ↦ ground arith
  | inr (k, p) ↦ ground (arith, sum_amounts-bad_last (sum + k) fills f)
]

module _ (now : ℕ) (f : Fill) (o : Order) (open_order : is_fillable o.status ≡ true)
    (raw : uses_percentage (push_fill f now o) ≡ false)
    (bad : sum_amounts 0 (o.fills ++ f ∷ []) ≡ none) where
  recount-bad : recount (push_fill f now o) ≡ (err syntax_error, push_fill f now o)
  unfolding recount recount_by_amount
  recount-bad = ground arith

  fill_order-bad : fill_order f now o ≡ (err syntax_error, push_fill f now o)
  fill_order-bad = rw (fill_order-open f now o open_order, recount-bad)

module _ (now : ℕ) (new_id id : String) (content : FillData) (s : Service) (o : Order) where
  -- On an open order counted by amounts, a fill whose amount is no number, or any fill after such
  -- a one, is answered with a SyntaxError but stays in the order: the order keeps its status and
  -- its filled amount, and its amounts can no longer be summed.
  pub create_fill-poisoned :
      lookup id s.orders ≡ some o
      → is_fillable o.status ≡ true
      → uses_percentage (push_fill (new_fill id content now new_id) now o) ≡ false
      → (sum_amounts 0 o.fills ≡ none) ⊎ (big_int content.amount ≡ none)
      → ((create_fill now new_id id content s).0 ≡ err syntax_error)
        × (lookup id (create_fill now new_id id content s).1.orders
            ≡ some (push_fill (new_fill id content now new_id) now o))
        × (sum_amounts 0 (o.fills ++ new_fill id content now new_id ∷ []) ≡ none)
  create_fill-poisoned found open_order raw why =
      let f : Fill = new_fill id content now new_id in
      let bad : sum_amounts 0 (o.fills ++ f ∷ []) ≡ none = elim why [
        | inl before ↦ sum_amounts-bad_before 0 o.fills f before
        | inr last ↦ sum_amounts-bad_last 0 o.fills f last
      ] in
      let r : _ =
        rw (fill_order-bad now f o open_order raw bad) at
          (create_fill-found now new_id id content s o found) in
      (r.0, r.1, bad)
