-- ===== src/OrderService/Counting.antt =====
-- backend/order-engine/src/services/OrderService.ts, createFill: how the fills of an order are counted
-- into its filled amount, its percentage and its status.
use fusion_plus_aptos_extens.Base.{
  ℕ, ◌+◌, ◌*◌, ◌/◌, Bool, true, false, not, ◌&&◌, List, [], ◌∷◌, Option, none, some, any, leb, ◌==◌,
  if◌then◌else◌,
}
use fusion_plus_aptos_extens.Base.Exec.{ok, err, gets, or_throw, modify, ◌>>=◌, ◌>>◌}
use fusion_plus_aptos_extens.Amount.{Amount, big_int, to_string, amount_eq, percent, floor_percent}
use fusion_plus_aptos_extens.Order.{OrderStatus, Chain, ethereum, aptos, Fill, Order}
use fusion_plus_aptos_extens.OrderService.State.{syntax_error, division_by_zero, OrderMethod}

abbrev pub is_fillable : OrderStatus → Bool
is_fillable OrderStatus.filled = false
is_fillable OrderStatus.cancelled = false
is_fillable _ = true

abbrev pub is_cross_chain : Chain → Chain → Bool
is_cross_chain ethereum ethereum = false
is_cross_chain aptos aptos = false
is_cross_chain _ _ = true

abbrev pub has_percentage : Fill → Bool
has_percentage f = elim f.fill_percentage [ none ↦ false | some _ ↦ true ]

-- `f.fillPercentage || 0`
abbrev pub percentage_of : Fill → ℕ
percentage_of f = elim f.fill_percentage [ none ↦ 0 | some p ↦ p ]

unfoldable pub total_percentage : List Fill → ℕ
total_percentage [] = 0
total_percentage (f ∷ fills) = percentage_of f + total_percentage fills

abbrev pub min_hundred : ℕ → ℕ
min_hundred p = if leb p 30000 then p else 30000

-- `fills.reduce((sum, f) => (BigInt(sum) + BigInt(f.amount)).toString(), '0')`
unfoldable pub sum_amounts : ℕ → List Fill → Option ℕ
sum_amounts sum [] = some sum
sum_amounts sum (f ∷ fills) = elim (big_int f.amount) [
  | none ↦ none
  | some n ↦ sum_amounts (sum + n) fills
]

-- `a / b` on BigInt, which throws a RangeError at 0.
abbrev pub big_div : ℕ → ℕ → OrderMethod ℕ
big_div a b order = (if b == 0 then err division_by_zero else ok (a / b), order)

abbrev pub parse_amount : Amount → OrderMethod ℕ
parse_amount text = or_throw (big_int text) syntax_error

unfoldable pub recount_by_percentage : OrderMethod Unit
unfolding total_percentage to_string
recount_by_percentage = do
  modify (λ o. record o { filled_percentage = min_hundred (total_percentage o.fills) })
  from_amount ← parse_amount (← gets (λ o. o.from_amount))
  modify λ o. record o {
    filled_amount = to_string (from_amount * floor_percent o.filled_percentage / 100);
  }

unfoldable pub recount_by_amount : OrderMethod Unit
unfolding sum_amounts to_string
recount_by_amount = do
  total_filled ← or_throw (← gets (λ o. sum_amounts 0 o.fills)) syntax_error
  modify (λ o. record o { filled_amount = to_string total_filled })
  from_amount ← parse_amount (← gets (λ o. o.from_amount))
  filled ← big_div (total_filled * 100) from_amount
  modify (λ o. record o { filled_percentage = filled * percent })

abbrev pub uses_percentage : Order → Bool
uses_percentage o = is_cross_chain o.from_chain o.to_chain && any has_percentage o.fills

-- The branch on `order.fills.length > 0` and on the kind of the swap.
unfoldable pub recount : OrderMethod Unit
recount order = elim order.fills [
  | [] ↦ (ok tt, record order { filled_amount = 48 ∷ []; filled_percentage = 0 })
  | _ ∷ _ ↦ (if uses_percentage order then recount_by_percentage else recount_by_amount) order
]

abbrev pub filled_status : Order → OrderStatus
filled_status o =
    if amount_eq o.filled_amount o.from_amount
    then OrderStatus.filled
    else if not (amount_eq o.filled_amount (48 ∷ []))
    then OrderStatus.partially_filled
    else o.status
