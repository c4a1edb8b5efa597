-- ===== src/Resolver/Prices/Margin.antt =====
-- backend/resolver/src/services/ResolverServiceV2.ts: the tolerance of checkProfitability against the
-- amount that createDestinationEscrow locks for the user.
use native.Mathlib.Nat.{mul_assoc, mul-le-mul_right}
use native.Mathlib.Decide.{dec_le}
use fusion_plus_aptos_extens.Base.{
  ℕ, zero, suc, ◌+◌, ◌*◌, ◌/◌, ◌≤◌, ◌<◌, true, ◌≡◌, refl, sym, ◌∙◌, arith, some,
}
use fusion_plus_aptos_extens.Order.{Chain, ethereum, aptos, Order}
use fusion_plus_aptos_extens.Auction.{Ratio}
use fusion_plus_aptos_extens.Resolver.Prices.{
  unit_of, formatted, expected_output, within_tolerance, is_profitable, units, output_units,
}

below_div : (x d : ℕ) → 0 < d → x < (x / d + 1) * d
below_div x d h = grind arith

double_den : (k d : ℕ) → (k + 1) * (2 * d) ≡ 2 * ((k + 1) * d)
double_den k d = grind arith

halve : (x k d : ℕ) → 2 * x + d < (k + 1) * (2 * d) → x < (k + 1) * d
halve x k d h = omega (arith, double_den k d)

pos_of_product : (m d x : ℕ) → x < m * d → 0 < m
pos_of_product zero d x h = absurd (ground arith)
pos_of_product (suc m) d x h = omega arith

div_below : (x d m : ℕ) → x < m * d → x / d < m
div_below x d m h = grind arith

-- A fraction of units is less than one unit above what is locked.
units_bound :
    (chain : Chain) (r : Ratio) → 0 < r.den → r.num * unit_of chain < (units chain r + 1) * r.den
units_bound ethereum r h =
    halve (r.num * unit_of ethereum) (units ethereum r) r.den
      (below_div (2 * (r.num * unit_of ethereum) + r.den) (2 * r.den) (omega arith))
units_bound aptos r h = below_div (r.num * unit_of aptos) r.den h

cancel_den : (a b d x : ℕ) → 0 < d → 98 * (a * d) ≤ 100 * x → x < b * d → 98 * a ≤ 100 * b
cancel_den a b d x h p q = elim (dec_le (98 * a) (100 * b)) [
  | yes le ↦ le
  | no gt ↦
      let m : (100 * b + 1) * d ≤ 98 * a * d = mul-le-mul_right d (omega arith) in
      let e : 98 * a * d ≡ 98 * (a * d) = mul_assoc 98 a d in
      let f : (100 * b + 1) * d ≡ 100 * (b * d) + d = grind arith in absurd (omega arith)
]

within_tolerance_pos :
    (output : Ratio) (m unit : ℕ)
    → 0 < m
    → within_tolerance (some output) (some (record { num = m; den = unit })) ≡ true
    → 98 * (m * output.den) ≤ 100 * (output.num * unit)
within_tolerance_pos output m unit pos h = ground arith

module _ (rate : Ratio) (order : Order) (output : Ratio)
    (expected : expected_output rate order ≡ some (some output)) where
  is_profitable_lem :
      (required : Ratio)
      → formatted order.to_chain order.min_to_amount ≡ some (some required)
      → is_profitable rate order ≡ within_tolerance (some output) (some required)
  unfolding is_profitable
  is_profitable_lem required h = rw (is_profitable, expected, h) refl

  output_units_lem : output_units rate order ≡ some (units order.to_chain output)
  unfolding output_units
  output_units_lem = rw (output_units, expected) refl

-- An order that passes the check at a rate, and whose minimum is a positive number of m units of its
-- destination, is served with an escrow of k units at the same rate, where k + 1 units are at least
-- 98 % of m: the user may get up to two percent less than the minimum, and no less.
pub output_units-covers :
    (rate : Ratio) (order : Order) (output : Ratio) (m : ℕ)
    → expected_output rate order ≡ some (some output)
    → 0 < output.den
    → formatted order.to_chain order.min_to_amount
      ≡ some (some (record { num = m; den = unit_of order.to_chain }))
    → 0 < m
    → is_profitable rate order ≡ true
    → (k : ℕ) × (output_units rate order ≡ some k) × (98 * m ≤ 100 * (k + 1))
output_units-covers rate order output m expected positive required pos accepted = (
  units order.to_chain output,
  output_units_lem rate order output expected,
  cancel_den m (units order.to_chain output + 1) output.den (output.num * unit_of order.to_chain)
      positive
      (within_tolerance_pos output m (unit_of order.to_chain) pos
        (sym (is_profitable_lem rate order output expected _ required) ∙ accepted))
      (units_bound order.to_chain output positive),
)

-- The minimum is not enforced: an order to Aptos whose expected output is at least 98 % of its
-- minimum but below it passes the check and is served with less than its minimum.
pub output_units_short :
    (rate : Ratio) (order : Order) (output : Ratio) (m : ℕ)
    → order.to_chain ≡ aptos
    → expected_output rate order ≡ some (some output)
    → formatted aptos order.min_to_amount ≡ some (some (record { num = m; den = unit_of aptos }))
    → 98 * (m * output.den) ≤ 100 * (output.num * unit_of aptos)
    → output.num * unit_of aptos < m * output.den
    → (is_profitable rate order ≡ true) × ((k : ℕ) × (output_units rate order ≡ some k) × (k < m))
output_units_short rate order output m to expected required enough short = (
  is_profitable_lem rate order output expected (record { num = m; den = unit_of aptos })
        (rw to required)
      ∙ (ground (arith, pos_of_product m output.den (output.num * unit_of aptos) short)),
  (
    units aptos output,
    rw (output_units_lem rate order output expected, to) refl,
    div_below (output.num * unit_of aptos) output.den m short,
  ),
)
