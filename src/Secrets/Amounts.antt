-- ===== src/Secrets/Amounts.antt =====
-- The partial amounts of an order.
use fusion_plus_aptos_extens.Base.{
  ℕ, ◌+◌, ◌*◌, ◌/◌, ◌≤◌, ◌≡◌, refl, List, [], ◌∷◌, Option, none, some, arith,
}
use fusion_plus_aptos_extens.Amount.{Amount, big_int}
use fusion_plus_aptos_extens.Amount.Roundtrip.{big_int-to_string}
use fusion_plus_aptos_extens.Secrets.{partial_of, calculate_partial_amount}

partial_of-add : (n p q : ℕ) → partial_of n p + partial_of n q ≤ partial_of n (p + q)
partial_of-add n p q =
    let k : p * 100 / 300 + q * 100 / 300 ≤ (p + q) * 100 / 300 = omega arith in
    let m : n * (p * 100 / 300 + q * 100 / 300) ≤ n * ((p + q) * 100 / 300) = grind arith in
    omega arith

partial_of-le : (n p : ℕ) → p ≤ 30000 → partial_of n p ≤ n
partial_of-le n p h =
    let k : p * 100 / 300 ≤ 10000 = omega arith in
    let m : n * (p * 100 / 300) ≤ n * 10000 = grind arith in omega arith

abbrev pub sum : List ℕ → ℕ
sum [] = 0
sum (p ∷ ps) = p + sum ps

-- The amounts of several fills of one order; `none` if the total does not parse.
abbrev pub partial_total : (Amount → Option ℕ) → Amount → List ℕ → Option ℕ
partial_total get_big_int total [] = some 0
partial_total get_big_int total (p ∷ ps) = elim (calculate_partial_amount get_big_int total p) [
  | none ↦ none
  | some a ↦ elim (big_int a) [
    | none ↦ none
    | some n ↦ elim (partial_total get_big_int total ps) [ none ↦ none | some m ↦ some (n + m) ]
  ]
]

partial_total-le :
    (get_big_int : Amount → Option ℕ) (total : Amount) (n : ℕ) (ps : List ℕ)
    → get_big_int total ≡ some n
    → (m : ℕ) × (partial_total get_big_int total ps ≡ some m) × (m ≤ partial_of n (sum ps))
unfolding calculate_partial_amount
partial_total-le get_big_int total n [] e = (0, refl, omega arith)
partial_total-le get_big_int total n (p ∷ ps) e =
    let (m, eq, le) = partial_total-le get_big_int total n ps e in
    (
      partial_of n p + m,
      ground (arith, big_int-to_string (partial_of n p), eq),
      omega (arith, partial_of-add n p (sum ps)),
    )

-- If ethers reads the order's amount as `n`, then partial fills whose percentages add up to 100 %
-- at most have amounts that all parse and add up to `n` at most.
pub calculate_partial_amount_total :
    (get_big_int : Amount → Option ℕ) (total : Amount) (n : ℕ) (ps : List ℕ)
    → get_big_int total ≡ some n
    → sum ps ≤ 30000
    → (m : ℕ) × (partial_total get_big_int total ps ≡ some m) × (m ≤ n)
calculate_partial_amount_total get_big_int total n ps e h =
    let (m, eq, le) = partial_total-le get_big_int total n ps e in
    (m, eq, omega (arith, partial_of-le n (sum ps) h))
