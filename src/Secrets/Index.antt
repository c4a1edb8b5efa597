-- ===== src/Secrets/Index.antt =====
-- The secret index against its thresholds.
use fusion_plus_aptos_extens.Base.{
  ℕ, zero, suc, ◌+◌, ◌*◌, ◌/◌, ◌≤◌, ◌<◌, ◌≡◌, refl, List, [], ◌∷◌, some, arith, get_elem?, length,
  leb, Bool-cases, inl, inr, ltb, ltb→lt, ap, ◌∙◌, ◌-◌,
}
use native.Mathlib.Nat.{mul-div_cancel_left, zero-div}
use fusion_plus_aptos_extens.Secrets.{get_secret_index, thresholds_from, fill_thresholds}

index-le : (c : ℕ) (ts : List ℕ) → get_secret_index c ts ≤ length ts
unfolding get_secret_index
index-le c [] = omega arith
index-le c (t ∷ ts) = ground (arith, index-le c ts)

at_index : (c : ℕ) (ts : List ℕ) (t : ℕ) → get_elem? ts (get_secret_index c ts) ≡ some t → c ≤ t
unfolding get_secret_index
at_index c [] t e = cc
at_index c (u ∷ ts) t e = elim (Bool-cases (leb c u)) [
  | inl within ↦ ground arith
  | inr above ↦ ground (arith, at_index c ts t)
]

before_index :
    (c : ℕ) (ts : List ℕ) (j t : ℕ) → j < get_secret_index c ts → get_elem? ts j ≡ some t → t < c
unfolding get_secret_index
before_index c [] j t h e = cc
before_index c (u ∷ ts) zero t h e = ground arith
before_index c (u ∷ ts) (suc j) t h e = ground (arith, before_index c ts j t)

-- The index is at most the number of thresholds, the threshold at the index (if there is one) is
-- not exceeded, and every threshold before the index is.
pub get_secret_index_lem :
    (cumulative : ℕ) (thresholds : List ℕ)
    → (get_secret_index cumulative thresholds ≤ length thresholds)
      × ((t : ℕ)
          → get_elem? thresholds (get_secret_index cumulative thresholds) ≡ some t
          → cumulative ≤ t)
      × ((j t : ℕ)
          → j < get_secret_index cumulative thresholds
          → get_elem? thresholds j ≡ some t
          → t < cumulative)
get_secret_index_lem c ts = (index-le c ts, at_index c ts, before_index c ts)

get_elem?-thresholds_from :
    (parts first count i : ℕ)
    → i < count
    → get_elem? (thresholds_from parts first count) i ≡ some ((first + i) * 30000 / parts)
unfolding thresholds_from
get_elem?-thresholds_from parts first zero i h = elim h [ ]
get_elem?-thresholds_from parts first (suc count) zero h = ground arith
get_elem?-thresholds_from parts first (suc count) (suc i) h =
    ground (arith, get_elem?-thresholds_from parts (first + 1) count i)

length-thresholds_from :
    (parts first count : ℕ) → length (thresholds_from parts first count) ≡ count
unfolding thresholds_from
length-thresholds_from parts first zero = refl
length-thresholds_from parts first (suc count) =
    ground (arith, length-thresholds_from parts (first + 1) count)

module _ (parts c : ℕ) (positive : 0 < parts) (begun : 0 < c) (bound : c ≤ 30000) where
  abbrev thresholds : List ℕ
  thresholds = thresholds_from parts 1 parts

  -- The last threshold is 100 %, so it is not exceeded.
  index-lt : get_secret_index c thresholds < parts
  index-lt = elim (Bool-cases (ltb (get_secret_index c thresholds) parts)) [
    | inl less ↦ ltb→lt _ _ less
    | inr more ↦
        let last : (1 + (parts - 1)) * 30000 / parts < c =
          before_index c thresholds (parts - 1) ((1 + (parts - 1)) * 30000 / parts) (ground arith)
            (get_elem?-thresholds_from parts 1 parts (parts - 1) (omega arith)) in
        let e : (1 + (parts - 1)) * 30000 / parts ≡ parts * 30000 / parts =
          ap (λ k. k * 30000 / parts) (omega arith) in
        absurd (omega (arith, mul-div_cancel_left 30000 positive, e))
  ]

  above_previous : (i : ℕ) → get_secret_index c thresholds ≡ i → i ≤ parts → i * 30000 / parts < c
  above_previous zero e h = omega (arith, zero-div parts)
  above_previous (suc j) e h = before_index c thresholds j (suc j * 30000 / parts) (omega arith) (
      get_elem?-thresholds_from parts 1 parts j (omega arith)
      ∙ ap (λ k. some (k * 30000 / parts)) (omega arith))

  within : c ≤ (get_secret_index c thresholds + 1) * 30000 / parts
  within = at_index c thresholds _ (
      get_elem?-thresholds_from parts 1 parts (get_secret_index c thresholds) index-lt
      ∙ ap (λ k. some (k * 30000 / parts)) (omega arith))

-- For the thresholds of `parts` equal parts, of which there is at least one, a cumulative
-- percentage above 0 and at most 100 % has the index `i` of the part in which it lies: above
-- `i * 100 / parts` and at most `(i + 1) * 100 / parts`, rounded down to units.
pub get_secret_index-fill_thresholds :
    (parts cumulative : ℕ)
    → 0 < parts
    → 0 < cumulative
    → cumulative ≤ 30000
    → let i = get_secret_index cumulative (fill_thresholds parts) in
      (i < parts) × (i * 30000 / parts < cumulative) × (cumulative ≤ (i + 1) * 30000 / parts)
unfolding fill_thresholds
get_secret_index-fill_thresholds parts cumulative positive begun bound = (
  index-lt parts cumulative positive begun bound,
  above_previous parts cumulative positive begun bound _ refl
      (omega (arith, index-lt parts cumulative positive begun bound)),
  within parts cumulative positive begun bound,
)
