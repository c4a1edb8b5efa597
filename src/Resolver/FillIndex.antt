-- ===== src/Resolver/FillIndex.antt =====
-- backend/resolver/src/services/ResolverServiceV2.ts, determineFillIndex: the index of a fill in the
-- order's Merkle tree. `none` is -1, which comes of an empty list of thresholds.
use fusion_plus_aptos_extens.Base.{
  ℕ, suc, ◌≤◌, ◌<◌, ◌≡◌, arith, Option, none, some, List, [], ◌∷◌, length, leb, ◌==◌, if◌then◌else◌,
  refl,
}
use fusion_plus_aptos_extens.Order.{FillData}
use fusion_plus_aptos_extens.Secrets.{get_secret_index}

-- `fillThresholds || [25, 50, 75, 100]`
abbrev pub thresholds_or_quarters : Option (List ℕ) → List ℕ
thresholds_or_quarters none = 7500 ∷ 15000 ∷ 22500 ∷ 30000 ∷ []
thresholds_or_quarters (some thresholds) = thresholds

-- `a || b`
abbrev or_number : Option ℕ → ℕ → ℕ
or_number none other = other
or_number (some n) other = if n == 0 then other else n

abbrev pub cumulative_of : FillData → ℕ
cumulative_of fill =
    or_number fill.cumulative_fill_percentage
      (or_number fill.cumulative_percentage (or_number fill.fill_percentage 0))

-- The loop: the first threshold that is not exceeded.
unfoldable threshold_index : ℕ → List ℕ → Option ℕ
threshold_index cumulative [] = none
threshold_index cumulative (threshold ∷ thresholds) =
    let rest = threshold_index cumulative thresholds in
    if leb cumulative threshold then some 0 else elim rest [ none ↦ none | some i ↦ some (suc i) ]

abbrev last_index : List ℕ → Option ℕ
last_index [] = none
last_index (threshold ∷ thresholds) = some (length thresholds)

abbrev or_last : Option ℕ → List ℕ → Option ℕ
or_last none thresholds = last_index thresholds
or_last (some i) thresholds = some i

unfoldable pub determine_fill_index : FillData → Option (List ℕ) → Option ℕ
unfolding threshold_index
determine_fill_index fill thresholds = elim fill.merkle_index [
  | some i ↦ some i
  | none ↦
      let list = thresholds_or_quarters thresholds in
      or_last (threshold_index (cumulative_of fill) list) list
]

threshold_index-some :
    (cumulative : ℕ) (thresholds : List ℕ)
    → get_secret_index cumulative thresholds < length thresholds
    → threshold_index cumulative thresholds ≡ some (get_secret_index cumulative thresholds)
unfolding threshold_index get_secret_index
threshold_index-some cumulative [] h = absurd (omega arith)
threshold_index-some cumulative (t ∷ ts) h = (ground (arith, threshold_index-some cumulative ts))

threshold_index-none :
    (cumulative : ℕ) (thresholds : List ℕ)
    → length thresholds ≤ get_secret_index cumulative thresholds
    → threshold_index cumulative thresholds ≡ none
unfolding threshold_index get_secret_index
threshold_index-none cumulative [] h = refl
threshold_index-none cumulative (t ∷ ts) h = (ground (arith, threshold_index-none cumulative ts))

-- For a fill without an index of its own, the index is that of the secret which getSecretIndex
-- gives for the same thresholds, except beyond the last threshold: there getSecretIndex goes one
-- further and determineFillIndex stays at the last.
pub determine_fill_index_lem :
    (fill : FillData) (t : ℕ) (ts : List ℕ)
    → fill.merkle_index ≡ none
    → determine_fill_index fill (some (t ∷ ts))
      ≡ some (
          if leb (suc (length ts)) (get_secret_index (cumulative_of fill) (t ∷ ts))
          then length ts
          else get_secret_index (cumulative_of fill) (t ∷ ts))
unfolding determine_fill_index
determine_fill_index_lem fill t ts h =
    (ground (
      arith,
      threshold_index-some (cumulative_of fill) (t ∷ ts),
      threshold_index-none (cumulative_of fill) (t ∷ ts),
    ))
