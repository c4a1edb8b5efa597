-- ===== src/Auction/Rates.antt =====
-- The rate of an auction over time.
use fusion_plus_aptos_extens.Base.{
  ℕ, ◌-◌, ◌*◌, ◌/◌, ◌≤◌, ◌<◌, ◌≡◌, some, arith, leb, ltb, if◌then◌else◌, Bool-cases, inl, inr,
}
use native.Mathlib.Nat.{le-div_iff_mul-le, div-mul-le_self}
use fusion_plus_aptos_extens.Base.Int.{ℤ, pos, negsuc, ◌-ℤ◌, ◌*ℤ◌, ◌≤ℤ◌, max_ℤ, int_laws}
use fusion_plus_aptos_extens.Order.{DutchAuction}
use fusion_plus_aptos_extens.Auction.{get_current_rate, auction_end_time}

-- The terms that the types promise and no code checks: the rate falls, by steps of a positive
-- length.
pub record IsFalling (a : DutchAuction) : Type 0 where
  pub interval : 0 < a.decrement_interval
  pub amount : pos 0 ≤ℤ a.decrement_amount
  pub rates : a.end_rate ≤ℤ a.start_rate

-- The decrease after `k` intervals is at least that after `j ≤ k`.
decrease_mono : (j k : ℕ) (d : ℤ) → j ≤ k → pos 0 ≤ℤ d → pos j *ℤ d ≤ℤ pos k *ℤ d
unfolding ◌*ℤ◌
decrease_mono j k (pos n) h nonneg = let m : j * n ≤ k * n = grind arith in ground arith
decrease_mono j k (negsuc n) h nonneg = absurd (omega arith)

decrease_nonneg : (k : ℕ) (d : ℤ) → pos 0 ≤ℤ d → pos 0 ≤ℤ pos k *ℤ d
unfolding ◌*ℤ◌
decrease_nonneg k (pos n) nonneg = ground arith
decrease_nonneg k (negsuc n) nonneg = absurd (omega arith)

div_mono : (a b c : ℕ) → 0 < c → a ≤ b → a / c ≤ b / c
div_mono a b c pos_c h = (le-div_iff_mul-le pos_c).1 (omega (arith, div-mul-le_self a c))

-- The rate after `k` whole intervals.
rate_after : DutchAuction → ℕ → ℤ
rate_after a k = max_ℤ (a.start_rate -ℤ pos k *ℤ a.decrement_amount) a.end_rate

-- The rate by cases on the time.
abbrev rate_at : DutchAuction → ℕ → ℤ
rate_at a t =
    if ltb t a.start_timestamp
    then a.start_rate
    else if leb (auction_end_time a) t
    then a.end_rate
    else rate_after a ((t - a.start_timestamp) / a.decrement_interval)

module _ (a : DutchAuction) (falling : IsFalling a) where
  rate_after-mono : (j k : ℕ) → j ≤ k → rate_after a k ≤ℤ rate_after a j
  unfolding rate_after
  rate_after-mono j k h =
      let m : _ = decrease_mono j k a.decrement_amount h falling.amount in
      let l : a.start_rate -ℤ pos k *ℤ a.decrement_amount
          ≤ℤ a.start_rate -ℤ pos j *ℤ a.decrement_amount =
        omega int_laws in
      ground arith

  rate_after-le : (k : ℕ) → rate_after a k ≤ℤ a.start_rate
  unfolding rate_after
  rate_after-le k =
      let m : _ = decrease_nonneg k a.decrement_amount falling.amount in
      let l : a.start_rate -ℤ pos k *ℤ a.decrement_amount ≤ℤ a.start_rate = omega int_laws in
      ground (arith, falling.rates)

  rate_after-ge : (k : ℕ) → a.end_rate ≤ℤ rate_after a k
  unfolding rate_after
  rate_after-ge k = ground arith

  rate_at_bounds : (t : ℕ) → (a.end_rate ≤ℤ rate_at a t) × (rate_at a t ≤ℤ a.start_rate)
  rate_at_bounds t =
      let k : ℕ = (t - a.start_timestamp) / a.decrement_interval in
      ground (arith, rate_after-le k, rate_after-ge k, falling.rates)

  rate_at_mono : (t u : ℕ) → t ≤ u → rate_at a u ≤ℤ rate_at a t
  rate_at_mono t u h = elim (Bool-cases (ltb t a.start_timestamp)) [
    | inl early ↦ rw early (rate_at_bounds u).1
    | inr begun ↦ elim (Bool-cases (leb (auction_end_time a) u)) [
      | inl ended ↦ ground (arith, (rate_at_bounds t).0, rate_at_bounds u)
      | inr running ↦ ground (
        arith,
        rate_after-mono ((t - a.start_timestamp) / a.decrement_interval)
            ((u - a.start_timestamp) / a.decrement_interval)
            (div_mono (t - a.start_timestamp) (u - a.start_timestamp) a.decrement_interval
              falling.interval (omega arith)),
      )
    ]
  ]

  get_current_rate-eq : (t : ℕ) → get_current_rate a t ≡ some (rate_at a t)
  unfolding get_current_rate rate_after
  get_current_rate-eq t = ground (arith, falling.interval)

  -- In an auction with positive intervals, a decrement that is not negative and an end rate not
  -- above the start rate, the rate is finite at all times, never rises, and stays between the end
  -- rate and the start rate.
  pub get_current_rate_falls :
      (t u : ℕ)
      → t ≤ u
      → (r : ℤ) × (later : ℤ) × (get_current_rate a t ≡ some r)
        × (get_current_rate a u ≡ some later)
        × (later ≤ℤ r)
        × (a.end_rate ≤ℤ later)
        × (r ≤ℤ a.start_rate)
  get_current_rate_falls t u h = (
    rate_at a t,
    rate_at a u,
    get_current_rate-eq t,
    get_current_rate-eq u,
    rate_at_mono t u h,
    (rate_at_bounds u).0,
    (rate_at_bounds t).1,
  )
