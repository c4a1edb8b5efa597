-- ===== src/Auction/Progress.antt =====
-- The status that an auction reports, and the scores of its resolvers.
use fusion_plus_aptos_extens.Base.{
  ℕ, ◌+◌, ◌-◌, ◌*◌, ◌/◌, ◌%◌, ◌≤◌, ◌<◌, true, ◌≡◌, ◌↔◌, refl, some, arith,
}
use native.Mathlib.Nat.{div-eq_of_lt-le, div-add-mod, mod-lt, mul-mod_left}
use fusion_plus_aptos_extens.Order.{DutchAuction}
use fusion_plus_aptos_extens.Auction.{
  Ratio, get_current_rate, get_auction_status, auction_end_time, calculate_competition_score,
}

-- The rest of an interval is in the same interval.
div_within : (x i e : ℕ) → 0 < i → e < i - x % i → (x + e) / i ≡ x / i
div_within x i e h k =
    div-eq_of_lt-le i (omega (arith, div-add-mod x i)) (omega (arith, div-add-mod x i, mod-lt x h))

-- At the end of the interval that holds `now` a whole number of intervals has passed.
whole_intervals :
    (now start i : ℕ) → start ≤ now → 0 < i → (now + (i - (now - start) % i) - start) % i ≡ 0
whole_intervals now start i begun positive =
    let x : ℕ = now - start in
    let e : now + (i - x % i) - start ≡ (x / i + 1) * i =
      omega (arith, div-add-mod x i, mod-lt x positive) in
    rw e (mul-mod_left (x / i + 1) i)

module _ (a : DutchAuction) (now : ℕ) where
  -- An active auction with positive intervals announces a next drop after 1 second at the soonest
  -- and an interval at the latest. Until then, as long as it is active, its rate does not change,
  -- and at that time a whole number of intervals has passed.
  pub next_rate_drop_in_lem :
      (get_auction_status a now).is_active ≡ true
      → 0 < a.decrement_interval
      → (d : ℕ) × ((get_auction_status a now).next_rate_drop_in ≡ some d)
        × (0 < d)
        × (d ≤ a.decrement_interval)
        × ((now + d - a.start_timestamp) % a.decrement_interval ≡ 0)
        × ((e : ℕ)
            → e < d
            → now + e < auction_end_time a
            → get_current_rate a (now + e) ≡ get_current_rate a now)
  unfolding get_auction_status
  next_rate_drop_in_lem active positive =
      let x : ℕ = now - a.start_timestamp in
      let i : ℕ = a.decrement_interval in
      let r : x % i < i = mod-lt x positive in
      let started : a.start_timestamp ≤ now = ground arith in
      (
        i - x % i,
        ground arith,
        omega arith,
        omega arith,
        whole_intervals now a.start_timestamp i started positive,
        λ e soon running. unfold get_current_rate in ground (arith, div_within x i e positive soon),
      )

  -- The reported progress is a ratio of at most 100 %. It is 100 % exactly from the end on, and
  -- the remaining time is 0 exactly from the end on.
  pub get_auction_status_progress :
      (0 < (get_auction_status a now).percent_complete.den)
      × ((get_auction_status a now).percent_complete.num
          ≤ 100 * (get_auction_status a now).percent_complete.den)
      × (((get_auction_status a now).has_ended ≡ true) ↔ (
          (get_auction_status a now).percent_complete.num
          ≡ 100 * (get_auction_status a now).percent_complete.den))
      × (((get_auction_status a now).has_ended ≡ true)
          ↔ ((get_auction_status a now).time_remaining ≡ 0))
  unfolding get_auction_status
  get_auction_status_progress = ground arith

-- Of two fills of an auction with a positive duration, the one that is not later and not smaller
-- has a score at least as high.
pub calculate_competition_score_mono :
    (a : DutchAuction) (t u fill larger : ℕ)
    → 0 < a.duration
    → t ≤ u
    → fill ≤ larger
    → (better : Ratio) × (worse : Ratio) × (calculate_competition_score t larger a ≡ some better)
      × (calculate_competition_score u fill a ≡ some worse)
      × (better.den ≡ worse.den)
      × (worse.num ≤ better.num)
unfolding calculate_competition_score
calculate_competition_score_mono a t u fill larger positive early size =
    let end : ℕ = 100 * (a.start_timestamp + a.duration) in
    let grown : fill * a.duration ≤ larger * a.duration = grind arith in
    (
      record { num = 7 * (end - 100 * t) * 300 + 3 * larger * a.duration; den = 3000 * a.duration },
      record { num = 7 * (end - 100 * u) * 300 + 3 * fill * a.duration; den = 3000 * a.duration },
      ground arith,
      ground arith,
      refl,
      omega arith,
    )
