-- ===== src/Auction.antt =====
-- backend/order-engine/src/utils/dutchAuction.ts: the prices of a Dutch auction.
-- Times are whole seconds. Rates are integers in units of 10⁻⁶, so `Math.floor(rate * 1000000)`
-- is the rate itself. The source divides by `decrementInterval` and by `duration`; `none` stands for
-- a NaN or an infinity that comes of a division by 0. A percentage or a score that the source
-- divides out is a `Ratio`, compared by cross multiplication.
pub mod Rates
pub mod Offers
pub mod Progress
mod Tests
use fusion_plus_aptos_extens.Base.{
  ℕ, ◌+◌, ◌-◌, ◌*◌, ◌/◌, ◌%◌, Bool, true, false, not, ◌&&◌, ◌||◌, Option, none, some, ltb, leb,
  ◌==◌, if◌then◌else◌,
}
use fusion_plus_aptos_extens.Base.Int.{ℤ, pos, negsuc, ◌-ℤ◌, ◌*ℤ◌, leb_ℤ, ltb_ℤ, max_ℤ}
use fusion_plus_aptos_extens.Amount.{Amount, big_int}
use fusion_plus_aptos_extens.Order.{DutchAuction}

pub record Ratio : Type 0 where
  pub num : ℕ
  pub den : ℕ

-- `r < n`, `r >= n` and `r > n` for a ratio and a whole number of percents.
abbrev pub ratio_lt : Ratio → ℕ → Bool
ratio_lt r n = ltb r.num (n * r.den)

abbrev pub ratio_ge : Ratio → ℕ → Bool
ratio_ge r n = leb (n * r.den) r.num

abbrev pub ratio_gt : Ratio → ℕ → Bool
ratio_gt r n = ltb (n * r.den) r.num

abbrev pub auction_end_time : DutchAuction → ℕ
auction_end_time a = a.start_timestamp + a.duration

-- `Math.max(startRate - floor(elapsed / interval) * amount, endRate)`. With an interval of 0 the
-- quotient is NaN at 0 and else an infinity, whose product with the amount goes by its sign.
abbrev pub decreased_rate : DutchAuction → ℕ → Option ℤ
decreased_rate a elapsed =
    if a.decrement_interval == 0
    then (if not (elapsed == 0) && ltb_ℤ (pos 0) a.decrement_amount then some a.end_rate else none)
    else some (
        max_ℤ (a.start_rate -ℤ pos (elapsed / a.decrement_interval) *ℤ a.decrement_amount)
          a.end_rate)

unfoldable pub get_current_rate : DutchAuction → ℕ → Option ℤ
get_current_rate a now =
    if ltb now a.start_timestamp
    then some a.start_rate
    else if leb (auction_end_time a) now
    then some a.end_rate
    else decreased_rate a (now - a.start_timestamp)

-- The rate of a fill of `fill` units of 1/300 %, in units of 10⁻⁶ / 22500000: the bonus is
-- (percent - 25) * 0.001 / 75 of the rate, and at least 0.
unfoldable pub get_rate_for_fill : DutchAuction → ℕ → ℕ → Option ℤ
get_rate_for_fill a fill now = elim (get_current_rate a now) [
  | none ↦ none
  | some rate ↦ some (rate *ℤ pos (22500000 + (fill - 7500)))
]

-- `BigInt` division truncates toward 0.
abbrev pub div_million : ℤ → ℤ
div_million (pos n) = pos (n / 1000000)
div_million (negsuc n) = pos 0 -ℤ pos ((n + 1) / 1000000)

-- The minimum return as a number, whose text the source returns; `none` means that `BigInt` throws.
unfoldable pub calculate_min_return : Amount → DutchAuction → ℕ → Option ℤ
calculate_min_return from_amount a now = elim (get_current_rate a now) [
  | none ↦ none
  | some rate ↦ elim (big_int from_amount) [
    | none ↦ none
    | some amount ↦ some (div_million (pos amount *ℤ rate))
  ]
]

-- A comparison with NaN or +∞ fails.
unfoldable pub is_acceptable_offer : ℤ → DutchAuction → ℕ → Bool
is_acceptable_offer offered a now = elim (get_current_rate a now) [
  | none ↦ false
  | some rate ↦ leb_ℤ rate offered
]

pub record AuctionStatus : Type 0 where
  pub is_active : Bool
  pub has_started : Bool
  pub has_ended : Bool
  pub time_remaining : ℕ
  pub current_rate : Option ℤ
  pub next_rate_drop_in : Option ℕ
  pub percent_complete : Ratio

abbrev pub min_hundred_ratio : Ratio → Ratio
min_hundred_ratio r = if ratio_ge r 100 then record { num = 100; den = 1 } else r

-- The time until the next drop; `x % 0` is NaN.
abbrev pub next_drop : DutchAuction → ℕ → Option ℕ
next_drop a elapsed =
    if a.decrement_interval == 0
    then none
    else some (a.decrement_interval - elapsed % a.decrement_interval)

unfoldable pub get_auction_status : DutchAuction → ℕ → AuctionStatus
get_auction_status a now =
    let started = leb a.start_timestamp now in
    let ended = leb (auction_end_time a) now in
    record {
      is_active = started && not ended;
      has_started = started;
      has_ended = ended;
      time_remaining = auction_end_time a - now;
      current_rate = get_current_rate a now;
      next_rate_drop_in =
          if started && not ended then next_drop a (now - a.start_timestamp) else some 0;
      percent_complete =
          if ended
          then record { num = 100; den = 1 }
          else if started
          then min_hundred_ratio
              (record { num = (now - a.start_timestamp) * 100; den = a.duration })
          else record { num = 0; den = 1 };
    }

-- 70 % of the time score and 30 % of the size. With a duration of 0 the quotient is an infinity
-- or NaN: after the start the time score is 0, and before it there is no finite score.
unfoldable pub calculate_competition_score : ℕ → ℕ → DutchAuction → Option Ratio
calculate_competition_score fill_timestamp fill a =
    if a.duration == 0
    then (if ltb a.start_timestamp fill_timestamp
        then some (record { num = 3 * fill; den = 10 * 300 })
        else none)
    else some (record {
      num =
          7 * (100 * (a.start_timestamp + a.duration) - 100 * fill_timestamp) * 300
          + 3 * fill * a.duration;
      den = 10 * 300 * a.duration;
    })
