-- ===== src/Auction/Offers.antt =====
-- Offers against the auction's rate: the bonus of a fill, the minimum return, and acceptance.
use fusion_plus_aptos_extens.Base.{ℕ, ◌+◌, ◌-◌, ◌*◌, ◌/◌, ◌≤◌, true, ◌≡◌, some, arith}
use fusion_plus_aptos_extens.Base.Int.{ℤ, pos, ◌*ℤ◌}
use fusion_plus_aptos_extens.Amount.{Amount, big_int}
use fusion_plus_aptos_extens.Order.{DutchAuction}
use fusion_plus_aptos_extens.Auction.{
  get_current_rate, get_rate_for_fill, calculate_min_return, is_acceptable_offer,
}
use fusion_plus_aptos_extens.Auction.Rates.{IsFalling, get_current_rate_falls}

pos_mul : (a b : ℕ) → pos a *ℤ pos b ≡ pos (a * b)
unfolding ◌*ℤ◌
pos_mul a b = ground arith

-- Where the rate is `r`, not negative, a fill of at most 100 % gets a rate from `r` up to 0.1 %
-- better, in units of `r` / 22500000.
pub get_rate_for_fill_bounds :
    (a : DutchAuction) (fill now r : ℕ)
    → get_current_rate a now ≡ some (pos r)
    → fill ≤ 30000
    → (v : ℕ) × (get_rate_for_fill a fill now ≡ some (pos v))
      × (r * 22500000 ≤ v)
      × (1000 * v ≤ 1001 * (r * 22500000))
unfolding get_rate_for_fill
get_rate_for_fill_bounds a fill now r rate h = (
  r * (22500000 + (fill - 7500)),
  rw (get_rate_for_fill, rate, pos_mul r (22500000 + (fill - 7500))),
  grind arith,
  let k : fill - 7500 ≤ 22500 = omega arith in
      let m : r * (fill - 7500) ≤ r * 22500 = grind arith in omega arith,
)

-- An offer that is acceptable gives at least the minimum return: on an amount `n` and where the
-- rate is not negative, the minimum return is at most `n` times the offered rate, rounded down.
pub calculate_min_return_covered :
    (a : DutchAuction) (now n r offered : ℕ) (from_amount : Amount)
    → get_current_rate a now ≡ some (pos r)
    → big_int from_amount ≡ some n
    → is_acceptable_offer (pos offered) a now ≡ true
    → (m : ℕ) × (calculate_min_return from_amount a now ≡ some (pos m))
      × (m ≤ n * offered / 1000000)
unfolding calculate_min_return is_acceptable_offer
calculate_min_return_covered a now n r offered from_amount rate amount accepted =
    let k : r ≤ offered = ground arith in
    let m : n * r ≤ n * offered = grind arith in
    (n * r / 1000000, rw (calculate_min_return, rate, amount, pos_mul n r), omega arith)

-- In a falling auction an offer that is acceptable stays acceptable.
pub is_acceptable_offer_stays :
    (a : DutchAuction)
    → IsFalling a
    → (offered : ℤ) (t u : ℕ) → t ≤ u
    → is_acceptable_offer offered a t ≡ true
    → is_acceptable_offer offered a u ≡ true
unfolding is_acceptable_offer
is_acceptable_offer_stays a falling offered t u h accepted =
    let (r, later, at_t, at_u, le, _, _) = get_current_rate_falls a falling t u h in
    ground (arith, at_t, at_u, le)
