-- ===== src/Auction/Tests.antt =====
-- A concrete auction: from 1.5 down to 1.2 in steps of 0.1 every 60 seconds.
use fusion_plus_aptos_extens.Base.{◌≡◌, true, refl, arith, some}
use fusion_plus_aptos_extens.Base.Int.{ℤ, pos, ◌≤ℤ◌, ◌-ℤ◌, ◌*ℤ◌}
use fusion_plus_aptos_extens.Order.{DutchAuction}
use fusion_plus_aptos_extens.Auction.{get_current_rate, is_acceptable_offer}
use fusion_plus_aptos_extens.Auction.Rates.{IsFalling, get_current_rate_falls}

abbrev auction : DutchAuction
auction = record {
  enabled = true;
  start_timestamp = 1000;
  duration = 300;
  start_rate = pos 1500000;
  end_rate = pos 1200000;
  decrement_interval = 60;
  decrement_amount = pos 100000;
}

auction-IsFalling : IsFalling auction
auction-IsFalling = record { interval = omega arith; amount = omega arith; rates = omega arith }

rate_1130 : get_current_rate auction 1130 ≡ some (pos 1300000)
unfolding get_current_rate ◌-ℤ◌ ◌*ℤ◌
rate_1130 = refl

get_current_rate_falls_example :
    (r : ℤ) × (later : ℤ) × (get_current_rate auction 1010 ≡ some r)
    × (get_current_rate auction 1130 ≡ some later)
    × (later ≤ℤ r)
    × (pos 1200000 ≤ℤ later)
    × (r ≤ℤ pos 1500000)
get_current_rate_falls_example =
    get_current_rate_falls auction auction-IsFalling 1010 1130 (omega arith)

accepted : is_acceptable_offer (pos 1400000) auction 1130 ≡ true
unfolding is_acceptable_offer get_current_rate ◌-ℤ◌ ◌*ℤ◌
accepted = refl
