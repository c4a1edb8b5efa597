-- ===== src/Resolver/Prices/Tests.antt =====
-- Rates at concrete orders and readings of the clock.
use fusion_plus_aptos_extens.Base.{
  ℕ, ◌*◌, ◌≤◌, ◌+◌, ◌^◌, ◌≡◌, refl, some, none, arith, List, [], ◌∷◌, map,
}
use fusion_plus_aptos_extens.Amount.{big_int, to_string}
use fusion_plus_aptos_extens.Order.{Order}
use fusion_plus_aptos_extens.Order.Samples.{open_order}
use fusion_plus_aptos_extens.Auction.{Ratio}
use fusion_plus_aptos_extens.Resolver.Prices.{
  PriceAnswer, whole, calculate_output_amount, fetch_cross_chain_rate, get_exchange_rate,
  is_profitable, output_units,
}
use fusion_plus_aptos_extens.Resolver.Prices.Cached.{Call, ask_all, get_exchange_rate_once}
use fusion_plus_aptos_extens.Resolver.Prices.Margin.{output_units-covers}

abbrev quoted : PriceAnswer
quoted = some (some 3000, some 6)

abbrev later_calls : List Call
later_calls = (20000, 20100, none) ∷ (30099, 30100, none) ∷ []

get_exchange_rate_once_example :
    ((get_exchange_rate 50 100 quoted "ETH" "APT" []).0 ≡ fetch_cross_chain_rate quoted "ETH" "APT")
    × (ask_all "ETH" "APT" later_calls (get_exchange_rate 50 100 quoted "ETH" "APT" []).1 ≡ (
      map (λ _. fetch_cross_chain_rate quoted "ETH" "APT") later_calls,
      (get_exchange_rate 50 100 quoted "ETH" "APT" []).1,
    ))
get_exchange_rate_once_example =
    get_exchange_rate_once 50 100 quoted "ETH" "APT" [] later_calls refl refl
      (omega arith, (omega arith, tt))

-- One ether for at least 500 APT, at 500 APT for an ether: the margin makes it 495.
abbrev one_ether : Order
one_ether = record open_order {
  dto = record (open_order.dto) {
    from_amount = to_string (10 ^ 18);
    min_to_amount = to_string (500 * 10 ^ 8);
  };
}

abbrev expected : Ratio
expected = calculate_output_amount (record { num = 10 ^ 18; den = 10 ^ 18 }) (whole 500)

output_units-covers_example :
    (k : ℕ) × (output_units (whole 500) one_ether ≡ some k) × (98 * (500 * 10 ^ 8) ≤ 100 * (k + 1))
unfolding is_profitable big_int to_string
output_units-covers_example =
    output_units-covers (whole 500) one_ether expected (500 * 10 ^ 8) refl (omega arith) refl
      (omega arith) refl
