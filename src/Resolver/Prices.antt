-- ===== src/Resolver/Prices.antt =====
-- backend/resolver/src/services/PriceService.ts, and checkProfitability and the amount of
-- createDestinationEscrow in ResolverServiceV2.ts. Rates and amounts are exact fractions, prices are
-- whole numbers of one unit, and a missing fraction is NaN; floating-point rounding is not modelled.
-- `now` is the clock when the cache is read, `later` when it is written.
pub mod Cached
pub mod Margin
mod Tests
use fusion_plus_aptos_extens.Base.{
  ℕ, ◌+◌, ◌-◌, ◌*◌, ◌/◌, ◌^◌, String, Bool, true, false, ◌&&◌, ◌||◌, Option, none, some, List, [],
  ◌∷◌, ◌++◌, map, ltb, leb, ◌==◌, str_eq, if◌then◌else◌,
}
use fusion_plus_aptos_extens.Amount.{Amount, big_int, amount_eq, is_digit}
use fusion_plus_aptos_extens.Order.{Chain, ethereum, aptos, Order}
use fusion_plus_aptos_extens.Signature.{codes, to_lower_case}
use fusion_plus_aptos_extens.Auction.{Ratio}

pub record CachedRate : Type 0 where
  pub rate : Ratio
  pub timestamp : ℕ

-- The cache, by the text `FROM/TO`, as character codes.
abbrev pub Cache : Type 0
Cache = List (List ℕ × CachedRate)

abbrev pub cache_get : List ℕ → Cache → Option CachedRate
cache_get key [] = none
cache_get key ((k, entry) ∷ cache) =
    let rest = cache_get key cache in if amount_eq k key then some entry else rest

abbrev pub cache_set : List ℕ → CachedRate → Cache → Cache
cache_set key entry [] = (key, entry) ∷ []
cache_set key entry ((k, old) ∷ cache) =
    let rest = cache_set key entry cache in
    if amount_eq k key then (k, entry) ∷ cache else (k, old) ∷ rest

-- `toUpperCase`, for ASCII letters.
abbrev pub upper_code : ℕ → ℕ
upper_code c = if leb b'a' c && leb c b'z' then c - 32 else c

abbrev pub to_upper_case : String → List ℕ
to_upper_case s = map upper_code (codes s)

abbrev pub pair_of : String → String → List ℕ
pair_of from to = to_upper_case from ++ (b'/' ∷ to_upper_case to)

abbrev pub whole : ℕ → Ratio
whole n = record { num = n; den = 1 }

-- `FALLBACK_RATES[pair] || 1`
abbrev pub fallback_rate : List ℕ → Ratio
fallback_rate pair =
    if amount_eq pair (codes "ETH/APT")
    then whole 500
    else if amount_eq pair (codes "APT/ETH")
    then record { num = 2; den = 1000 }
    else whole 1

-- What the price API answers for the two tokens, in a unit in which both prices are whole: nothing
-- if the call throws, and each price may be missing.
abbrev pub PriceAnswer : Type 0
PriceAnswer = Option (Option ℕ × Option ℕ)

-- A missing or zero price is an error, and errors give the fallback.
abbrev pub quotient : List ℕ → Option ℕ → Option ℕ → Ratio
quotient pair (some from) (some to) =
    if (from == 0) || (to == 0) then fallback_rate pair else record { num = from; den = to }
quotient pair none to = fallback_rate pair
quotient pair (some from) none = fallback_rate pair

unfoldable pub fetch_cross_chain_rate : PriceAnswer → String → String → Ratio
fetch_cross_chain_rate none from to = fallback_rate (codes from ++ (b'/' ∷ codes to))
fetch_cross_chain_rate (some (p, q)) from to = quotient (codes from ++ (b'/' ∷ codes to)) p q

abbrev pub is_cross_pair : String → String → Bool
is_cross_pair from to =
    (str_eq from "ETH" && str_eq to "APT") || (str_eq from "APT" && str_eq to "ETH")

abbrev pub cache_duration : ℕ
cache_duration = 30000

-- `cached && Date.now() - cached.timestamp < CACHE_DURATION`, on clocks that do not go back.
abbrev pub fresh : ℕ → Option CachedRate → Option Ratio
fresh now none = none
fresh now (some entry) =
    if ltb (now - entry.timestamp) cache_duration then some entry.rate else none

-- The rate, and the cache afterwards.
unfoldable pub get_exchange_rate : ℕ → ℕ → PriceAnswer → String → String → Cache → Ratio × Cache
unfolding fetch_cross_chain_rate
get_exchange_rate now later answer from to cache =
    elim (fresh now (cache_get (pair_of from to) cache)) [
      | some rate ↦ (rate, cache)
      | none ↦
          if is_cross_pair from to
          then (
            fetch_cross_chain_rate answer from to,
            cache_set (pair_of from to)
                (record { rate = fetch_cross_chain_rate answer from to; timestamp = later }) cache,
          )
          else (fallback_rate (pair_of from to), cache)
    ]

-- `calculateOutputAmount` with the margin of 1 %: the input times the rate times 99/100.
abbrev pub calculate_output_amount : Ratio → Ratio → Ratio
calculate_output_amount input rate = record {
  num = input.num * (rate.num * 99);
  den = input.den * (rate.den * 100);
}

-- The value of the digits that start the text.
abbrev pub leading_digits : ℕ → Amount → ℕ
leading_digits n [] = n
leading_digits n (c ∷ text) =
    let rest = leading_digits (n * 10 + (c - 48)) text in if is_digit c then rest else n

-- `parseInt`, of a text without leading spaces, sign or radix prefix; `none` is NaN.
abbrev pub parse_int : Amount → Option ℕ
parse_int [] = none
parse_int (c ∷ text) = if is_digit c then some (leading_digits 0 (c ∷ text)) else none

-- What the constants are: WETH's address, and the zero address and Aptos' coin as texts.
pub record Tokens : Type 0 where
  pub weth : String
  pub zero_address : String
  pub aptos_coin : String

-- The name of a token for the price service.
abbrev pub token_name : Tokens → String → String
token_name tokens token =
    if str_eq token tokens.zero_address
      || amount_eq (to_lower_case token) (to_lower_case tokens.weth)
    then "ETH"
    else if str_eq token tokens.aptos_coin
    then "APT"
    else token

abbrev pub unit_of : Chain → ℕ
unit_of ethereum = 10 ^ 18
unit_of aptos = 10 ^ 8

-- formatEther throws on a malformed text, parseInt gives NaN: `none` is a throw, `some none` NaN.
abbrev pub formatted : Chain → Amount → Option (Option Ratio)
formatted ethereum text = elim (big_int text) [
  | none ↦ none
  | some n ↦ some (some (record { num = n; den = unit_of ethereum }))
]
formatted aptos text = elim (parse_int text) [
  | none ↦ some none
  | some n ↦ some (some (record { num = n; den = unit_of aptos }))
]

-- The expected output of an order at a rate, with the margin.
abbrev pub expected_output : Ratio → Order → Option (Option Ratio)
expected_output rate order = elim (formatted order.from_chain order.from_amount) [
  | none ↦ none
  | some none ↦ some none
  | some (some input) ↦ some (some (calculate_output_amount input rate))
]

-- `output / required >= 1 - 0.02`; a division by zero gives Infinity, or NaN for 0 / 0.
abbrev pub within_tolerance : Option Ratio → Option Ratio → Bool
within_tolerance none required = false
within_tolerance (some output) none = false
within_tolerance (some output) (some required) =
    if required.num == 0
    then ltb 0 output.num
    else leb (98 * (required.num * output.den)) (100 * (output.num * required.den))

-- An error in between counts as profitable.
unfoldable pub is_profitable : Ratio → Order → Bool
is_profitable rate order = elim (expected_output rate order) [
  | none ↦ true
  | some output ↦ elim (formatted order.to_chain order.min_to_amount) [
    | none ↦ true
    | some required ↦ within_tolerance output required
  ]
]

pub check_profitability : Tokens → ℕ → ℕ → PriceAnswer → Order → Cache → Bool × Cache
unfolding get_exchange_rate is_profitable
check_profitability tokens now later answer order cache =
    let (rate, cache') =
      get_exchange_rate now later answer (token_name tokens order.from_token)
        (token_name tokens order.to_token) cache in
    (is_profitable rate order, cache')

-- The amount that createDestinationEscrow locks: `toFixed(18)` rounds to the nearest unit on
-- Ethereum, `Math.floor` down on Aptos.
abbrev pub units : Chain → Ratio → ℕ
units ethereum r = (2 * (r.num * unit_of ethereum) + r.den) / (2 * r.den)
units aptos r = r.num * unit_of aptos / r.den

unfoldable pub output_units : Ratio → Order → Option ℕ
output_units rate order = elim (expected_output rate order) [
  | none ↦ none
  | some none ↦ none
  | some (some output) ↦ some (units order.to_chain output)
]
