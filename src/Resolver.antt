-- ===== src/Resolver.antt =====
-- backend/resolver/src/services/ResolverServiceV2.ts: what part of an order a resolver fills.
-- Percentages are in units of 1/300 %, times are whole seconds; the rounding of floating-point
-- numbers is not modelled, so a share is exact where the number of resolvers divides 30000. The list
-- of active resolvers holds texts, as the order engine's schema has it, so the resolver's number
-- itself is never in it. The auction of backend/resolver/src/utils/dutchAuction.ts is, but for its
-- imports, the order engine's.
-- `balance` is what the chain answers, `none` where the call throws; `current` is what the order
-- engine answers; `now` and `later` are the two readings of the clock.
pub mod Share
pub mod Overfill
pub mod Prices
pub mod Opening
pub mod Signed
pub mod Settlement
pub mod Monitoring
pub mod PartialFill
pub mod Balances
pub mod FillIndex
pub mod Intake
mod Tests
use fusion_plus_aptos_extens.Base.{
  ℕ, zero, suc, ◌+◌, ◌-◌, ◌*◌, ◌/◌, String, Bool, true, false, not, ◌&&◌, ◌||◌, Option, none, some,
  List, [], ◌∷◌, any, length, ltb, leb, ◌==◌, str_eq, if◌then◌else◌,
}
use fusion_plus_aptos_extens.Amount.{big_int}
use fusion_plus_aptos_extens.Order.{DutchAuction, Order}
use fusion_plus_aptos_extens.Auction.{
  AuctionStatus, get_auction_status, ratio_lt, ratio_ge, ratio_gt, Ratio,
}
use fusion_plus_aptos_extens.Secrets.{partial_of}

pub record Resolver : Type 0 where
  pub name : String
  pub port : ℕ

pub data Strategy : Type 0 where
  aggressive patient opportunistic : Strategy

unfoldable pub get_resolver_strategy : Resolver → Strategy
get_resolver_strategy r =
    if str_eq r.name "Resolver-1" || r.port == 8081
    then aggressive
    else if str_eq r.name "Resolver-2" || r.port == 8082
    then patient
    else opportunistic

unfoldable pub get_resolver_index : Resolver → ℕ
get_resolver_index r =
    if str_eq r.name "Resolver-1" || r.port == 8081
    then 0
    else if str_eq r.name "Resolver-2" || r.port == 8082
    then 1
    else 2

-- `resolverNumber.toString()`, where the number is one more than the index.
abbrev pub number_text : ℕ → String
number_text zero = "1"
number_text (suc zero) = "2"
number_text (suc (suc _)) = "3"

abbrev pub id_text : ℕ → String
id_text zero = "resolver-1"
id_text (suc zero) = "resolver-2"
id_text (suc (suc _)) = "resolver-3"

-- `order.activeResolvers || []`
abbrev pub active_resolvers : Order → List String
active_resolvers order = elim order.active_resolvers [ none ↦ [] | some names ↦ names ]

-- `activeResolvers.length || 3`
unfoldable pub active_count : List String → ℕ
active_count [] = 3
active_count (name ∷ names) = suc (length names)

abbrev pub includes : String → List String → Bool
includes name names = any (λ n. str_eq n name) names

-- With a list, the resolver must be on it.
unfoldable pub is_active_resolver : ℕ → List String → Bool
is_active_resolver index [] = true
is_active_resolver index (name ∷ names) =
    includes (number_text index) (name ∷ names) || includes (id_text index) (name ∷ names)

abbrev pub partial_enabled : Order → Bool
partial_enabled order = order.partial_fill_allowed || order.partial_fill_enabled

-- The share of one of `count` resolvers.
unfoldable pub base_share : ℕ → ℕ
base_share count = if count == 1 then 15000 else if count == 2 then 15000 else 30000 / count

-- `none` where the resolver skips the order.
unfoldable pub base_fill : Order → ℕ → ℕ → ℕ → Option ℕ
base_fill order index current count =
    if partial_enabled order
    then some (base_share count)
    else if not (index == 0)
    then none
    else if current == 0
    then some 30000
    else none

-- `auctionStatus.nextRateDropIn < 5`; NaN is not.
abbrev drop_soon : Option ℕ → Bool
drop_soon none = false
drop_soon (some seconds) = ltb seconds 5

unfoldable pub should_fill_now : Strategy → AuctionStatus → Bool → Bool
should_fill_now aggressive status partially_filled = ratio_lt status.percent_complete 40
should_fill_now patient status partially_filled =
    if partially_filled
    then ratio_ge status.percent_complete 5
    else ratio_gt status.percent_complete 60
should_fill_now opportunistic status partially_filled =
    drop_soon status.next_rate_drop_in
    || (if partially_filled
        then ratio_ge status.percent_complete 3
        else ratio_gt status.percent_complete 30 && ratio_lt status.percent_complete 80)

-- `order.dutchAuction?.enabled`
abbrev pub enabled_auction : Order → Option DutchAuction
enabled_auction order = elim order.dutch_auction [
  | none ↦ none
  | some a ↦ if a.enabled then some a else none
]

-- Whether the strategy lets the resolver fill; the percentage here is the one in the order.
unfoldable pub is_good_time : Resolver → Order → ℕ → Bool
is_good_time r order now = elim (enabled_auction order) [
  | none ↦ true
  | some a ↦
      should_fill_now (get_resolver_strategy r) (get_auction_status a now)
        (ltb 0 order.filled_percentage)
]

-- `indexOf`; `none` is -1.
unfoldable pub index_of : String → List String → Option ℕ
index_of name [] = none
index_of name (n ∷ names) =
    let rest = index_of name names in
    if str_eq n name then some 0 else elim rest [ none ↦ none | some i ↦ some (suc i) ]

abbrev or_else : Option ℕ → Option ℕ → Option ℕ
or_else none other = other
or_else (some i) other = some i

-- The resolver's position among the active ones.
unfoldable pub active_index : ℕ → List String → Option ℕ
active_index index [] = some index
active_index index (name ∷ names) =
    or_else (index_of (number_text index) (name ∷ names)) (index_of (id_text index) (name ∷ names))

abbrev pub is_whole : Order → ℕ → Bool
is_whole order base = not (partial_enabled order) && (base == 30000)

unfoldable pub start_fill : Order → ℕ → ℕ → ℕ
start_fill order base i = if is_whole order base then 0 else base * i

unfoldable pub end_fill : Order → ℕ → ℕ → ℕ → ℕ
end_fill order base count i =
    if is_whole order base then 30000 else if i == count - 1 then 30000 else base * (i + 1)

abbrev pub min_ℕ : ℕ → ℕ → ℕ
min_ℕ a b = if leb a b then a else b

-- Before its turn a resolver fills only in an auction that went on without the earlier ones. An
-- end before `current` gives 0 here too.
unfoldable pub fallback_fill : Order → ℕ → ℕ → ℕ → ℕ → ℕ
fallback_fill order base last current later = elim (enabled_auction order) [
  | none ↦ 0
  | some a ↦
      let complete = (get_auction_status a later).percent_complete in
      if ratio_gt complete 15 || ltb 0 current && ratio_gt complete 8
      then min_ℕ (last - current) base
      else 0
]

-- What the resolver at position `i` of `count` fills, with `required` for the whole order.
unfoldable pub share_fill : Order → ℕ → ℕ → ℕ → ℕ → ℕ → ℕ → ℕ → ℕ
share_fill order balance required base count i current later =
    if ltb current (start_fill order base i)
    then fallback_fill order base (end_fill order base count i) current later
    else if leb (end_fill order base count i) current
    then 0
    else if ltb balance (partial_of required base)
    then 0
    else base

unfoldable pub calculate_optimal_fill_percentage : Resolver → Order → Option ℕ → ℕ → ℕ → ℕ → ℕ
calculate_optimal_fill_percentage r order none current now later = 0
calculate_optimal_fill_percentage r order (some balance) current now later =
    let index = get_resolver_index r in
    let active = active_resolvers order in
    let count = active_count active in
    elim (big_int order.min_to_amount) [
      | none ↦ 0
      | some required ↦
          if not (is_active_resolver index active)
          then 0
          else elim (base_fill order index current count) [
            | none ↦ 0
            | some base ↦
                if not (is_good_time r order now) then 0 else elim (active_index index active) [
                  | none ↦ 0
                  | some i ↦ share_fill order balance required base count i current later
                ]
          ]
    ]
