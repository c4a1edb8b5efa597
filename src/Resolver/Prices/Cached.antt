-- ===== src/Resolver/Prices/Cached.antt =====
-- backend/resolver/src/services/PriceService.ts: how long a fetched rate is used.
use fusion_plus_aptos_extens.Base.{
  ℕ, ◌-◌, ◌<◌, String, true, ◌≡◌, refl, ap, arith, none, some, List, [], ◌∷◌, All, map,
}
use fusion_plus_aptos_extens.Amount.{amount_eq}
use fusion_plus_aptos_extens.Auction.{Ratio}
use fusion_plus_aptos_extens.Resolver.Prices.{
  CachedRate, Cache, cache_get, cache_set, pair_of, PriceAnswer, is_cross_pair, fresh,
  fetch_cross_chain_rate, get_exchange_rate,
}

amount_eq_refl : (a : List ℕ) → amount_eq a a ≡ true
unfolding amount_eq
amount_eq_refl [] = refl
amount_eq_refl (c ∷ a) = ground (arith, amount_eq_refl a)

cache_get-cache_set :
    (key : List ℕ) (entry : CachedRate) (cache : Cache)
    → cache_get key (cache_set key entry cache) ≡ some entry
cache_get-cache_set key entry [] = rw (amount_eq_refl key) refl
cache_get-cache_set key entry ((k, old) ∷ cache) =
    ground (arith, cache_get-cache_set key entry cache)

-- Calls for one pair, each with its readings of the clock and what the price API would answer.
abbrev pub Call : Type 0
Call = ℕ × ℕ × PriceAnswer

abbrev pub ask_all : String → String → List Call → Cache → List Ratio × Cache
ask_all from to [] cache = ([], cache)
ask_all from to ((now, later, answer) ∷ calls) cache =
    let (rate, cache') = get_exchange_rate now later answer from to cache in
    let (rates, cache'') = ask_all from to calls cache' in (rate ∷ rates, cache'')

abbrev pub Within : ℕ → List Call → Type 0
Within later calls = All (λ c. c.0 - later < 30000) calls

kept :
    (from to : String) (rate : Ratio) (later : ℕ) (cache : Cache)
    → cache_get (pair_of from to) cache ≡ some (record { rate = rate; timestamp = later })
    → (calls : List Call) → Within later calls
    → ask_all from to calls cache ≡ (map (λ _. rate) calls, cache)
unfolding get_exchange_rate
kept from to rate later cache held [] soon = refl
kept from to rate later cache held ((now, l, answer) ∷ calls) soon =
    ground (arith, held, kept from to rate later cache held calls soon.1)

fetch_lem :
    (now later : ℕ) (answer : PriceAnswer) (from to : String) (cache : Cache)
    → is_cross_pair from to ≡ true
    → fresh now (cache_get (pair_of from to) cache) ≡ none
    → get_exchange_rate now later answer from to cache ≡ (
      fetch_cross_chain_rate answer from to,
      cache_set
          (pair_of from to)
          (record { rate = fetch_cross_chain_rate answer from to; timestamp = later })
          cache,
    )
unfolding get_exchange_rate
fetch_lem now later answer from to cache cross old = rw (get_exchange_rate, old, cross) refl

-- A rate between the two chains that is not in the cache, or is too old, is fetched. All calls for
-- the pair in the next thirty seconds give the fetched rate and leave the cache alone, whatever the
-- price API would answer: a pair is fetched at most once in thirty seconds. The fallback that stands
-- for a failed answer is kept as long.
pub get_exchange_rate_once :
    (now later : ℕ) (answer : PriceAnswer) (from to : String) (cache : Cache) (calls : List Call)
    → is_cross_pair from to ≡ true
    → fresh now (cache_get (pair_of from to) cache) ≡ none
    → Within later calls
    → ((get_exchange_rate now later answer from to cache).0 ≡ fetch_cross_chain_rate answer from to)
      × (ask_all from to calls (get_exchange_rate now later answer from to cache).1 ≡ (
        map (λ _. fetch_cross_chain_rate answer from to) calls,
        (get_exchange_rate now later answer from to cache).1,
      ))
get_exchange_rate_once now later answer from to cache calls cross old soon =
    let rate : Ratio = fetch_cross_chain_rate answer from to in
    let cache' : Cache =
      cache_set (pair_of from to) (record { rate = rate; timestamp = later }) cache in
    let fetched : get_exchange_rate now later answer from to cache ≡ (rate, cache') =
      fetch_lem now later answer from to cache cross old in
    (
      ap (λ p. p.0) fetched,
      rw fetched (
          kept from to rate later cache' (cache_get-cache_set (pair_of from to) _ cache) calls
            soon),
    )
