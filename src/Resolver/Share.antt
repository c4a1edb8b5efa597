-- ===== src/Resolver/Share.antt =====
-- backend/resolver/src/services/ResolverServiceV2.ts, calculateOptimalFillPercentage: the share of a
-- resolver against what is left of an order.
use native.Mathlib.Nat.{lt_of_mul-lt-mul_left, mul-le-mul_left, mul-suc, div-mul-le_self}
use fusion_plus_aptos_extens.Base.{
  ℕ, ◌+◌, ◌-◌, ◌*◌, ◌/◌, ◌≤◌, ◌<◌, ◌≡◌, ◌⊎◌, inl, inr, refl, arith, String, Option, none, some,
  List, [], ◌∷◌, length, Bool-cases, Option-cases,
}
use fusion_plus_aptos_extens.Amount.{big_int}
use fusion_plus_aptos_extens.Order.{Order}
use fusion_plus_aptos_extens.Resolver.{
  Resolver, get_resolver_index, active_resolvers, active_count, is_active_resolver, base_share,
  base_fill, is_good_time, index_of, active_index, end_fill, fallback_fill, share_fill,
  calculate_optimal_fill_percentage, number_text, id_text,
}

-- One share more fits where one begins below the whole.
one_more : (b m k : ℕ) → b * m ≡ 30000 → b * k < 30000 → b * k + b ≤ 30000
one_more b m k whole h =
    let below : k < m = lt_of_mul-lt-mul_left b (omega arith) in
    (omega (arith, mul-le-mul_left b below, mul-suc b k))

index_of-lt :
    (name : String) (names : List String) (i : ℕ) → index_of name names ≡ some i → i < length names
unfolding index_of
index_of-lt name [] i h = cc
index_of-lt name (n ∷ names) i h = elim (Option-cases (index_of name names)) [
  | inl none_later ↦ (ground (arith, none_later))
  | inr (j, later) ↦ (ground (arith, later, index_of-lt name names j later))
]

get_resolver_index-lt : (r : Resolver) → get_resolver_index r < 3
unfolding get_resolver_index
get_resolver_index-lt r = (ground arith)

active_index-lt :
    (index : ℕ) (active : List String) (i : ℕ)
    → index < 3
    → active_index index active ≡ some i
    → i < active_count active
unfolding active_index active_count
active_index-lt index [] i h e = (ground arith)
active_index-lt index (name ∷ names) i h e =
    elim (Option-cases (index_of (number_text index) (name ∷ names))) [
      | inl missing ↦ index_of-lt (id_text index) (name ∷ names) i (rw missing at (e))
      | inr (j, found) ↦
          (ground
            (arith, found, rw found at (e), index_of-lt (number_text index) (name ∷ names) j found))
    ]

base_share-fits : (count i : ℕ) → i < count → (i ≡ count - 1) ⊎ (base_share count * (i + 1) ≤ 30000)
unfolding base_share
base_share-fits count i h =
    let below : i + 1 ≤ count = omega (arith, h) in
    (ground (arith, mul-le-mul_left (30000 / count) below, div-mul-le_self 30000 count))

end_fill-le :
    (order : Order) (index current count base i : ℕ)
    → i < count
    → base_fill order index current count ≡ some base
    → end_fill order base count i ≤ 30000
unfolding base_fill end_fill
end_fill-le order index current count base i h e = (ground (arith, base_share-fits count i h))

fallback_fill-le :
    (order : Order) (base last current later : ℕ)
    → fallback_fill order base last current later ≤ last - current
unfolding fallback_fill
fallback_fill-le order base last current later = (ground arith)

share_fill-fits :
    (order : Order) (balance required base count i current later : ℕ)
    → current ≤ 30000
    → end_fill order base count i ≤ 30000
    → (current < 30000 → current + base ≤ 30000)
    → current + share_fill order balance required base count i current later ≤ 30000
unfolding share_fill
share_fill-fits order balance required base count i current later whole end room =
    (ground (arith, fallback_fill-le order base (end_fill order base count i) current later))

-- The resolver fills nothing, or its share.
calculate-cases :
    (r : Resolver) (order : Order) (balance : Option ℕ) (current now later : ℕ)
    → (calculate_optimal_fill_percentage r order balance current now later ≡ 0)
      ⊎ ((held : ℕ) × (required : ℕ) × (base : ℕ) × (i : ℕ) × (base_fill order
              (get_resolver_index r)
              current
              (active_count (active_resolvers order))
            ≡ some base)
          × (active_index (get_resolver_index r) (active_resolvers order) ≡ some i)
          × (calculate_optimal_fill_percentage r order balance current now later
              ≡ share_fill order held required base
                  (active_count (active_resolvers order))
                  i
                  current
                  later))
unfolding calculate_optimal_fill_percentage
calculate-cases r order none current now later = inl refl
calculate-cases r order (some held) current now later =
    elim (Option-cases (big_int order.min_to_amount)) [
      | inl bad ↦ inl (rw (bad, calculate_optimal_fill_percentage) refl)
      | inr (required, good) ↦
          elim (Bool-cases (is_active_resolver (get_resolver_index r) (active_resolvers order))) [
            | inr out ↦ inl (rw (good, out, calculate_optimal_fill_percentage) refl)
            | inl active ↦
                elim (Option-cases (
                  base_fill order (get_resolver_index r) current
                    (active_count (active_resolvers order)))) [
                      | inl skip ↦
                          inl (rw (good, active, skip, calculate_optimal_fill_percentage) refl)
                      | inr (base, share) ↦ elim (Bool-cases (is_good_time r order now)) [
                        | inr wait ↦
                            inl (
                              rw (good, active, share, wait, calculate_optimal_fill_percentage)
                                refl)
                        | inl ready ↦
                            elim (Option-cases
                              (active_index (get_resolver_index r) (active_resolvers order))) [
                                | inl lost ↦ inl (
                                    rw
                                      (
                                        good, active, share, ready, lost,
                                        calculate_optimal_fill_percentage,
                                      )
                                      refl)
                                | inr (i, position) ↦ inr (
                                  held,
                                  required,
                                  base,
                                  i,
                                  share,
                                  position,
                                  (rw
                                      (
                                        good, active, share, ready, position,
                                        calculate_optimal_fill_percentage,
                                      )
                                      refl),
                                )
                              ]
                      ]
                    ]
          ]
    ]

base_fill-room :
    (order : Order) (index current count base k m : ℕ)
    → base_fill order index current count ≡ some base
    → base_share count * m ≡ 30000
    → current ≡ base_share count * k
    → current < 30000
    → current + base ≤ 30000
unfolding base_fill
base_fill-room order index current count base k m e whole steps room =
    (ground (arith, one_more (base_share count) m k whole (omega (arith, steps, room))))

-- When the order was filled in whole shares of its number of resolvers, of which a whole number
-- makes 100 %, and not beyond 100 %, then what any resolver adds, in its turn or as a fallback,
-- does not go beyond 100 %, whatever its balance, the strategy and the state of the auction.
pub calculate_optimal_fill_percentage-fits :
    (r : Resolver) (order : Order) (balance : Option ℕ) (current now later k m : ℕ)
    → base_share (active_count (active_resolvers order)) * m ≡ 30000
    → current ≡ base_share (active_count (active_resolvers order)) * k
    → current ≤ 30000
    → current + calculate_optimal_fill_percentage r order balance current now later ≤ 30000
calculate_optimal_fill_percentage-fits r order balance current now later k m whole steps room =
    elim (calculate-cases r order balance current now later) [
      | inl nothing ↦ (rw nothing (omega arith))
      | inr (held, required, base, i, share, position, e) ↦
          let count = active_count (active_resolvers order) in
          let inside =
            active_index-lt (get_resolver_index r) (active_resolvers order) i
              (get_resolver_index-lt r) position in
          (rw e (
            share_fill-fits order held required base count i current later room
              (end_fill-le order (get_resolver_index r) current count base i inside share)
              (base_fill-room order (get_resolver_index r) current count base k m share whole
                steps)))
    ]
