-- ===== src/Resolver/Balances.antt =====
-- backend/resolver/src/services/ResolverServiceV2.ts and BalanceTracker.ts: the balances that the
-- resolver reads from the chains, and the percentage that it reads from the order engine. What the
-- chains and the order engine answer is a parameter, `none` where a call throws; what is only logged
-- is returned.
use fusion_plus_aptos_extens.Base.{
  ℕ, ◌+◌, ◌*◌, ◌^◌, ◌≤◌, ◌≡◌, arith, String, Bool, true, false, ◌||◌, Option, none, some,
  Option-cases, inl, inr, ltb, leb, str_eq, if◌then◌else◌,
}
use fusion_plus_aptos_extens.Base.Dict.{Dict, lookup, insert}
use fusion_plus_aptos_extens.Base.Int.{ℤ, sub_ℕ}
use fusion_plus_aptos_extens.Amount.{Amount, big_int}
use fusion_plus_aptos_extens.Order.{ethereum, aptos, Order}

-- The answers for the resolver's own addresses. `aptos_balance` is the text of the view call, `none`
-- where the call throws or its response is not ok.
pub record Wallet : Type 0 where
  pub zero_address : String
  pub ether : Option ℕ
  pub token : String → Option ℕ
  pub aptos_balance : Option Amount

-- The chain service answers for Ethereum with a number and for Aptos with a text.
unfoldable pub get_destination_balance : Wallet → Order → Option ℕ
get_destination_balance wallet order = elim order.to_chain [
  | ethereum ↦ wallet.token order.to_token
  | aptos ↦ elim wallet.aptos_balance [ none ↦ none | some text ↦ big_int text ]
]

abbrev at_least : Option ℕ → Option ℕ → Bool
at_least none required = false
at_least (some balance) none = false
at_least (some balance) (some required) = leb required balance

-- `ethers.parseEther('0.01')`, for gas.
abbrev pub gas_reserve : ℕ
gas_reserve = 10 ^ 16

abbrev with_gas : Option ℕ → Option ℕ
with_gas none = none
with_gas (some n) = some (n + gas_reserve)

-- An error is logged and gives false.
unfoldable pub check_balance : Wallet → Order → Bool
check_balance wallet order = elim order.to_chain [
  | ethereum ↦
      if str_eq order.to_token wallet.zero_address
      then at_least wallet.ether (with_gas (big_int order.min_to_amount))
      else at_least (wallet.token order.to_token) (big_int order.min_to_amount)
  | aptos ↦ elim wallet.aptos_balance [
    | none ↦ false
    | some text ↦ at_least (big_int text) (big_int order.min_to_amount)
  ]
]

-- The order engine's answer: whether there was one, whether it has an order, and the order's
-- percentage.
unfoldable pub get_current_fill_percentage : Option (Option ℕ) → ℕ
get_current_fill_percentage none = 0
get_current_fill_percentage (some none) = 0
get_current_fill_percentage (some (some percentage)) = percentage

abbrev or_zero : Option ℕ → ℕ
or_zero none = 0
or_zero (some n) = n

-- What trackBalanceChange logs: the changes if there was a balance before, and the warnings.
pub record Report : Type 0 where
  pub eth_change : Option ℤ
  pub weth_change : Option ℤ
  pub low_eth : Bool
  pub low_weth : Bool

abbrev change : Bool → ℕ → ℕ → Option ℤ
change known balance before = if known then some (sub_ℕ balance before) else none

unfoldable pub track_balance_change : ℕ → ℕ → Dict ℕ → Report × Dict ℕ
track_balance_change eth weth last =
    let eth_before = or_zero (lookup "ETH" last) in
    let weth_before = or_zero (lookup "WETH" last) in
    let known = ltb 0 eth_before || ltb 0 weth_before in
    (
      record {
        eth_change = change known eth eth_before;
        weth_change = change known weth weth_before;
        low_eth = ltb eth (10 ^ 16);
        low_weth = ltb weth (5 * 10 ^ 16);
      },
      insert "WETH" weth (insert "ETH" eth last),
    )

-- An order whose balance check passes has a minimum amount that parses, and the balance of its
-- destination token covers it, unless that token is ether itself.
check_balance-covers :
    (wallet : Wallet) (order : Order)
    → check_balance wallet order ≡ true
    → str_eq order.to_token wallet.zero_address ≡ false
    → (balance : ℕ) × (required : ℕ) × (get_destination_balance wallet order ≡ some balance)
      × (big_int order.min_to_amount ≡ some required)
      × (required ≤ balance)
unfolding check_balance get_destination_balance
check_balance-covers wallet order h other =
    elim (Option-cases (get_destination_balance wallet order)) [
      | inl missing ↦ absurd (ground (arith, missing))
      | inr (balance, held) ↦ elim (Option-cases (big_int order.min_to_amount)) [
        | inl bad ↦ absurd (ground (arith, bad))
        | inr (required, good) ↦ (balance, required, held, good, (ground (arith, held, good)))
      ]
    ]
