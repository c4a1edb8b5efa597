-- ===== src/Amount/Roundtrip.antt =====
-- `BigInt`, `toString` and `===` on decimal texts.
use fusion_plus_aptos_extens.Base.{
  ℕ, zero, suc, ◌+◌, ◌/◌, ◌%◌, ◌<◌, ◌≡◌, ap, ◌↔◌, true, [], ◌∷◌, some, Bool-cases, inl, inr, arith,
  ltb,
}
use fusion_plus_aptos_extens.Amount.{Amount, big_int_from, big_int, digits, to_string, amount_eq}

-- Enough fuel: reading the digits of `n` from 0 is reading the rest from `n`.
big_int_from-digits :
    (fuel n : ℕ) (text : Amount)
    → n < fuel
    → big_int_from 0 (digits fuel n text) ≡ big_int_from n text
unfolding digits big_int_from
big_int_from-digits zero n text h = absurd (omega arith)
big_int_from-digits (suc fuel) n text h = elim (Bool-cases (ltb n 10)) [
  | inl small ↦ ground arith
  | inr big ↦ ground (arith, big_int_from-digits fuel (n / 10) ((48 + n % 10) ∷ text))
]

-- `BigInt(n.toString())` is `n`, for every `n`.
pub big_int-to_string : (n : ℕ) → big_int (to_string n) ≡ some n
unfolding big_int to_string
big_int-to_string n = big_int_from-digits (suc n) n [] (omega arith)

pub to_string-injective : (a b : ℕ) → to_string a ≡ to_string b → a ≡ b
to_string-injective a b h = cc (big_int-to_string a, big_int-to_string b, ap big_int h)

pub amount_eq_iff : (a b : Amount) → (amount_eq a b ≡ true) ↔ (a ≡ b)
unfolding amount_eq
amount_eq_iff [] [] = ground arith
amount_eq_iff [] (d ∷ b) = ground arith
amount_eq_iff (c ∷ a) [] = ground arith
amount_eq_iff (c ∷ a) (d ∷ b) = ground (arith, amount_eq_iff a b)
