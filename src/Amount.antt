-- ===== src/Amount.antt =====
-- The decimal texts in which the services pass token amounts (`fromAmount`, `filledAmount`,
-- `amount`), with the JavaScript operations that the code applies to them: `BigInt(text)`,
-- `n.toString()` and `===`. A text is the list of its character codes. Texts with a sign, spaces or
-- a radix prefix, which `BigInt` also reads, are outside the model: here they are a SyntaxError.
-- Percentages are counted in units of 1/300 of a percent, so that a third of 100 % is exact.
pub mod Roundtrip
use fusion_plus_aptos_extens.Base.{
  ℕ, zero, suc, ◌+◌, ◌-◌, ◌*◌, ◌/◌, ◌%◌, Bool, true, false, ◌&&◌, List, [], ◌∷◌, Option, none, some,
  ltb, leb, ◌==◌, if◌then◌else◌,
}

abbrev pub Amount : Type 0
Amount = List ℕ

abbrev pub is_digit : ℕ → Bool
is_digit c = leb 48 c && leb c 57

-- The value read so far, and the rest of the text.
unfoldable pub big_int_from : ℕ → Amount → Option ℕ
big_int_from n [] = some n
big_int_from n (c ∷ text) =
    let rest = big_int_from (n * 10 + (c - 48)) text in if is_digit c then rest else none

-- `BigInt(text)`; `none` is the SyntaxError. The empty text is 0.
unfoldable pub big_int : Amount → Option ℕ
unfolding big_int_from
big_int text = big_int_from 0 text

-- The digits of `n` in front of `text`, with fuel.
unfoldable pub digits : ℕ → ℕ → Amount → Amount
digits zero n text = text
digits (suc fuel) n text =
    let rest = digits fuel (n / 10) ((48 + n % 10) ∷ text) in
    if ltb n 10 then (48 + n) ∷ text else rest

-- `n.toString()`
unfoldable pub to_string : ℕ → Amount
unfolding digits
to_string n = digits (suc n) n []

-- `a === b` on two texts.
unfoldable pub amount_eq : Amount → Amount → Bool
amount_eq [] [] = true
amount_eq [] (d ∷ b) = false
amount_eq (c ∷ a) [] = false
amount_eq (c ∷ a) (d ∷ b) = (c == d) && amount_eq a b

-- 1 % and 100 % in units of 1/300 %.
abbrev pub percent : ℕ
percent = 300

abbrev pub hundred : ℕ
hundred = 30000

-- `Math.floor(p)` of a percentage, in whole percents.
abbrev pub floor_percent : ℕ → ℕ
floor_percent p = p / 300
