-- ===== src/Secrets/Tests.antt =====
-- Concrete fills of a partial-fill order.
use fusion_plus_aptos_extens.Base.{
  ℕ, zero, suc, ◌+◌, ◌*◌, ◌/◌, ◌≤◌, ◌<◌, ◌≡◌, refl, ap, arith, String, List, [], ◌∷◌,
}
use Prim.Native.Char.{Char, code}
use text.Mathlib.TextLemmas.{tail-eq_of_cons-eq}
use fusion_plus_aptos_extens.Secrets.{get_secret_index, fill_thresholds}
use fusion_plus_aptos_extens.Secrets.Index.{get_secret_index-fill_thresholds}

get_secret_index-fill_thresholds_example :
    (get_secret_index 10000 (fill_thresholds 4) < 4)
    × (get_secret_index 10000 (fill_thresholds 4) * 30000 / 4 < 10000)
    × (10000 ≤ (get_secret_index 10000 (fill_thresholds 4) + 1) * 30000 / 4)
get_secret_index-fill_thresholds_example =
    get_secret_index-fill_thresholds 4 10000 (omega arith) (omega arith) (omega arith)

-- A hash without collisions: each number in unary, closed by another letter.
abbrev letter_a : Char
letter_a = "a"

abbrev letter_b : Char
letter_b = "b"

abbrev unary : ℕ → String → String
unary zero rest = String.◌∷◌ letter_b rest
unary (suc n) rest = String.◌∷◌ letter_a (unary n rest)

abbrev plain_id : List ℕ → String
plain_id [] = String.[]
plain_id (n ∷ ns) = unary n (plain_id ns)

abbrev first_code : String → ℕ
first_code String.[] = 0
first_code (String.◌∷◌ c s) = code c

unary-injective : (n m : ℕ) (x y : String) → unary n x ≡ unary m y → (n ≡ m) × (x ≡ y)
unary-injective zero zero x y h = (refl, tail-eq_of_cons-eq h)
unary-injective zero (suc m) x y h = absurd (omega (arith, ap first_code h))
unary-injective (suc n) zero x y h = absurd (omega (arith, ap first_code h))
unary-injective (suc n) (suc m) x y h =
    let (e, f) = unary-injective n m x y (tail-eq_of_cons-eq h) in (ap suc e, f)

unary-some : (n : ℕ) (x : String) → 0 < first_code (unary n x)
unary-some zero x = omega arith
unary-some (suc n) x = omega arith

plain_id-injective : (x y : List ℕ) → plain_id x ≡ plain_id y → x ≡ y
plain_id-injective [] [] h = refl
plain_id-injective [] (m ∷ y) h = absurd (omega (arith, ap first_code h, unary-some m (plain_id y)))
plain_id-injective (n ∷ x) [] h = absurd (omega (arith, ap first_code h, unary-some n (plain_id x)))
plain_id-injective (n ∷ x) (m ∷ y) h =
    let (e, f) = unary-injective n m (plain_id x) (plain_id y) h in
    rw (e, plain_id-injective x y f) refl
