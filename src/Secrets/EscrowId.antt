-- ===== src/Secrets/EscrowId.antt =====
-- The escrow ids of an order's partial fills.
use fusion_plus_aptos_extens.Base.{ℕ, String, ◌≡◌, List, [], ◌∷◌, ◌++◌}
use fusion_plus_aptos_extens.Amount.Roundtrip.{to_string-injective}
use fusion_plus_aptos_extens.Signature.{codes}
use fusion_plus_aptos_extens.Secrets.{generate_partial_escrow_id}

append-injective : (a x y : List ℕ) → a ++ x ≡ a ++ y → x ≡ y
append-injective [] x y e = e
append-injective (c ∷ a) x y e = append-injective a x y (cc e)

-- If the hash has no collisions, two fills of one order have the same escrow id only if they have
-- the same index.
pub generate_partial_escrow_id-injective :
    (keccak_id : List ℕ → String)
    → ((x y : List ℕ) → keccak_id x ≡ keccak_id y → x ≡ y)
    → (base_order_id : String) (i j : ℕ)
    → generate_partial_escrow_id keccak_id base_order_id i
      ≡ generate_partial_escrow_id keccak_id base_order_id j
    → i ≡ j
unfolding generate_partial_escrow_id
generate_partial_escrow_id-injective keccak_id no_collision base i j e = to_string-injective i j (
    append-injective (codes "-partial-") _ _
      (append-injective (codes base) _ _ (no_collision _ _ e)))
