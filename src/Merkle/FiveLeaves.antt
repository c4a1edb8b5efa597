-- ===== src/Merkle/FiveLeaves.antt =====
-- The tree of five leaves, which generateSecrets of frontend/src/utils/partialFillSecrets.ts makes
-- for its default of four parts.
use fusion_plus_aptos_extens.Base.{◌≡◌, ◌≢◌, [], ◌∷◌, some}
use mathlib.Core.Option.{some-injective}
use fusion_plus_aptos_extens.Merkle.{
  next_level, build_tree, tree, merkle_root, merkle_proof, computed_hash,
}

-- With a hash that has no collisions, and a last leaf that is not the node above the first four, the
-- contract rejects the proof of the last leaf of five.
pub last_leaf-rejected :
    {H : Type 0} (hash_pair : H → H → H)
    → ((a b c d : H) → hash_pair a b ≡ hash_pair c d → (a ≡ c) × (b ≡ d))
    → (a b c d e : H) → e ≢ hash_pair (hash_pair a b) (hash_pair c d)
    → let levels = tree hash_pair (a ∷ b ∷ c ∷ d ∷ e ∷ []) in
      merkle_root levels ≢ some (computed_hash hash_pair e 4 (merkle_proof levels 4))
unfolding build_tree next_level merkle_root merkle_proof computed_hash
last_leaf-rejected hash_pair inj a b c d e n h =
    let first = hash_pair (hash_pair a b) (hash_pair c d) in
    n ((inj first e e first (some-injective (hash_pair first e) (hash_pair e first) h)).1)
