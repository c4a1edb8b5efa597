-- ===== src/Merkle/Proofs.antt =====
-- The proofs that generateSecrets of frontend/src/utils/partialFillSecrets.ts makes, against the
-- check of the contract, verifyMerkleProof of FusionPlusGaslessEscrowV2.sol.
use fusion_plus_aptos_extens.Base.{
  ℕ, zero, suc, ◌+◌, ◌/◌, ◌%◌, ◌^◌, ◌≤◌, ◌<◌, ◌≡◌, refl, sym, ◌∙◌, ap, List, [], ◌∷◌, some, length,
  get_elem?, ◌==◌, if◌then◌else◌, arith,
}
use native.Mathlib.Numerals.{unary_clauses}
use fusion_plus_aptos_extens.Merkle.{
  next_level, build_tree, tree, merkle_root, sibling_index, merkle_proof, computed_hash,
}
use fusion_plus_aptos_extens.Merkle.Levels.{
  length-next_level, build_tree-root, build_tree-pair, next_level-pair, merkle_root-cons,
  merkle_proof-cons, get_elem?-lt, get_elem?-some,
}

module _ {H : Type 0} (hash_pair : H → H → H) where
  -- One step of the check: a node and its sibling, then the rest of the proof.
  step-computed_hash :
      (level : List H) (levels : List (List H)) (i : ℕ) (leaf b root : H)
      → get_elem? level (sibling_index i) ≡ some b
      → merkle_root levels ≡ some root
      → computed_hash hash_pair leaf i (merkle_proof (level ∷ levels) i)
        ≡ computed_hash hash_pair
            (if i % 2 == 0 then hash_pair leaf b else hash_pair b leaf)
            (i / 2)
            (merkle_proof levels (i / 2))
  unfolding computed_hash
  step-computed_hash level levels i leaf b root f r =
      rw (merkle_proof-cons level levels root i r, f) refl

  double : (k : ℕ) → 2 ^ suc k ≡ 2 ^ k + 2 ^ k
  double k = simp (unary_clauses) (omega arith)

  sibling-inside : (m n i : ℕ) → n ≡ m + m → i < n → sibling_index i < n
  sibling-inside m n i h l = ground arith

  build_tree-proof :
      (k fuel : ℕ) (level : List H) (i : ℕ) (leaf : H)
      → length level ≡ 2 ^ k
      → length level ≤ fuel
      → get_elem? level i ≡ some leaf
      → merkle_root (build_tree hash_pair fuel level)
        ≡ some (computed_hash hash_pair leaf i (merkle_proof (build_tree hash_pair fuel level) i))
  unfolding build_tree merkle_root merkle_proof computed_hash
  build_tree-proof k fuel [] i leaf n h e = cc
  build_tree-proof k zero (a ∷ level) i leaf n h e = absurd (omega arith)
  build_tree-proof k (suc fuel) (a ∷ []) zero leaf n h e = e
  build_tree-proof k (suc fuel) (a ∷ []) (suc i) leaf n h e = cc
  build_tree-proof zero (suc fuel) (a ∷ b ∷ level) i leaf n h e = absurd (omega arith)
  build_tree-proof (suc k) (suc fuel) (a ∷ b ∷ level) i leaf n h e =
      let here = a ∷ b ∷ level in
      let up = next_level hash_pair here in
      let levels = build_tree hash_pair fuel up in
      let (root, r) =
        build_tree-root hash_pair fuel up (omega (arith, length-next_level hash_pair here))
          (omega (arith, length-next_level hash_pair here)) in
      let (sibling, f) = get_elem?-lt here (sibling_index i) (
        sibling-inside (2 ^ k) (length here) i (omega (arith, double k))
          (get_elem?-some here i leaf e)) in
      let ih =
        build_tree-proof k fuel up (i / 2)
          (if i % 2 == 0 then hash_pair leaf sibling else hash_pair sibling leaf)
          (omega (arith, double k, length-next_level hash_pair here))
          (omega (arith, length-next_level hash_pair here))
          (next_level-pair hash_pair here i leaf sibling e f) in
      rw (build_tree-pair hash_pair fuel a b level) (
        merkle_root-cons here levels root r
        ∙ sym r
        ∙ ih
        ∙ ap some (sym (step-computed_hash here levels i leaf sibling root f r)))

  -- The proof of every leaf is accepted when the leaves are a power of two.
  pub tree-proof :
      (k : ℕ) (leaves : List H) (i : ℕ) (leaf : H)
      → length leaves ≡ 2 ^ k
      → get_elem? leaves i ≡ some leaf
      → merkle_root (tree hash_pair leaves)
        ≡ some (computed_hash hash_pair leaf i (merkle_proof (tree hash_pair leaves) i))
  tree-proof k leaves i leaf n e =
      build_tree-proof k (length leaves) leaves i leaf n (omega arith) e
