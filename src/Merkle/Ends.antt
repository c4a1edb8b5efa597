-- ===== src/Merkle/Ends.antt =====
-- frontend/src/utils/partialFillSecrets.ts, generateSecrets: the loop over the levels ends.
use fusion_plus_aptos_extens.Base.{
  ℕ, zero, suc, ◌≤◌, ◌<◌, ◌≡◌, refl, ap, List, [], ◌∷◌, length, arith,
}
use fusion_plus_aptos_extens.Merkle.{next_level, build_tree, tree}
use fusion_plus_aptos_extens.Merkle.Levels.{length-next_level, build_tree-pair}

abbrev pub top : {H : Type 0} → List (List H) → List H
top [] = []
top (level ∷ []) = level
top (level ∷ above ∷ levels) = top (above ∷ levels)

module _ {H : Type 0} (hash_pair : H → H → H) where
  build_tree-fuel :
      (f g : ℕ) (level : List H)
      → length level ≤ f
      → length level ≤ g
      → build_tree hash_pair f level ≡ build_tree hash_pair g level
  unfolding build_tree
  build_tree-fuel zero zero [] h k = refl
  build_tree-fuel zero (suc g) [] h k = refl
  build_tree-fuel (suc f) zero [] h k = refl
  build_tree-fuel (suc f) (suc g) [] h k = refl
  build_tree-fuel zero g (a ∷ level) h k = absurd (omega arith)
  build_tree-fuel (suc f) zero (a ∷ level) h k = absurd (omega arith)
  build_tree-fuel (suc f) (suc g) (a ∷ []) h k = refl
  build_tree-fuel (suc f) (suc g) (a ∷ b ∷ level) h k =
      rw (build_tree-pair hash_pair f a b level, build_tree-pair hash_pair g a b level)
        (ap (λ levels. (a ∷ b ∷ level) ∷ levels)
          (build_tree-fuel f g (next_level hash_pair (a ∷ b ∷ level))
            (omega (arith, length-next_level hash_pair (a ∷ b ∷ level)))
            (omega (arith, length-next_level hash_pair (a ∷ b ∷ level)))))

  top-cons :
      (level : List H) (levels : List (List H)) (root : H)
      → top levels ≡ root ∷ []
      → top (level ∷ levels) ≡ root ∷ []
  top-cons level [] root e = cc
  top-cons level (above ∷ levels) root e = e

  build_tree-top :
      (fuel : ℕ) (level : List H)
      → length level ≤ fuel
      → 0 < length level
      → (root : H) × (top (build_tree hash_pair fuel level) ≡ root ∷ [])
  unfolding build_tree
  build_tree-top zero level h k = absurd (omega arith)
  build_tree-top (suc fuel) [] h k = absurd (omega arith)
  build_tree-top (suc fuel) (a ∷ []) h k = (a, refl)
  build_tree-top (suc fuel) (a ∷ b ∷ level) h k =
      let (root, e) =
        build_tree-top fuel (next_level hash_pair (a ∷ b ∷ level))
          (omega (arith, length-next_level hash_pair (a ∷ b ∷ level)))
          (omega (arith, length-next_level hash_pair (a ∷ b ∷ level))) in
      (
        root,
        rw (build_tree-pair hash_pair fuel a b level) (
            top-cons (a ∷ b ∷ level)
              (build_tree hash_pair fuel (next_level hash_pair (a ∷ b ∷ level))) root e),
      )

  -- For a leaf at least, the loop ends within as many rounds as there are leaves: more rounds change
  -- nothing, and the top level that it ends with is the root alone.
  pub tree-ends :
      (leaves : List H) (rounds : ℕ)
      → 0 < length leaves
      → length leaves ≤ rounds
      → (build_tree hash_pair rounds leaves ≡ tree hash_pair leaves)
        × ((root : H) × (top (tree hash_pair leaves) ≡ root ∷ []))
  tree-ends leaves rounds some_leaf enough = (
    build_tree-fuel rounds (length leaves) leaves enough (omega arith),
    build_tree-top (length leaves) leaves (omega arith) some_leaf,
  )
