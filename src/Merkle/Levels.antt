-- ===== src/Merkle/Levels.antt =====
-- The levels of the tree: their lengths, the top level, and one step up from a pair.
use fusion_plus_aptos_extens.Base.{
  ℕ, zero, suc, ◌+◌, ◌/◌, ◌%◌, ◌≤◌, ◌<◌, ◌≡◌, refl, List, [], ◌∷◌, some, length, get_elem?, ◌==◌,
  if◌then◌else◌, arith,
}
use fusion_plus_aptos_extens.Merkle.{
  next_level, build_tree, merkle_root, sibling_index, merkle_proof, push_some,
}

module _ {H : Type 0} where
  pub merkle_root-cons :
      (level : List H) (levels : List (List H)) (root : H)
      → merkle_root levels ≡ some root
      → merkle_root (level ∷ levels) ≡ some root
  unfolding merkle_root
  merkle_root-cons level [] root e = cc
  merkle_root-cons level (above ∷ levels) root e = e

  pub merkle_proof-cons :
      (level : List H) (levels : List (List H)) (root : H) (i : ℕ)
      → merkle_root levels ≡ some root
      → merkle_proof (level ∷ levels) i
        ≡ push_some (get_elem? level (sibling_index i)) (merkle_proof levels (i / 2))
  unfolding merkle_proof merkle_root
  merkle_proof-cons level [] root i e = cc
  merkle_proof-cons level (above ∷ levels) root i e = refl

pub sibling_index-suc : (i : ℕ) → sibling_index (suc (suc i)) ≡ suc (suc (sibling_index i))
sibling_index-suc i = ground arith

pub get_elem?-lt :
    {A : Type 0} (xs : List A) (i : ℕ) → i < length xs → (x : A) × (get_elem? xs i ≡ some x)
get_elem?-lt [] i h = absurd (omega arith)
get_elem?-lt (x ∷ xs) zero h = (x, refl)
get_elem?-lt (x ∷ xs) (suc i) h = get_elem?-lt xs i (omega arith)

pub get_elem?-some :
    {A : Type 0} (xs : List A) (i : ℕ) (x : A) → get_elem? xs i ≡ some x → i < length xs
get_elem?-some [] i x h = cc
get_elem?-some (y ∷ xs) zero x h = omega arith
get_elem?-some (y ∷ xs) (suc i) x h = omega (arith, get_elem?-some xs i x h)

module _ {H : Type 0} (hash_pair : H → H → H) where
  pub length-next_level :
      (level : List H) → length (next_level hash_pair level) ≡ (length level + 1) / 2
  unfolding next_level
  length-next_level [] = omega arith
  length-next_level (a ∷ []) = omega arith
  length-next_level (a ∷ b ∷ level) = omega (arith, length-next_level level)

  pub build_tree-pair :
      (fuel : ℕ) (a b : H) (level : List H)
      → build_tree hash_pair (suc fuel) (a ∷ b ∷ level)
        ≡ (a ∷ b ∷ level) ∷ build_tree hash_pair fuel (next_level hash_pair (a ∷ b ∷ level))
  unfolding build_tree
  build_tree-pair fuel a b level = ground arith

  -- With as much fuel as leaves, and a leaf at least, the tree has a root.
  pub build_tree-root :
      (fuel : ℕ) (level : List H)
      → length level ≤ fuel
      → 0 < length level
      → (root : H) × (merkle_root (build_tree hash_pair fuel level) ≡ some root)
  unfolding build_tree merkle_root
  build_tree-root zero level h k = absurd (omega arith)
  build_tree-root (suc fuel) [] h k = absurd (omega arith)
  build_tree-root (suc fuel) (a ∷ []) h k = (a, refl)
  build_tree-root (suc fuel) (a ∷ b ∷ level) h k =
      let (root, e) =
        build_tree-root fuel (next_level hash_pair (a ∷ b ∷ level))
          (omega (arith, length-next_level (a ∷ b ∷ level)))
          (omega (arith, length-next_level (a ∷ b ∷ level))) in
      (
        root,
        rw (build_tree-pair fuel a b level) (
            merkle_root-cons (a ∷ b ∷ level)
              (build_tree hash_pair fuel (next_level hash_pair (a ∷ b ∷ level))) root e),
      )

  -- A node with a sibling: the node above the two is their hash, in the order of the level.
  pub next_level-pair :
      (level : List H) (i : ℕ) (a b : H)
      → get_elem? level i ≡ some a
      → get_elem? level (sibling_index i) ≡ some b
      → get_elem? (next_level hash_pair level) (i / 2)
        ≡ some (if i % 2 == 0 then hash_pair a b else hash_pair b a)
  unfolding next_level
  next_level-pair [] i a b e f = cc
  next_level-pair (x ∷ []) zero a b e f = cc
  next_level-pair (x ∷ []) (suc i) a b e f = cc
  next_level-pair (x ∷ y ∷ level) zero a b e f = ground arith
  next_level-pair (x ∷ y ∷ level) (suc zero) a b e f = ground arith
  next_level-pair (x ∷ y ∷ level) (suc (suc i)) a b e f =
      let half : suc (suc i) / 2 ≡ suc (i / 2) = omega arith in
      let parity : suc (suc i) % 2 ≡ i % 2 = omega arith in
      let f' = rw (sibling_index-suc i) at (f) in
      rw (half, parity) (next_level-pair level i a b e f')
