-- ===== src/Merkle/Tests.antt =====
-- Trees whose hashes are the trees themselves, so that no two collide.
use fusion_plus_aptos_extens.Base.{ℕ, ◌≡◌, refl, arith, List, [], ◌∷◌, some}
use fusion_plus_aptos_extens.Merkle.{build_tree, tree, merkle_root, merkle_proof, computed_hash}
use fusion_plus_aptos_extens.Merkle.Ends.{top, tree-ends}
use fusion_plus_aptos_extens.Merkle.Proofs.{tree-proof}

data Node : Type 0 where
  leaf : ℕ → Node
  pair : Node → Node → Node

abbrev four : List Node
four = leaf 1 ∷ leaf 2 ∷ leaf 3 ∷ leaf 4 ∷ []

tree-proof_example :
    merkle_root (tree pair four)
    ≡ some (computed_hash pair (leaf 3) 2 (merkle_proof (tree pair four) 2))
tree-proof_example = tree-proof pair 2 four 2 (leaf 3) refl refl

tree-ends_example :
    (build_tree pair 9 four ≡ tree pair four) × ((root : Node) × (top (tree pair four) ≡ root ∷ []))
tree-ends_example = tree-ends pair four 9 (omega arith) (omega arith)
