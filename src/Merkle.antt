-- ===== src/Merkle.antt =====
-- frontend/src/utils/partialFillSecrets.ts, generateSecrets: the chain of secrets of a partial-fill
-- order, its Merkle tree and the proofs, and the contract's check of a proof, verifyMerkleProof of
-- contracts/ethereum/contracts/FusionPlusGaslessEscrowV2.sol.
-- Hashes are of any type `H`; `hash_pair a b` stands for keccak256 of the two words joined.
-- A level shrinks from n to (n + 1) / 2 nodes, so n rounds of fuel are enough for the tree.
pub mod Levels
pub mod Proofs
pub mod FiveLeaves
pub mod Ends
mod Tests
use fusion_plus_aptos_extens.Base.{
  ℕ, zero, suc, ◌+◌, ◌-◌, ◌/◌, ◌%◌, List, [], ◌∷◌, Option, none, some, map, leb, ◌==◌, length,
  get_elem?, if◌then◌else◌,
}
use fusion_plus_aptos_extens.Secrets.{fill_thresholds}

module _ {H : Type 0} (hash_pair : H → H → H) where
  unfoldable pub next_level : List H → List H
  next_level [] = []
  next_level (a ∷ []) = a ∷ []
  next_level (a ∷ b ∷ level) = hash_pair a b ∷ next_level level

  -- The levels from the leaves up.
  unfoldable pub build_tree : ℕ → List H → List (List H)
  unfolding next_level
  build_tree zero level = level ∷ []
  build_tree (suc fuel) level =
      let rest = build_tree fuel (next_level level) in
      if leb (length level) 1 then level ∷ [] else level ∷ rest

  abbrev pub tree : List H → List (List H)
  tree leaves = build_tree (length leaves) leaves

-- The index of the other node of a pair.
abbrev pub sibling_index : ℕ → ℕ
sibling_index index = if index % 2 == 1 then index - 1 else index + 1

module _ {H : Type 0} where
  abbrev pub head? : List H → Option H
  head? [] = none
  head? (a ∷ level) = some a

  -- `tree[tree.length - 1][0]`; `none` is `undefined`.
  unfoldable pub merkle_root : List (List H) → Option H
  merkle_root [] = none
  merkle_root (level ∷ []) = head? level
  merkle_root (level ∷ above ∷ levels) = merkle_root (above ∷ levels)

  abbrev pub push_some : Option H → List H → List H
  push_some none proof = proof
  push_some (some a) proof = a ∷ proof

  -- The siblings on the way up from `index`; a missing one is skipped. The top level has none.
  unfoldable pub merkle_proof : List (List H) → ℕ → List H
  merkle_proof [] index = []
  merkle_proof (level ∷ []) index = []
  merkle_proof (level ∷ above ∷ levels) index =
      push_some (get_elem? level (sibling_index index)) (merkle_proof (above ∷ levels) (index / 2))

  -- The loop of verifyMerkleProof: the hash that the contract computes from a leaf and a proof.
  unfoldable pub computed_hash : (H → H → H) → H → ℕ → List H → H
  computed_hash hash_pair leaf index [] = leaf
  computed_hash hash_pair leaf index (p ∷ proof) =
      computed_hash hash_pair (if index % 2 == 0 then hash_pair leaf p else hash_pair p leaf)
        (index / 2) proof

module _ {H Nonce : Type 0} where
  -- Each secret is the hash of the one before and a nonce.
  unfoldable pub secret_chain : (H → Nonce → H) → H → List Nonce → List H
  secret_chain derive secret [] = secret ∷ []
  secret_chain derive secret (nonce ∷ nonces) =
      secret ∷ secret_chain derive (derive secret nonce) nonces

module _ {H : Type 0} where
  -- The proofs of `count` leaves from `index` on.
  unfoldable pub proofs_from : List (List H) → ℕ → ℕ → List (List H)
  proofs_from levels index zero = []
  proofs_from levels index (suc count) =
      merkle_proof levels index ∷ proofs_from levels (index + 1) count

pub record PartialFillSecrets (H : Type 0) : Type 0 where
  pub merkle_root : Option H
  pub secrets : List H
  pub merkle_proofs : List (List H)
  pub fill_thresholds : List ℕ

-- What the source takes from ethers: keccak256 of a secret, of two nodes, and of a secret with a
-- nonce.
pub record Keccak (H Nonce : Type 0) : Type 0 where
  pub hash_leaf : H → H
  pub hash_pair : H → H → H
  pub derive : H → Nonce → H

-- The random values are the first secret and one nonce for each part.
unfoldable pub generate_secrets :
    {H Nonce : Type 0} → Keccak H Nonce → H → List Nonce → PartialFillSecrets H
generate_secrets keccak root_secret nonces =
    let secrets = secret_chain keccak.derive root_secret nonces in
    let levels = tree keccak.hash_pair (map keccak.hash_leaf secrets) in
    record {
      merkle_root = merkle_root levels;
      secrets = secrets;
      merkle_proofs = proofs_from levels 0 (length secrets);
      fill_thresholds = fill_thresholds (length nonces);
    }
