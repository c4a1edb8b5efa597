-- ===== src/Escrow/State.antt =====
-- contracts/ethereum/contracts/FusionPlusGaslessEscrowV2.sol: the data and the errors of the contract,
-- and what it takes from the chain.
use fusion_plus_aptos_extens.Base.{ℕ, String, Bool, Option, List}
use fusion_plus_aptos_extens.Base.Dict.{Dict}

pub record Escrow : Type 0 where
  pub depositor : String
  pub beneficiary : String
  pub token : String
  pub amount : ℕ
  pub hashlock : String
  pub timelock : ℕ
  pub withdrawn : Bool
  pub refunded : Bool
  pub safety_deposit : ℕ

pub record PartialFillOrder : Type 0 where
  pub base_order_id : String
  pub depositor : String
  pub beneficiary : String
  pub total_amount : ℕ
  pub filled_amount : ℕ
  pub merkle_root : String
  pub num_fills : ℕ

pub record PartialFillMetaTxParams : Type 0 where
  pub base_order_id : String
  pub depositor : String
  pub beneficiary : String
  pub token : String
  pub total_amount : ℕ
  pub merkle_root : String
  pub num_fills : ℕ
  pub timelock : ℕ
  pub deadline : ℕ

pub record MetaTxParams : Type 0 where
  pub escrow_id : String
  pub depositor : String
  pub beneficiary : String
  pub token : String
  pub amount : ℕ
  pub hashlock : String
  pub timelock : ℕ
  pub deadline : ℕ

pub data Revert : Type 0 where
  permit_expired invalid_signature escrow_already_exists invalid_amount : Revert
  invalid_timelock exceeds_total_amount invalid_merkle_index : Revert
  merkle_index_already_used order_does_not_exist invalid_merkle_proof : Revert
  safety_deposit_required transfer_failed insufficient_transfer overflow : Revert
  escrow_does_not_exist already_withdrawn already_refunded invalid_secret : Revert
  timelock_not_expired not_payable : Revert

-- A token, or the deposits.
pub data Asset : Type 0 where
  token : String → Asset
  ether : Asset

-- What the contract received, and what it paid for which escrow to whom.
pub data Transfer : Type 0 where
  received : Asset → ℕ → Transfer
  paid : String → Asset → String → ℕ → Transfer

pub record Contract : Type 0 where
  pub escrows : Dict Escrow
  pub partial_fill_orders : Dict PartialFillOrder
  pub nonces : Dict ℕ
  pub used_merkle_indices : List (String × ℕ)
  pub transfers : List Transfer

-- keccak256 of a word, of an id and an index, and of two words; and ECDSA.recover of the typed data
-- with a nonce, which reverts on a malformed signature.
pub record Crypto : Type 0 where
  pub keccak : String → String
  pub packed_id : String → ℕ → String
  pub hash_pair : String → String → String
  pub recover_order : PartialFillMetaTxParams → ℕ → String → Option String
  pub recover : MetaTxParams → ℕ → String → Option String

-- `pulled` is the growth of the balance that safeTransferFrom made, none where it reverts.
pub record Transaction : Type 0 where
  pub sender : String
  pub value : ℕ
  pub timestamp : ℕ
  pub pulled : Option ℕ
  pub sent : Bool
  pub deposit_sent : Bool
