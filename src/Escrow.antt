-- ===== src/Escrow.antt =====
-- contracts/ethereum/contracts/FusionPlusGaslessEscrowV2.sol: the escrows of the Ethereum side. A
-- call of the contract is an action that succeeds or reverts; `transact` of Escrow/Requests undoes
-- what a reverted call did. Words, addresses and ids are texts, amounts and times natural numbers
-- below 2²⁵⁶. The hashes and ECDSA.recover are a parameter, and a transaction carries what the
-- chain answers: its sender, value and time, what its token calls do and whether its deposit can be
-- sent. No token calls the contract back.
mod State
unfoldable pub use State.*
pub mod Requests
pub mod Steps
pub mod Cases
pub mod Calls
pub mod Solvent
pub mod Settled
pub mod Once
pub mod Filled
mod Tests
use fusion_plus_aptos_extens.Base.{
  ℕ, ◌+◌, ◌^◌, String, Bool, true, false, not, ◌&&◌, ◌||◌, Option, none, some, List, [], ◌∷◌, ◌++◌,
  leb, ltb, ◌==◌, str_eq, any, if◌then◌else◌,
}
use fusion_plus_aptos_extens.Base.Dict.{Dict, lookup, insert}
use fusion_plus_aptos_extens.Base.Exec.{
  Result, ok, err, Exec, gets, or_throw, modify, throw_if, ◌>>=◌, ◌>>◌,
}
use fusion_plus_aptos_extens.Merkle.{computed_hash}

abbrev pub Call : Type 0
Call = Exec Revert Contract Unit

abbrev pub zero_address : String
zero_address = "0x0000000000000000000000000000000000000000"

abbrev weth : String
weth = "0xfFf9976782d46CC05630D1f6eBAb18b2324d6B14"

-- A checked addition reverts from here on.
abbrev pub too_large : ℕ → Bool
too_large n = leb (2 ^ 256) n

-- `escrows[id].depositor != address(0)`
abbrev pub nonzero : Option Escrow → Option Escrow
nonzero none = none
nonzero (some e) = if str_eq e.depositor zero_address then none else some e

unfoldable pub held : String → Contract → Option Escrow
held id s = nonzero (lookup id s.escrows)

abbrev pub is_held : String → Contract → Bool
is_held id s = elim (held id s) [ none ↦ false | some _ ↦ true ]

-- A function that is not payable reverts when value comes with its call.
abbrev pub is_paid : Transaction → Bool
is_paid tx = not (tx.value == 0)

abbrev pub nonce_of : String → Contract → ℕ
nonce_of user s = elim (lookup user s.nonces) [ none ↦ 0 | some n ↦ n ]

-- The signer of the data with the current nonce has to be the depositor, whose nonce goes up.
abbrev pub verify_signer : String → (ℕ → Option String) → Call
verify_signer depositor recovered = do
  nonce ← gets (nonce_of depositor)
  signer ← or_throw (recovered nonce) invalid_signature
  throw_if (not (str_eq signer depositor)) invalid_signature
  throw_if (too_large (nonce + 1)) overflow
  modify λ s. record s { nonces = insert depositor (nonce + 1) s.nonces }

abbrev pub with_escrow : String → Escrow → ℕ → Contract → Contract
with_escrow id e pulled s = record s {
  escrows = insert id e s.escrows;
  transfers = received (token e.token) pulled ∷ received ether e.safety_deposit ∷ s.transfers;
}

-- `_createEscrowInternal`, which receives the deposit of the transaction too.
unfoldable pub create_escrow_internal : Transaction → String → Escrow → Call
create_escrow_internal tx id e = do
  exists ← gets (is_held id)
  throw_if exists escrow_already_exists
  pulled ← or_throw tx.pulled transfer_failed
  throw_if (ltb pulled e.amount) insufficient_transfer
  modify (with_escrow id e pulled)

abbrev pub new_escrow : Transaction → MetaTxParams → Escrow
new_escrow tx params = record {
  depositor = params.depositor;
  beneficiary = params.beneficiary;
  token = params.token;
  amount = params.amount;
  hashlock = params.hashlock;
  timelock = params.timelock;
  withdrawn = false;
  refunded = false;
  safety_deposit = tx.value;
}

-- The guards and the signature that both functions with signed parameters of an escrow start with;
-- the id is the one that the escrow gets.
unfoldable pub create_signed : Crypto → Transaction → MetaTxParams → String → String → Call
unfolding create_escrow_internal
create_signed crypto tx params signature id = do
  throw_if (params.amount == 0) invalid_amount
  throw_if (leb params.timelock tx.timestamp) invalid_timelock
  throw_if (ltb params.deadline tx.timestamp) permit_expired
  exists ← gets (is_held id)
  throw_if exists escrow_already_exists
  verify_signer params.depositor (λ nonce. crypto.recover params nonce signature)
  create_escrow_internal tx id (new_escrow tx params)

abbrev pub create_escrow_with_meta_tx : Crypto → Transaction → MetaTxParams → String → Call
create_escrow_with_meta_tx crypto tx params signature =
    create_signed crypto tx params signature params.escrow_id

abbrev pub create_gasless_partial_fill_escrow :
    Crypto → Transaction → MetaTxParams → String → ℕ → String → Call
create_gasless_partial_fill_escrow crypto tx params base_order_id fill_index signature =
    create_signed crypto tx params signature (crypto.packed_id base_order_id fill_index)

unfoldable pub order_at : String → Contract → Option PartialFillOrder
order_at id s = elim (lookup id s.partial_fill_orders) [
  | none ↦ none
  | some o ↦ if str_eq o.depositor zero_address then none else some o
]

abbrev pub has_order : String → Contract → Bool
has_order id s = elim (order_at id s) [ none ↦ false | some _ ↦ true ]

abbrev pub new_order : PartialFillMetaTxParams → PartialFillOrder
new_order params = record {
  base_order_id = params.base_order_id;
  depositor = params.depositor;
  beneficiary = params.beneficiary;
  total_amount = params.total_amount;
  filled_amount = 0;
  merkle_root = params.merkle_root;
  num_fills = params.num_fills;
}

unfoldable pub create_partial_fill_order :
    Crypto → Transaction → PartialFillMetaTxParams → String → Call
create_partial_fill_order crypto tx params signature = do
  throw_if (is_paid tx) not_payable
  throw_if (params.total_amount == 0) invalid_amount
  throw_if (leb params.timelock tx.timestamp) invalid_timelock
  throw_if (ltb params.deadline tx.timestamp) permit_expired
  exists ← gets (has_order params.base_order_id)
  throw_if exists escrow_already_exists
  verify_signer params.depositor (λ nonce. crypto.recover_order params nonce signature)
  modify λ s. record s {
    partial_fill_orders = insert params.base_order_id (new_order params) s.partial_fill_orders;
  }

abbrev pub is_used : String → ℕ → Contract → Bool
is_used id index s = any (λ (i, n). str_eq i id && (n == index)) s.used_merkle_indices

-- The escrow of a part: the caller is its beneficiary, and its lock ends in an hour.
abbrev pub part_escrow : Transaction → PartialFillOrder → ℕ → String → Escrow
part_escrow tx o amount hashlock = record {
  depositor = o.depositor;
  beneficiary = tx.sender;
  token = weth;
  amount = amount;
  hashlock = hashlock;
  timelock = tx.timestamp + 3600;
  withdrawn = false;
  refunded = false;
  safety_deposit = tx.value;
}

-- The index is used and the amount filled before the escrow is created.
abbrev pub fill_part : String → ℕ → ℕ → PartialFillOrder → Contract → Contract
fill_part id index amount o s = record s {
  used_merkle_indices = (id, index) ∷ s.used_merkle_indices;
  partial_fill_orders =
      insert id (record o { filled_amount = o.filled_amount + amount }) s.partial_fill_orders;
}

unfoldable pub create_partial_fill_escrow :
    Crypto → Transaction → String → ℕ → ℕ → String → List String → Call
unfolding computed_hash create_escrow_internal
create_partial_fill_escrow crypto tx id index amount hashlock proof = do
  found ← gets (order_at id)
  o ← or_throw found order_does_not_exist
  throw_if (leb o.num_fills index) invalid_merkle_index
  used ← gets (is_used id index)
  throw_if used merkle_index_already_used
  throw_if (too_large (o.filled_amount + amount)) overflow
  throw_if (ltb o.total_amount (o.filled_amount + amount)) exceeds_total_amount
  throw_if (not (str_eq (computed_hash crypto.hash_pair hashlock index proof) o.merkle_root))
      invalid_merkle_proof
  modify (fill_part id index amount o)
  throw_if (tx.value == 0) safety_deposit_required
  throw_if (too_large (tx.timestamp + 3600)) overflow
  create_escrow_internal tx (crypto.packed_id id index) (part_escrow tx o amount hashlock)

-- A deposit of 0 is kept as a payment of 0.
abbrev pub with_payment : String → String → String → Escrow → Contract → Contract
with_payment id caller receiver e s = record s {
  transfers =
      paid id (token e.token) receiver e.amount
      ∷ paid id ether caller e.safety_deposit
      ∷ s.transfers;
}

abbrev pub replaced : String → Escrow → Contract → Contract
replaced id e s = record s { escrows = insert id e s.escrows }

-- The token goes to its receiver, the deposit, when there is one, to the caller.
abbrev pub pay_out : Transaction → String → String → Escrow → Call
pay_out tx id receiver e = do
  throw_if (not tx.sent) transfer_failed
  throw_if (not (tx.deposit_sent || e.safety_deposit == 0)) transfer_failed
  modify (with_payment id tx.sender receiver e)

-- What both ways to settle an escrow check first.
abbrev pub open_escrow : String → Exec Revert Contract Escrow
open_escrow id = do
  found ← gets (held id)
  e ← or_throw found escrow_does_not_exist
  throw_if e.withdrawn already_withdrawn
  throw_if e.refunded already_refunded
  λ s. (ok e, s)

abbrev pub withdrawn_escrow : Escrow → Escrow
withdrawn_escrow e = record e { withdrawn = true }

abbrev pub refunded_escrow : Escrow → Escrow
refunded_escrow e = record e { refunded = true }

abbrev pub withdraw_open : Crypto → Transaction → String → String → Escrow → Call
withdraw_open crypto tx id secret e = do
  throw_if (not (str_eq (crypto.keccak secret) e.hashlock)) invalid_secret
  modify (replaced id (withdrawn_escrow e))
  pay_out tx id e.beneficiary e

unfoldable pub withdraw : Crypto → Transaction → String → String → Call
withdraw crypto tx id secret =
    throw_if (is_paid tx) not_payable >> (open_escrow id >>= withdraw_open crypto tx id secret)

abbrev pub refund_open : Transaction → String → Escrow → Call
refund_open tx id e = do
  throw_if (ltb tx.timestamp e.timelock) timelock_not_expired
  modify (replaced id (refunded_escrow e))
  pay_out tx id e.depositor e

unfoldable pub refund : Transaction → String → Call
refund tx id = throw_if (is_paid tx) not_payable >> (open_escrow id >>= refund_open tx id)
