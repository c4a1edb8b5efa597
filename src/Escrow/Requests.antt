-- ===== src/Escrow/Requests.antt =====
-- contracts/ethereum/contracts/FusionPlusGaslessEscrowV2.sol: the calls of the contract as data, and
-- runs of them.
use fusion_plus_aptos_extens.Base.{ℕ, String, List, [], ◌∷◌}
use fusion_plus_aptos_extens.Base.Exec.{Result, ok, err}
use fusion_plus_aptos_extens.Escrow.{
  PartialFillMetaTxParams, MetaTxParams, Revert, Contract, Crypto, Transaction, Call, create_signed,
  create_escrow_with_meta_tx, create_gasless_partial_fill_escrow, create_partial_fill_order,
  create_partial_fill_escrow, withdraw, refund,
}

pub data Request : Type 0 where
  create_order : PartialFillMetaTxParams → String → Request
  create_part : String → ℕ → ℕ → String → List String → Request
  create_meta_tx : MetaTxParams → String → Request
  create_gasless_part : MetaTxParams → String → ℕ → String → Request
  withdraw_from : String → String → Request
  refund_from : String → Request

unfoldable pub dispatch : Crypto → Transaction → Request → Call
unfolding create_partial_fill_order create_partial_fill_escrow create_signed withdraw refund
dispatch crypto tx (create_order params signature) =
    create_partial_fill_order crypto tx params signature
dispatch crypto tx (create_part id index amount hashlock proof) =
    create_partial_fill_escrow crypto tx id index amount hashlock proof
dispatch crypto tx (create_meta_tx params signature) =
    create_escrow_with_meta_tx crypto tx params signature
dispatch crypto tx (create_gasless_part params id index signature) =
    create_gasless_partial_fill_escrow crypto tx params id index signature
dispatch crypto tx (withdraw_from id secret) = withdraw crypto tx id secret
dispatch crypto tx (refund_from id) = refund tx id

-- A reverted call leaves nothing behind.
abbrev pub committed : Contract → Result Revert Unit × Contract → Contract
committed s (ok _, s') = s'
committed s (err _, s') = s

unfoldable pub transact : Crypto → Transaction → Request → Contract → Contract
unfolding dispatch
transact crypto tx request s = committed s (dispatch crypto tx request s)

unfoldable pub transact_all : Crypto → List (Transaction × Request) → Contract → Contract
transact_all crypto [] s = s
transact_all crypto ((tx, request) ∷ requests) s =
    transact_all crypto requests (transact crypto tx request s)
