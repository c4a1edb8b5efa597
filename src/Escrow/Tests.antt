-- ===== src/Escrow/Tests.antt =====
-- Calls on two concrete escrows and on an order that is filled in parts.
use fusion_plus_aptos_extens.Base.{true, false, ◌≡◌, refl, arith, some, List, [], ◌∷◌}
use fusion_plus_aptos_extens.Escrow.{
  Escrow, PartialFillOrder, Contract, Crypto, Transaction, MetaTxParams, token, ether, held,
  order_at, withdraw, received, withdrawn_escrow,
}
use fusion_plus_aptos_extens.Escrow.Requests.{
  Request, create_meta_tx, create_part, withdraw_from, refund_from, dispatch, transact,
  transact_all,
}
use fusion_plus_aptos_extens.Escrow.Solvent.{
  IsSolvent, locked, total_received, total_paid, transact_all-IsSolvent,
}
use fusion_plus_aptos_extens.Escrow.Filled.{IsWithin, transact_all-IsWithin}
use fusion_plus_aptos_extens.Escrow.Once.{succeeds, dispatch_once}

-- Each secret is its own hash, and every signature is the depositor's.
abbrev crypto : Crypto
crypto = record {
  keccak = λ secret. secret;
  packed_id = λ id index. "part";
  hash_pair = λ a b. a;
  recover_order = λ params nonce signature. some params.depositor;
  recover = λ params nonce signature. some params.depositor;
}

abbrev tx : Transaction
tx = record {
  sender = "0xresolver";
  value = 7;
  timestamp = 100;
  pulled = some 50;
  sent = true;
  deposit_sent = true;
}

abbrev free : Transaction
free = record tx { value = 0 }

abbrev params : MetaTxParams
params = record {
  escrow_id = "new";
  depositor = "0xuser";
  beneficiary = "0xresolver";
  token = "WETH";
  amount = 50;
  hashlock = "secret";
  timelock = 200;
  deadline = 150;
}

abbrev standing : Escrow
standing = record {
  depositor = "0xuser";
  beneficiary = "0xresolver";
  token = "WETH";
  amount = 40;
  hashlock = "secret";
  timelock = 200;
  withdrawn = false;
  refunded = false;
  safety_deposit = 3;
}

abbrev order : PartialFillOrder
order = record {
  base_order_id = "base";
  depositor = "0xuser";
  beneficiary = "0xresolver";
  total_amount = 80;
  filled_amount = 0;
  merkle_root = "leaf";
  num_fills = 4;
}

abbrev contract : Contract
contract = record {
  escrows = ("old", standing) ∷ [];
  partial_fill_orders = ("base", order) ∷ [];
  nonces = [];
  used_merkle_indices = [];
  transfers = received (token "WETH") 40 ∷ received ether 3 ∷ [];
}

-- A new escrow, a part, a wrong secret, the right one with value and without, and a refund that
-- comes too late.
abbrev requests : List (Transaction × Request)
requests =
    (tx, create_meta_tx params "signature")
    ∷ (tx, create_part "base" 0 50 "leaf" [])
    ∷ (free, withdraw_from "old" "wrong")
    ∷ (tx, withdraw_from "old" "secret")
    ∷ (free, withdraw_from "old" "secret")
    ∷ (record free { timestamp = 300 }, refund_from "old")
    ∷ []

settled : held "old" (transact_all crypto requests contract) ≡ some (withdrawn_escrow standing)
unfolding transact_all transact order_at held
settled = refl

transact_all-IsSolvent_example : IsSolvent (token "WETH") (transact_all crypto requests contract)
unfolding locked total_received total_paid
transact_all-IsSolvent_example =
    transact_all-IsSolvent (token "WETH") crypto requests contract (omega arith)

transact_all-IsWithin_example : IsWithin (transact_all crypto requests contract).partial_fill_orders
transact_all-IsWithin_example = transact_all-IsWithin crypto requests contract (omega arith, tt)

dispatch_once_example :
    succeeds (
      dispatch crypto free (refund_from "old") (
        transact_all crypto requests
          (transact crypto free (withdraw_from "old" "secret") contract)))
    ≡ false
unfolding dispatch withdraw held
dispatch_once_example =
    dispatch_once crypto free free "old" (withdraw_from "old" "secret") (refund_from "old") requests
      contract refl refl refl
