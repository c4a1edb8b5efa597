-- ===== src/Relayer/Tests.antt =====
-- Concrete requests to relay.
use fusion_plus_aptos_extens.Base.{◌≡◌, refl, none, some, String, [], ◌∷◌}
use fusion_plus_aptos_extens.Base.Exec.{Result, ok, err}
use fusion_plus_aptos_extens.Relayer.{
  Params, RelayRequest, Ethers, init, Transaction, withdraw, begin, validate_request,
  transaction_of, responses, arrives, ends, reply, relayed, nonce_used,
}
use fusion_plus_aptos_extens.Relayer.Nonces.{
  Distinct, relayed_nonces, relayed_nonces-Distinct, nonce_race,
}

abbrev no_ethers : Ethers
no_ethers = record { get_big_int = λ _. err "not a number"; zero_address = "0x00" }

abbrev params : Params
params = record {
  escrow_id = "0xe5";
  beneficiary = "0xbb";
  token = "0x01";
  amount = "10";
  hashlock = "0x5e";
  timelock = "9000";
  safety_deposit = none;
  secret = "0x5c";
}

abbrev request : RelayRequest
request = record {
  chain = some "ETHEREUM";
  kind = some "WITHDRAW_ESCROW";
  params = some params;
  signature = some "0x51";
  nonce = some "n1";
}

abbrev always_ok : Transaction → Result String String
always_ok _ = ok "0x77"

relayed_nonces-Distinct_example :
    Distinct (relayed_nonces no_ethers always_ok (request ∷ request ∷ []) init)
relayed_nonces-Distinct_example =
    relayed_nonces-Distinct no_ethers always_ok (request ∷ request ∷ []) init

nonce_race_example :
    (responses no_ethers
        (arrives request ∷ arrives request ∷ ends "n1" (ok "0x77") ∷ ends "n1" (ok "0x78") ∷ [])
        init
      ≡ reply 200 (relayed "0x77") ∷ reply 200 (relayed "0x78") ∷ [])
    × (responses no_ethers (arrives request ∷ ends "n1" (ok "0x77") ∷ arrives request ∷ []) init
        ≡ reply 200 (relayed "0x77") ∷ reply 400 nonce_used ∷ [])
unfolding begin validate_request transaction_of
nonce_race_example =
    nonce_race no_ethers request init "n1" (withdraw "0xe5" "0x5c") "0x77" "0x78" refl
