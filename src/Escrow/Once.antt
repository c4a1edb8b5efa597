-- ===== src/Escrow/Once.antt =====
-- contracts/ethereum/contracts/FusionPlusGaslessEscrowV2.sol: when an escrow can be withdrawn or
-- refunded, and that it cannot be again.
use fusion_plus_aptos_extens.Base.{
  String, Bool, true, false, not, ◌&&◌, ◌||◌, ◌≡◌, inl, inr, refl, arith, none, some, List, str_eq,
  str_eq_iff, str_eq_refl, ltb, ◌==◌, Option-cases,
}
use fusion_plus_aptos_extens.Base.Exec.{Result, ok, err}
use fusion_plus_aptos_extens.Base.Dict.{lookup, lookup-insert}
use fusion_plus_aptos_extens.Escrow.{
  Escrow, Contract, Crypto, Transaction, Revert, held, withdraw, refund, is_paid, withdrawn_escrow,
  refunded_escrow,
}
use fusion_plus_aptos_extens.Escrow.Requests.{
  Request, create_order, create_part, create_meta_tx, create_gasless_part, withdraw_from,
  refund_from, dispatch, transact, transact_all,
}
use fusion_plus_aptos_extens.Escrow.Settled.{transact_all-Fate}

abbrev pub succeeds : {S : Type 0} → Result Revert Unit × S → Bool
succeeds (ok _, _) = true
succeeds (err _, _) = false

-- The request is one that withdraws or refunds the escrow.
abbrev pub settles : String → Request → Bool
settles id (withdraw_from j _) = str_eq j id
settles id (refund_from j) = str_eq j id
settles id _ = false

-- An open escrow of which the contract knows.
abbrev is_open_at : String → Contract → Bool
is_open_at id s = elim (held id s) [ none ↦ false | some e ↦ not (e.withdrawn || e.refunded) ]

-- Whether the chain carries out the transfers of the call.
abbrev carries : Transaction → Escrow → Bool
carries tx e = not (is_paid tx) && tx.sent && (tx.deposit_sent || e.safety_deposit == 0)

module _ (crypto : Crypto) (tx : Transaction) (id secret : String) (s : Contract) where
  succeeds-withdraw : succeeds (withdraw crypto tx id secret s) ≡ elim (held id s) [
    | none ↦ false
    | some e ↦
        not (e.withdrawn || e.refunded) && str_eq (crypto.keccak secret) e.hashlock && carries tx e
  ]
  unfolding withdraw
  succeeds-withdraw = ground arith

  succeeds-refund : succeeds (refund tx id s) ≡ elim (held id s) [
    | none ↦ false
    | some e ↦ not (e.withdrawn || e.refunded) && not (ltb tx.timestamp e.timelock) && carries tx e
  ]
  unfolding refund
  succeeds-refund = ground arith

  withdraw-marks :
      succeeds (withdraw crypto tx id secret s) ≡ true
      → (e : Escrow) × ((e.withdrawn || e.refunded) ≡ true)
        × (held id (withdraw crypto tx id secret s).1 ≡ some e)
  unfolding withdraw held
  withdraw-marks h = elim (Option-cases (lookup id s.escrows)) [
    | inl missing ↦ ground (arith, missing)
    | inr (e, there) ↦ (
      withdrawn_escrow e,
      refl,
      ground (arith, there, str_eq_refl id, lookup-insert id id (withdrawn_escrow e) s.escrows),
    )
  ]

  refund-marks :
      succeeds (refund tx id s) ≡ true
      → (e : Escrow) × ((e.withdrawn || e.refunded) ≡ true) × (held id (refund tx id s).1 ≡ some e)
  unfolding refund held
  refund-marks h = elim (Option-cases (lookup id s.escrows)) [
    | inl missing ↦ ground (arith, missing)
    | inr (e, there) ↦ (
      refunded_escrow e,
      ground arith,
      ground (arith, there, str_eq_refl id, lookup-insert id id (refunded_escrow e) s.escrows),
    )
  ]

transact-marks :
    (crypto : Crypto) (tx : Transaction) (id : String) (first : Request) (s : Contract)
    → settles id first ≡ true
    → succeeds (dispatch crypto tx first s) ≡ true
    → (e : Escrow) × ((e.withdrawn || e.refunded) ≡ true)
      × (held id (transact crypto tx first s) ≡ some e)
unfolding transact dispatch
transact-marks crypto tx id (create_order params signature) s mine good = cc
transact-marks crypto tx id (create_part i n amount hashlock proof) s mine good = cc
transact-marks crypto tx id (create_meta_tx params signature) s mine good = cc
transact-marks crypto tx id (create_gasless_part params i n signature) s mine good = cc
transact-marks crypto tx id (withdraw_from j secret) s mine good =
    let same : j ≡ id = (str_eq_iff j id).0 mine in
    let (e, mark, there) = withdraw-marks crypto tx j secret s good in
    (e, mark, ground (arith, same, there, good))
transact-marks crypto tx id (refund_from j) s mine good =
    let same : j ≡ id = (str_eq_iff j id).0 mine in
    let (e, mark, there) = refund-marks crypto tx j "" s good in
    (e, mark, ground (arith, same, there, good))

-- A settled escrow that is held lets neither call through.
closed :
    (crypto : Crypto) (tx : Transaction) (id : String) (again : Request) (e : Escrow) (s : Contract)
    → settles id again ≡ true
    → held id s ≡ some e
    → (e.withdrawn || e.refunded) ≡ true
    → succeeds (dispatch crypto tx again s) ≡ false
unfolding dispatch
closed crypto tx id (create_order params signature) e s mine there mark = cc
closed crypto tx id (create_part i n amount hashlock proof) e s mine there mark = cc
closed crypto tx id (create_meta_tx params signature) e s mine there mark = cc
closed crypto tx id (create_gasless_part params i n signature) e s mine there mark = cc
closed crypto tx id (withdraw_from j secret) e s mine there mark =
    let same : j ≡ id = (str_eq_iff j id).0 mine in
    ground (arith, same, there, mark, succeeds-withdraw crypto tx j secret s)
closed crypto tx id (refund_from j) e s mine there mark =
    let same : j ≡ id = (str_eq_iff j id).0 mine in
    ground (arith, same, there, mark, succeeds-refund crypto tx j "" s)

-- Once a withdrawal or a refund of an escrow has succeeded, every later withdrawal and refund of it
-- reverts, with any secret, from any caller and at any time, whatever calls come in between.
pub dispatch_once :
    (crypto : Crypto) (tx later : Transaction) (id : String) (first again : Request)
    (requests : List (Transaction × Request)) (s : Contract)
    → settles id first ≡ true
    → settles id again ≡ true
    → succeeds (dispatch crypto tx first s) ≡ true
    → succeeds
        (dispatch crypto later again (transact_all crypto requests (transact crypto tx first s)))
      ≡ false
dispatch_once crypto tx later id first again requests s mine yours good =
    let (e, mark, there) = transact-marks crypto tx id first s mine good in
    let end : Contract = transact_all crypto requests (transact crypto tx first s) in
    elim (transact_all-Fate id e crypto requests (transact crypto tx first s) there) [
      | inl (stands, _) ↦ closed crypto later id again e end yours stands mark
      | inr (is_open, _, _) ↦ ground (arith, is_open.0, is_open.1, mark)
    ]
