-- ===== src/Escrow/Calls.antt =====
-- contracts/ethereum/contracts/FusionPlusGaslessEscrowV2.sol: a run of calls is a path of the state
-- machine of Escrow/Steps.
use fusion_plus_aptos_extens.Base.{
  ℕ, String, ◌||◌, ◌≡◌, inl, inr, refl, sym, some, List, [], ◌∷◌, ltb, ◌==◌, str_eq, Bool-cases,
}
use mathlib.Core.Path.{subst}
use fusion_plus_aptos_extens.Base.Exec.{Result, ok, err, Exec, ◌>>=◌}
use fusion_plus_aptos_extens.Escrow.{
  Escrow, PartialFillMetaTxParams, MetaTxParams, Revert, Contract, Crypto, Transaction, Call, held,
  fill_part, with_payment, replaced, withdrawn_escrow, refunded_escrow, open_escrow, pay_out,
  is_paid, create_escrow_internal, create_signed, withdraw_open, refund_open, new_escrow, new_order,
  create_partial_fill_order, create_partial_fill_escrow, part_escrow, withdraw, refund,
}
use fusion_plus_aptos_extens.Escrow.Requests.{
  committed, create_order, create_part, create_meta_tx, create_gasless_part, withdraw_from,
  refund_from, dispatch, transact, transact_all, Request,
}
use fusion_plus_aptos_extens.Escrow.Steps.{
  Reaches, IsOpen, next, nonces_set, ordered, part_filled, created, withdrawn_by, refunded_by,
}
use fusion_plus_aptos_extens.Escrow.Cases.{
  create_escrow_internal-cases, open_escrow-cases, create_signed-cases,
  create_partial_fill_order-cases, create_partial_fill_escrow-cases,
}

-- An action that succeeds takes steps.
abbrev Ends : (A : Type 0) → Contract → Result Revert A × Contract → Type 0
Ends A s₀ (ok a, s) = Reaches s₀ s
Ends A s₀ (err e, s) = Unit

abbrev after :
    {A B : Type 0}
    → Result Revert A × Contract
    → (A → Exec Revert Contract B)
    → Result Revert B × Contract
after m k = let (r, s') = m in elim r [ ok a ↦ k a s' | err e ↦ (err e, s') ]

module _ (s₀ : Contract) where
  create_escrow_internal-Ends :
      (tx : Transaction) (id : String) (e : Escrow) (s : Contract)
      → IsOpen e
      → Reaches s₀ s
      → Ends Unit s₀ (create_escrow_internal tx id e s)
  create_escrow_internal-Ends tx id e s is_open r = elim (create_escrow_internal-cases tx id e s) [
    | inl (x, bad) ↦ subst (Ends Unit s₀) (sym bad) tt
    | inr (pulled, fresh, enough, good) ↦
        subst (Ends Unit s₀) (sym good) (next r (created id e pulled s fresh is_open enough))
  ]

  -- Both ways to settle an escrow go on from an open one.
  open_escrow-Ends :
      (id : String) (s : Contract) (k : Escrow → Call)
      → ((e : Escrow) → held id s ≡ some e → IsOpen e → Ends Unit s₀ (k e s))
      → Ends Unit s₀ ((open_escrow id >>= k) s)
  open_escrow-Ends id s k h = elim (open_escrow-cases id s) [
    | inl (x, bad) ↦ subst (λ m. Ends Unit s₀ (after m k)) (sym bad) tt
    | inr (e, there, is_open, good) ↦
        subst (λ m. Ends Unit s₀ (after m k)) (sym good) (h e there is_open)
  ]

  pay_out-Ends :
      (tx : Transaction) (id receiver : String) (e : Escrow) (s : Contract)
      → Reaches s₀ (with_payment id tx.sender receiver e s)
      → Ends Unit s₀ (pay_out tx id receiver e s)
  pay_out-Ends tx id receiver e s r = elim (Bool-cases tx.sent) [
    | inr bad ↦ rw bad tt
    | inl sent ↦ elim (Bool-cases (tx.deposit_sent || e.safety_deposit == 0)) [
      | inr bad ↦ rw (sent, bad) tt
      | inl deposit ↦ rw (sent, deposit) r
    ]
  ]

  withdraw-Ends :
      (crypto : Crypto) (tx : Transaction) (id secret : String) (s : Contract)
      → Reaches s₀ s
      → Ends Unit s₀ (withdraw crypto tx id secret s)
  unfolding withdraw
  withdraw-Ends crypto tx id secret s r = elim (Bool-cases (is_paid tx)) [
    | inl value ↦ rw value tt
    | inr plain ↦ rw plain (
        open_escrow-Ends id s (withdraw_open crypto tx id secret) λ e there is_open.
          elim (Bool-cases (str_eq (crypto.keccak secret) e.hashlock)) [
            | inr wrong ↦ rw wrong tt
            | inl right ↦ rw right (
                pay_out-Ends tx id e.beneficiary e (replaced id (withdrawn_escrow e) s)
                  (next r (withdrawn_by id tx.sender e s there is_open)))
          ])
  ]

  refund-Ends :
      (tx : Transaction) (id : String) (s : Contract) → Reaches s₀ s → Ends Unit s₀ (refund tx id s)
  unfolding refund
  refund-Ends tx id s r = elim (Bool-cases (is_paid tx)) [
    | inl value ↦ rw value tt
    | inr plain ↦ rw plain (
        open_escrow-Ends id s (refund_open tx id) λ e there is_open.
          elim (Bool-cases (ltb tx.timestamp e.timelock)) [
            | inl early ↦ rw early tt
            | inr late ↦ rw late (
                pay_out-Ends tx id e.depositor e (replaced id (refunded_escrow e) s)
                  (next r (refunded_by id tx.sender e s there is_open)))
          ])
  ]

module _ (s₀ : Contract) (crypto : Crypto) (tx : Transaction) where
  create_signed-Ends :
      (params : MetaTxParams) (signature id : String) (s : Contract)
      → Reaches s₀ s
      → Ends Unit s₀ (create_signed crypto tx params signature id s)
  create_signed-Ends params signature id s r =
      elim (create_signed-cases crypto tx params signature id s) [
        | inl (x, s', bad) ↦ subst (Ends Unit s₀) (sym bad) tt
        | inr (nonces, good) ↦ subst (Ends Unit s₀) (sym good) (
            create_escrow_internal-Ends s₀ tx id (new_escrow tx params)
              (record s { nonces = nonces }) (refl, refl) (next r (nonces_set nonces s)))
      ]

  create_partial_fill_order-Ends :
      (params : PartialFillMetaTxParams) (signature : String) (s : Contract)
      → Reaches s₀ s
      → Ends Unit s₀ (create_partial_fill_order crypto tx params signature s)
  create_partial_fill_order-Ends params signature s r =
      elim (create_partial_fill_order-cases crypto tx params signature s) [
        | inl (x, s', bad) ↦ subst (Ends Unit s₀) (sym bad) tt
        | inr (nonces, good) ↦ subst (Ends Unit s₀) (sym good) (
            next (next r (nonces_set nonces s))
              (ordered params.base_order_id (new_order params) (record s { nonces = nonces }) refl))
      ]

  create_partial_fill_escrow-Ends :
      (id : String) (index amount : ℕ) (hashlock : String) (proof : List String) (s : Contract)
      → Reaches s₀ s
      → Ends Unit s₀ (create_partial_fill_escrow crypto tx id index amount hashlock proof s)
  create_partial_fill_escrow-Ends id index amount hashlock proof s r =
      elim (create_partial_fill_escrow-cases crypto tx id index amount hashlock proof s) [
        | inl (x, s', bad) ↦ subst (Ends Unit s₀) (sym bad) tt
        | inr (o, there, fits, good) ↦ subst (Ends Unit s₀) (sym good) (
            create_escrow_internal-Ends s₀ tx (crypto.packed_id id index)
              (part_escrow tx o amount hashlock) (fill_part id index amount o s) (refl, refl)
              (next r (part_filled id index amount o s there fits)))
      ]

  dispatch-Ends :
      (request : Request) (s : Contract)
      → Reaches s₀ s
      → Ends Unit s₀ (dispatch crypto tx request s)
  unfolding dispatch
  dispatch-Ends (create_order params signature) s r =
      create_partial_fill_order-Ends params signature s r
  dispatch-Ends (create_part id index amount hashlock proof) s r =
      create_partial_fill_escrow-Ends id index amount hashlock proof s r
  dispatch-Ends (create_meta_tx params signature) s r =
      create_signed-Ends params signature params.escrow_id s r
  dispatch-Ends (create_gasless_part params id index signature) s r =
      create_signed-Ends params signature (crypto.packed_id id index) s r
  dispatch-Ends (withdraw_from id secret) s r = withdraw-Ends s₀ crypto tx id secret s r
  dispatch-Ends (refund_from id) s r = refund-Ends s₀ tx id s r

  committed-Reaches :
      (s : Contract) (m : Result Revert Unit × Contract)
      → Reaches s₀ s
      → Ends Unit s₀ m
      → Reaches s₀ (committed s m)
  committed-Reaches s (ok tt, s') r h = h
  committed-Reaches s (err e, s') r h = r

  transact-Reaches :
      (request : Request) (s : Contract) → Reaches s₀ s → Reaches s₀ (transact crypto tx request s)
  unfolding transact
  transact-Reaches request s r =
      committed-Reaches s (dispatch crypto tx request s) r (dispatch-Ends request s r)

-- A run of calls is a path of the state machine.
pub transact_all-Reaches :
    (crypto : Crypto) (requests : List (Transaction × Request)) (s₀ s : Contract)
    → Reaches s₀ s
    → Reaches s₀ (transact_all crypto requests s)
unfolding transact_all
transact_all-Reaches crypto [] s₀ s r = r
transact_all-Reaches crypto ((tx, request) ∷ requests) s₀ s r =
    transact_all-Reaches crypto requests s₀ (transact crypto tx request s)
      (transact-Reaches s₀ crypto tx request s r)
