-- ===== src/Escrow/Cases.antt =====
-- contracts/ethereum/contracts/FusionPlusGaslessEscrowV2.sol: each call reverts, or it comes down to
-- what its guards let through.
use fusion_plus_aptos_extens.Base.{
  ℕ, ◌+◌, ◌≤◌, String, ◌≡◌, ◌⊎◌, inl, inr, arith, Option, none, some, List, leb, ltb, ◌==◌, str_eq,
  Bool-cases, Option-cases,
}
use fusion_plus_aptos_extens.Base.Dict.{Dict, insert}
use fusion_plus_aptos_extens.Base.Exec.{ok, err}
use fusion_plus_aptos_extens.Merkle.{computed_hash}
use fusion_plus_aptos_extens.Escrow.{
  is_paid, not_payable, Escrow, PartialFillOrder, PartialFillMetaTxParams, MetaTxParams, Revert,
  Contract, Crypto, Transaction, has_order, invalid_amount, invalid_timelock, permit_expired,
  order_does_not_exist, invalid_merkle_index, merkle_index_already_used, exceeds_total_amount,
  invalid_merkle_proof, safety_deposit_required, invalid_signature, overflow, nonce_of, too_large,
  held, order_at, is_used, fill_part, with_escrow, open_escrow, verify_signer,
  create_escrow_internal, create_signed, new_escrow, new_order, create_partial_fill_order,
  create_partial_fill_escrow, part_escrow, escrow_already_exists, transfer_failed,
  insufficient_transfer, escrow_does_not_exist, already_withdrawn, already_refunded,
}
use fusion_plus_aptos_extens.Escrow.Steps.{IsOpen}

-- An escrow is created, or the call reverts.
pub create_escrow_internal-cases :
    (tx : Transaction) (id : String) (e : Escrow) (s : Contract)
    → ((x : Revert) × (create_escrow_internal tx id e s ≡ (err x, s)))
      ⊎ ((pulled : ℕ) × (held id s ≡ none)
          × (e.amount ≤ pulled)
          × (create_escrow_internal tx id e s ≡ (ok tt, with_escrow id e pulled s)))
unfolding create_escrow_internal
create_escrow_internal-cases tx id e s = elim (Option-cases (held id s)) [
  | inr (e', there) ↦ inl (escrow_already_exists, ground arith)
  | inl fresh ↦ elim (Option-cases tx.pulled) [
    | inl bad ↦ inl (transfer_failed, ground arith)
    | inr (pulled, got) ↦ elim (Bool-cases (ltb pulled e.amount)) [
      | inl few ↦ inl (insufficient_transfer, ground arith)
      | inr enough ↦ inr (pulled, fresh, ground arith, ground arith)
    ]
  ]
]

pub open_escrow-cases :
    (id : String) (s : Contract)
    → ((x : Revert) × (open_escrow id s ≡ (err x, s)))
      ⊎ ((e : Escrow) × (held id s ≡ some e) × IsOpen e × (open_escrow id s ≡ (ok e, s)))
open_escrow-cases id s = elim (Option-cases (held id s)) [
  | inl bad ↦ inl (escrow_does_not_exist, ground arith)
  | inr (e, there) ↦ elim (Bool-cases e.withdrawn) [
    | inl w ↦ inl (already_withdrawn, ground arith)
    | inr w ↦ elim (Bool-cases e.refunded) [
      | inl f ↦ inl (already_refunded, ground arith)
      | inr f ↦ inr (e, there, (w, f), ground arith)
    ]
  ]
]

verify_signer-cases :
    (user : String) (recovered : ℕ → Option String) (s : Contract)
    → ((x : Revert) × (verify_signer user recovered s ≡ (err x, s)))
      ⊎ ((nonces : Dict ℕ) × (verify_signer user recovered s
            ≡ (ok tt, record s { nonces = nonces })))
verify_signer-cases user recovered s = elim (Option-cases (recovered (nonce_of user s))) [
  | inl bad ↦ inl (invalid_signature, ground arith)
  | inr (signer, got) ↦ elim (Bool-cases (str_eq signer user)) [
    | inr other ↦ inl (invalid_signature, ground arith)
    | inl same ↦ elim (Bool-cases (too_large (nonce_of user s + 1))) [
      | inl large ↦ inl (overflow, ground arith)
      | inr small ↦ inr (insert user (nonce_of user s + 1) s.nonces, ground arith)
    ]
  ]
]

-- Signed parameters use up a nonce before the escrow is created.
pub create_signed-cases :
    (crypto : Crypto) (tx : Transaction) (params : MetaTxParams) (signature id : String)
    (s : Contract)
    → ((x : Revert) × (s' : Contract) × (create_signed crypto tx params signature id s
          ≡ (err x, s')))
      ⊎ ((nonces : Dict ℕ) × (create_signed crypto tx params signature id s
            ≡ create_escrow_internal tx id (new_escrow tx params) (record s { nonces = nonces })))
unfolding create_signed
create_signed-cases crypto tx params signature id s = elim (Bool-cases (params.amount == 0)) [
  | inl t ↦ inl (invalid_amount, s, ground arith)
  | inr a ↦ elim (Bool-cases (leb params.timelock tx.timestamp)) [
    | inl t ↦ inl (invalid_timelock, s, ground arith)
    | inr b ↦ elim (Bool-cases (ltb params.deadline tx.timestamp)) [
      | inl t ↦ inl (permit_expired, s, ground arith)
      | inr c ↦ elim (Option-cases (held id s)) [
        | inr (e, t) ↦ inl (escrow_already_exists, s, ground arith)
        | inl d ↦
            elim (verify_signer-cases params.depositor
              (λ nonce. crypto.recover params nonce signature) s) [
                | inl (x, t) ↦ inl (x, s, ground arith)
                | inr (nonces, t) ↦ inr (nonces, ground arith)
              ]
      ]
    ]
  ]
]

pub create_partial_fill_order-cases :
    (crypto : Crypto) (tx : Transaction) (params : PartialFillMetaTxParams) (signature : String)
    (s : Contract)
    → ((x : Revert) × (s' : Contract) × (create_partial_fill_order crypto tx params signature s
          ≡ (err x, s')))
      ⊎ ((nonces : Dict ℕ) × (create_partial_fill_order crypto tx params signature s ≡ (
        ok tt,
        record s {
          nonces = nonces;
          partial_fill_orders =
              insert params.base_order_id (new_order params) s.partial_fill_orders;
        },
      )))
unfolding create_partial_fill_order
create_partial_fill_order-cases crypto tx params signature s = elim (Bool-cases (is_paid tx)) [
  | inl t ↦ inl (not_payable, s, ground arith)
  | inr plain ↦ elim (Bool-cases (params.total_amount == 0)) [
    | inl t ↦ inl (invalid_amount, s, ground arith)
    | inr a ↦ elim (Bool-cases (leb params.timelock tx.timestamp)) [
      | inl t ↦ inl (invalid_timelock, s, ground arith)
      | inr b ↦ elim (Bool-cases (ltb params.deadline tx.timestamp)) [
        | inl t ↦ inl (permit_expired, s, ground arith)
        | inr c ↦ elim (Bool-cases (has_order params.base_order_id s)) [
          | inl t ↦ inl (escrow_already_exists, s, ground arith)
          | inr d ↦
              elim (verify_signer-cases params.depositor
                (λ nonce. crypto.recover_order params nonce signature) s) [
                  | inl (x, t) ↦ inl (x, s, ground arith)
                  | inr (nonces, t) ↦ inr (nonces, ground arith)
                ]
        ]
      ]
    ]
  ]
]

pub create_partial_fill_escrow-cases :
    (crypto : Crypto) (tx : Transaction) (id : String) (index amount : ℕ) (hashlock : String)
    (proof : List String) (s : Contract)
    → ((x : Revert) × (s' : Contract) × (create_partial_fill_escrow crypto tx id index amount
            hashlock proof s
          ≡ (err x, s')))
      ⊎ ((o : PartialFillOrder) × (order_at id s ≡ some o)
          × (o.filled_amount + amount ≤ o.total_amount)
          × (create_partial_fill_escrow crypto tx id index amount hashlock proof s
              ≡ create_escrow_internal tx
                  (crypto.packed_id id index)
                  (part_escrow tx o amount hashlock)
                  (fill_part id index amount o s)))
unfolding create_partial_fill_escrow
create_partial_fill_escrow-cases crypto tx id index amount hashlock proof s =
    elim (Option-cases (order_at id s)) [
      | inl t ↦ inl (order_does_not_exist, s, ground arith)
      | inr (o, there) ↦ elim (Bool-cases (leb o.num_fills index)) [
        | inl t ↦ inl (invalid_merkle_index, s, ground arith)
        | inr a ↦ elim (Bool-cases (is_used id index s)) [
          | inl t ↦ inl (merkle_index_already_used, s, ground arith)
          | inr b ↦ elim (Bool-cases (too_large (o.filled_amount + amount))) [
            | inl t ↦ inl (overflow, s, ground arith)
            | inr c ↦ elim (Bool-cases (ltb o.total_amount (o.filled_amount + amount))) [
              | inl t ↦ inl (exceeds_total_amount, s, ground arith)
              | inr d ↦
                  elim (Bool-cases
                    (str_eq (computed_hash crypto.hash_pair hashlock index proof) o.merkle_root)) [
                      | inr t ↦ inl (invalid_merkle_proof, s, ground arith)
                      | inl e ↦ elim (Bool-cases (tx.value == 0)) [
                        | inl t ↦
                            inl
                              (safety_deposit_required, fill_part id index amount o s, ground arith)
                        | inr f ↦ elim (Bool-cases (too_large (tx.timestamp + 3600))) [
                          | inl t ↦ inl (overflow, fill_part id index amount o s, ground arith)
                          | inr g ↦ inr (o, there, ground arith, ground arith)
                        ]
                      ]
                    ]
            ]
          ]
        ]
      ]
    ]
