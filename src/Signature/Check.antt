-- ===== src/Signature/Check.antt =====
-- When validateOrderSignature accepts an order.
use fusion_plus_aptos_extens.Base.{
  String, ◌≡◌, refl, ◌↔◌, ◌⊎◌, inl, inr, true, some, arith, str_eq, str_eq_iff, Option-cases,
  Bool-cases,
}
use fusion_plus_aptos_extens.Amount.Roundtrip.{amount_eq_iff}
use fusion_plus_aptos_extens.Order.{Chain, ethereum, aptos, CreateOrderDto}
use fusion_plus_aptos_extens.Signature.{
  Ethers, recovered_address, to_lower_case, validate_order_signature, validate_ethereum_signature,
}

module _ (ethers : Ethers) (order : CreateOrderDto) where
  -- Why an order is accepted: one side is Aptos and the signature is the placeholder, or the
  -- source is Ethereum and the signature recovers to the maker, up to the case of letters.
  pub data Accepted : Type 0 where
    deferred_source : order.from_chain ≡ aptos → order.signature ≡ "0x00" → Accepted
    deferred_target : order.to_chain ≡ aptos → order.signature ≡ "0x00" → Accepted
    signed :
        order.from_chain ≡ ethereum
        → (recovered : String) → recovered_address ethers order ≡ some recovered
        → to_lower_case recovered ≡ to_lower_case order.maker
        → Accepted

Chain-cases : (c : Chain) → (c ≡ ethereum) ⊎ (c ≡ aptos)
Chain-cases ethereum = inl refl
Chain-cases aptos = inr refl

module _ (ethers : Ethers) (order : CreateOrderDto) where
  signed_accepted :
      order.from_chain ≡ ethereum
      → validate_ethereum_signature ethers order ≡ true
      → Accepted ethers order
  unfolding validate_ethereum_signature
  signed_accepted e h = elim (Option-cases (recovered_address ethers order)) [
    | inl n ↦ absurd (ground arith)
    | inr (a, p) ↦ signed e a p ((amount_eq_iff _ _).0 (ground arith))
  ]

  validate_order_signature_sound :
      validate_order_signature ethers order ≡ true → Accepted ethers order
  unfolding validate_order_signature
  validate_order_signature_sound h = elim (Chain-cases order.from_chain) [
    | inl e ↦ elim (Bool-cases (str_eq order.signature "0x00")) [
      | inl s ↦ elim (Chain-cases order.to_chain) [
        | inl e' ↦ signed_accepted e (ground arith)
        | inr a ↦ deferred_target a ((str_eq_iff _ _).0 s)
      ]
      | inr n ↦ signed_accepted e (ground arith)
    ]
    | inr a ↦ deferred_source a ((str_eq_iff _ _).0 (ground arith))
  ]

  validate_order_signature_complete :
      Accepted ethers order → validate_order_signature ethers order ≡ true
  unfolding validate_order_signature validate_ethereum_signature
  validate_order_signature_complete (deferred_source e s) =
      ground (arith, str_eq_iff order.signature "0x00")
  validate_order_signature_complete (deferred_target e s) =
      ground (arith, str_eq_iff order.signature "0x00")
  validate_order_signature_complete (signed e a p q) =
      ground (arith, amount_eq_iff (to_lower_case a) (to_lower_case order.maker))

  -- An order is accepted exactly if it touches Aptos and carries the placeholder signature "0x00",
  -- or comes from Ethereum and the address recovered from its signature is the maker's, up to the
  -- case of letters.
  pub validate_order_signature-Accepted :
      (validate_order_signature ethers order ≡ true) ↔ Accepted ethers order
  validate_order_signature-Accepted =
      (validate_order_signature_sound, validate_order_signature_complete)
