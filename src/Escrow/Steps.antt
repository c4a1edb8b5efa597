-- ===== src/Escrow/Steps.antt =====
-- contracts/ethereum/contracts/FusionPlusGaslessEscrowV2.sol: the contract as a state machine. Every
-- call takes some of the steps below, or none when it reverts.
use fusion_plus_aptos_extens.Base.{ℕ, ◌+◌, ◌≤◌, String, false, ◌≡◌, none, some}
use fusion_plus_aptos_extens.Base.Dict.{Dict, insert}
use fusion_plus_aptos_extens.Escrow.{
  Escrow, PartialFillOrder, Contract, held, order_at, fill_part, with_escrow, with_payment,
  replaced, withdrawn_escrow, refunded_escrow,
}

abbrev pub IsOpen : Escrow → Type 0
IsOpen e = (e.withdrawn ≡ false) × (e.refunded ≡ false)

pub data Step : Contract → Contract → Type 0 where
  nonces_set : (nonces : Dict ℕ) (s : Contract) → Step s (record s { nonces = nonces })
  ordered :
      (id : String) (o : PartialFillOrder) (s : Contract)
      → o.filled_amount ≡ 0
      → Step s (record s { partial_fill_orders = insert id o s.partial_fill_orders })
  part_filled :
      (id : String) (index amount : ℕ) (o : PartialFillOrder) (s : Contract)
      → order_at id s ≡ some o
      → o.filled_amount + amount ≤ o.total_amount
      → Step s (fill_part id index amount o s)
  created :
      (id : String) (e : Escrow) (pulled : ℕ) (s : Contract)
      → held id s ≡ none
      → IsOpen e
      → e.amount ≤ pulled
      → Step s (with_escrow id e pulled s)
  withdrawn_by :
      (id caller : String) (e : Escrow) (s : Contract)
      → held id s ≡ some e
      → IsOpen e
      → Step s (with_payment id caller e.beneficiary e (replaced id (withdrawn_escrow e) s))
  refunded_by :
      (id caller : String) (e : Escrow) (s : Contract)
      → held id s ≡ some e
      → IsOpen e
      → Step s (with_payment id caller e.depositor e (replaced id (refunded_escrow e) s))

pub data Reaches (s : Contract) : Contract → Type 0 where
  here : Reaches s s
  next : {t u : Contract} → Reaches s t → Step t u → Reaches s u
