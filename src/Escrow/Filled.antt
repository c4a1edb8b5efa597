-- ===== src/Escrow/Filled.antt =====
-- contracts/ethereum/contracts/FusionPlusGaslessEscrowV2.sol: the parts of an order.
use fusion_plus_aptos_extens.Base.{
  ◌+◌, ◌≤◌, String, inl, inr, arith, List, [], ◌∷◌, str_eq, Bool-cases,
}
use fusion_plus_aptos_extens.Base.Dict.{Dict, insert}
use fusion_plus_aptos_extens.Escrow.{PartialFillOrder, Contract, Crypto, Transaction}
use fusion_plus_aptos_extens.Escrow.Requests.{Request, transact_all}
use fusion_plus_aptos_extens.Escrow.Calls.{transact_all-Reaches}
use fusion_plus_aptos_extens.Escrow.Steps.{
  Step, Reaches, here, next, nonces_set, ordered, part_filled, created, withdrawn_by, refunded_by,
}

-- No order is filled beyond its total.
abbrev pub IsWithin : Dict PartialFillOrder → Type 0
IsWithin [] = Unit
IsWithin ((_, o) ∷ d) = (o.filled_amount ≤ o.total_amount) × IsWithin d

insert-IsWithin :
    (id : String) (o : PartialFillOrder) (d : Dict PartialFillOrder)
    → o.filled_amount ≤ o.total_amount
    → IsWithin d
    → IsWithin (insert id o d)
insert-IsWithin id o [] h w = (h, tt)
insert-IsWithin id o ((j, p) ∷ d) h (first, w) = elim (Bool-cases (str_eq j id)) [
  | inl same ↦ rw same (h, w)
  | inr other ↦ rw other (first, insert-IsWithin id o d h w)
]

Step-IsWithin :
    {s t : Contract} → Step s t → IsWithin s.partial_fill_orders → IsWithin t.partial_fill_orders
Step-IsWithin (nonces_set nonces s) w = w
Step-IsWithin (ordered id o s unfilled) w =
    insert-IsWithin id o s.partial_fill_orders (omega arith) w
Step-IsWithin (part_filled id index amount o s there fits) w =
    insert-IsWithin id (record o { filled_amount = o.filled_amount + amount }) s.partial_fill_orders
      fits w
Step-IsWithin (created id e pulled s fresh is_open enough) w = w
Step-IsWithin (withdrawn_by id caller e s there is_open) w = w
Step-IsWithin (refunded_by id caller e s there is_open) w = w

Reaches-IsWithin :
    {s t : Contract} → Reaches s t → IsWithin s.partial_fill_orders → IsWithin t.partial_fill_orders
Reaches-IsWithin here w = w
Reaches-IsWithin (next r step) w = Step-IsWithin step (Reaches-IsWithin r w)

-- When no partial-fill order is filled beyond its total amount, none is after any sequence of calls.
pub transact_all-IsWithin :
    (crypto : Crypto) (requests : List (Transaction × Request)) (s : Contract)
    → IsWithin s.partial_fill_orders
    → IsWithin (transact_all crypto requests s).partial_fill_orders
transact_all-IsWithin crypto requests s w =
    Reaches-IsWithin (transact_all-Reaches crypto requests s s here) w
