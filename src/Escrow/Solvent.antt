-- ===== src/Escrow/Solvent.antt =====
-- contracts/ethereum/contracts/FusionPlusGaslessEscrowV2.sol: what the contract owes is covered.
use fusion_plus_aptos_extens.Base.{
  ℕ, ◌+◌, ◌≤◌, String, Bool, true, false, not, ◌||◌, ◌≡◌, ap, inl, inr, Bool-cases, refl, arith,
  Option, none, some, List, [], ◌∷◌, str_eq, if◌then◌else◌, Option-cases,
}
use fusion_plus_aptos_extens.Base.Dict.{Dict, lookup, insert}
use fusion_plus_aptos_extens.Escrow.{
  Escrow, Contract, Crypto, Transaction, Asset, Transfer, token, ether, received, paid, held,
  withdrawn_escrow, refunded_escrow,
}
use fusion_plus_aptos_extens.Escrow.Requests.{Request, transact_all}
use fusion_plus_aptos_extens.Escrow.Calls.{transact_all-Reaches}
use fusion_plus_aptos_extens.Escrow.Steps.{
  Step, Reaches, IsOpen, here, next, nonces_set, ordered, part_filled, created, withdrawn_by,
  refunded_by,
}

abbrev asset_eq : Asset → Asset → Bool
asset_eq (token a) (token b) = str_eq a b
asset_eq ether ether = true
asset_eq _ _ = false

abbrev when : Bool → ℕ → ℕ
when b n = if b then n else 0

-- What an escrow holds of an asset until it is withdrawn or refunded.
abbrev amount_of : Asset → Escrow → ℕ
amount_of (token a) e = when (str_eq a e.token) e.amount
amount_of ether e = e.safety_deposit

abbrev owed : Asset → Escrow → ℕ
owed a e = when (not (e.withdrawn || e.refunded)) (amount_of a e)

unfoldable pub locked : Asset → Dict Escrow → ℕ
locked a [] = 0
locked a ((_, e) ∷ d) = owed a e + locked a d

unfoldable pub total_received : Asset → List Transfer → ℕ
total_received a [] = 0
total_received a (received b n ∷ ts) = when (asset_eq a b) n + total_received a ts
total_received a (paid id b to n ∷ ts) = total_received a ts

unfoldable pub total_paid : Asset → List Transfer → ℕ
total_paid a [] = 0
total_paid a (received b n ∷ ts) = total_paid a ts
total_paid a (paid id b to n ∷ ts) = when (asset_eq a b) n + total_paid a ts

abbrev pub IsSolvent : Asset → Contract → Type 0
IsSolvent a s = total_paid a s.transfers + locked a s.escrows ≤ total_received a s.transfers

abbrev owed_at : Asset → Option Escrow → ℕ
owed_at a none = 0
owed_at a (some e) = owed a e

locked-insert :
    (a : Asset) (id : String) (e : Escrow) (d : Dict Escrow)
    → locked a (insert id e d) + owed_at a (lookup id d) ≡ locked a d + owed a e
unfolding locked
locked-insert a id e [] = omega arith
locked-insert a id e ((j, f) ∷ d) = elim (Bool-cases (str_eq j id)) [
  | inl same ↦ rw same (omega arith)
  | inr other ↦ rw other (omega (arith, locked-insert a id e d))
]

held-lookup :
    (id : String) (e : Escrow) (s : Contract) → held id s ≡ some e → lookup id s.escrows ≡ some e
unfolding held
held-lookup id e s h = elim (Option-cases (lookup id s.escrows)) [
  | inl missing ↦ ground arith
  | inr (f, there) ↦ ground arith
]

-- Whether the asset is the escrow's token.
abbrev in_token : Asset → Escrow → ℕ → ℕ
in_token a e n = when (asset_eq a (token e.token)) n

abbrev in_ether : Asset → ℕ → ℕ
in_ether a n = when (asset_eq a ether) n

amount_of-parts :
    (a : Asset) (e : Escrow) → amount_of a e ≡ in_token a e e.amount + in_ether a e.safety_deposit
amount_of-parts (token t) e = omega arith
amount_of-parts ether e = omega arith

in_token_mono : (a : Asset) (e : Escrow) (m n : ℕ) → m ≤ n → in_token a e m ≤ in_token a e n
in_token_mono a e m n h = elim (Bool-cases (asset_eq a (token e.token))) [
  | inl t ↦ rw t h
  | inr t ↦ rw t (omega arith)
]

owed-IsOpen : (a : Asset) (e : Escrow) → IsOpen e → owed a e ≡ amount_of a e
owed-IsOpen a e (w, f) = rw (w, f) refl

owed-settled : (a : Asset) (e : Escrow) → (e.withdrawn || e.refunded) ≡ true → owed a e ≡ 0
owed-settled a e h = rw h refl

owed_at-held :
    (a : Asset) (id : String) (e : Escrow) (s : Contract)
    → held id s ≡ some e
    → owed_at a (lookup id s.escrows) ≡ owed a e
owed_at-held a id e s h = ap (owed_at a) (held-lookup id e s h)

module _ (a : Asset) where
  -- A settled escrow stands where an open one stood, and its amounts are paid.
  settled-IsSolvent :
      (id : String) (e e' : Escrow) (s : Contract)
      → held id s ≡ some e
      → IsOpen e
      → owed a e' ≡ 0
      → IsSolvent a s
      → in_token a e e.amount
          + (in_ether a e.safety_deposit + total_paid a s.transfers)
          + locked a (insert id e' s.escrows)
        ≤ total_received a s.transfers
  settled-IsSolvent id e e' s there is_open none_left h = omega (
    arith,
    h,
    locked-insert a id e' s.escrows,
    owed_at-held a id e s there,
    owed-IsOpen a e is_open,
    amount_of-parts a e,
    none_left,
  )

  Step-IsSolvent : {s t : Contract} → Step s t → IsSolvent a s → IsSolvent a t
  unfolding total_received total_paid
  Step-IsSolvent (nonces_set nonces s) h = h
  Step-IsSolvent (ordered id o s zero_filled) h = h
  Step-IsSolvent (part_filled id index amount o s there fits) h = h
  Step-IsSolvent (created id e pulled s fresh is_open enough) h = omega (
    arith,
    h,
    locked-insert a id e s.escrows,
    owed-IsOpen a e is_open,
    amount_of-parts a e,
    in_token_mono a e e.amount pulled enough,
  )
  Step-IsSolvent (withdrawn_by id caller e s there is_open) h =
      settled-IsSolvent id e (withdrawn_escrow e) s there is_open refl h
  Step-IsSolvent (refunded_by id caller e s there is_open) h =
      settled-IsSolvent id e (refunded_escrow e) s there is_open
        (owed-settled a (refunded_escrow e) (rw is_open.0 refl)) h

  Reaches-IsSolvent : {s t : Contract} → Reaches s t → IsSolvent a s → IsSolvent a t
  Reaches-IsSolvent here h = h
  Reaches-IsSolvent (next r step) h = Step-IsSolvent step (Reaches-IsSolvent r h)

-- When what the contract received of a token, or in deposits, covers what it paid and what its open
-- escrows hold, then it still does after any sequence of calls, reverted ones included.
pub transact_all-IsSolvent :
    (a : Asset) (crypto : Crypto) (requests : List (Transaction × Request)) (s : Contract)
    → IsSolvent a s
    → IsSolvent a (transact_all crypto requests s)
transact_all-IsSolvent a crypto requests s h =
    Reaches-IsSolvent a (transact_all-Reaches crypto requests s s here) h
