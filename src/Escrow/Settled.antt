-- ===== src/Escrow/Settled.antt =====
-- contracts/ethereum/contracts/FusionPlusGaslessEscrowV2.sol: the life of one escrow.
use mathlib.Core.Path.{subst}
use fusion_plus_aptos_extens.Base.{
  ◌++◌, ◌∙◌, if◌then◌else◌, ℕ, String, true, false, ◌≡◌, ap, ◌⊎◌, inl, inr, refl, arith, none, some,
  List, [], ◌∷◌, str_eq, str_eq_iff, Bool-cases,
}
use fusion_plus_aptos_extens.Base.Dict.{lookup-insert}
use fusion_plus_aptos_extens.Escrow.{
  Escrow, Contract, Crypto, Transaction, Transfer, token, ether, received, paid, held,
  withdrawn_escrow, refunded_escrow, with_escrow, with_payment, replaced,
}
use fusion_plus_aptos_extens.Escrow.Requests.{Request, transact_all}
use fusion_plus_aptos_extens.Escrow.Calls.{transact_all-Reaches}
use fusion_plus_aptos_extens.Escrow.Steps.{
  Step, Reaches, IsOpen, here, next, nonces_set, ordered, part_filled, created, withdrawn_by,
  refunded_by,
}

-- All that was paid for an escrow, latest first.
abbrev pub payments : String → List Transfer → List Transfer
payments id [] = []
payments id (received a n ∷ ts) = payments id ts
payments id (paid j a to n ∷ ts) =
    let rest = payments id ts in if str_eq j id then paid j a to n ∷ rest else rest

-- The amount to its receiver and the deposit to the caller.
abbrev pub settlement : String → String → String → Escrow → List Transfer
settlement id caller receiver e =
    paid id (token e.token) receiver e.amount ∷ paid id ether caller e.safety_deposit ∷ []

-- What became of an escrow that stood as `e`, for which `before` was paid: it still does and nothing
-- more was paid for it, or it was open, and was settled and paid once.
abbrev pub Fate : String → Escrow → List Transfer → Contract → Type 0
Fate id e before s =
    ((held id s ≡ some e) × (payments id s.transfers ≡ before))
    ⊎ (IsOpen e
        × (caller : String) × (((held id s ≡ some record e { withdrawn = true })
              × (payments id s.transfers ≡ settlement id caller e.beneficiary e ++ before))
            ⊎ ((held id s ≡ some record e { refunded = true })
                × (payments id s.transfers ≡ settlement id caller e.depositor e ++ before))))

held-created :
    (id j : String) (e x : Escrow) (pulled : ℕ) (s : Contract)
    → held id s ≡ none
    → held j s ≡ some x
    → held j (with_escrow id e pulled s) ≡ some x
unfolding held
held-created id j e x pulled s fresh there =
    ground (arith, lookup-insert id j e s.escrows, str_eq_iff id j)

-- A settled escrow takes the place of the open one, and no other.
held-replaced :
    (id j : String) (e e' x : Escrow) (s : Contract)
    → held id s ≡ some e
    → e'.depositor ≡ e.depositor
    → held j s ≡ some x
    → ((str_eq id j ≡ true) × (e ≡ x) × (held j (replaced id e' s) ≡ some e'))
      ⊎ ((str_eq id j ≡ false) × (held j (replaced id e' s) ≡ some x))
unfolding held
held-replaced id j e e' x s there same found = elim (Bool-cases (str_eq id j)) [
  | inl eq ↦ inl (
    eq,
    ground (arith, str_eq_iff id j),
    ground (arith, lookup-insert id j e' s.escrows, str_eq_iff id j),
  )
  | inr other ↦ inr (other, ground (arith, lookup-insert id j e' s.escrows))
]

payments-settlement :
    (i id caller receiver : String) (x : Escrow) (ts : List Transfer)
    → payments id (settlement i caller receiver x ++ ts)
      ≡ (if str_eq i id then settlement id caller receiver x ++ payments id ts else payments id ts)
payments-settlement i id caller receiver x ts = elim (Bool-cases (str_eq i id)) [
  | inl same ↦ ground (arith, str_eq_iff i id)
  | inr other ↦ ground arith
]

module _ (id : String) (e : Escrow) (before : List Transfer) where
  -- A step that leaves held escrows alone and pays nothing for this one keeps its fate.
  Fate-kept :
      (s t : Contract)
      → ((x : Escrow) → held id s ≡ some x → held id t ≡ some x)
      → payments id t.transfers ≡ payments id s.transfers
      → Fate id e before s
      → Fate id e before t
  Fate-kept s t keeps same (inl (there, n)) = inl (keeps e there, same ∙ n)
  Fate-kept s t keeps same (inr (is_open, caller, inl (there, n))) =
      inr (is_open, caller, inl (keeps (withdrawn_escrow e) there, same ∙ n))
  Fate-kept s t keeps same (inr (is_open, caller, inr (there, n))) =
      inr (is_open, caller, inr (keeps (refunded_escrow e) there, same ∙ n))

  -- What the step that settles the escrow `x` at `i` does to the fate of `e` at `id`: where it is
  -- another escrow, nothing; else `e` is settled by it, and cannot have been settled before.
  module _ (i caller receiver : String) (x x' : Escrow) (s : Contract) where
    abbrev settled_state : Contract
    settled_state = with_payment i caller receiver x (replaced i x' s)

    Fate-settled :
        held i s ≡ some x
        → IsOpen x
        → x'.depositor ≡ x.depositor
        → (held id settled_state ≡ some x'
            → payments id settled_state.transfers ≡ settlement id caller receiver x ++ before
            → Fate id x before settled_state)
        → Fate id e before s
        → Fate id e before settled_state
    unfolding held
    Fate-settled there is_open same ends (inl (now, n)) =
        elim (held-replaced i id x x' e s there same now) [
          | inl (me, eq, stands) ↦
              subst (λ y. Fate id y before settled_state) eq
                (ends stands
                  (rw (payments-settlement i id caller receiver x s.transfers, me, n) refl))
          | inr (other, stands) ↦
              inl (stands, rw (payments-settlement i id caller receiver x s.transfers, other) n)
        ]
    Fate-settled there is_open same ends (inr (was_open, c, inl (now, n))) =
        elim (held-replaced i id x x' (withdrawn_escrow e) s there same now) [
          | inl (me, eq, stands) ↦ ground (arith, ap (λ f. f.withdrawn) eq, is_open.0)
          | inr (other, stands) ↦ inr (
            was_open,
            c,
            inl (stands, rw (payments-settlement i id caller receiver x s.transfers, other) n),
          )
        ]
    Fate-settled there is_open same ends (inr (was_open, c, inr (now, n))) =
        elim (held-replaced i id x x' (refunded_escrow e) s there same now) [
          | inl (me, eq, stands) ↦ ground (arith, ap (λ f. f.refunded) eq, is_open.1)
          | inr (other, stands) ↦ inr (
            was_open,
            c,
            inr (stands, rw (payments-settlement i id caller receiver x s.transfers, other) n),
          )
        ]

  Step-Fate : {s t : Contract} → Step s t → Fate id e before s → Fate id e before t
  unfolding held
  Step-Fate (nonces_set nonces s) h = h
  Step-Fate (ordered i o s zero_filled) h = h
  Step-Fate (part_filled i index amount o s there fits) h = h
  Step-Fate (created i x pulled s fresh is_open enough) h =
      Fate-kept s (with_escrow i x pulled s) (λ y found. held-created i id x y pulled s fresh found)
        refl h
  Step-Fate (withdrawn_by i caller x s there is_open) h =
      Fate-settled i caller x.beneficiary x (withdrawn_escrow x) s there is_open refl
        (λ stands n. inr (is_open, caller, inl (stands, n))) h
  Step-Fate (refunded_by i caller x s there is_open) h =
      Fate-settled i caller x.depositor x (refunded_escrow x) s there is_open refl
        (λ stands n. inr (is_open, caller, inr (stands, n))) h

  Reaches-Fate : {s t : Contract} → Reaches s t → Fate id e before s → Fate id e before t
  Reaches-Fate here h = h
  Reaches-Fate (next r step) h = Step-Fate step (Reaches-Fate r h)

pub transact_all-Fate :
    (id : String) (e : Escrow) (crypto : Crypto) (requests : List (Transaction × Request))
    (s : Contract)
    → held id s ≡ some e
    → Fate id e (payments id s.transfers) (transact_all crypto requests s)
transact_all-Fate id e crypto requests s h =
    Reaches-Fate id e (payments id s.transfers) (transact_all-Reaches crypto requests s s here)
      (inl (h, refl))
