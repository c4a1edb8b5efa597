-- ===== src/Relayer/Nonces.antt =====
-- backend/relayer/src/services/RelayerServiceSimple.ts: how often a nonce is relayed.
use fusion_plus_aptos_extens.Base.{
  String, true, false, ◌≡◌, ◌⊎◌, inl, inr, refl, arith, Option, none, some, List, [], ◌∷◌, ◌++◌,
  ◌||◌, if◌then◌else◌, str_eq, str_eq_refl, str_eq_iff, Bool-cases, Option-cases, ◌==◌,
}
use fusion_plus_aptos_extens.Base.Exec.{Result, ok, err}
use fusion_plus_aptos_extens.OrderService.{add}
use fusion_plus_aptos_extens.Relayer.{
  RelayRequest, Relayer, Ethers, Transaction, Response, Stage, answered, submitted, begin, finish,
  relay, has, nonce_used, reply, relayed, validate_request, check, transaction_of, Valid,
  relay_error, only_ethereum, responses, arrives, ends,
}

Result-cases :
    {A : Type 0} (r : Result String A) → ((e : String) × (r ≡ err e)) ⊎ ((h : A) × (r ≡ ok h))
Result-cases (err e) = inl (e, refl)
Result-cases (ok h) = inr (h, refl)

-- A request that once was submitted under a nonce is refused where the nonce is used.
begin-used :
    (ethers : Ethers) (request : RelayRequest) (s : Relayer) (n : String) (t : Transaction)
    → begin ethers request s ≡ submitted n t
    → (s' : Relayer) → has n s'.used_nonces ≡ true
    → begin ethers request s' ≡ answered (reply 400 nonce_used)
unfolding begin
begin-used ethers request s n t e s' used = elim (Option-cases (validate_request request)) [
  | inl invalid ↦ ground (arith, invalid)
  | inr (valid, h) ↦ elim (Result-cases (transaction_of ethers valid)) [
    | inl (_, bad) ↦ ground arith
    | inr (t', good) ↦ ground arith
  ]
]

-- The nonces of the requests that are answered with 200, in order, when each request is handled to
-- its end before the next.
abbrev pub nonce_of : Stage → Response → List String
nonce_of (answered _) response = []
nonce_of (submitted nonce _) response = if response.status == 200 then nonce ∷ [] else []

unfoldable pub relayed_nonces :
    Ethers → (Transaction → Result String String) → List RelayRequest → Relayer → List String
relayed_nonces ethers outcome [] s = []
relayed_nonces ethers outcome (request ∷ requests) s =
    let (response, s') = relay ethers outcome request s in
    nonce_of (begin ethers request s) response ++ relayed_nonces ethers outcome requests s'

abbrev pub Distinct : List String → Type 0
Distinct [] = Unit
Distinct (x ∷ xs) = (has x xs ≡ false) × Distinct xs

any-append : (x y : String) (xs : List String) → has x (xs ++ y ∷ []) ≡ (has x xs || str_eq y x)
any-append x y [] = ground arith
any-append x y (z ∷ xs) = ground (arith, any-append x y xs)

has-add : (x y : String) (xs : List String) → has x xs ≡ true → has x (add y xs) ≡ true
has-add x y xs h = ground (arith, any-append x y xs)

has-added : (x : String) (xs : List String) → has x (add x xs) ≡ true
has-added x xs = ground (arith, any-append x x xs, str_eq_refl x)

-- A request is answered at once, or it is submitted under a nonce that is not used.
begin-cases :
    (ethers : Ethers) (request : RelayRequest) (s : Relayer)
    → ((r : Response) × (begin ethers request s ≡ answered r))
      ⊎ ((n : String) × (t : Transaction) × (begin ethers request s ≡ submitted n t)
          × (has n s.used_nonces ≡ false))
unfolding begin
begin-cases ethers request s = go (validate_request request)
  where
    go :
        (valid : Option Valid)
        → ((r : Response) × (check ethers valid s ≡ answered r))
          ⊎ ((n : String) × (t : Transaction) × (check ethers valid s ≡ submitted n t)
              × (has n s.used_nonces ≡ false))
    go none = inl (_, refl)
    go (some valid) = elim (Bool-cases (has valid.nonce s.used_nonces)) [
      | inl used ↦ inl (reply 400 nonce_used, rw used refl)
      | inr fresh ↦ elim (Bool-cases (str_eq valid.chain "ETHEREUM")) [
        | inl here ↦ elim (Result-cases (transaction_of ethers valid)) [
          | inl (e, bad) ↦ inl (reply 500 (relay_error e), rw (fresh, here, bad) refl)
          | inr (t, good) ↦ inr (valid.nonce, t, rw (fresh, here, good) refl, fresh)
        ]
        | inr elsewhere ↦ inl (reply 400 only_ethereum, rw (fresh, elsewhere) refl)
      ]
    ]

-- A used nonce is not relayed again.
relayed_nonces-used :
    (ethers : Ethers) (outcome : Transaction → Result String String) (requests : List RelayRequest)
    (s : Relayer) (n : String)
    → has n s.used_nonces ≡ true
    → has n (relayed_nonces ethers outcome requests s) ≡ false
unfolding relayed_nonces relay finish
relayed_nonces-used ethers outcome [] s n h = refl
relayed_nonces-used ethers outcome (request ∷ requests) s n h =
    elim (begin-cases ethers request s) [
      | inl (r, e) ↦ rw e (relayed_nonces-used ethers outcome requests s n h)
      | inr (m, t, e, fresh) ↦ elim (Result-cases (outcome t)) [
        | inl (error, f) ↦ rw (e, f) (relayed_nonces-used ethers outcome requests s n h)
        | inr (hash, f) ↦
            let later =
              relayed_nonces-used ethers outcome requests
                (record s { used_nonces = add m s.used_nonces }) n (has-add n m s.used_nonces h) in
            let other : str_eq m n ≡ false = ground (arith, str_eq_iff m n) in
            rw (e, f, other) later
      ]
    ]

-- Whatever the requests and however their transactions end, no nonce is relayed twice, when each
-- request is handled to its end before the next one.
pub relayed_nonces-Distinct :
    (ethers : Ethers) (outcome : Transaction → Result String String) (requests : List RelayRequest)
    (s : Relayer)
    → Distinct (relayed_nonces ethers outcome requests s)
unfolding relayed_nonces relay finish
relayed_nonces-Distinct ethers outcome [] s = tt
relayed_nonces-Distinct ethers outcome (request ∷ requests) s =
    elim (begin-cases ethers request s) [
      | inl (r, e) ↦ rw e (relayed_nonces-Distinct ethers outcome requests s)
      | inr (m, t, e, fresh) ↦ elim (Result-cases (outcome t)) [
        | inl (error, f) ↦ rw (e, f) (relayed_nonces-Distinct ethers outcome requests s)
        | inr (hash, f) ↦
            let s' = record s { used_nonces = add m s.used_nonces } in
            rw (e, f)
              (
                relayed_nonces-used ethers outcome requests s' m (has-added m s.used_nonces),
                relayed_nonces-Distinct ethers outcome requests s',
              )
      ]
    ]

-- A request that comes twice before its first transaction ends is submitted twice, and when both
-- transactions end well both are answered with 200: the nonce is checked before the wait and
-- marked after it. The same request sent after the first has ended is refused.
pub nonce_race :
    (ethers : Ethers) (request : RelayRequest) (s : Relayer) (n : String) (t : Transaction)
    (hash_1 hash_2 : String)
    → begin ethers request s ≡ submitted n t
    → (responses ethers
          (arrives request ∷ arrives request ∷ ends n (ok hash_1) ∷ ends n (ok hash_2) ∷ [])
          s
        ≡ reply 200 (relayed hash_1) ∷ reply 200 (relayed hash_2) ∷ [])
      × (responses ethers (arrives request ∷ ends n (ok hash_1) ∷ arrives request ∷ []) s
          ≡ reply 200 (relayed hash_1) ∷ reply 400 nonce_used ∷ [])
unfolding responses finish
nonce_race ethers request s n t hash_1 hash_2 e = (
  rw e refl,
  rw
      (
        e,
        begin-used ethers request s n t e (record s { used_nonces = add n s.used_nonces })
            (has-added n s.used_nonces),
      )
      refl,
)
