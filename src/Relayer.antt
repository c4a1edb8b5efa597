-- ===== src/Relayer.antt =====
-- backend/relayer/src/services/RelayerServiceSimple.ts: the relayer's `/relay` route. The handler
-- waits for its transaction between the check of the nonce and the marking of it, so it is split
-- there into `begin` and `finish`; other requests run in between.
-- The parameters are ethers: `getBigInt`, `ZeroAddress`, and how a submitted transaction ends.
pub mod Nonces
mod Tests
use fusion_plus_aptos_extens.Base.{
  ℕ, ◌+◌, String, Bool, true, false, Option, none, some, List, [], ◌∷◌, ◌++◌, any, str_eq,
  if◌then◌else◌,
}
use fusion_plus_aptos_extens.Base.Exec.{Result, ok, err}
use fusion_plus_aptos_extens.Base.Truthy.{truthy}
use fusion_plus_aptos_extens.OrderService.{add}

pub record Params : Type 0 where
  pub escrow_id : String
  pub beneficiary : String
  pub token : String
  pub amount : String
  pub hashlock : String
  pub timelock : String
  pub safety_deposit : Option String
  pub secret : String

-- A request's body, in which any field may be missing.
pub record RelayRequest : Type 0 where
  pub chain : Option String
  pub kind : Option String
  pub params : Option Params
  pub signature : Option String
  pub nonce : Option String

pub record Valid : Type 0 where
  pub chain : String
  pub kind : String
  pub params : Params
  pub nonce : String

pub data Transaction : Type 0 where
  create_escrow : Params → ℕ → Transaction
  withdraw : String → String → Transaction

pub data Body : Type 0 where
  invalid_request nonce_used only_ethereum : Body
  relay_error : String → Body
  relayed : String → Body

pub record Response : Type 0 where
  pub status : ℕ
  pub body : Body

abbrev pub reply : ℕ → Body → Response
reply status body = record { status = status; body = body }

pub record Ethers : Type 0 where
  pub get_big_int : String → Result String ℕ
  pub zero_address : String

-- The set `usedNonces`.
pub record Relayer : Type 0 where
  pub used_nonces : List String

abbrev pub init : Relayer
init = record { used_nonces = [] }

abbrev pub has : String → List String → Bool
has x xs = any (λ y. str_eq y x) xs

infixl 5 ◌>>=◌
abbrev ◌>>=◌ : {A B : Type 0} → Option A → (A → Option B) → Option B
none >>= f = none
(some a) >>= f = f a

-- `none` where a field is missing or empty.
unfoldable pub validate_request : RelayRequest → Option Valid
validate_request request = do
  chain ← truthy request.chain
  kind ← truthy request.kind
  params ← request.params
  signature ← truthy request.signature
  nonce ← truthy request.nonce
  some (record { chain = chain; kind = kind; params = params; nonce = nonce })

abbrev or_zero : Option String → String
or_zero none = "0"
or_zero (some text) = text

abbrev add_results : Result String ℕ → Result String ℕ → Result String ℕ
add_results (err e) b = err e
add_results (ok a) (err e) = err e
add_results (ok a) (ok b) = ok (a + b)

-- The value that goes with the creation of an escrow.
unfoldable pub escrow_value : Ethers → Params → Result String ℕ
escrow_value ethers params =
    if str_eq params.token ethers.zero_address
    then add_results (ethers.get_big_int params.amount)
        (ethers.get_big_int (or_zero (truthy params.safety_deposit)))
    else ok 0

abbrev with_value : Params → Result String ℕ → Result String Transaction
with_value params (err e) = err e
with_value params (ok value) = ok (create_escrow params value)

-- The transaction that executeRelay submits.
unfoldable pub transaction_of : Ethers → Valid → Result String Transaction
transaction_of ethers request =
    if str_eq request.kind "CREATE_ESCROW"
    then with_value request.params (escrow_value ethers request.params)
    else if str_eq request.kind "WITHDRAW_ESCROW"
    then ok (withdraw request.params.escrow_id request.params.secret)
    else err "Unsupported relay type"

-- How far a request gets before its transaction ends.
pub data Stage : Type 0 where
  answered : Response → Stage
  submitted : String → Transaction → Stage

abbrev pub submit : String → Result String Transaction → Stage
submit nonce (err e) = answered (reply 500 (relay_error e))
submit nonce (ok transaction) = submitted nonce transaction

abbrev pub check : Ethers → Option Valid → Relayer → Stage
check ethers none s = answered (reply 400 invalid_request)
check ethers (some request) s =
    if has request.nonce s.used_nonces
    then answered (reply 400 nonce_used)
    else if str_eq request.chain "ETHEREUM"
    then submit request.nonce (transaction_of ethers request)
    else answered (reply 400 only_ethereum)

unfoldable pub begin : Ethers → RelayRequest → Relayer → Stage
begin ethers request s = check ethers (validate_request request) s

-- The transaction of a request with this nonce ended.
unfoldable pub finish : String → Result String String → Relayer → Response × Relayer
finish nonce (err e) s = (reply 500 (relay_error e), s)
finish nonce (ok hash) s =
    (reply 200 (relayed hash), record s { used_nonces = add nonce s.used_nonces })

abbrev pub complete : (Transaction → Result String String) → Stage → Relayer → Response × Relayer
complete outcome (answered response) s = (response, s)
complete outcome (submitted nonce transaction) s = finish nonce (outcome transaction) s

-- The whole handler, with nothing in between.
unfoldable pub relay :
    Ethers → (Transaction → Result String String) → RelayRequest → Relayer → Response × Relayer
relay ethers outcome request s = complete outcome (begin ethers request s) s

-- What the server sees, one at a time: a request, or the end of a transaction that was submitted
-- under a nonce.
pub data Event : Type 0 where
  arrives : RelayRequest → Event
  ends : String → Result String String → Event

abbrev pub at_once : Stage → List Response
at_once (answered response) = response ∷ []
at_once (submitted nonce transaction) = []

-- The answers to a sequence of events, in order.
unfoldable pub responses : Ethers → List Event → Relayer → List Response
responses ethers [] s = []
responses ethers (arrives request ∷ events) s =
    at_once (begin ethers request s) ++ responses ethers events s
responses ethers (ends nonce result ∷ events) s =
    let (response, s') = finish nonce result s in response ∷ responses ethers events s'
