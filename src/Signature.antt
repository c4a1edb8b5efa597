-- ===== src/Signature.antt =====
-- backend/order-engine/src/utils/signature.ts: the check of an order's signature, and its hash.
pub mod Check
mod Tests
use fusion_plus_aptos_extens.Base.{
  ℕ, ◌+◌, String, Bool, true, false, ◌&&◌, ◌||◌, List, [], ◌∷◌, Option, none, some, map, leb,
  str_eq, if◌then◌else◌,
}
use Prim.Native.Char.{code}
use fusion_plus_aptos_extens.Amount.{Amount, amount_eq}
use fusion_plus_aptos_extens.Order.{Chain, ethereum, aptos, CreateOrderDto, Permit}

-- The character codes of a text.
abbrev pub codes : String → List ℕ
codes String.[] = []
codes (String.◌∷◌ c s) = code c ∷ codes s

-- `toLowerCase`, for the ASCII letters (addresses are hexadecimal).
abbrev pub lower_code : ℕ → ℕ
lower_code c = if leb b'A' c && leb c b'Z' then c + 32 else c

abbrev pub to_lower_case : String → List ℕ
to_lower_case s = map lower_code (codes s)

abbrev pub is_aptos : Chain → Bool
is_aptos ethereum = false
is_aptos aptos = true

-- The value that is signed: the order's fields, and the hash of its permit where it has one. The
-- EIP-712 domain and the two type tables are constants.
pub record TypedOrder : Type 0 where
  pub from_chain : Chain
  pub to_chain : Chain
  pub from_token : String
  pub to_token : String
  pub from_amount : Amount
  pub min_to_amount : Amount
  pub maker : String
  pub receiver : String
  pub deadline : ℕ
  pub nonce : String
  pub partial_fill_allowed : Bool
  pub permit_hash : Option String

-- The calls of the ethers library; `none` means that the call throws. `hash_permit` is keccak256 of
-- the encoded permit, and `verify_typed_data` the address recovered from a value and a signature.
pub record Ethers : Type 0 where
  pub hash_permit : Permit → Option String
  pub verify_typed_data : TypedOrder → String → Option String

abbrev pub typed_order : CreateOrderDto → Option String → TypedOrder
typed_order order hash = record {
  from_chain = order.from_chain;
  to_chain = order.to_chain;
  from_token = order.from_token;
  to_token = order.to_token;
  from_amount = order.from_amount;
  min_to_amount = order.min_to_amount;
  maker = order.maker;
  receiver = order.receiver;
  deadline = order.deadline;
  nonce = order.nonce;
  partial_fill_allowed = order.partial_fill_allowed;
  permit_hash = hash;
}

-- The address that signed the order, or `none` if a library call throws.
unfoldable pub recovered_address : Ethers → CreateOrderDto → Option String
recovered_address ethers order = elim order.permit [
  | none ↦ ethers.verify_typed_data (typed_order order none) order.signature
  | some permit ↦ elim (ethers.hash_permit permit) [
    | none ↦ none
    | some hash ↦ ethers.verify_typed_data (typed_order order (some hash)) order.signature
  ]
]

unfoldable pub validate_ethereum_signature : Ethers → CreateOrderDto → Bool
unfolding amount_eq
validate_ethereum_signature ethers order = elim (recovered_address ethers order) [
  | none ↦ false
  | some recovered ↦ amount_eq (to_lower_case recovered) (to_lower_case order.maker)
]

unfoldable pub validate_aptos_signature : CreateOrderDto → Bool
validate_aptos_signature order = str_eq order.signature "0x00"

abbrev validate_for_chain : Chain → Bool → Bool → Bool
validate_for_chain ethereum on_ethereum on_aptos = on_ethereum
validate_for_chain aptos on_ethereum on_aptos = on_aptos

unfoldable pub validate_order_signature : Ethers → CreateOrderDto → Bool
unfolding validate_ethereum_signature validate_aptos_signature
validate_order_signature ethers order =
    if (is_aptos order.from_chain || is_aptos order.to_chain) && str_eq order.signature "0x00"
    then true
    else validate_for_chain order.from_chain (validate_ethereum_signature ethers order)
        (validate_aptos_signature order)

-- The hash of an order's data, which are the signed fields but for the permit. `hash` is keccak256 of
-- the encoded tuple.
unfoldable pub generate_order_hash : (TypedOrder → String) → CreateOrderDto → String
generate_order_hash hash order = hash (typed_order order none)
