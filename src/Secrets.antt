-- ===== src/Secrets.antt =====
-- backend/order-engine/src/utils/partialFillSecrets.ts: which secret a partial fill needs, how much
-- of the order it is worth, and the id of its escrow. The same three functions stand in
-- backend/resolver/src/services/ResolverServiceV2.ts. Percentages are in units of 1/300 %.
-- `get_big_int` stands for ethers.getBigInt and `keccak_id` for ethers.id; `none` is a throw.
pub mod Index
pub mod Amounts
pub mod EscrowId
mod Tests
use fusion_plus_aptos_extens.Base.{
  ℕ, zero, suc, ◌+◌, ◌*◌, ◌/◌, String, List, [], ◌∷◌, ◌++◌, Option, none, some, leb, get_elem?,
  if◌then◌else◌,
}
use fusion_plus_aptos_extens.Amount.{Amount, to_string}
use fusion_plus_aptos_extens.Signature.{codes}

-- The first threshold that the cumulative percentage does not exceed; the number of thresholds if
-- it exceeds all.
unfoldable pub get_secret_index : ℕ → List ℕ → ℕ
get_secret_index cumulative [] = 0
get_secret_index cumulative (threshold ∷ thresholds) =
    let rest = get_secret_index cumulative thresholds in
    if leb cumulative threshold then 0 else suc rest

-- `{ secret: secrets[index], index }`; `none` is `undefined`.
unfoldable pub get_secret_for_fill : List String → ℕ → ℕ → List ℕ → Option String × ℕ
get_secret_for_fill secrets current new thresholds =
    let index = get_secret_index (current + new) thresholds in (get_elem? secrets index, index)

-- The thresholds `i * 100 / parts` for i = first, first + 1, … of `count` parts.
unfoldable pub thresholds_from : ℕ → ℕ → ℕ → List ℕ
thresholds_from parts first zero = []
thresholds_from parts first (suc count) =
    (first * 30000 / parts) ∷ thresholds_from parts (first + 1) count

unfoldable pub fill_thresholds : ℕ → List ℕ
unfolding thresholds_from
fill_thresholds parts = thresholds_from parts 1 parts

-- `total * BigInt(Math.floor(fillPercentage * 100)) / 10000`
abbrev pub partial_of : ℕ → ℕ → ℕ
partial_of total fill = total * (fill * 100 / 300) / 10000

unfoldable pub calculate_partial_amount : (Amount → Option ℕ) → Amount → ℕ → Option Amount
calculate_partial_amount get_big_int total_amount fill = elim (get_big_int total_amount) [
  | none ↦ none
  | some total ↦ some (to_string (partial_of total fill))
]

-- The text `${baseOrderId}-partial-${fillIndex}`, as character codes.
abbrev pub partial_escrow_text : String → ℕ → List ℕ
partial_escrow_text base_order_id fill_index =
    codes base_order_id ++ (codes "-partial-" ++ to_string fill_index)

unfoldable pub generate_partial_escrow_id : (List ℕ → String) → String → ℕ → String
generate_partial_escrow_id keccak_id base_order_id fill_index =
    keccak_id (partial_escrow_text base_order_id fill_index)
