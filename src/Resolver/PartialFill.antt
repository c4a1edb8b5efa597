-- ===== src/Resolver/PartialFill.antt =====
-- backend/resolver/src/services/ResolverServiceV2.ts: the filling of a part of an order,
-- handlePartialFillOrder with createPartialEscrows. What the service calls on the chains, on the
-- order engine and on its socket is kept, in order, as actions; what they answer is in `World`.
pub mod Kept
pub mod Reported
pub mod Revealed
pub mod Secret
pub mod SourceEscrow
use fusion_plus_aptos_extens.Base.{
  ℕ, zero, suc, ◌+◌, ◌-◌, ◌*◌, ◌/◌, ◌%◌, String, Bool, true, false, not, ◌&&◌, ◌||◌, Option, none,
  some, List, [], ◌∷◌, ◌++◌, ltb, leb, ◌==◌, str_eq, if◌then◌else◌,
}
use fusion_plus_aptos_extens.Base.Dict.{Dict, lookup, insert}
use fusion_plus_aptos_extens.Base.Truthy.{truthy}
use fusion_plus_aptos_extens.Amount.{Amount}
use fusion_plus_aptos_extens.Signature.{codes}
use fusion_plus_aptos_extens.Order.{Chain, DutchAuction, Order}
use fusion_plus_aptos_extens.Secrets.{
  get_secret_index, fill_thresholds, calculate_partial_amount, generate_partial_escrow_id,
}
use fusion_plus_aptos_extens.Resolver.{Resolver, calculate_optimal_fill_percentage}

-- The fill that the resolver keeps and, but for its id and its order, sends to the order engine.
pub record PartialFill : Type 0 where
  pub id : String
  pub order_id : String
  pub resolver : String
  pub amount : Amount
  pub fill_percentage : ℕ
  pub cumulative_percentage : ℕ
  pub secret_hash : Option String
  pub secret_index : ℕ
  pub base_order_id : String
  pub fill_index : ℕ

pub data Action : Type 0 where
  create_escrow : Chain → String → Amount → Action
  -- The fill and the escrow's id, to the order engine.
  post_fill : PartialFill → String → Action
  -- The socket's events.
  partial_fill_created : PartialFill → String → Action
  destination_created : Chain → PartialFill → String → ℕ → Action
  order_update : String → ℕ → Action
  secret_request : String → Action
  swap_completed : String → Option ℕ → Action
  -- The order, the fill, the secret's bytes, and the ids of the source and the destination escrow.
  complete_swap : Order → PartialFill → String → List ℕ → String → Action
  -- `setTimeout`
  retry_later : Action

-- The answers: the balance, three readings of the order's percentage, three of the clock, whether
-- the escrow was created, the ids of the created fill; and the service's own address.
pub record World : Type 0 where
  pub balance : Option ℕ
  pub current : ℕ
  pub current_again : ℕ
  pub current_third : ℕ
  pub now : ℕ
  pub later : ℕ
  pub last : ℕ
  pub escrow_created : Bool
  pub created_fill : Option (String × String)
  pub address : String

-- What the resolver takes from ethers: getBigInt and id.
pub record Ethers : Type 0 where
  pub get_big_int : Amount → Option ℕ
  pub id : List ℕ → String

pub record Plan : Type 0 where
  pub fill : ℕ
  pub from_amount : Amount
  pub to_amount : Amount
  pub cumulative : ℕ
  pub secret_index : ℕ

-- `maxParts || 4`
abbrev pub max_parts : Order → ℕ
max_parts order = elim order.max_parts [ none ↦ 4 | some n ↦ if n == 0 then 4 else n ]

abbrev pub plan_of : Order → World → ℕ → Amount → Amount → Plan
plan_of order world fill from_amount to_amount = record {
  fill = fill;
  from_amount = from_amount;
  to_amount = to_amount;
  cumulative = world.current_again + fill;
  secret_index = get_secret_index (world.current_again + fill) (fill_thresholds (max_parts order));
}

-- handlePartialFillOrder up to the escrows. `none` where the resolver fills nothing or an amount
-- is malformed.
unfoldable pub plan_partial_fill : Ethers → Resolver → Order → World → Option Plan
plan_partial_fill ethers r order world =
    let fill =
      calculate_optimal_fill_percentage r order world.balance world.current world.now world.later in
    if fill == 0
    then none
    else elim (calculate_partial_amount ethers.get_big_int order.from_amount fill) [
      | none ↦ none
      | some from_amount ↦
          elim (calculate_partial_amount ethers.get_big_int order.min_to_amount fill) [
            | none ↦ none
            | some to_amount ↦ some (plan_of order world fill from_amount to_amount)
          ]
    ]

abbrev pub fill_index_of : World → ℕ → ℕ
fill_index_of world fill = world.current_third / fill

abbrev pub partial_escrow_id : Ethers → Order → World → Plan → String
partial_escrow_id ethers order world plan =
    generate_partial_escrow_id ethers.id order.id (fill_index_of world plan.fill)

abbrev pub new_partial_fill : Ethers → Order → World → Plan → PartialFill
new_partial_fill ethers order world plan = record {
  id = partial_escrow_id ethers order world plan;
  order_id = order.id;
  resolver = world.address;
  amount = plan.to_amount;
  fill_percentage = plan.fill;
  cumulative_percentage = world.current_third + plan.fill;
  secret_hash = order.secret_hash;
  secret_index = plan.secret_index;
  base_order_id = order.id;
  fill_index = fill_index_of world plan.fill;
}

-- The ids of the order engine's answer, if it answered.
abbrev pub with_ids : Option (String × String) → PartialFill → PartialFill
with_ids none fill = fill
with_ids (some (id, order_id)) fill = record fill { id = id; order_id = order_id }

-- The state of the resolver service.
pub record Pending : Type 0 where
  pub order : Order
  pub fill : PartialFill
  pub source_escrow_id : List ℕ
  pub destination_escrow_id : String

pub record State : Type 0 where
  pub active_orders : Dict Order
  pub monitoring_fills : Dict PartialFill
  pub pending_secret_reveals : Dict Pending
  pub actions : List Action

abbrev pub act : List Action → State → State
act actions s = record s { actions = s.actions ++ actions }

abbrev pub monitor : String → PartialFill → State → State
monitor id fill s = record s { monitoring_fills = insert id fill s.monitoring_fills }

-- createPartialEscrows; a failed creation of the escrow throws.
unfoldable pub create_partial_escrows : Ethers → Order → World → Plan → State → Bool × State
create_partial_escrows ethers order world plan s =
    let id = partial_escrow_id ethers order world plan in
    let fill = new_partial_fill ethers order world plan in
    let kept = with_ids world.created_fill fill in
    let tried = act (create_escrow order.to_chain id plan.to_amount ∷ []) s in
    if not world.escrow_created then (false, tried) else (
      true,
      act
          (partial_fill_created kept id
            ∷ destination_created order.to_chain kept id (world.last + 3600)
            ∷ order_update order.id kept.cumulative_percentage
            ∷ [])
          (monitor id kept (act (post_fill fill id ∷ []) tried)),
    )

-- After the escrows another attempt is scheduled unless the order is full.
abbrev finish_plan : Plan → Bool × State → State
finish_plan plan (false, s) = s
finish_plan plan (true, s) = if ltb plan.cumulative 30000 then act (retry_later ∷ []) s else s

unfoldable pub handle_partial_fill_order : Ethers → Resolver → Order → World → State → State
handle_partial_fill_order ethers r order world s = elim (plan_partial_fill ethers r order world) [
  | none ↦ s
  | some plan ↦ finish_plan plan (create_partial_escrows ethers order world plan s)
]
