-- ===== src/Resolver/Intake.antt =====
-- backend/resolver/src/services/ResolverServiceV2.ts, handleNewOrder: how the resolver takes up an
-- order. The handler runs up to its first wait (`begin`) and, for an order that is filled as a whole,
-- goes on with the answers of its checks (`finish`); other events run in between. The filling of a
-- part is returned without being awaited, so that the `finally` block runs in `begin`. Errors are only
-- logged, and the log is left out.
pub mod Twice
pub mod News
use fusion_plus_aptos_extens.Base.{
  String, Bool, true, false, not, ◌&&◌, ◌||◌, List, [], ◌∷◌, ◌++◌, any, filter, str_eq,
  if◌then◌else◌,
}
use fusion_plus_aptos_extens.Base.Dict.{Dict, insert}
use fusion_plus_aptos_extens.Order.{Chain, ethereum, aptos, Order}
use fusion_plus_aptos_extens.OrderService.{add}
use fusion_plus_aptos_extens.Resolver.{partial_enabled}

pub data Action : Type 0 where
  -- The call of handlePartialFillOrder.
  fill_part : Order → Action
  -- The call of checkProfitability, at which the handler waits.
  check_profitability : Order → Action
  track : String → Action
  create_destination_escrow : Order → Action

pub record Intake : Type 0 where
  pub is_processing : List String
  pub active_orders : Dict Order
  pub actions : List Action

-- What the checks and calls answer: profitable, enough balance, and whether the two calls before
-- the end did not throw.
pub record Answers : Type 0 where
  pub profitable : Bool
  pub sufficient : Bool
  pub tracked : Bool
  pub created : Bool

abbrev pub has : String → List String → Bool
has x xs = any (λ y. str_eq y x) xs

-- `Set.delete`
abbrev pub remove : String → List String → List String
remove x xs = filter (λ y. not (str_eq y x)) xs

abbrev pub is_aptos_to_ethereum : Chain → Chain → Bool
is_aptos_to_ethereum aptos ethereum = true
is_aptos_to_ethereum aptos aptos = false
is_aptos_to_ethereum ethereum to_chain = false

abbrev pub routes_partial : Order → Bool
routes_partial order = partial_enabled order || is_aptos_to_ethereum order.from_chain order.to_chain

abbrev act : List Action → Intake → Intake
act actions s = record s { actions = s.actions ++ actions }

abbrev release : Order → Intake → Intake
release order s = record s { is_processing = remove order.id s.is_processing }

abbrev pub taken_up : Order → Intake → Intake
taken_up order s = record s {
  is_processing = add order.id s.is_processing;
  active_orders = insert order.id order s.active_orders;
}

unfoldable pub begin : Order → Intake → Intake
begin order s =
    if has order.id s.is_processing
    then s
    else if routes_partial order
    then release order (act (fill_part order ∷ []) (taken_up order s))
    else act (check_profitability order ∷ []) (taken_up order s)

-- The calls after the checks, as far as none throws.
abbrev escrow_actions : Order → Answers → List Action
escrow_actions order answers =
    track "Before creating destination escrow"
    ∷ (if answers.tracked
        then create_destination_escrow order
          ∷ (if answers.created then track "After creating destination escrow" ∷ [] else [])
        else [])

unfoldable pub finish : Order → Answers → Intake → Intake
finish order answers s =
    release order
      (if answers.profitable && answers.sufficient then act (escrow_actions order answers) s else s)
