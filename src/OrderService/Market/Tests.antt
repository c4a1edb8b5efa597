-- ===== src/OrderService/Market/Tests.antt =====
-- Calls on two orders, seen as a market.
use mathlib.Core.Quot
use fusion_plus_aptos_extens.Base.{◌≡◌, none, List, [], ◌∷◌}
use fusion_plus_aptos_extens.Order.Samples.{open_order}
use fusion_plus_aptos_extens.Signature.{Ethers}
use fusion_plus_aptos_extens.OrderService.{Service}
use fusion_plus_aptos_extens.OrderService.Commands.{Command, cancels, percentage, cleanup, run}
use fusion_plus_aptos_extens.OrderService.Market.{view, promised_all, run-promised, Market}

abbrev no_ethers : Ethers
no_ethers = record { hash_permit = λ _. none; verify_typed_data = λ _ _. none }

abbrev two_orders : Service
two_orders = record {
  orders = ("o1", open_order) ∷ ("o2", record open_order { id = "o2" }) ∷ [];
  orders_by_maker = [];
  events = [];
}

abbrev commands : List Command
commands = percentage 8 "o2" 15000 ∷ cancels 9 "o1" "0xaa" ∷ cleanup 9000000 ∷ []

run-promised_example :
    view (run no_ethers commands two_orders) "o2"
    ≡ promised_all no_ethers commands (view two_orders) "o2"
run-promised_example = run-promised no_ethers commands two_orders "o2"

abbrev market : Market
market = Quot.mk two_orders
