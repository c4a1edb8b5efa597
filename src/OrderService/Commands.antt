-- ===== src/OrderService/Commands.antt =====
-- The calls that the routes, the socket handlers and the timer make on the service, as data. A
-- call that throws ends alone: its caller answers with the error.
use fusion_plus_aptos_extens.Base.{ℕ, String, Option, List, [], ◌∷◌}
use fusion_plus_aptos_extens.Order.{CreateOrderDto, FillStatus, FillData}
use fusion_plus_aptos_extens.Signature.{Ethers}
use fusion_plus_aptos_extens.OrderService.{
  Service, create_order, create_fill, update_fill_status, cancel_order,
  update_order_filled_percentage, cleanup_expired_orders,
}

pub data Command : Type 0 where
  create : ℕ → String → CreateOrderDto → Command
  fill : ℕ → String → String → FillData → Command
  fill_status : ℕ → String → String → FillStatus → Option String → Option String → Command
  cancels : ℕ → String → String → Command
  percentage : ℕ → String → ℕ → Command
  cleanup : ℕ → Command

unfoldable pub step : Ethers → Command → Service → Service
step ethers (create now new_id dto) s = (create_order ethers now new_id dto s).1
step ethers (fill now new_id id f) s = (create_fill now new_id id f s).1
step ethers (fill_status now id fill_id st sh dh) s =
    (update_fill_status now id fill_id st sh dh s).1
step ethers (cancels now id maker) s = (cancel_order now id maker s).1
step ethers (percentage now id p) s = (update_order_filled_percentage now id p s).1
step ethers (cleanup now) s = cleanup_expired_orders now s

unfoldable pub run : Ethers → List Command → Service → Service
run ethers [] s = s
run ethers (c ∷ cs) s = run ethers cs (step ethers c s)
