-- ===== src/Socket/Tests.antt =====
-- Events of clients at concrete orders.
use fusion_plus_aptos_extens.Base.{◌≡◌, ◌⊎◌, none, some, [], ◌∷◌}
use fusion_plus_aptos_extens.Base.Dict.{lookup}
use fusion_plus_aptos_extens.Order.{Order, OrderStatus}
use fusion_plus_aptos_extens.Order.Samples.{swap_dto, order_of}
use fusion_plus_aptos_extens.Signature.{Ethers}
use fusion_plus_aptos_extens.OrderService.{Service, Error, fresh_order}
use fusion_plus_aptos_extens.Socket.{
  on_client, submit, emit_to, everyone, sender, error_body, order_body, created_body,
}
use fusion_plus_aptos_extens.Socket.Announce.{on_client-submit}

abbrev no_ethers : Ethers
no_ethers = record { hash_permit = λ _. none; verify_typed_data = λ _ _. none }

abbrev cancelled_order : Order
cancelled_order = order_of swap_dto OrderStatus.cancelled

abbrev holding : Service
holding = record {
  orders = ("o1", cancelled_order) ∷ [];
  orders_by_maker = ("0xaa", "o1" ∷ []) ∷ [];
  events = [];
}

on_client-submit_example :
    ((e : Error) × (on_client no_ethers 5 "o2" (submit swap_dto) holding
        ≡ (emit_to sender "error" (error_body e) ∷ [], holding)))
    ⊎ ((lookup "o2" (on_client no_ethers 5 "o2" (submit swap_dto) holding).1.orders
          ≡ some (fresh_order swap_dto 5 "o2"))
        × ((on_client no_ethers 5 "o2" (submit swap_dto) holding).0
            ≡ emit_to everyone "order:new" (order_body (fresh_order swap_dto 5 "o2"))
              ∷ emit_to sender "order:created" (created_body "o2")
              ∷ []))
on_client-submit_example = on_client-submit no_ethers 5 "o2" swap_dto holding
