-- ===== src/Routes/Tests.antt =====
-- Concrete requests; a request's body is its parsed order.
use fusion_plus_aptos_extens.Base.{◌≡◌, refl, none, some, Option}
use fusion_plus_aptos_extens.Order.{CreateOrderDto}
use fusion_plus_aptos_extens.Order.Samples.{swap_dto}
use fusion_plus_aptos_extens.Signature.{Ethers, validate_order_signature}
use fusion_plus_aptos_extens.OrderService.{init, fresh_order, create_order}
use fusion_plus_aptos_extens.Routes.{
  post_order, post_cancel, get_order_by_id, handle, reply, order_data,
}
use fusion_plus_aptos_extens.Routes.Refused.{IsRefusalClean, handle-IsRefusalClean}
use fusion_plus_aptos_extens.Routes.ReadBack.{post_order-get_order}

abbrev no_ethers : Ethers
no_ethers = record { hash_permit = λ _. none; verify_typed_data = λ _ _. none }

abbrev parse : CreateOrderDto → Option CreateOrderDto
parse = some

handle-IsRefusalClean_example :
    IsRefusalClean (handle no_ethers parse 8 "o2" (post_cancel "o1" (some "0xaa")) init) init
handle-IsRefusalClean_example =
    handle-IsRefusalClean no_ethers parse 8 "o2" (post_cancel "o1" (some "0xaa")) init

post_order-get_order_example :
    (dto : CreateOrderDto) × (parse swap_dto ≡ some dto)
    × ((handle no_ethers parse 5 "o1" (post_order swap_dto) init).0
        ≡ reply 200 (order_data (fresh_order dto 5 "o1")))
    × ((handle no_ethers parse 6 "o2"
          (get_order_by_id "o1")
          (handle no_ethers parse 5 "o1" (post_order swap_dto) init).1).0
        ≡ reply 200 (order_data (fresh_order dto 5 "o1")))
unfolding handle create_order validate_order_signature
post_order-get_order_example = post_order-get_order no_ethers parse 5 "o1" "o2" 6 swap_dto init refl
