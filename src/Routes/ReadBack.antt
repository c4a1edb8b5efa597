-- ===== src/Routes/ReadBack.antt =====
-- backend/order-engine/src/api/routes/orders.ts: what a request sees of the requests before it.
use fusion_plus_aptos_extens.Base.{
  ℕ, String, ◌≡◌, inl, inr, refl, arith, Option, some, str_eq_refl, Option-cases,
}
use fusion_plus_aptos_extens.Base.Dict.{lookup-insert}
use fusion_plus_aptos_extens.Order.{CreateOrderDto}
use fusion_plus_aptos_extens.Signature.{Ethers}
use fusion_plus_aptos_extens.OrderService.{Service, get_order, fresh_order}
use fusion_plus_aptos_extens.OrderService.Methods.{create_order-result}
use fusion_plus_aptos_extens.Routes.{post_order, get_order_by_id, reply, handle, order_data}

module _ {Json : Type 0} (ethers : Ethers) (parse : Json → Option CreateOrderDto) (now : ℕ) where
  -- An order that was created with code 200 is what its creator got back and what every later
  -- request for its id gets, as long as the service is as the creation left it: the parsed order,
  -- pending, with nothing filled.
  pub post_order-get_order :
      (new_id later_id : String) (later : ℕ) (json : Json) (s : Service)
      → (handle ethers parse now new_id (post_order json) s).0.status ≡ 200
      → (dto : CreateOrderDto) × (parse json ≡ some dto)
        × ((handle ethers parse now new_id (post_order json) s).0
            ≡ reply 200 (order_data (fresh_order dto now new_id)))
        × ((handle ethers parse later later_id
              (get_order_by_id new_id)
              (handle ethers parse now new_id (post_order json) s).1).0
            ≡ reply 200 (order_data (fresh_order dto now new_id)))
  unfolding handle get_order
  post_order-get_order new_id later_id later json s h = elim (Option-cases (parse json)) [
    | inl bad ↦ absurd ground arith
    | inr (dto, parsed) ↦ elim (create_order-result ethers now new_id dto s) [
      | inl (e, failed) ↦ absurd ground arith
      | inr stored ↦ (
        dto,
        parsed,
        rw (parsed, stored) refl,
        rw
            (
              parsed,
              stored,
              lookup-insert new_id new_id (fresh_order dto now new_id) s.orders,
              str_eq_refl new_id,
            )
            refl,
      )
    ]
  ]
