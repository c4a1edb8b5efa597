-- ===== src/Socket/Announce.antt =====
-- backend/order-engine/src/websocket/orderSocket.ts: what clients hear of a change of the service.
use fusion_plus_aptos_extens.Base.{
  ℕ, String, ◌≡◌, ◌⊎◌, inl, inr, refl, some, List, [], ◌∷◌, ◌++◌, length, str_eq_refl,
}
use fusion_plus_aptos_extens.Base.Dict.{lookup, lookup-insert}
use fusion_plus_aptos_extens.Base.Truthy.{truthy}
use fusion_plus_aptos_extens.Order.{CreateOrderDto, Order}
use fusion_plus_aptos_extens.Signature.{Ethers}
use fusion_plus_aptos_extens.OrderService.{
  Service, Error, new_order, order_update, fresh_order, update_order_filled_percentage,
}
use fusion_plus_aptos_extens.OrderService.Methods.{
  create_order-result, with_percentage, update_order_filled_percentage-found,
}
use fusion_plus_aptos_extens.Socket.{
  drop, listeners, listeners_all, on_client, submit, emit_to, sender, everyone, error_body,
  order_body, created_body, data_body, record_percentage, partial_fill_created, Payload,
}

drop-append : {A : Type 0} (xs ys : List A) → drop (length xs) (xs ++ ys) ≡ ys
unfolding drop
drop-append [] ys = refl
drop-append (x ∷ xs) ys = drop-append xs ys

drop-all : {A : Type 0} (xs : List A) → drop (length xs) xs ≡ []
unfolding drop
drop-all [] = refl
drop-all (x ∷ xs) = drop-all xs

record_percentage-found :
    (now : ℕ) (id : String) (p : ℕ) (payload : Payload) (s : Service)
    → truthy payload.order_id ≡ some id
    → payload.cumulative_percentage ≡ some p
    → record_percentage now payload s ≡ (update_order_filled_percentage now id p s).1
unfolding record_percentage
record_percentage-found now id p payload s known given = rw (known, given, record_percentage) refl

-- An order that a client submits. It is refused, the service is as it was and only the client hears
-- of it; or it is stored as pending with nothing filled, everyone hears of it first and the client
-- gets its id last.
pub on_client-submit :
    (ethers : Ethers) (now : ℕ) (new_id : String) (dto : CreateOrderDto) (s : Service)
    → ((e : Error) × (on_client ethers now new_id (submit dto) s
          ≡ (emit_to sender "error" (error_body e) ∷ [], s)))
      ⊎ ((lookup new_id (on_client ethers now new_id (submit dto) s).1.orders
            ≡ some (fresh_order dto now new_id))
          × ((on_client ethers now new_id (submit dto) s).0
              ≡ emit_to everyone "order:new" (order_body (fresh_order dto now new_id))
                ∷ emit_to sender "order:created" (created_body new_id)
                ∷ []))
unfolding on_client listeners_all listeners
on_client-submit ethers now new_id dto s = elim (create_order-result ethers now new_id dto s) [
  | inl (e, h) ↦ inl (e, rw (h, drop-all s.events) refl)
  | inr h ↦ inr (
    rw (h, lookup-insert new_id new_id (fresh_order dto now new_id) s.orders, str_eq_refl new_id)
        refl,
    rw (h, drop-append s.events (new_order (fresh_order dto now new_id) ∷ [])) refl,
  )
]

-- A reported percentage of an order that the service holds. The order gets the percentage and the
-- status that goes with it, whatever its status was; clients hear of the partial fill, but no
-- message carries the changed order.
pub on_client-partial_fill_created :
    (ethers : Ethers) (now : ℕ) (new_id id : String) (p : ℕ) (payload : Payload) (s : Service)
    (o : Order)
    → truthy payload.order_id ≡ some id
    → payload.cumulative_percentage ≡ some p
    → lookup id s.orders ≡ some o
    → (lookup id (on_client ethers now new_id (partial_fill_created payload) s).1.orders
        ≡ some (with_percentage p now o))
      × ((on_client ethers now new_id (partial_fill_created payload) s).0
          ≡ emit_to everyone "partial:fill:created" (data_body payload) ∷ [])
unfolding on_client listeners_all listeners
on_client-partial_fill_created ethers now new_id id p payload s o known given held =
    let reported = record_percentage-found now id p payload s known given in
    let h = update_order_filled_percentage-found now id p s o held in
    (
      rw (reported, h, lookup-insert id id (with_percentage p now o) s.orders, str_eq_refl id) refl,
      rw (reported, h, drop-append s.events (order_update (with_percentage p now o) ∷ [])) refl,
    )
