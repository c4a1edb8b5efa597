-- ===== src/Socket.antt =====
-- backend/order-engine/src/websocket/orderSocket.ts: what each event of a client or of the order
-- service makes the socket server do. socket.io itself is not modelled: the calls on it are kept, in
-- order, as effects. Rooms are named by templates with different prefixes, hence constructors.
-- A client's order reaches createOrder unparsed.
pub mod Rooms
pub mod Announce
mod Tests
use fusion_plus_aptos_extens.Base.{
  ℕ, suc, zero, String, Bool, true, false, Option, none, some, List, [], ◌∷◌, ◌++◌, length, not,
  str_eq, if◌then◌else◌,
}
use fusion_plus_aptos_extens.Base.Exec.{Result, ok, err}
use fusion_plus_aptos_extens.Base.Truthy.{truthy}
use fusion_plus_aptos_extens.Order.{CreateOrderDto, Fill, Order}
use fusion_plus_aptos_extens.Signature.{Ethers}
use fusion_plus_aptos_extens.OrderService.{
  Service, Error, Event, new_order, order_fill, fill_status_update, order_cancelled, order_update,
  order_expired, create_order, update_order_filled_percentage,
}

pub data Room : Type 0 where
  order_room maker_room : String → Room
  active_orders : Room

-- The fields that the handlers read of the data of a relayed event, and the rest of it.
pub record Payload : Type 0 where
  pub order_id : Option String
  pub cumulative_percentage : Option ℕ
  pub content : String

pub data Body : Type 0 where
  order_body : Order → Body
  fill_body : Order → Fill → Body
  data_body : Payload → Body
  created_body : String → Body
  error_body : Error → Body

-- `io`, `io.to(room)` and the client's own `socket`.
pub data Target : Type 0 where
  everyone : Target
  room : Room → Target
  sender : Target

pub data Effect : Type 0 where
  emit_to : Target → String → Body → Effect
  join leave : Room → Effect

-- The events that are relayed to everyone and to the room of their order.
pub data Relayed : Type 0 where
  destination_created source_created secret_revealed source_withdrawn swap_completed : Relayed
  order_failed order_signed sponsored_v2 sponsored_v3 with_permit : Relayed
  secret_request secret_reveal : Relayed

abbrev pub event_name : Relayed → String
event_name destination_created = "escrow:destination:created"
event_name source_created = "escrow:source:created"
event_name secret_revealed = "escrow:secretRevealed"
event_name source_withdrawn = "escrow:source:withdrawn"
event_name swap_completed = "swap:completed"
event_name order_failed = "order:failed"
event_name order_signed = "order:signed"
event_name sponsored_v2 = "order:signed:sponsored:v2"
event_name sponsored_v3 = "order:signed:sponsored:v3"
event_name with_permit = "order:signed:with:permit"
event_name secret_request = "secret:request"
event_name secret_reveal = "secret:reveal"

abbrev pub room_event_name : Relayed → String
room_event_name destination_created = "order:escrowCreated"
room_event_name source_created = "order:sourceEscrowCreated"
room_event_name secret_revealed = "order:secretRevealed"
room_event_name source_withdrawn = "order:sourceWithdrawn"
room_event_name swap_completed = "order:completed"
room_event_name order_failed = "order:failed"
room_event_name order_signed = "order:signed"
room_event_name sponsored_v2 = "order:signed:sponsored:v2"
room_event_name sponsored_v3 = "order:signed:sponsored:v3"
room_event_name with_permit = "order:signed:with:permit"
room_event_name secret_request = "secret:request"
room_event_name secret_reveal = "secret:reveal"

pub data ClientEvent : Type 0 where
  subscribe_order unsubscribe_order subscribe_maker unsubscribe_maker : String → ClientEvent
  subscribe_active disconnect : ClientEvent
  relay : Relayed → Payload → ClientEvent
  partial_fill_created partial_fill_completed update : Payload → ClientEvent
  submit : CreateOrderDto → ClientEvent

-- The listeners on the service's events. `orderUpdate` has none.
unfoldable pub listeners : Event → List Effect
listeners (new_order order) = emit_to everyone "order:new" (order_body order) ∷ []
listeners (order_fill order fill) = emit_to everyone "order:fill" (fill_body order fill) ∷ []
listeners (fill_status_update order fill) =
    emit_to everyone "fill:statusUpdate" (fill_body order fill) ∷ []
listeners (order_cancelled order) = emit_to everyone "order:cancelled" (order_body order) ∷ []
listeners (order_expired order) = emit_to everyone "order:expired" (order_body order) ∷ []
listeners (order_update order) = []

unfoldable pub listeners_all : List Event → List Effect
listeners_all [] = []
listeners_all (event ∷ events) = listeners event ++ listeners_all events

unfoldable pub drop {ℓ} : {A : Type ℓ} → ℕ → List A → List A
drop zero xs = xs
drop (suc n) [] = []
drop (suc n) (x ∷ xs) = drop n xs

-- What the listeners did while the service went from one state to the other.
abbrev pub announced : Service → Service → List Effect
announced before after = listeners_all (drop (length before.events) after.events)

unfoldable pub relay_effects : Relayed → Payload → List Effect
relay_effects kind payload =
    emit_to everyone (event_name kind) (data_body payload) ∷ elim (truthy payload.order_id) [
      | none ↦ []
      | some id ↦ emit_to (room (order_room id)) (room_event_name kind) (data_body payload) ∷ []
    ]

-- `if (data.orderId && data.cumulativePercentage !== undefined)`; an error is only logged.
unfoldable pub record_percentage : ℕ → Payload → Service → Service
record_percentage now payload s = elim (truthy payload.order_id) [
  | none ↦ s
  | some id ↦ elim payload.cumulative_percentage [
    | none ↦ s
    | some p ↦ (update_order_filled_percentage now id p s).1
  ]
]

abbrev pub reply : Result Error Order → Effect
reply (ok order) = emit_to sender "order:created" (created_body order.id)
reply (err e) = emit_to sender "error" (error_body e)

-- One event of a client, with the time and the id that a new order would get.
unfoldable pub on_client : Ethers → ℕ → String → ClientEvent → Service → List Effect × Service
on_client ethers now new_id (subscribe_order id) s = (join (order_room id) ∷ [], s)
on_client ethers now new_id (unsubscribe_order id) s = (leave (order_room id) ∷ [], s)
on_client ethers now new_id (subscribe_maker maker) s = (join (maker_room maker) ∷ [], s)
on_client ethers now new_id (unsubscribe_maker maker) s = (leave (maker_room maker) ∷ [], s)
on_client ethers now new_id subscribe_active s = (join active_orders ∷ [], s)
on_client ethers now new_id disconnect s = ([], s)
on_client ethers now new_id (relay kind payload) s = (relay_effects kind payload, s)
on_client ethers now new_id (partial_fill_created payload) s =
    let s' = record_percentage now payload s in
    (announced s s' ++ emit_to everyone "partial:fill:created" (data_body payload) ∷ [], s')
on_client ethers now new_id (partial_fill_completed payload) s =
    (emit_to everyone "partial:fill:completed" (data_body payload) ∷ [], s)
on_client ethers now new_id (update payload) s =
    (emit_to everyone "order:update" (data_body payload) ∷ [], s)
on_client ethers now new_id (submit dto) s =
    let (result, s') = create_order ethers now new_id dto s in
    (announced s s' ++ reply result ∷ [], s')
