-- ===== src/Socket/Rooms.antt =====
-- backend/order-engine/src/websocket/orderSocket.ts: which rooms the messages go to.
use mathlib.Core.List.{append_assoc}
use fusion_plus_aptos_extens.Base.{
  ℕ, String, ◌≡◌, refl, ◌∙◌, List, [], ◌∷◌, ◌++◌, arith, Option, none, some,
}
use fusion_plus_aptos_extens.Base.Exec.{Result, ok, err}
use fusion_plus_aptos_extens.Base.Truthy.{truthy}
use fusion_plus_aptos_extens.Order.{Order}
use fusion_plus_aptos_extens.Signature.{Ethers}
use fusion_plus_aptos_extens.OrderService.{
  Service, Event, Error, create_order, new_order, order_fill, fill_status_update, order_cancelled,
  order_update, order_expired,
}
use fusion_plus_aptos_extens.Socket.{
  Effect, emit_to, join, leave, Room, room, everyone, sender, order_room, ClientEvent,
  subscribe_order, unsubscribe_order, subscribe_maker, unsubscribe_maker, subscribe_active,
  disconnect, relay, partial_fill_created, partial_fill_completed, update, submit, on_client,
  relay_effects, listeners, listeners_all, reply,
}

-- The rooms that messages are sent to, in order.
abbrev pub rooms_reached : List Effect → List Room
rooms_reached [] = []
rooms_reached (emit_to (room r) name body ∷ effects) = r ∷ rooms_reached effects
rooms_reached (emit_to everyone name body ∷ effects) = rooms_reached effects
rooms_reached (emit_to sender name body ∷ effects) = rooms_reached effects
rooms_reached (join r ∷ effects) = rooms_reached effects
rooms_reached (leave r ∷ effects) = rooms_reached effects

-- The room of the order that a relayed event names.
abbrev pub order_rooms : Option String → List Room
order_rooms none = []
order_rooms (some id) = order_room id ∷ []

abbrev pub relayed_to : ClientEvent → List Room
relayed_to (relay kind payload) = order_rooms (truthy payload.order_id)
relayed_to _ = []

rooms_reached-listeners :
    (e : Event) (effects : List Effect)
    → rooms_reached (listeners e ++ effects) ≡ rooms_reached effects
unfolding listeners
rooms_reached-listeners (new_order o) effects = refl
rooms_reached-listeners (order_fill o f) effects = refl
rooms_reached-listeners (fill_status_update o f) effects = refl
rooms_reached-listeners (order_cancelled o) effects = refl
rooms_reached-listeners (order_update o) effects = refl
rooms_reached-listeners (order_expired o) effects = refl

rooms_reached-listeners_all :
    (events : List Event) (effects : List Effect)
    → rooms_reached (listeners_all events ++ effects) ≡ rooms_reached effects
unfolding listeners_all
rooms_reached-listeners_all [] effects = refl
rooms_reached-listeners_all (e ∷ events) effects =
    rw
      (
        append_assoc (listeners e) (listeners_all events) effects,
        rooms_reached-listeners e (listeners_all events ++ effects),
      )
      (rooms_reached-listeners_all events effects)

rooms_reached-reply : (r : Result Error Order) → rooms_reached (reply r ∷ []) ≡ []
rooms_reached-reply (ok order) = refl
rooms_reached-reply (err e) = refl

-- A message to a room goes to the room of the order that a relayed event names, once, and to no
-- other: the rooms of makers and of active orders, which clients may join, are never sent anything.
pub rooms_reached-on_client :
    (ethers : Ethers) (now : ℕ) (new_id : String) (e : ClientEvent) (s : Service)
    → rooms_reached (on_client ethers now new_id e s).0 ≡ relayed_to e
unfolding on_client relay_effects
rooms_reached-on_client ethers now new_id (subscribe_order id) s = refl
rooms_reached-on_client ethers now new_id (unsubscribe_order id) s = refl
rooms_reached-on_client ethers now new_id (subscribe_maker id) s = refl
rooms_reached-on_client ethers now new_id (unsubscribe_maker id) s = refl
rooms_reached-on_client ethers now new_id subscribe_active s = refl
rooms_reached-on_client ethers now new_id disconnect s = refl
rooms_reached-on_client ethers now new_id (relay kind payload) s = ground arith
rooms_reached-on_client ethers now new_id (partial_fill_completed payload) s = refl
rooms_reached-on_client ethers now new_id (update payload) s = refl
rooms_reached-on_client ethers now new_id (partial_fill_created payload) s =
    rooms_reached-listeners_all _ _
rooms_reached-on_client ethers now new_id (submit dto) s =
    rooms_reached-listeners_all _ _ ∙ rooms_reached-reply (create_order ethers now new_id dto s).0
