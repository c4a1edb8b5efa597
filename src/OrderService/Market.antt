-- ===== src/OrderService/Market.antt =====
-- backend/order-engine/src/services/OrderService.ts behind its contract: a market of orders by id,
-- which forgets in which order they were inserted. A call has an effect on the orders that it
-- concerns, one by one, and none on the others.
mod Tests
use mathlib.Core.Quot
use mathlib.Core.Quot.{Quot, Quot-set}
use fusion_plus_aptos_extens.Base.{
  ℕ, ◌*◌, String, Bool, true, false, not, ◌&&◌, ◌≡◌, refl, arith, sym, ◌∙◌, Option, none, some,
  List, [], ◌∷◌, ltb, str_eq, str_eq_iff, if◌then◌else◌, Bool-cases, inl, inr,
}
use fusion_plus_aptos_extens.Base.Dict.{Dict, lookup, lookup-insert}
use fusion_plus_aptos_extens.Order.{Order, CreateOrderDto}
use fusion_plus_aptos_extens.Signature.{Ethers, validate_order_signature}
use fusion_plus_aptos_extens.OrderService.{
  Service, new_fill, fresh_order, fill_order, set_fill_status, cancel, set_percentage, expire,
  expire_all, create_order, update_fill_status, cancel_order, update_order_filled_percentage,
  cleanup_expired_orders,
}
use fusion_plus_aptos_extens.OrderService.Commands.{
  Command, create, fill, fill_status, cancels, percentage, cleanup, step, run,
}
use fusion_plus_aptos_extens.OrderService.Methods.{changed, lookup-on_order, create_fill-state}

-- The orders as a partial function of their ids.
abbrev pub View : Type 0
View = String → Option Order

abbrev pub view : Service → View
view s id = lookup id s.orders

-- The order that a call is about; a cleanup is about all of them.
abbrev pub concerns : Command → String → Bool
concerns (create _ id _) j = str_eq id j
concerns (fill _ _ id _) j = str_eq id j
concerns (fill_status _ id _ _ _ _) j = str_eq id j
concerns (cancels _ id _) j = str_eq id j
concerns (percentage _ id _) j = str_eq id j
concerns (cleanup _) j = true

abbrev pub is_accepted : Ethers → ℕ → CreateOrderDto → Bool
is_accepted ethers now dto =
    validate_order_signature ethers dto && not (ltb (dto.deadline * 1000) now)

abbrev pub expired_at : ℕ → Option Order → Option Order
expired_at now none = none
expired_at now (some o) = some (expire now o)

-- What a call makes of an order that it concerns, or of a missing one.
abbrev pub effect : Ethers → Command → Option Order → Option Order
effect ethers (create now id dto) o =
    if is_accepted ethers now dto then some (fresh_order dto now id) else o
effect ethers (fill now new_id id f) o = changed (fill_order (new_fill id f now new_id) now) o
effect ethers (fill_status now id fill_id st sh dh) o =
    changed (set_fill_status fill_id st now sh dh) o
effect ethers (cancels now id maker) o = changed (cancel maker now) o
effect ethers (percentage now id p) o = changed (set_percentage p now) o
effect ethers (cleanup now) o = expired_at now o

abbrev pub promised : Ethers → Command → View → View
promised ethers c v j = if concerns c j then effect ethers c (v j) else v j

abbrev pub promised_all : Ethers → List Command → View → View
promised_all ethers [] v = v
promised_all ethers (c ∷ cs) v = promised_all ethers cs (promised ethers c v)

lookup-expire_all :
    (now : ℕ) (j : String) (orders : Dict Order)
    → lookup j (expire_all now orders) ≡ expired_at now (lookup j orders)
unfolding expire_all
lookup-expire_all now j [] = refl
lookup-expire_all now j ((k, o) ∷ orders) = elim (Bool-cases (str_eq k j)) [
  | inl same ↦ rw same refl
  | inr other ↦ rw other (lookup-expire_all now j orders)
]

create-promised :
    (ethers : Ethers) (now : ℕ) (id : String) (dto : CreateOrderDto) (s : Service) (j : String)
    → lookup j (create_order ethers now id dto s).1.orders
      ≡ promised ethers (create now id dto) (view s) j
unfolding create_order
create-promised ethers now id dto s j = elim (Bool-cases (validate_order_signature ethers dto)) [
  | inr invalid ↦ ground (arith, invalid)
  | inl valid ↦ elim (Bool-cases (ltb (dto.deadline * 1000) now)) [
    | inl late ↦ ground (arith, valid, late)
    | inr early ↦ ground (arith, valid, early, lookup-insert id j (fresh_order dto now id) s.orders)
  ]
]

-- One call does to every order what its effect says.
pub step-promised :
    (ethers : Ethers) (c : Command) (s : Service) (j : String)
    → view (step ethers c s) j ≡ promised ethers c (view s) j
unfolding step update_fill_status cancel_order update_order_filled_percentage cleanup_expired_orders
step-promised ethers (create now id dto) s j = create-promised ethers now id dto s j
step-promised ethers (fill now new_id id f) s j = rw (create_fill-state now new_id id f s) (
    ground
      (arith, str_eq_iff id j, lookup-on_order id (fill_order (new_fill id f now new_id) now) s j))
step-promised ethers (fill_status now id fill_id st sh dh) s j =
    ground (arith, str_eq_iff id j, lookup-on_order id (set_fill_status fill_id st now sh dh) s j)
step-promised ethers (cancels now id maker) s j =
    ground (arith, str_eq_iff id j, lookup-on_order id (cancel maker now) s j)
step-promised ethers (percentage now id p) s j =
    ground (arith, str_eq_iff id j, lookup-on_order id (set_percentage p now) s j)
step-promised ethers (cleanup now) s j = lookup-expire_all now j s.orders

promised-cong :
    (ethers : Ethers) (c : Command) (v w : View) (j : String)
    → v j ≡ w j
    → promised ethers c v j ≡ promised ethers c w j
promised-cong ethers c v w j h = rw h refl

promised_all-cong :
    (ethers : Ethers) (cs : List Command) (v w : View)
    → ((j : String) → v j ≡ w j)
    → (j : String) → promised_all ethers cs v j ≡ promised_all ethers cs w j
promised_all-cong ethers [] v w h j = h j
promised_all-cong ethers (c ∷ cs) v w h j =
    promised_all-cong ethers cs (promised ethers c v) (promised ethers c w)
      (λ k. promised-cong ethers c v w k (h k)) j

-- Any sequence of calls leaves, at every id, exactly the order that the contract promises for the
-- orders at the start: each call changes the orders that it concerns by its effect and no other,
-- whatever the index by maker, the events and the order of insertion are.
pub run-promised :
    (ethers : Ethers) (cs : List Command) (s : Service) (j : String)
    → view (run ethers cs s) j ≡ promised_all ethers cs (view s) j
unfolding run
run-promised ethers [] s j = refl
run-promised ethers (c ∷ cs) s j =
    run-promised ethers cs (step ethers c s) j
    ∙ promised_all-cong ethers cs (view (step ethers c s)) (promised ethers c (view s))
        (step-promised ethers c s) j

abbrev pub SameOrders : Service → Service → Type 0
SameOrders s t = (j : String) → view s j ≡ view t j

-- The states of the service up to the order of insertion and all that no lookup shows.
abbrev pub Market : Type 0
Market = Quot SameOrders

step-SameOrders :
    (ethers : Ethers) (c : Command) (s t : Service)
    → SameOrders s t
    → SameOrders (step ethers c s) (step ethers c t)
step-SameOrders ethers c s t h j =
    step-promised ethers c s j
    ∙ promised-cong ethers c (view s) (view t) j (h j)
    ∙ sym (step-promised ethers c t j)

pub trade : Ethers → Command → Market → Market
trade ethers c =
    Quot.lift Quot-set (λ s. Quot.mk (step ethers c s))
      (λ s t h. Quot.sound (step-SameOrders ethers c s t h))

-- No order is the subject of both calls.
abbrev pub Apart : Command → Command → Type 0
Apart c d = (j : String) → (concerns c j && concerns d j) ≡ false

pub apart_ids : (i k j : String) → str_eq i k ≡ false → (str_eq i j && str_eq k j) ≡ false
apart_ids i k j h = ground (arith, h, str_eq_iff i j, str_eq_iff k j, str_eq_iff i k)
