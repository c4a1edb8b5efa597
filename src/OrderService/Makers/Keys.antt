-- ===== src/OrderService/Makers/Keys.antt =====
-- The keys of the order table, by maker.
use fusion_plus_aptos_extens.Base.{
  ℕ, String, false, ◌≡◌, refl, ◌≢◌, none, some, List, [], ◌∷◌, ◌++◌, filter, any, arith, str_eq,
  str_eq_iff, if◌then◌else◌,
}
use fusion_plus_aptos_extens.Base.Dict.{Dict, lookup, insert, values, lookup-insert}
use fusion_plus_aptos_extens.Order.{Order}
use fusion_plus_aptos_extens.OrderService.{add, expire, expire_all, orders_of}

-- The ids of the maker's orders, in the order of the table.
abbrev pub ids_of : String → Dict Order → List String
ids_of maker [] = []
ids_of maker ((id, o) ∷ orders) =
    let rest = ids_of maker orders in if str_eq o.maker maker then id ∷ rest else rest

abbrev pub UniqueKeys : Dict Order → Type 0
UniqueKeys [] = Unit {0}
UniqueKeys ((id, _) ∷ orders) = (lookup id orders ≡ none) × UniqueKeys orders

-- An id that is no key is not among the maker's ids, so `add` appends it.
pub ids_of-missing :
    (maker id : String) (orders : Dict Order)
    → lookup id orders ≡ none
    → any (λ y. str_eq y id) (ids_of maker orders) ≡ false
ids_of-missing maker id [] h = refl
ids_of-missing maker id ((k, o) ∷ orders) h = ground (arith, ids_of-missing maker id orders)

pub add_new :
    (maker id : String) (orders : Dict Order)
    → lookup id orders ≡ none
    → add id (ids_of maker orders) ≡ ids_of maker orders ++ id ∷ []
add_new maker id orders h = rw (ids_of-missing maker id orders h)

pub ids_of-append :
    (maker : String) (orders : Dict Order) (id : String) (o : Order)
    → ids_of maker (orders ++ (id, o) ∷ [])
      ≡ (if str_eq o.maker maker then ids_of maker orders ++ id ∷ [] else ids_of maker orders)
ids_of-append maker [] id o = ground arith
ids_of-append maker ((k, p) ∷ orders) id o = ground (arith, ids_of-append maker orders id o)

lookup-append :
    (k : String) (orders : Dict Order) (id : String) (o : Order)
    → lookup k orders ≡ none
    → id ≢ k
    → lookup k (orders ++ (id, o) ∷ []) ≡ none
lookup-append k [] id o h ne = ground (arith, str_eq_iff id k)
lookup-append k ((j, p) ∷ orders) id o h ne = ground (arith, lookup-append k orders id o)

pub UniqueKeys-append :
    (orders : Dict Order) (id : String) (o : Order)
    → UniqueKeys orders
    → lookup id orders ≡ none
    → UniqueKeys (orders ++ (id, o) ∷ [])
UniqueKeys-append [] id o u h = (refl, tt)
UniqueKeys-append ((k, p) ∷ orders) id o u h =
    ground
      (arith, UniqueKeys-append orders id o u.1, lookup-append k orders id o u.0, str_eq_iff k id)

-- Writing an order of the same maker in place keeps the ids.
pub ids_of-insert :
    (maker id : String) (o p : Order) (orders : Dict Order)
    → lookup id orders ≡ some o
    → p.maker ≡ o.maker
    → ids_of maker (insert id p orders) ≡ ids_of maker orders
ids_of-insert maker id o p [] h e = cc
ids_of-insert maker id o p ((k, q) ∷ orders) h e = ground (arith, ids_of-insert maker id o p orders)

pub UniqueKeys-insert :
    (id : String) (o p : Order) (orders : Dict Order)
    → lookup id orders ≡ some o
    → UniqueKeys orders
    → UniqueKeys (insert id p orders)
UniqueKeys-insert id o p [] h u = cc
UniqueKeys-insert id o p ((k, q) ∷ orders) h u = ground (
  arith,
  UniqueKeys-insert id o p orders,
  lookup-insert id k p orders,
  str_eq_iff k id,
  str_eq_iff id k,
)

expire-maker : (now : ℕ) (o : Order) → (expire now o).maker ≡ o.maker
expire-maker now o = ground arith

pub ids_of-expire_all :
    (maker : String) (now : ℕ) (orders : Dict Order)
    → ids_of maker (expire_all now orders) ≡ ids_of maker orders
unfolding expire_all
ids_of-expire_all maker now [] = refl
ids_of-expire_all maker now ((k, o) ∷ orders) =
    rw (expire-maker now o, ids_of-expire_all maker now orders)

lookup-expire_all-none :
    (k : String) (now : ℕ) (orders : Dict Order)
    → lookup k orders ≡ none
    → lookup k (expire_all now orders) ≡ none
unfolding expire_all
lookup-expire_all-none k now [] h = refl
lookup-expire_all-none k now ((j, o) ∷ orders) h =
    ground (arith, lookup-expire_all-none k now orders)

pub UniqueKeys-expire_all :
    (now : ℕ) (orders : Dict Order) → UniqueKeys orders → UniqueKeys (expire_all now orders)
unfolding expire_all
UniqueKeys-expire_all now [] u = tt
UniqueKeys-expire_all now ((k, o) ∷ orders) u =
    (lookup-expire_all-none k now orders u.0, UniqueKeys-expire_all now orders u.1)

-- Looking the maker's ids up in a larger table gives the maker's orders.
orders_of-cons :
    (maker k : String) (o : Order) (table : Dict Order) (orders : Dict Order)
    → lookup k orders ≡ none
    → orders_of ((k, o) ∷ table) (ids_of maker orders) ≡ orders_of table (ids_of maker orders)
unfolding orders_of
orders_of-cons maker k o table [] h = refl
orders_of-cons maker k o table ((j, p) ∷ orders) h =
    ground (arith, orders_of-cons maker k o table orders, str_eq_iff k j, str_eq_iff j k)

pub orders_of-ids_of :
    (maker : String) (orders : Dict Order)
    → UniqueKeys orders
    → orders_of orders (ids_of maker orders) ≡ filter (λ o. str_eq o.maker maker) (values orders)
unfolding orders_of
orders_of-ids_of maker [] u = refl
orders_of-ids_of maker ((k, o) ∷ orders) u = ground (
  arith,
  orders_of-ids_of maker orders u.1,
  orders_of-cons maker k o orders orders u.0,
  str_eq_iff k k,
)
