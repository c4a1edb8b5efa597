-- ===== src/OrderService/Tests.antt =====
-- Runs of the order service at concrete orders.
use fusion_plus_aptos_extens.Base.{
  ◌+◌, ◌*◌, ◌/◌, ◌≤◌, false, not, ◌&&◌, ◌≡◌, ◌↔◌, refl, inr, none, some, List, [], ◌∷◌, ◌++◌, arith,
  filter, str_eq, if◌then◌else◌,
}
use fusion_plus_aptos_extens.Base.Exec.{ok}
use fusion_plus_aptos_extens.Base.Dict.{lookup, values}
use fusion_plus_aptos_extens.Amount.{to_string, big_int}
use fusion_plus_aptos_extens.Order.{OrderStatus, FillData, Fill, Order}
use fusion_plus_aptos_extens.Order.Samples.{swap_dto, order_of, open_order, fill_data}
use fusion_plus_aptos_extens.Signature.{Ethers}
use fusion_plus_aptos_extens.OrderService.{
  Service, init, new_fill, create_fill, cancel_order, only_maker_can_cancel, is_filled,
  total_percentage, sum_amounts, get_orders_by_maker, cancel, on_order,
}
use fusion_plus_aptos_extens.OrderService.Commands.{
  Command, create, fill, percentage, cancels, cleanup, step, run,
}
use fusion_plus_aptos_extens.OrderService.Closed.{settlement_at, run-closed}
use fusion_plus_aptos_extens.OrderService.Filling.ByAmount.{create_fill-by_amount}
use fusion_plus_aptos_extens.OrderService.Filling.Steps.{status_for}
use fusion_plus_aptos_extens.OrderService.Filling.ByPercentage.{
  create_fill-by_percentage, capped_total, share, status_at,
}
use fusion_plus_aptos_extens.OrderService.Makers.{Reachable, start, next, get_orders_by_maker_lem}
use fusion_plus_aptos_extens.OrderService.Atomic.{thrown, thrown_atomic}
use fusion_plus_aptos_extens.OrderService.Cancelling.{cancel_order_lem}

abbrev no_ethers : Ethers
no_ethers = record { hash_permit = λ _. none; verify_typed_data = λ _ _. none }

abbrev holding : Order → Service
holding o = record {
  orders = ("o1", o) ∷ [];
  orders_by_maker = ("0xaa", "o1" ∷ []) ∷ [];
  events = [];
}

abbrev cancelled_order : Order
cancelled_order = order_of swap_dto OrderStatus.cancelled

abbrev afterwards : List Command
afterwards =
    fill 7 "f1" "o1" (fill_data (to_string 1000))
    ∷ cancels 8 "o1" "0xaa"
    ∷ percentage 9 "o1" 0
    ∷ cleanup 9000000
    ∷ []

run-closed_example :
    settlement_at "o1" (run no_ethers afterwards (holding cancelled_order))
    ≡ some (OrderStatus.cancelled, to_string 0)
run-closed_example =
    run-closed no_ethers "o1" refl afterwards (holding cancelled_order)
      (tt, (tt, (inr refl, (tt, tt)))) refl

abbrev raw_fill : FillData
raw_fill = fill_data (to_string 1000)

abbrev by_amount : Fill
by_amount = new_fill "o1" raw_fill 7 "f1"

create_fill-by_amount_example :
    ((create_fill 7 "f1" "o1" raw_fill (holding open_order)).0 ≡ ok by_amount)
    × (lookup "o1" (create_fill 7 "f1" "o1" raw_fill (holding open_order)).1.orders
        ≡ some (record open_order {
          filled_amount = to_string (0 + 1000);
          filled_percentage = (0 + 1000) * 100 / 3000 * 300;
          status = status_for (0 + 1000) 3000 OrderStatus.pending;
          updated_at = 7;
          fills = [] ++ by_amount ∷ [];
        }))
unfolding sum_amounts big_int to_string
create_fill-by_amount_example =
    create_fill-by_amount 7 "f1" "o1" raw_fill (holding open_order) open_order 0 1000 3000 refl refl
      refl refl refl refl (omega arith)

abbrev third : FillData
third = record raw_fill { fill_percentage = some 10000 }

abbrev by_third : Fill
by_third = new_fill "o1" third 7 "f1"

create_fill-by_percentage_example :
    ((create_fill 7 "f1" "o1" third (holding open_order)).0 ≡ ok by_third)
    × (lookup "o1" (create_fill 7 "f1" "o1" third (holding open_order)).1.orders
        ≡ some (record open_order {
          filled_percentage = capped_total [] by_third;
          filled_amount = to_string (share 3000 (capped_total [] by_third));
          status = status_at 3000 (total_percentage ([] ++ by_third ∷ [])) OrderStatus.pending;
          updated_at = 7;
          fills = [] ++ by_third ∷ [];
        }))
    × (share 3000 (capped_total [] by_third) ≤ 3000)
create_fill-by_percentage_example =
    create_fill-by_percentage 7 "f1" "o1" third (holding open_order) open_order 3000 refl refl refl
      refl (omega arith)

abbrev created : Service
created = step no_ethers (create 5 "o1" swap_dto) init

created-Reachable : Reachable no_ethers created
created-Reachable = next (create 5 "o1" swap_dto) start refl

get_orders_by_maker_lem_example :
    get_orders_by_maker "0xaa" created ≡ filter (λ o. str_eq o.maker "0xaa") (values created.orders)
get_orders_by_maker_lem_example =
    get_orders_by_maker_lem {ethers = no_ethers} {s = created} "0xaa" created-Reachable

thrown_atomic_example :
    step no_ethers (cancels 8 "o1" "0xdd") (holding open_order) ≡ holding open_order
unfolding thrown cancel_order on_order cancel
thrown_atomic_example =
    thrown_atomic no_ethers (cancels 8 "o1" "0xdd") (holding open_order) only_maker_can_cancel refl
      refl

cancel_order_lem_example :
    (((cancel_order 8 "o1" "0xaa" (holding open_order)).0 ≡ ok tt)
      ↔ ((open_order.maker ≡ "0xaa") × (is_filled open_order.status ≡ false)))
    × (lookup "o1" (cancel_order 8 "o1" "0xaa" (holding open_order)).1.orders
        ≡ some (
            if str_eq open_order.maker "0xaa" && not (is_filled open_order.status)
            then record open_order { status = OrderStatus.cancelled; updated_at = 8 }
            else open_order))
cancel_order_lem_example = cancel_order_lem 8 "o1" (holding open_order) open_order refl "0xaa"
