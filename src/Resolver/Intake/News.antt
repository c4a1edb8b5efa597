-- ===== src/Resolver/Intake/News.antt =====
-- backend/resolver/src/services/ResolverServiceV2.ts, the listeners of order:new, order:update and
-- order:fill. A filled order is looked at again after two seconds, which is an event of its own:
-- `on_fill` gives the order that waits, and `begin` takes it up.
use fusion_plus_aptos_extens.Base.{
  Bool, false, not, ◌&&◌, ◌≡◌, arith, Option, none, some, ltb, str_eq_refl, if◌then◌else◌, ◌||◌,
}
use fusion_plus_aptos_extens.Base.Dict.{lookup, insert, lookup-insert}
use fusion_plus_aptos_extens.Order.{Order}
use fusion_plus_aptos_extens.OrderService.{is_filled}
use fusion_plus_aptos_extens.Resolver.Intake.{Intake, begin, has}

-- An order that is filled in parts and of which a part is left.
abbrev has_part_left : Order → Bool
has_part_left order =
    (order.partial_fill_allowed || order.partial_fill_enabled) && ltb order.filled_percentage 30000

abbrev known : Order → Intake → Intake
known order s = record s { active_orders = insert order.id order s.active_orders }

abbrev on_new : Order → Intake → Intake
on_new order s = begin order s

abbrev on_update : Order → Intake → Intake
on_update order s = if has_part_left order then begin order (known order s) else known order s

abbrev on_fill : Order → Intake → Option Order × Intake
on_fill order s = (
  if has_part_left order && not (is_filled order.status) then some order else none,
  known order s,
)

-- An order that waits after order:fill replaces what came in since: when the order is updated while
-- it waits, and is not being processed at its end, the older copy is what the resolver keeps.
begin-on_update :
    (old new : Order) (s : Intake)
    → old.id ≡ new.id
    → has_part_left new ≡ false
    → has old.id s.is_processing ≡ false
    → lookup new.id (begin old (on_update new s)).active_orders ≡ some old
unfolding begin
begin-on_update old new s same whole idle =
    ground (
      arith,
      lookup-insert old.id new.id old (insert new.id new s.active_orders),
      str_eq_refl new.id,
    )
