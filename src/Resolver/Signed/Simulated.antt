-- ===== src/Resolver/Signed/Simulated.antt =====
-- backend/resolver/src/services/ResolverServiceV2.ts, handleSponsoredAptosOrder: the first handler of
-- sponsored orders, which announces an escrow without a transaction. It looks for the order's id in
-- the keys of the monitored fills and makes an order of the key's parts; what that order does not
-- state is empty here.
use Prim.Native.String.{◌++◌ as ◌&◌}
use text.Mathlib.Text.{starts_with}
use fusion_plus_aptos_extens.Base.{
  ℕ, ◌+◌, String, Bool, false, not, ◌||◌, Option, none, some, List, [], ◌∷◌, ◌==◌, str_eq,
  if◌then◌else◌,
}
use Prim.Native.Char.{code}
use fusion_plus_aptos_extens.Base.Exec.{ok}
use fusion_plus_aptos_extens.Base.Dict.{Dict, lookup}
use fusion_plus_aptos_extens.Base.Truthy.{truthy}
use fusion_plus_aptos_extens.Amount.{Amount}
use fusion_plus_aptos_extens.Order.{OrderStatus, Chain, CreateOrderDto, Order}
use fusion_plus_aptos_extens.Resolver.Settlement.{HeldFill}
use fusion_plus_aptos_extens.Resolver.Opening.{
  source_created, secret_request, order_error, Opening, Open, log, await_secret,
}

-- The data of the event; `readable` says that its message is there.
pub record Sponsored : Type 0 where
  pub order_id : String
  pub from_chain : Chain
  pub to_chain : Chain
  pub from_amount : Amount
  pub to_amount : Amount
  pub depositor : String
  pub secret_hash : Option String
  pub escrow_hex : String
  pub readable : Bool
  pub now : ℕ

-- `key.includes(id)`
abbrev includes : String → String → Bool
includes id String.[] = str_eq id ""
includes id (String.◌∷◌ c key) = starts_with id (String.◌∷◌ c key) || includes id key

abbrev to_first : String → List String → List String
to_first c [] = c ∷ []
to_first c (part ∷ parts) = (c & part) ∷ parts

-- `key.split('-')`
abbrev split_dash : String → List String
split_dash String.[] = "" ∷ []
split_dash (String.◌∷◌ c key) =
    let rest = split_dash key in
    if code c == b'-' then "" ∷ rest else to_first (String.◌∷◌ c String.[]) rest

-- The first key in which the id occurs.
abbrev find_key : String → Dict HeldFill → Option String
find_key id [] = none
find_key id ((key, _) ∷ fills) =
    let rest = find_key id fills in if includes id key then some key else rest

-- `parts[1] || ''` and `parts[2] || ''`
abbrev second : List String → String
second (_ ∷ part ∷ _) = part
second _ = ""

abbrev third : List String → String
third (_ ∷ _ ∷ part ∷ _) = part
third _ = ""

abbrev rebuilt_dto : Sponsored → String → CreateOrderDto
rebuilt_dto signed key = record {
  from_chain = signed.from_chain;
  to_chain = signed.to_chain;
  from_token = second (split_dash key);
  to_token = third (split_dash key);
  from_amount = signed.from_amount;
  min_to_amount = signed.to_amount;
  maker = signed.depositor;
  receiver = "0x17061146a55f31BB85c7e211143581B44f2a03d0";
  signature = "";
  deadline = signed.now + 3600000;
  nonce = "";
  partial_fill_allowed = false;
  partial_fill_enabled = false;
  secret_hash = signed.secret_hash;
  secret_hashes = none;
  partial_fill_secrets = none;
  max_parts = none;
  active_resolvers = none;
  dutch_auction = none;
  permit = none;
  permit_signature = none;
  gasless = none;
  gasless_data = none;
}

abbrev rebuilt_order : Sponsored → String → Order
rebuilt_order signed key = record {
  dto = rebuilt_dto signed key;
  id = signed.order_id;
  status = OrderStatus.pending;
  filled_amount = [];
  filled_percentage = 0;
  created_at = 0;
  updated_at = 0;
  fills = [];
}

-- The fill under `id-fromToken-toToken` waits for the secret when it has a destination escrow.
abbrev ask : Sponsored → Order → Option HeldFill → Opening → Opening
ask signed order none s = s
ask signed order (some fill) s = elim (truthy fill.destination_escrow_id) [
  | none ↦ s
  | some destination ↦
      log (secret_request signed.order_id) (await_secret order fill signed.escrow_hex destination s)
]

abbrev simulate : Sponsored → Order → Opening → Opening
simulate signed order s =
    ask signed order
      (lookup (signed.order_id & "-" & order.from_token & "-" & order.to_token) s.monitoring_fills)
      (log (source_created signed.order_id signed.escrow_hex order.from_amount) s)

unfoldable pub handle_sponsored_aptos_order : Sponsored → Open Unit
handle_sponsored_aptos_order signed s = elim (find_key signed.order_id s.monitoring_fills) [
  | none ↦ (ok tt, s)
  | some key ↦
      if not signed.readable
      then (ok tt, log (order_error signed.order_id) s)
      else (ok tt, simulate signed (rebuilt_order signed key) s)
]
