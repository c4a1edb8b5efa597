-- ===== src/Resolver/Tests.antt =====
-- Concrete orders for three resolvers, of which the third one runs.
use fusion_plus_aptos_extens.Base.{
  none, false, ◌+◌, ◌≤◌, ◌≡◌, true, refl, arith, some, [], ◌∷◌, ◌++◌, if◌then◌else◌,
}
use fusion_plus_aptos_extens.Amount.{big_int, to_string}
use fusion_plus_aptos_extens.Order.Samples.{open_order}
use fusion_plus_aptos_extens.Resolver.{
  Resolver, base_share, active_count, calculate_optimal_fill_percentage,
}
use fusion_plus_aptos_extens.Resolver.Share.{calculate_optimal_fill_percentage-fits}
use fusion_plus_aptos_extens.Resolver.Intake.{
  Intake, fill_part, check_profitability, begin, routes_partial,
}
use fusion_plus_aptos_extens.Resolver.Intake.Twice.{begin-begin}
use fusion_plus_aptos_extens.Resolver.PartialFill.{
  Ethers, PartialFill, Plan, State, World, Pending, plan_of,
}
use fusion_plus_aptos_extens.Resolver.PartialFill.Revealed.{Reveal, Keccak, on_reveal}
use fusion_plus_aptos_extens.Resolver.PartialFill.Secret.{rehashed, swaps, on_reveal-unchecked}

abbrev third : Resolver
third = record { name = "Resolver-3"; port = 8083 }

calculate_optimal_fill_percentage-fits_example :
    20000 + calculate_optimal_fill_percentage third open_order (some 5000) 20000 1500 1500 ≤ 30000
unfolding base_share active_count
calculate_optimal_fill_percentage-fits_example =
    calculate_optimal_fill_percentage-fits third open_order (some 5000) 20000 1500 1500 2 3 refl
      refl (omega arith)

abbrev ethers : Ethers
ethers = record { get_big_int = big_int; id = λ _. "0x1d" }

abbrev world : World
world = record {
  balance = some 5000;
  current = 20000;
  current_again = 20000;
  current_third = 20000;
  now = 1500;
  later = 1500;
  last = 1501;
  escrow_created = true;
  created_fill = some ("f3", "o1");
  address = "0xcc";
}

abbrev empty_state : State
empty_state = record {
  active_orders = ("o1", open_order) ∷ [];
  monitoring_fills = [];
  pending_secret_reveals = [];
  actions = [];
}

abbrev third_plan : Plan
third_plan = plan_of open_order world 10000 (to_string 999) (to_string 999)

abbrev kept_fill : PartialFill
kept_fill = record {
  id = "f3";
  order_id = "o1";
  resolver = "0xcc";
  amount = to_string 999;
  fill_percentage = 10000;
  cumulative_percentage = 30000;
  secret_hash = some "0x5e";
  secret_index = 3;
  base_order_id = "o1";
  fill_index = 2;
}

abbrev waiting_state : State
waiting_state = record empty_state { monitoring_fills = ("0x1d", kept_fill) ∷ [] }

abbrev plain_keccak : Keccak
plain_keccak = record { get_bytes = some; keccak256 = λ bytes. bytes }

abbrev pending_swap : Pending
pending_swap = record {
  order = open_order;
  fill = kept_fill;
  source_escrow_id = 48 ∷ [];
  destination_escrow_id = "0x1d";
}

abbrev asked_state : State
asked_state = record waiting_state { pending_secret_reveals = ("o1", pending_swap) ∷ [] }

abbrev rehashed_state : State
rehashed_state = record waiting_state {
  pending_secret_reveals = ("o1", rehashed (some "0x00") none pending_swap) ∷ [];
}

abbrev revealed : Reveal
revealed = record {
  order_id = "o1";
  secret = "0x99";
  secret_hash = some "0x99";
  is_partial_fill = false;
  secret_index = none;
  fill_percentage = none;
}

on_reveal-unchecked_example :
    swaps (on_reveal plain_keccak true revealed rehashed_state).actions
    ≡ swaps (on_reveal plain_keccak true revealed asked_state).actions
on_reveal-unchecked_example =
    on_reveal-unchecked plain_keccak true revealed asked_state rehashed_state pending_swap
      (some "0x00") none refl refl refl refl refl

abbrev idle : Intake
idle = record { is_processing = "o2" ∷ []; active_orders = []; actions = [] }

begin-begin_example : (begin open_order (begin open_order idle)).actions ≡ (
    if routes_partial open_order
    then (idle.actions ++ fill_part open_order ∷ []) ++ fill_part open_order ∷ []
    else idle.actions ++ check_profitability open_order ∷ [])
begin-begin_example = begin-begin open_order idle refl
