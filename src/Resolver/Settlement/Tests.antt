-- ===== src/Resolver/Settlement/Tests.antt =====
-- Settlements of one fill, by itself, against the order engine and from the polls.
use fusion_plus_aptos_extens.Base.{length, String, true, ◌≡◌, refl, none, some, [], ◌∷◌}
use fusion_plus_aptos_extens.Base.Exec.{ok, err}
use fusion_plus_aptos_extens.Amount.{to_string}
use fusion_plus_aptos_extens.Order.{FillStatus, Fill, Order}
use fusion_plus_aptos_extens.Order.Samples.{open_order, fill_data}
use fusion_plus_aptos_extens.Signature.{Ethers}
use fusion_plus_aptos_extens.OrderService.{Service, new_fill}
use fusion_plus_aptos_extens.OrderService.Commands.{run}
use fusion_plus_aptos_extens.Resolver.Settlement.{
  HeldFill, SourceId, name, Answers, Hex, Settling, out_of_gas, set_status, withdraw_ethereum,
  track, source_withdrawn, withdraw_aptos, manual_withdrawal, fill_completed, complete_swap,
}
use fusion_plus_aptos_extens.Resolver.Settlement.Traces.{statuses, told}
use fusion_plus_aptos_extens.Resolver.Settlement.Outcome.{
  is_ok, complete_swap_lem, handed_out, told-complete_swap, complete_swap_completes,
}
use fusion_plus_aptos_extens.Resolver.Settlement.Recorded.{calls, Holds, run-complete_swap}
use fusion_plus_aptos_extens.Resolver.Monitoring.{EscrowCreated, Monitor, on_escrow, polls}
use fusion_plus_aptos_extens.Resolver.Monitoring.Polls.{on_escrow_once}
use fusion_plus_aptos_extens.Resolver.Monitoring.Unpaid.{Unpaid, polls-Unpaid}

abbrev hex : Hex
hex = record { get_bytes = λ _. some (1 ∷ []); hexlify = λ s. s; packed_id = λ _ _. "0xp1" }

-- Every call answers but the withdrawal for the user, for which there is no gas.
abbrev answers : Answers
answers = record {
  status_set = λ _. ok tt;
  escrow_exists = ok true;
  source = ok "0xt1";
  tracked = ok tt;
  destination = err out_of_gas;
  tracked_again = ok tt;
}

abbrev held : HeldFill
held = record {
  id = "f1";
  order_id = "o1";
  amount = to_string 1500;
  secret_hash = "0x5e";
  status = FillStatus.pending;
  fill_percentage = some 15000;
  secret_index = 0;
  merkle_index = none;
  actual_escrow_id = none;
  destination_escrow_id = some "0xd1";
}

abbrev idle : Settling
idle = record {
  active_orders = ("o1", open_order) ∷ [];
  monitoring_fills = ("0xd1", held) ∷ [];
  fill_secrets = [];
  steps = [];
}

abbrev source : SourceId
source = name "0xs1"

complete_swap_lem_example :
    (is_ok (complete_swap hex answers open_order held "k" source "0xd1" idle).0 ≡ true)
    × (statuses (complete_swap hex answers open_order held "k" source "0xd1" idle).1.steps
        ≡ FillStatus.source_created ∷ FillStatus.source_withdrawn ∷ FillStatus.completed ∷ [])
complete_swap_lem_example =
    complete_swap_lem hex answers open_order held "k" source "0xd1" idle refl

told-complete_swap_example :
    told (complete_swap hex answers open_order held "k" source "0xd1" idle).1.steps
    ≡ handed_out hex answers open_order held "k" source "0xd1"
told-complete_swap_example =
    told-complete_swap hex answers open_order held "k" source "0xd1" idle refl

handed : length (handed_out hex answers open_order held "k" source "0xd1") ≡ 4
handed = refl

complete_swap_completes_example :
    ((complete_swap hex answers open_order held "k" source "0xd1" idle).0 ≡ ok tt)
    × ((complete_swap hex answers open_order held "k" source "0xd1" idle).1.steps
        ≡ set_status "o1" "f1" FillStatus.source_created
          ∷ withdraw_ethereum source "k"
          ∷ track "After withdrawing from source escrow"
          ∷ set_status "o1" "f1" FillStatus.source_withdrawn
          ∷ source_withdrawn "o1" source "k" "0xt1"
          ∷ withdraw_aptos (1 ∷ []) "k"
          ∷ manual_withdrawal "o1" "k" "0xd1" (to_string 1500)
          ∷ set_status "o1" "f1" FillStatus.completed
          ∷ fill_completed "o1" "f1" 15000 0
          ∷ [])
    × ((complete_swap hex answers open_order held "k" source "0xd1" idle).1.monitoring_fills
        ≡ ("0xd1", held) ∷ [])
complete_swap_completes_example =
    complete_swap_completes hex answers open_order held "k" source "0xd1" idle "0xt1" refl refl refl

abbrev no_ethers : Ethers
no_ethers = record { hash_permit = λ _. none; verify_typed_data = λ _ _. none }

abbrev stored_fill : Fill
stored_fill = new_fill "o1" (fill_data (to_string 1500)) 7 "f1"

abbrev stored : Order
stored = record open_order { fills = stored_fill ∷ [] }

abbrev engine : Service
engine = record { orders = ("o1", stored) ∷ []; orders_by_maker = []; events = [] }

run-complete_swap_example :
    Holds
      (run no_ethers
        (calls 9 (complete_swap hex answers open_order held "k" source "0xd1" idle).1.steps)
        engine)
      "o1"
      "f1"
      FillStatus.completed
      stored
run-complete_swap_example =
    run-complete_swap hex answers open_order held "k" source "0xd1" no_ethers 9 idle engine stored
      stored_fill refl refl (λ _. refl) refl refl

abbrev event : String → EscrowCreated
event id = record { block_number = 12; transaction_index = 3; escrow_id = id; hashlock = "0x5e" }

abbrev start : Monitor
start = record { settling = idle; processed_events = [] }

on_escrow_once_example :
    on_escrow hex answers
      (event "0xs2")
      (polls hex ((answers, event "0xs1" ∷ []) ∷ []) (on_escrow hex answers (event "0xs1") start).1)
    ≡ (
      ok tt,
      polls hex ((answers, event "0xs1" ∷ []) ∷ []) (on_escrow hex answers (event "0xs1") start).1,
    )
on_escrow_once_example =
    on_escrow_once hex answers answers (event "0xs1") (event "0xs2")
      ((answers, event "0xs1" ∷ []) ∷ []) start refl refl

polls-Unpaid_example :
    Unpaid [] (polls hex ((answers, event "0xs1" ∷ event "0xs2" ∷ []) ∷ []) start).settling
polls-Unpaid_example =
    polls-Unpaid hex ((answers, event "0xs1" ∷ event "0xs2" ∷ []) ∷ []) [] start (refl, refl)
