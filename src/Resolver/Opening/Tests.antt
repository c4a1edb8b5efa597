-- ===== src/Resolver/Opening/Tests.antt =====
-- Escrows that begin the swap of one order.
use fusion_plus_aptos_extens.Base.{ℕ, true, false, ◌≡◌, refl, none, some, [], ◌∷◌, ◌*◌, ◌^◌, ◌++◌}
use fusion_plus_aptos_extens.Base.Exec.{ok, err}
use fusion_plus_aptos_extens.Base.Dict.{lookup}
use fusion_plus_aptos_extens.Amount.{big_int, to_string, amount_eq}
use fusion_plus_aptos_extens.Order.{FillStatus, ethereum, aptos, GaslessData, Order}
use fusion_plus_aptos_extens.Order.Samples.{open_order}
use fusion_plus_aptos_extens.Auction.{Ratio}
use fusion_plus_aptos_extens.Resolver.Settlement
use fusion_plus_aptos_extens.Resolver.Settlement.{HeldFill, Settling}
use fusion_plus_aptos_extens.Resolver.Monitoring.{EscrowCreated, on_escrow}
use fusion_plus_aptos_extens.Resolver.Prices.{whole, output_units}
use fusion_plus_aptos_extens.Resolver.Opening.{
  call_failed, Answers, Setup, Opening, created_fill, create_destination_escrow,
  execute_gasless_weth_escrow,
}
use fusion_plus_aptos_extens.Resolver.Opening.Branches.{
  told, statuses, create_destination_escrow_refused,
}
use fusion_plus_aptos_extens.Resolver.Opening.Stranded.{
  is_ok, funded, create_destination_escrow_stranded,
}
use fusion_plus_aptos_extens.Resolver.Opening.Gasless.{on_escrow-execute_gasless_weth_escrow}
use fusion_plus_aptos_extens.Resolver.Signed.{
  SignedData, with_permit, plain, Aptos, part_order, on_signed,
}
use fusion_plus_aptos_extens.Resolver.Signed.Announced.{SameNews, on_signed-SameNews}
use fusion_plus_aptos_extens.Resolver.Signed.FirstFill.{on_signed-first_fill}

abbrev setup : Setup
setup = record {
  tokens = record { weth = "weth"; zero_address = "0x00"; aptos_coin = "APT" };
  ethereum_address = "0xe1";
  aptos_address = "0xa1";
  gasless_escrow = some "0x9e";
  random_hash = "0x4a";
  id = λ _. "0x1d";
}

abbrev answers : Answers
answers = record {
  allowance = ok 0;
  fill = ok "f1";
  balance = ok (10 ^ 20);
  escrow = ok "0xt1";
  status_set = λ _. ok tt;
  meta_tx = ok "0xt2";
  permit = ok "0xt3";
  source = ok "0xt4";
}

abbrev start : Opening
start = record {
  monitoring_fills = [];
  pending_secret_reveals = [];
  processed_events = [];
  steps = [];
}

-- One ether, at 500 APT for an ether.
abbrev one_ether : Order
one_ether = record open_order {
  dto = record (open_order.dto) { from_amount = to_string (10 ^ 18) };
}

create_destination_escrow_stranded_example :
    let r = create_destination_escrow setup answers (whole 500) one_ether start in
    (is_ok r.0 ≡ false)
    × (r.1.pending_secret_reveals ≡ start.pending_secret_reveals)
    × (funded r.1.steps ≡ funded start.steps ++ (aptos, "0x1d", 49500000000) ∷ [])
unfolding amount_eq output_units big_int to_string
create_destination_escrow_stranded_example =
    create_destination_escrow_stranded setup answers (whole 500) one_ether start 49500000000 refl
      refl refl refl

abbrev refusing : Answers
refusing = record answers { escrow = err call_failed }

create_destination_escrow_refused_example :
    let r = create_destination_escrow setup refusing (whole 500) one_ether start in
    (r.0 ≡ err call_failed)
    × (r.1.monitoring_fills ≡ [])
    × (r.1.pending_secret_reveals ≡ [])
    × (told r.1.steps ≡ [])
    × (statuses r.1.steps ≡ FillStatus.failed ∷ [])
unfolding output_units big_int to_string
create_destination_escrow_refused_example =
    create_destination_escrow_refused setup refusing one_ether 49500000000 (whole 500) start "f1"
      refl refl refl refl

abbrev gasless : GaslessData
gasless = record {
  escrow_id = "0xs2";
  depositor = "0xaa";
  beneficiary = "0xe1";
  token = "WETH";
  amount = to_string 1500;
  hashlock = "0x5e";
  timelock = "1";
  deadline = "2";
  meta_tx_v = 27;
  meta_tx_r = "0x01";
  meta_tx_s = "0x02";
  base_order_id = none;
  total_amount = none;
  merkle_root = none;
  num_fills = none;
  secrets = none;
  merkle_proofs = none;
  fill_thresholds = none;
}

abbrev gasless_order : Order
gasless_order = record open_order {
  dto = record (open_order.dto) { gasless = some true; gasless_data = some gasless };
}

abbrev first : HeldFill
first = record (created_fill gasless_order 1500 "0x5e" "f1") {
  fill_percentage = some 10000;
  destination_escrow_id = some "0xd1";
}

abbrev second : HeldFill
second = record first { id = "f2"; secret_index = 1; fill_percentage = some 15000 }

abbrev two_parts : Opening
two_parts = record start { monitoring_fills = ("0xd1", first) ∷ ("0xd2", second) ∷ [] }

abbrev settling : Settling
settling = record { active_orders = []; monitoring_fills = []; fill_secrets = []; steps = [] }

abbrev hex : Settlement.Hex
hex = record { get_bytes = λ _. none; hexlify = λ s. s; packed_id = λ _ _. "0xp1" }

abbrev settled : Settlement.Answers
settled = record {
  status_set = λ _. ok tt;
  escrow_exists = ok true;
  source = ok "0xt5";
  tracked = ok tt;
  destination = ok "0xt6";
  tracked_again = ok tt;
}

abbrev event : EscrowCreated
event = record { block_number = 12; transaction_index = 3; escrow_id = "0xs2"; hashlock = "0x5e" }

on_escrow-execute_gasless_weth_escrow_example :
    (on_escrow hex settled event (record {
      settling = settling;
      processed_events =
          (execute_gasless_weth_escrow setup answers gasless_order second
            two_parts).1.processed_events;
    })).1.settling
    ≡ settling
on_escrow-execute_gasless_weth_escrow_example =
    on_escrow-execute_gasless_weth_escrow setup answers gasless_order second two_parts gasless
      "0x9e" "0xt2" hex settled event settling refl refl refl refl

-- One APT for ether, at 2/1000 ether for an APT.
abbrev apt_order : Order
apt_order = record open_order {
  dto = record (open_order.dto) {
    from_chain = aptos;
    to_chain = ethereum;
    from_token = "APT";
    to_token = "weth";
    from_amount = to_string (10 ^ 8);
  };
}

abbrev apt_rate : Ratio
apt_rate = record { num = 2; den = 1000 }

abbrev wei : ℕ
wei = 198 * 10 ^ 13

abbrev failing : Aptos
failing = record {
  balance = ok (10 ^ 9);
  readable = true;
  executed = ok false;
  found_later = err call_failed;
}

abbrev apt_data : SignedData
apt_data = record {
  order_id = "o1";
  from_chain = aptos;
  payload = true;
  funded = false;
  escrow_hex = "0x09";
  amount = 10 ^ 8;
  from_amount = to_string (10 ^ 8);
  is_partial_fill = false;
  fill_percentage = 30000;
  escrow_amount = none;
  gasless_data = none;
  secret_hash = none;
}

on_signed-SameNews_example :
    SameNews
      (on_signed setup answers failing apt_rate with_permit apt_data
        (("o1", apt_order) ∷ [])
        two_parts).1
      two_parts
on_signed-SameNews_example =
    on_signed-SameNews setup answers failing apt_rate with_permit apt_data (("o1", apt_order) ∷ [])
      two_parts refl refl refl

-- The second part is signed.
abbrev part_data : SignedData
part_data = record apt_data {
  from_chain = ethereum;
  is_partial_fill = true;
  fill_percentage = 15000;
  escrow_amount = some (to_string 1500);
  gasless_data = some gasless;
  secret_hash = some "0x5f";
}

on_signed-first_fill_example :
    lookup "o1"
      (on_signed setup answers failing apt_rate plain part_data
        (("o1", gasless_order) ∷ [])
        two_parts).1.pending_secret_reveals
    ≡ some (record {
      order = part_order part_data gasless_order;
      fill = first;
      source_escrow_id = "0xs2";
      destination_escrow_id = "0xd1";
    })
on_signed-first_fill_example =
    on_signed-first_fill setup answers failing apt_rate part_data (("o1", gasless_order) ∷ [])
      two_parts gasless_order "0xd1" first [] (("0xd2", second) ∷ []) gasless (to_string 1500)
      "0x9e" "0xt2" 10000 refl refl refl refl refl refl refl refl refl refl refl refl
