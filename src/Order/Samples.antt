-- ===== src/Order/Samples.antt =====
-- Orders and fills to run the services on.
use fusion_plus_aptos_extens.Base.{true, false, none, some, []}
use fusion_plus_aptos_extens.Amount.{Amount, to_string}
use fusion_plus_aptos_extens.Order.{
  OrderStatus, Chain, ethereum, aptos, CreateOrderDto, FillData, FillStatus, Order,
}

abbrev pub dto_from : Chain → Amount → CreateOrderDto
dto_from chain amount = record {
  from_chain = chain;
  to_chain = aptos;
  from_token = "WETH";
  to_token = "APT";
  from_amount = amount;
  min_to_amount = amount;
  maker = "0xaa";
  receiver = "0xbb";
  signature = "0x00";
  deadline = 2000;
  nonce = "1";
  partial_fill_allowed = true;
  partial_fill_enabled = false;
  secret_hash = some "0x5e";
  secret_hashes = none;
  partial_fill_secrets = none;
  max_parts = none;
  active_resolvers = none;
  dutch_auction = none;
  permit = none;
  permit_signature = none;
  gasless = none;
  gasless_data = none;
}

abbrev pub swap_dto : CreateOrderDto
swap_dto = dto_from ethereum (to_string 3000)

abbrev pub order_of : CreateOrderDto → OrderStatus → Order
order_of dto status = record {
  dto = dto;
  id = "o1";
  status = status;
  filled_amount = to_string 0;
  filled_percentage = 0;
  created_at = 5;
  updated_at = 5;
  fills = [];
}

abbrev pub open_order : Order
open_order = order_of swap_dto OrderStatus.pending

abbrev pub fill_data : Amount → FillData
fill_data amount = record {
  resolver = "0xcc";
  amount = amount;
  fill_percentage = none;
  cumulative_percentage = none;
  cumulative_fill_percentage = none;
  secret_hash = "0x5e";
  secret_index = 0;
  merkle_proof = none;
  merkle_index = none;
  partial_secret = none;
  actual_escrow_id = none;
  source_chain_tx_hash = none;
  dest_chain_tx_hash = none;
  status = FillStatus.pending;
}
