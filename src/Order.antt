-- ===== src/Order.antt =====
-- backend/order-engine/src/types/order.ts: the orders and fills that all services exchange.
-- Times are whole milliseconds or seconds as in the source, rates are integers in units of 10⁻⁶
-- (the precision that `calculateMinReturn` documents), amounts are decimal texts, and percentages
-- are in units of 1/300 % (Amount). A fill may lack the percentages, since the route that creates
-- one does not validate its body.
pub mod Samples
use fusion_plus_aptos_extens.Base.{ℕ, String, Bool, List, Option}
use fusion_plus_aptos_extens.Base.Int.{ℤ}
use fusion_plus_aptos_extens.Amount.{Amount}

pub data OrderStatus : Type 0 where
  pending partially_filled filled cancelled expired : OrderStatus

pub data Chain : Type 0 where
  ethereum aptos : Chain

pub record Permit : Type 0 where
  pub owner : String
  pub spender : String
  pub value : String
  pub nonce : String
  pub deadline : ℕ

pub record GaslessData : Type 0 where
  pub escrow_id : String
  pub depositor : String
  pub beneficiary : String
  pub token : String
  pub amount : Amount
  pub hashlock : String
  pub timelock : String
  pub deadline : String
  pub meta_tx_v : ℕ
  pub meta_tx_r : String
  pub meta_tx_s : String
  pub base_order_id : Option String
  pub total_amount : Option Amount
  pub merkle_root : Option String
  pub num_fills : Option ℕ
  pub secrets : Option (List String)
  pub merkle_proofs : Option (List (List String))
  pub fill_thresholds : Option (List ℕ)

pub record PartialFillSecrets : Type 0 where
  pub merkle_root : String
  pub secrets : List String
  pub merkle_proofs : List (List String)
  pub fill_thresholds : List ℕ

pub record DutchAuction : Type 0 where
  pub enabled : Bool
  pub start_timestamp : ℕ
  pub duration : ℕ
  pub start_rate : ℤ
  pub end_rate : ℤ
  pub decrement_interval : ℕ
  pub decrement_amount : ℤ

pub record CreateOrderDto : Type 0 where
  pub from_chain : Chain
  pub to_chain : Chain
  pub from_token : String
  pub to_token : String
  pub from_amount : Amount
  pub min_to_amount : Amount
  pub maker : String
  pub receiver : String
  pub signature : String
  pub deadline : ℕ
  pub nonce : String
  pub partial_fill_allowed : Bool
  pub partial_fill_enabled : Bool
  pub secret_hash : Option String
  pub secret_hashes : Option (List String)
  pub partial_fill_secrets : Option PartialFillSecrets
  pub max_parts : Option ℕ
  pub active_resolvers : Option (List String)
  pub dutch_auction : Option DutchAuction
  pub permit : Option Permit
  pub permit_signature : Option String
  pub gasless : Option Bool
  pub gasless_data : Option GaslessData

pub data FillStatus : Type 0 where
  pending locked completed failed : FillStatus
  -- What the resolver also writes: the route passes any text on.
  destination_created source_created source_withdrawn : FillStatus

-- What a client sends to create a fill: `Omit<Fill, 'id' | 'orderId' | 'createdAt' | 'updatedAt'>`.
pub record FillData : Type 0 where
  pub resolver : String
  pub amount : Amount
  pub fill_percentage : Option ℕ
  pub cumulative_percentage : Option ℕ
  pub cumulative_fill_percentage : Option ℕ
  pub secret_hash : String
  pub secret_index : ℕ
  pub merkle_proof : Option (List String)
  pub merkle_index : Option ℕ
  pub partial_secret : Option String
  pub actual_escrow_id : Option String
  pub source_chain_tx_hash : Option String
  pub dest_chain_tx_hash : Option String
  pub status : FillStatus

pub record Fill : Type 0 where
  pub content : FillData
  pub open content use *
  pub id : String
  pub order_id : String
  pub created_at : ℕ
  pub updated_at : ℕ

pub record Order : Type 0 where
  pub dto : CreateOrderDto
  pub open dto use *
  pub id : String
  pub status : OrderStatus
  pub filled_amount : Amount
  pub filled_percentage : ℕ
  pub created_at : ℕ
  pub updated_at : ℕ
  pub fills : List Fill
