-- ===== src/Resolver/Opening/MultiAgent.antt =====
-- backend/resolver/src/services/ResolverServiceV2.ts, handleMultiAgentAptosOrder: a transaction in
-- which the user funds the Aptos escrow and the resolver pays the gas. Reading the transaction,
-- signing and submitting it is one call, with its success as the answer; the hexadecimal text of the
-- escrow's id comes with the signed order. The hash of a missing secret hash is the empty text.
use Prim.Native.String.{◌++◌ as ◌&◌}
use fusion_plus_aptos_extens.Base.{
  String, Bool, not, ◌≡◌, ◌⊎◌, inl, inr, refl, Option, none, some, ◌++◌,
}
use fusion_plus_aptos_extens.Base.Exec.{Result, ok, err, modify, throw_if, ◌>>=◌, ◌>>◌}
use fusion_plus_aptos_extens.Base.Dict.{Dict, lookup}
use fusion_plus_aptos_extens.Order.{FillStatus, Order}
use fusion_plus_aptos_extens.Auction.{Ratio}
use fusion_plus_aptos_extens.Resolver.Settlement.{HeldFill}
use fusion_plus_aptos_extens.Resolver.Opening.{
  Failure, Answers, Setup, Opening, Open, transaction_failed, submit, source_created, order_error,
  log, call, send, await_secret, create_destination_escrow,
}

pub record SignedOrder : Type 0 where
  pub order_id : String
  pub escrow_hex : String

abbrev hash_or_empty : Option String → String
hash_or_empty none = ""
hash_or_empty (some hash) = hash

abbrev pub user_fill : Setup → Order → HeldFill
user_fill setup order = record {
  id = order.id & "-resolver";
  order_id = order.id;
  amount = order.from_amount;
  secret_hash = hash_or_empty order.secret_hash;
  status = FillStatus.pending;
  fill_percentage = none;
  secret_index = 0;
  merkle_index = some 0;
  actual_escrow_id = none;
  destination_escrow_id = none;
}

abbrev reported : String → Result Failure Unit × Opening → Result Failure Unit × Opening
reported id (ok tt, s) = (ok tt, s)
reported id (err e, s) = (ok tt, log (order_error id) s)

abbrev submit_and_open :
    Setup → Answers → Result Failure Bool → Ratio → SignedOrder → Order → Open Unit
submit_and_open setup answers submitted rate signed order = do
  success ← call (submit order.id) submitted
  throw_if (not success) transaction_failed
  send (source_created order.id signed.escrow_hex order.from_amount)
  modify (await_secret order (user_fill setup order) signed.escrow_hex "")
  create_destination_escrow setup answers rate order

unfoldable pub handle_multi_agent_aptos_order :
    Setup → Answers → Result Failure Bool → Ratio → SignedOrder → Dict Order → Open Unit
handle_multi_agent_aptos_order setup answers submitted rate signed active s =
    elim (lookup signed.order_id active) [
      | none ↦ (ok tt, s)
      | some order ↦
          reported signed.order_id (submit_and_open setup answers submitted rate signed order s)
    ]

pub Result-cases :
    {A : Type 0} (r : Result Failure A) → ((e : Failure) × (r ≡ err e)) ⊎ ((a : A) × (r ≡ ok a))
Result-cases (ok a) = inr (a, refl)
Result-cases (err e) = inl (e, refl)
