-- ===== src/Resolver/Opening/Gasless.antt =====
-- backend/resolver/src/services/ResolverServiceV2.ts, executeGaslessWETHEscrow: what it leaves for the
-- reveal of the secret and for the polls of escrows.
use mathlib.Core.List.{append_assoc}
use fusion_plus_aptos_extens.Base.{String, ◌≡◌, refl, arith, some, [], ◌∷◌, ◌++◌, str_eq_refl}
use fusion_plus_aptos_extens.Base.Exec.{ok, err}
use fusion_plus_aptos_extens.Base.Dict.{lookup, insert, lookup-insert}
use fusion_plus_aptos_extens.Base.Truthy.{truthy}
use fusion_plus_aptos_extens.Order.{Order, GaslessData}
use fusion_plus_aptos_extens.Resolver.Settlement
use fusion_plus_aptos_extens.Resolver.Settlement.{HeldFill, Settling}
use fusion_plus_aptos_extens.Resolver.Monitoring.{EscrowCreated, on_escrow}
use fusion_plus_aptos_extens.Resolver.Opening.{
  Failure, create_with_meta_tx, source_created, secret_request, Answers, Setup, Pending, Opening,
  tracked, announced_id, execute_gasless_weth_escrow,
}

module _ (setup : Setup) (answers : Answers) (order : Order) (fill : HeldFill) (s : Opening)
    (gasless : GaslessData) where
  -- When the order has gasless data, the contract is configured and the transaction goes through,
  -- the source escrow is announced before the secret is requested, and the reveal will find the
  -- order with the id of its source escrow and with the destination escrow that the fill is
  -- tracked by.
  pub execute_gasless_weth_escrow_lem :
      (contract tx : String)
      → order.gasless_data ≡ some gasless
      → truthy setup.gasless_escrow ≡ some contract
      → answers.meta_tx ≡ ok tx
      → ((execute_gasless_weth_escrow setup answers order fill s).0 ≡ ok tt)
        × ((execute_gasless_weth_escrow setup answers order fill s).1.steps
            ≡ s.steps
              ++ (create_with_meta_tx gasless.escrow_id gasless.amount
                  ∷ source_created order.id (announced_id fill gasless) fill.amount
                  ∷ secret_request order.id
                  ∷ []))
        × (lookup order.id
              (execute_gasless_weth_escrow setup answers order fill s).1.pending_secret_reveals
            ≡ some (record {
              order = order;
              fill = (tracked setup order fill s.monitoring_fills).1;
              source_escrow_id = gasless.escrow_id;
              destination_escrow_id = (tracked setup order fill s.monitoring_fills).0;
            }))
  unfolding execute_gasless_weth_escrow
  execute_gasless_weth_escrow_lem contract tx given configured sent =
      let p : Pending = record {
        order = order;
        fill = (tracked setup order fill s.monitoring_fills).1;
        source_escrow_id = gasless.escrow_id;
        destination_escrow_id = (tracked setup order fill s.monitoring_fills).0;
      } in
      let held : lookup order.id (insert order.id p s.pending_secret_reveals) ≡ some p =
        rw (lookup-insert order.id order.id p s.pending_secret_reveals, str_eq_refl order.id)
          refl in
      (ground arith, grind (arith, append_assoc), ground (arith, held))

  -- If the transaction fails, the call throws and only the transaction was tried: nothing is
  -- announced or requested, and nothing waits for a secret.
  pub execute_gasless_weth_escrow_failed :
      (contract : String) (e : Failure)
      → order.gasless_data ≡ some gasless
      → truthy setup.gasless_escrow ≡ some contract
      → answers.meta_tx ≡ err e
      → execute_gasless_weth_escrow setup answers order fill s ≡ (
        err e,
        record s { steps = s.steps ++ create_with_meta_tx gasless.escrow_id gasless.amount ∷ [] },
      )
  unfolding execute_gasless_weth_escrow
  execute_gasless_weth_escrow_failed contract e given configured sent = ground arith

  -- The polls leave an escrow alone that was created for the user, so that it is not settled twice.
  pub on_escrow-execute_gasless_weth_escrow :
      (contract tx : String) (hex : Settlement.Hex) (later : Settlement.Answers) (e : EscrowCreated)
      (settling : Settling)
      → order.gasless_data ≡ some gasless
      → truthy setup.gasless_escrow ≡ some contract
      → answers.meta_tx ≡ ok tx
      → e.escrow_id ≡ gasless.escrow_id
      → (on_escrow hex later e (record {
        settling = settling;
        processed_events =
            (execute_gasless_weth_escrow setup answers order fill s).1.processed_events;
      })).1.settling
        ≡ settling
  unfolding execute_gasless_weth_escrow on_escrow
  on_escrow-execute_gasless_weth_escrow contract tx hex later e settling given configured sent
        same =
      ground (arith, str_eq_refl gasless.escrow_id)
