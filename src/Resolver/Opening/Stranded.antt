-- ===== src/Resolver/Opening/Stranded.antt =====
-- backend/resolver/src/services/ResolverServiceV2.ts, createDestinationEscrow: WETH orders that are
-- not gasless are refused after the destination escrow was funded.
use mathlib.Core.List.{append-nil, append_assoc}
use fusion_plus_aptos_extens.Base.{
  ◌&&◌, inl, inr, Bool, List, ap, if◌then◌else◌, ℕ, String, true, false, ◌≡◌, refl, arith, some, [],
  ◌∷◌, ◌++◌,
}
use fusion_plus_aptos_extens.Base.Exec.{Result, ok, err}
use fusion_plus_aptos_extens.Order.{Chain, ethereum, Order}
use fusion_plus_aptos_extens.Auction.{Ratio}
use fusion_plus_aptos_extens.Resolver.Settlement.{HeldFill, is_gasless}
use fusion_plus_aptos_extens.Resolver.Prices.{output_units}
use fusion_plus_aptos_extens.Resolver.Opening.Branches.{covers}
use fusion_plus_aptos_extens.Resolver.Opening.MultiAgent.{Result-cases}
use fusion_plus_aptos_extens.Resolver.Opening.{
  Step, Failure, own_address, approval_steps, create_fill, create_escrow, gasless_required, Answers,
  Setup, Opening, escrow_name, secret_hash_of, is_weth_order, created_fill,
  create_destination_escrow, open_swap, begin_source, log,
}

abbrev pub is_ok : {A : Type 0} → Result Failure A → Bool
is_ok (ok _) = true
is_ok (err _) = false

begin_source_refused :
    (setup : Setup) (answers : Answers) (order : Order) (fill : HeldFill) (hash id : String)
    (s : Opening)
    → order.from_chain ≡ ethereum
    → is_weth_order setup order ≡ true
    → is_gasless order ≡ false
    → begin_source setup answers order fill hash id s ≡ (err gasless_required, s)
unfolding begin_source
begin_source_refused setup answers order fill hash id s from weth plain = ground arith

-- The escrows that are funded, oldest first: the chain, the id and the amount.
abbrev pub funded : List Step → List (Chain × String × ℕ)
funded [] = []
funded (create_escrow chain id amount ∷ steps) = (chain, id, amount) ∷ funded steps
funded (_ ∷ steps) = funded steps

funded-append : (xs ys : List Step) → funded (xs ++ ys) ≡ funded xs ++ funded ys
funded-append [] ys = refl
funded-append (create_escrow chain id amount ∷ xs) ys =
    ap (λ l. (chain, id, amount) ∷ l) (funded-append xs ys)
funded-append (_ ∷ xs) ys = funded-append xs ys

funded-approval_steps :
    (setup : Setup) (answers : Answers) (order : Order)
    → funded (approval_steps setup answers order) ≡ []
funded-approval_steps setup answers order = ground arith

module _ (setup : Setup) (answers : Answers) (order : Order) (amount : ℕ) where
  open_swap_refused :
      (fill : HeldFill) (s : Opening)
      → order.from_chain ≡ ethereum
      → is_weth_order setup order ≡ true
      → is_gasless order ≡ false
      → (is_ok (open_swap setup answers order amount fill s).0 ≡ false)
        × ((open_swap setup answers order amount fill s).1.pending_secret_reveals
            ≡ s.pending_secret_reveals)
        × (funded (open_swap setup answers order amount fill s).1.steps
            ≡ funded s.steps
              ++ (if covers answers order amount
                  then (
                    order.to_chain,
                    escrow_name setup order "-dest-" (secret_hash_of setup order),
                    amount,
                  )
                    ∷ []
                  else []))
  unfolding open_swap begin_source
  open_swap_refused fill s from weth plain =
      (ground arith, ground arith, grind (arith, funded-append, append-nil, append_assoc))

-- An order of WETH that is not gasless, whatever the resolver's balance, the chains and the order
-- engine answer: the call never succeeds and nothing waits for a secret after it. Yet the resolver
-- tries to fund the destination escrow, with the whole amount and once, whenever the order engine
-- records the fill and the balance covers the amount.
pub create_destination_escrow_stranded :
    (setup : Setup) (answers : Answers) (rate : Ratio) (order : Order) (s : Opening) (amount : ℕ)
    → order.from_chain ≡ ethereum
    → is_weth_order setup order ≡ true
    → is_gasless order ≡ false
    → output_units rate order ≡ some amount
    → let r = create_destination_escrow setup answers rate order s in
      (is_ok r.0 ≡ false)
      × (r.1.pending_secret_reveals ≡ s.pending_secret_reveals)
      × (funded r.1.steps
          ≡ funded s.steps
            ++ (if is_ok answers.fill && covers answers order amount
                then (
                  order.to_chain,
                  escrow_name setup order "-dest-" (secret_hash_of setup order),
                  amount,
                )
                  ∷ []
                else []))
unfolding create_destination_escrow
create_destination_escrow_stranded setup answers rate order s amount from weth plain units =
    elim (Result-cases answers.fill) [
      | inl (e, bad) ↦ (
        ground (arith, units, bad),
        ground (arith, units, bad),
        grind (
          arith,
          units,
          bad,
          funded-append,
          funded-approval_steps setup answers order,
          append-nil,
          append_assoc,
        ),
      )
      | inr (id, good) ↦
          let refused : _ =
            open_swap_refused setup answers order amount
              (created_fill order amount (secret_hash_of setup order) id)
              (log (create_fill order.id amount (own_address setup order))
                (record s { steps = s.steps ++ approval_steps setup answers order }))
              from weth plain in
          (
            ground (arith, units, good, refused.0),
            ground (arith, units, good, refused.1),
            grind (
              arith,
              units,
              good,
              refused.2,
              funded-append,
              funded-approval_steps setup answers order,
              append-nil,
              append_assoc,
            ),
          )
    ]
