-- ===== src/Resolver/Signed/FirstFill.antt =====
-- backend/resolver/src/services/ResolverServiceV2.ts, the listener of order:signed: which fill a signed
-- part of an order is taken for.
use fusion_plus_aptos_extens.Base.{
  Bool, false, any, find, [], ◌++◌, ℕ, String, true, ◌≡◌, refl, arith, some, ◌∷◌, str_eq,
  str_eq_iff,
}
use fusion_plus_aptos_extens.Base.Exec.{ok}
use fusion_plus_aptos_extens.Base.Dict.{Dict, lookup, values}
use fusion_plus_aptos_extens.Base.Truthy.{truthy}
use fusion_plus_aptos_extens.Amount.{Amount}
use fusion_plus_aptos_extens.Order.{ethereum, Order, GaslessData}
use fusion_plus_aptos_extens.Auction.{Ratio}
use fusion_plus_aptos_extens.Resolver.Settlement.{HeldFill}
use fusion_plus_aptos_extens.Resolver.Opening.{
  Answers, Setup, Opening, tracked, find_part, execute_gasless_weth_escrow,
}
use fusion_plus_aptos_extens.Resolver.Opening.Gasless.{execute_gasless_weth_escrow_lem}
use fusion_plus_aptos_extens.Resolver.Signed.{SignedData, plain, Aptos, part_order, on_signed}

-- The fills before the first one of an order are of other orders.
abbrev has_fill : String → Dict HeldFill → Bool
has_fill order_id fills = any (λ f. str_eq f.order_id order_id) (values fills)

find-before :
    (id key : String) (f : HeldFill) (before rest : Dict HeldFill)
    → has_fill id before ≡ false
    → str_eq f.order_id id ≡ true
    → find (λ g. str_eq g.order_id id) (values (before ++ (key, f) ∷ rest)) ≡ some f
find-before id key f [] rest others mine = ground arith
find-before id key f ((k, g) ∷ before) rest others mine =
    let other : str_eq g.order_id id ≡ false = ground arith in
    let still : has_fill id before ≡ false = ground arith in
    ground (arith, other, find-before id key f before rest still mine)

find_part-before :
    (id key : String) (f : HeldFill) (before rest : Dict HeldFill)
    → has_fill id before ≡ false
    → str_eq f.order_id id ≡ true
    → find_part id f.secret_index (before ++ (key, f) ∷ rest) ≡ some (key, f)
unfolding find_part
find_part-before id key f [] rest others mine = ground arith
find_part-before id key f ((k, g) ∷ before) rest others mine =
    let other : str_eq g.order_id id ≡ false = ground arith in
    let still : has_fill id before ≡ false = ground arith in
    ground (arith, other, find_part-before id key f before rest still mine)

module _ (setup : Setup) (answers : Answers) (chain : Aptos) (rate : Ratio) (signed : SignedData)
    (active : Dict Order) (s : Opening) (order : Order) (first_id : String) (first : HeldFill)
    (before rest : Dict HeldFill) (gasless : GaslessData) (amount : Amount) where
  tracked-first :
      (percentage : ℕ)
      → has_fill order.id before ≡ false
      → first.order_id ≡ order.id
      → first.fill_percentage ≡ some percentage
      → tracked setup
          (part_order signed order)
          (record first { amount = amount })
          (before ++ (first_id, first) ∷ rest)
        ≡ (first_id, first)
  unfolding tracked
  tracked-first percentage others own parts =
      let me : str_eq first.order_id order.id ≡ true = (str_eq_iff first.order_id order.id).1 own in
      ground (arith, find_part-before order.id first_id first before rest others me)

  executed-first :
      signed.from_chain ≡ ethereum
      → signed.is_partial_fill ≡ true
      → signed.escrow_amount ≡ some amount
      → signed.order_id ≡ order.id
      → lookup order.id active ≡ some order
      → s.monitoring_fills ≡ before ++ (first_id, first) ∷ rest
      → has_fill order.id before ≡ false
      → first.order_id ≡ order.id
      → on_signed setup answers chain rate plain signed active s
        ≡ execute_gasless_weth_escrow setup answers
            (part_order signed order)
            (record first { amount = amount })
            s
  unfolding on_signed
  executed-first from part amounted same found fills others own =
      let me : str_eq first.order_id order.id ≡ true = (str_eq_iff first.order_id order.id).1 own in
      ground (arith, find-before order.id first_id first before rest others me)

  -- A part of an order that its user signed on Ethereum is taken for the first of the monitored fills
  -- that are the order's, whatever percentage was signed and wherever it stands among the others:
  -- the escrow of the signed part then waits for its secret together with the destination escrow of
  -- that first fill.
  pub on_signed-first_fill :
      (contract tx : String) (percentage : ℕ)
      → signed.from_chain ≡ ethereum
      → signed.is_partial_fill ≡ true
      → signed.escrow_amount ≡ some amount
      → signed.gasless_data ≡ some gasless
      → signed.order_id ≡ order.id
      → lookup order.id active ≡ some order
      → s.monitoring_fills ≡ before ++ (first_id, first) ∷ rest
      → has_fill order.id before ≡ false
      → first.order_id ≡ order.id
      → first.fill_percentage ≡ some percentage
      → truthy setup.gasless_escrow ≡ some contract
      → answers.meta_tx ≡ ok tx
      → lookup order.id
          (on_signed setup answers chain rate plain signed active s).1.pending_secret_reveals
        ≡ some (record {
          order = part_order signed order;
          fill = first;
          source_escrow_id = gasless.escrow_id;
          destination_escrow_id = first_id;
        })
  on_signed-first_fill contract tx percentage from part amounted given same found fills others own
        parts configured sent =
      rw
        (
          executed-first from part amounted same found fills others own,
          (execute_gasless_weth_escrow_lem setup answers (part_order signed order)
              (record first { amount = amount }) s gasless contract tx given configured sent).2,
          fills,
          tracked-first percentage others own parts,
        )
        refl
