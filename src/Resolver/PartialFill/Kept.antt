-- ===== src/Resolver/PartialFill/Kept.antt =====
-- backend/resolver/src/services/ResolverServiceV2.ts, handlePartialFillOrder: the fill that is kept.
use fusion_plus_aptos_extens.Base.{List, [], ◌∷◌, String, ℕ, Option}
use fusion_plus_aptos_extens.Amount.{Amount}
use fusion_plus_aptos_extens.Order.{Chain, Order}
use fusion_plus_aptos_extens.Resolver.{Resolver, calculate_optimal_fill_percentage}
use fusion_plus_aptos_extens.Resolver.PartialFill.{Action, create_escrow, PartialFill, World}

abbrev optimal : Resolver → Order → World → ℕ
optimal r order world =
    calculate_optimal_fill_percentage r order world.balance world.current world.now world.later

-- The escrows that are created, oldest first: the chain, the id and the amount.
abbrev pub escrows : List Action → List (Chain × String × Amount)
escrows [] = []
escrows (create_escrow chain id amount ∷ actions) = (chain, id, amount) ∷ escrows actions
escrows (_ ∷ actions) = escrows actions
