-- ===== src/Resolver/Overfill.antt =====
-- backend/resolver/src/services/ResolverServiceV2.ts, the end of calculateOptimalFillPercentage: a
-- resolver whose range is partly filled.
use fusion_plus_aptos_extens.Base.{ℕ, ◌+◌, ◌≤◌, ◌<◌, ◌≡◌, arith, true}
use fusion_plus_aptos_extens.Order.{Order}
use fusion_plus_aptos_extens.Secrets.{partial_of}
use fusion_plus_aptos_extens.Resolver.{start_fill, end_fill, share_fill, partial_enabled}

-- The last of three resolvers, with partial fills enabled and the balance for a share: wherever the
-- order stands between 66.67 % and 100 %, it takes a third, so the order goes beyond 100 % as soon
-- as its range was begun.
pub share_fill-overfills :
    (order : Order) (balance required current later : ℕ)
    → partial_enabled order ≡ true
    → partial_of required 10000 ≤ balance
    → 20000 < current
    → current < 30000
    → 30000 < current + share_fill order balance required 10000 3 2 current later
unfolding share_fill start_fill end_fill
share_fill-overfills order balance required current later partial rich begun open_end =
    (ground arith)
