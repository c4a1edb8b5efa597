-- ===== src/Resolver/Monitoring/Polls.antt =====
-- backend/resolver/src/services/ResolverServiceV2.ts, startEscrowMonitoring: which events are handled.
use fusion_plus_aptos_extens.Base.{true, ◌≡◌, refl, arith, List, [], ◌∷◌, str_eq_iff}
use fusion_plus_aptos_extens.Base.Exec.{ok}
use fusion_plus_aptos_extens.Resolver.Settlement.{Answers, Hex}
use fusion_plus_aptos_extens.Resolver.Monitoring.{
  EventKey, transaction, auto, key_eq, EscrowCreated, Monitor, has, key_of, on_escrow, poll, polls,
}

key_eq_refl : (k : EventKey) → key_eq k k ≡ true
key_eq_refl (transaction b i) = ground arith
key_eq_refl (auto x) = (str_eq_iff x x).1 refl

module _ (hex : Hex) (answers : Answers) where
  -- An event that was processed changes nothing.
  on_escrow-processed :
      (e : EscrowCreated) (m : Monitor)
      → has (key_of e) m.processed_events ≡ true
      → on_escrow hex answers e m ≡ (ok tt, m)
  unfolding on_escrow
  on_escrow-processed e m h = rw h refl

  on_escrow-marks :
      (e : EscrowCreated) (m : Monitor)
      → has (key_of e) (on_escrow hex answers e m).1.processed_events ≡ true
  unfolding on_escrow
  on_escrow-marks e m = ground (arith, key_eq_refl (key_of e))

  on_escrow-keeps :
      (e : EscrowCreated) (k : EventKey) (m : Monitor)
      → has k m.processed_events ≡ true
      → has k (on_escrow hex answers e m).1.processed_events ≡ true
  unfolding on_escrow
  on_escrow-keeps e k m h = ground arith

module _ (hex : Hex) (k : EventKey) where
  poll-keeps :
      (answers : Answers) (events : List EscrowCreated) (m : Monitor)
      → has k m.processed_events ≡ true
      → has k (poll hex answers events m).1.processed_events ≡ true
  unfolding poll
  poll-keeps answers [] m h = h
  poll-keeps answers (e ∷ events) m h = ground (
    arith,
    on_escrow-keeps hex answers e k m h,
    poll-keeps answers events (on_escrow hex answers e m).1,
  )

  pub polls-keeps :
      (ps : List (Answers × List EscrowCreated)) (m : Monitor)
      → has k m.processed_events ≡ true
      → has k (polls hex ps m).processed_events ≡ true
  unfolding polls
  polls-keeps [] m h = h
  polls-keeps ((answers, events) ∷ ps) m h =
      polls-keeps ps (poll hex answers events m).1 (poll-keeps answers events m h)

-- Once an event was looked at, no event of the same transaction is handled again, after any number
-- of polls and also where the handling failed: of several escrows that one transaction creates at
-- most the first is ever settled by the polls.
pub on_escrow_once :
    (hex : Hex) (answers later : Answers) (e e' : EscrowCreated)
    (ps : List (Answers × List EscrowCreated)) (m : Monitor)
    → e'.block_number ≡ e.block_number
    → e'.transaction_index ≡ e.transaction_index
    → on_escrow hex later e' (polls hex ps (on_escrow hex answers e m).1)
      ≡ (ok tt, polls hex ps (on_escrow hex answers e m).1)
on_escrow_once hex answers later e e' ps m block index =
    on_escrow-processed hex later e' (polls hex ps (on_escrow hex answers e m).1) (
      rw (block, index)
        (polls-keeps hex (key_of e) ps (on_escrow hex answers e m).1
          (on_escrow-marks hex answers e m)))
