-- ===== src/Reconcile/Schedule/Bounds.antt =====
-- How long a reconciliation goes on, and how soon it comes back.
use cell_flow.Core.Observation.{differs}
use cell_flow.Prelude.{
  ℕ, ◌+◌, ◌^◌, ◌≤◌, ◌≡◌, ◌↔◌, min, true, false, Option, some, none, String, arith, eq_iff, zero,
  suc,
}
use cell_flow.Core.Status.{ChainStatus, ConflictType}
use cell_flow.Core.Types.{ExecutionSnapshot}
use cell_flow.Core.Settlement.{truthy, is_settlement_ready}
use cell_flow.Reconcile.Schedule.{
  next_reconcile_delay_ms, is_terminal, should_continue_settlement_monitoring, ReverifyInput,
  should_reverify_expected_cells,
}

powers : (n : ℕ) → n ≤ 5 → (1 ≤ 2 ^ n) × (2 ^ n ≤ 32)
powers zero h = (omega arith, omega arith)
powers (suc zero) h = (omega arith, omega arith)
powers (suc (suc zero)) h = (omega arith, omega arith)
powers (suc (suc (suc zero))) h = (omega arith, omega arith)
powers (suc (suc (suc (suc zero)))) h = (omega arith, omega arith)
powers (suc (suc (suc (suc (suc zero))))) h = (omega arith, omega arith)
powers (suc (suc (suc (suc (suc (suc n)))))) h = absurd (omega (arith, h))

-- The next reconciliation is due after ten seconds at the least and five minutes at the most,
-- whatever the status and the number of attempts.
pub delay_bounded :
    (attempt : ℕ) (status : ChainStatus)
    → (10000 ≤ next_reconcile_delay_ms attempt status)
      × (next_reconcile_delay_ms attempt status ≤ 300000)
unfolding next_reconcile_delay_ms
delay_bounded attempt ChainStatus.unobserved =
    let (low, high) = powers (min attempt 5) (omega arith) in (omega (arith, low), omega arith)
delay_bounded attempt ChainStatus.unknown =
    let (low, high) = powers (min attempt 5) (omega arith) in (omega (arith, low), omega arith)
delay_bounded attempt _ = (omega arith, omega arith)

-- A settled snapshot is terminal: monitoring alone can keep it going, and it ends with the
-- horizon that starts when settlement was first ready.
pub settled_ends :
    (parse : String → Option ℕ) (s : ExecutionSnapshot) (a : Option String) (required : ℕ)
    (c : Option ConflictType) (first : String) (started now horizon : ℕ)
    → is_settlement_ready s a required c ≡ true
    → parse first ≡ some started
    → started + horizon ≤ now
    → (is_terminal s a required ≡ true)
      × (should_continue_settlement_monitoring parse true (some first) now horizon ≡ false)
unfolding is_terminal should_continue_settlement_monitoring is_settlement_ready
settled_ends parse s a required c first started now horizon h p late = (ground arith, ground arith)

differs_iff : (a b : Option String) → (differs a b ≡ false) ↔ (a ≡ b)
differs_iff none none = ground arith
differs_iff none (some b) = ground arith
differs_iff (some a) none = ground arith
differs_iff (some a) (some b) = ground (arith, eq_iff a b)

-- The assertions of a settlement are not checked again exactly when it was settled and verified,
-- no reorg is seen and the block is recorded and the same.
pub reverify_iff :
    (i : ReverifyInput)
    → (should_reverify_expected_cells i ≡ false) ↔ (
        (i.previously_settled ≡ true)
        × (i.previously_verified ≡ true)
        × (i.reorg_detected ≡ false)
        × (truthy i.current_committed_block_hash ≡ true)
        × (i.prior_committed_block_hash ≡ i.current_committed_block_hash))
unfolding should_reverify_expected_cells
reverify_iff i =
    ground (arith, differs_iff i.prior_committed_block_hash i.current_committed_block_hash)
