-- ===== src/Reconcile/Schedule.antt =====
-- workflows/reconcile/src/reconcile.ts: `nextReconcileDelayMs` and `isTerminal`, and monitoring.ts.
-- A time text and its milliseconds, as `Date.parse` reads it, are the argument `parse`.
pub mod Bounds
use cell_flow.Prelude.{
  ℕ, ◌+◌, ◌*◌, ◌^◌, min, Bool, true, false, not, ◌&&◌, ◌||◌, Option, none, some, String,
  if◌then◌else◌, ◌==◌, string_eq, ltb, leb, nat_beq,
}
use cell_flow.Core.Status.{ChainStatus, WorkflowStatus, workflow_eq, chain_eq}
use cell_flow.Core.Types.{ExecutionSnapshot}
use cell_flow.Core.Settlement.{truthy, status_is}
use cell_flow.Core.Observation.{differs}

unfoldable pub next_reconcile_delay_ms : ℕ → ChainStatus → ℕ
next_reconcile_delay_ms attempt ChainStatus.pending = 12000
next_reconcile_delay_ms attempt ChainStatus.proposed = 12000
next_reconcile_delay_ms attempt ChainStatus.committed = 12000
next_reconcile_delay_ms attempt ChainStatus.unknown = min 300000 (10000 * 2 ^ min attempt 5)
next_reconcile_delay_ms attempt ChainStatus.unobserved = min 300000 (10000 * 2 ^ min attempt 5)
next_reconcile_delay_ms attempt ChainStatus.rejected = 20000

unfoldable pub is_terminal : ExecutionSnapshot → Option String → ℕ → Bool
is_terminal s assertion_status expected_count =
    if s.workflow_status == WorkflowStatus.conflicted
      || s.workflow_status == WorkflowStatus.expired
      || s.chain_status == ChainStatus.rejected
    then true
    else if not (s.workflow_status == WorkflowStatus.confirmed)
    then false
    else nat_beq expected_count 0 || status_is assertion_status "VERIFIED"

before_horizon : Option ℕ → ℕ → ℕ → Bool
before_horizon none now horizon = false
before_horizon (some started) now horizon = ltb now (started + horizon)

monitors : (String → Option ℕ) → Option String → ℕ → ℕ → Bool
unfolding before_horizon
monitors parse none now horizon = false
monitors parse (some first) now horizon =
    if first == "" then false else before_horizon (parse first) now horizon

unfoldable pub should_continue_settlement_monitoring :
    (String → Option ℕ) → Bool → Option String → ℕ → ℕ → Bool
unfolding monitors
should_continue_settlement_monitoring parse ready first_ready_at now horizon =
    if not ready || leb horizon 0 then false else monitors parse first_ready_at now horizon

pub record ReverifyInput : Type 0 where
  pub previously_settled : Bool
  pub previously_verified : Bool
  pub prior_committed_block_hash : Option String
  pub current_committed_block_hash : Option String
  pub reorg_detected : Bool

unfoldable pub should_reverify_expected_cells : ReverifyInput → Bool
should_reverify_expected_cells i =
    not i.previously_settled
    || not i.previously_verified
    || i.reorg_detected
    || not (truthy i.prior_committed_block_hash)
    || not (truthy i.current_committed_block_hash)
    || differs i.prior_committed_block_hash i.current_committed_block_hash
