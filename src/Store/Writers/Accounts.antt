-- ===== src/Store/Writers/Accounts.antt =====
-- The settlement of an intent is accounted for: rules for the writes that keep it so.
use cell_flow.Prelude.{
  ◌≡◌, true, false, Bool, none, sym, ap, ◌∙◌, is_some, length, string_eq, option_eq,
}
use cell_flow.Core.Settlement.{truthy, is_settlement_ready}
use cell_flow.Store.Rows.{snapshot_from_execution}
use cell_flow.Store.Apply.{Rows}
use cell_flow.Store.Apply.Announcements.{announced, IsAnnounced}

-- The settlement is announced, and only a transaction with a hash is settled.
pub record IsAccounted (rows : Rows) : Type 0 where
  pub announced : IsAnnounced rows
  pub hashed :
      is_some rows.execution.settlement_ready_at ≡ true → truthy rows.execution.tx_hash ≡ true

-- Whether the execution is ready for settlement by its own columns.
abbrev pub ready_of : Rows → Bool
ready_of rows =
    is_settlement_ready (snapshot_from_execution rows.execution) rows.execution.assertion_status
      (length rows.intent.expected_cells) rows.execution.conflict_type

-- A write that leaves the settlement, its readiness, its announcement and the hash.
pub kept-IsAccounted :
    (before after : Rows)
    → IsAccounted before
    → announced after.ledger.events ≡ announced before.ledger.events
    → after.execution.settlement_ready_at ≡ before.execution.settlement_ready_at
    → (is_some before.execution.settlement_ready_at ≡ true → ready_of after ≡ ready_of before)
    → truthy after.execution.tx_hash ≡ truthy before.execution.tx_hash
    → IsAccounted after
kept-IsAccounted before after v told marked ready hash = record {
  announced = record {
    told = told ∙ v.announced.told ∙ sym (ap is_some marked);
    earned = λ q. let y = sym (ap is_some marked) ∙ q in ready y ∙ v.announced.earned y;
  };
  hashed = λ q. hash ∙ v.hashed (sym (ap is_some marked) ∙ q);
}

-- A write after which the announcement, the settlement and the readiness are one value.
pub settled-IsAccounted :
    (after : Rows) (r : Bool)
    → announced after.ledger.events ≡ r
    → is_some after.execution.settlement_ready_at ≡ r
    → ready_of after ≡ r
    → (r ≡ true → truthy after.execution.tx_hash ≡ true)
    → IsAccounted after
settled-IsAccounted after r told marked ready hash = record {
  announced = record { told = told ∙ sym marked; earned = λ q. ready ∙ sym marked ∙ q };
  hashed = λ q. hash (sym marked ∙ q);
}

-- A write that takes the settlement of an unsettled execution away.
pub cleared-IsAccounted :
    (after : Rows)
    → announced after.ledger.events ≡ false
    → after.execution.settlement_ready_at ≡ none
    → IsAccounted after
cleared-IsAccounted after told marked = record {
  announced = record {
    told = told ∙ sym (ap is_some marked);
    earned = λ q. cc (ap is_some marked);
  };
  hashed = λ q. cc (ap is_some marked);
}
