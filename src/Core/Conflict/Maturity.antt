-- ===== src/Core/Conflict/Maturity.antt =====
-- A spend is confirmed only by an uninterrupted run of observations that is deep enough.
use cell_flow.Prelude.{
  ℕ, ◌+◌, ◌≤◌, ◌<◌, ◌≡◌, Bool, true, false, List, [], ◌∷◌, Option, none, some, String, arith, refl,
  Bool-cases, inl, inr, ◌&&◌,
}
use cell_flow.Json.{Json, text, bool, Fields, get, get-put, put, as_record, text_is}
use cell_flow.Core.Types.{ConfirmationPolicy}
use cell_flow.Core.Confirmation.{parse_hex_block_number}
use cell_flow.Core.Conflict.{
  ConflictInputInspection, continues, required_blocks, matured_at, tip_in,
  conflict_observation_matured, next_spent_observation_details, break_spend_observation_continuity,
}

-- The heights by which an observation matures.
pub record Depth (policy : ConfirmationPolicy) (first last current : Option ℕ) : Type 0 where
  pub from : ℕ
  pub before : ℕ
  pub now : ℕ
  pub from_first : first ≡ some from
  pub before_last : last ≡ some before
  pub now_current : current ≡ some now
  pub advanced : before < now
  pub deep : from + required_blocks policy ≤ now

matured_at-Depth :
    (policy : ConfirmationPolicy) (first last current : Option ℕ) (count : ℕ)
    → matured_at policy first last current count ≡ true
    → Depth policy first last current
unfolding matured_at
matured_at-Depth policy (some f) (some l) (some c) count h = record {
  from = f;
  before = l;
  now = c;
  from_first = refl;
  before_last = refl;
  now_current = refl;
  advanced = ground arith;
  deep = ground arith;
}
matured_at-Depth policy none l c count h = cc
matured_at-Depth policy (some f) none c count h = cc
matured_at-Depth policy (some f) (some l) none count h = cc

broken_flag :
    (fs : Fields) (at reason : String)
    → get "continuityBroken" (
        put "continuityBreakReason"
          (text reason)
          (put "continuityBrokenAt" (text at) (put "continuityBroken" (bool true) fs)))
      ≡ some (bool true)
broken_flag fs at reason = simp get-put

and-false : (b : Bool) → (b && false) ≡ false
and-false b = ground arith

matured-Depth :
    (policy : ConfirmationPolicy) (details : Json) (i : ConflictInputInspection)
    → conflict_observation_matured policy details i ≡ true
    → Depth policy
        (tip_in "firstObservedTipBlockNumber" details)
        (tip_in "lastObservedTipBlockNumber" details)
        (parse_hex_block_number i.tip_block_number)
unfolding conflict_observation_matured
matured-Depth policy details i m = elim (Bool-cases (continues details)) [
  | inl e ↦ matured_at-Depth policy _ _ _ _ (rw e at m)
  | inr e ↦ cc (rw e at m)
]

-- A broken observation counts no longer, whatever it was.
pub continues-break :
    (details : Json) (at reason : String)
    → continues (break_spend_observation_continuity details at reason) ≡ false
unfolding continues break_spend_observation_continuity
continues-break details at reason =
    elim (Bool-cases (text_is (get "classification" (as_record details)) "INPUT_SPENT_OBSERVED")) [
      | inl e ↦ rw e (rw (broken_flag (as_record details) at reason) (and-false _))
      | inr e ↦ rw e (rw e refl)
    ]

-- The details at the end of a run of observations.
unfoldable pub observe_spends : Json → List ConflictInputInspection → Json
observe_spends details [] = details
observe_spends details (i ∷ rest) = observe_spends (next_spent_observation_details details i) rest

-- A run in progress that began at the tip `first`.
record IsRun (first : String) (details : Json) : Type 0 where
  goes_on : continues details ≡ true
  begins : get "firstObservedTipBlockNumber" (as_record details) ≡ some (text first)

start-IsRun :
    (details : Json) (i : ConflictInputInspection) (first : String)
    → continues details ≡ false
    → i.tip_block_number ≡ some first
    → IsRun first (next_spent_observation_details details i)
unfolding next_spent_observation_details continues get
start-IsRun details i first h e = record { goes_on = refl; begins = rw (h, e) }

next-IsRun :
    (details : Json) (i : ConflictInputInspection) (first : String)
    → IsRun first details
    → IsRun first (next_spent_observation_details details i)
unfolding next_spent_observation_details continues get
next-IsRun details i first v = record { goes_on = refl; begins = rw (v.goes_on, v.begins) }

observe_spends-IsRun :
    (details : Json) (is : List ConflictInputInspection) (first : String)
    → IsRun first details
    → IsRun first (observe_spends details is)
unfolding observe_spends
observe_spends-IsRun details [] first v = v
observe_spends-IsRun details (i ∷ rest) first v =
    observe_spends-IsRun (next_spent_observation_details details i) rest first
      (next-IsRun details i first v)

-- Where no observation was in progress, or the one in progress was broken, a run of observations
-- matures only at a tip that stands the policy's blocks above the tip at which this run began.
pub matured_run_deep :
    (policy : ConfirmationPolicy) (details : Json) (i : ConflictInputInspection)
    (rest : List ConflictInputInspection) (current : ConflictInputInspection) (first : String)
    → continues details ≡ false
    → i.tip_block_number ≡ some first
    → conflict_observation_matured policy (observe_spends details (i ∷ rest)) current ≡ true
    → (from : ℕ) × (now : ℕ) × (parse_hex_block_number (some first) ≡ some from)
      × (parse_hex_block_number current.tip_block_number ≡ some now)
      × (from + required_blocks policy ≤ now)
unfolding observe_spends tip_in
matured_run_deep policy details i rest current first h e m =
    let run =
      observe_spends-IsRun (next_spent_observation_details details i) rest first
        (start-IsRun details i first h e) in
    let d = matured-Depth policy (observe_spends details (i ∷ rest)) current m in
    (d.from, d.now, rw (run.begins) at d.from_first, d.now_current, d.deep)
