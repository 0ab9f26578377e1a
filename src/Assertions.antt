-- ===== src/Assertions.antt =====
-- packages/assertions/src/index.ts: what an application expects of an output Cell, checked
-- against the transaction or against the live Cell that the RPC returned.
pub mod Checks
pub mod Coverage
pub mod Matching
use cell_flow.Prelude.{
  ℕ, ◌<◌, Bool, true, false, not, ◌&&◌, ◌||◌, List, [], ◌∷◌, ◌++◌, map, Option, none, some, String,
  if◌then◌else◌, ◌==◌, string_eq, nat_beq, ltb, length, get_elem?, every, is_some, is_none,
}
use cell_flow.Prelude.Digits.{codes}
use cell_flow.Prelude.Letters.{lower_text}
use cell_flow.Json.{Json, Fields, null, bool, num, text, obj, end, field, nullable_text}
use cell_flow.Core.Confirmation.{parse_hex_codes}

pub record RpcScript : Type 0 where
  pub code_hash : String
  pub hash_type : String
  pub args : String

pub record RpcCellOutput : Type 0 where
  pub capacity : String
  pub lock : RpcScript
  pub type_script : Option RpcScript

pub record RpcTransaction : Type 0 where
  pub outputs : List RpcCellOutput
  pub outputs_data : List String

-- `{ content?: string } | string`.
pub data LiveData : Type 0 where
  plain : String → LiveData
  wrapped : Option String → LiveData

pub record LiveCellContent : Type 0 where
  pub output : RpcCellOutput
  pub cell_data : Option LiveData

pub record RpcLiveCell : Type 0 where
  pub status : String
  pub block_hash : Option String
  pub cell : Option LiveCellContent

pub record ScriptAssertion : Type 0 where
  pub code_hash : Option String
  pub hash_type : Option String
  pub args : Option String

-- `type?: ScriptAssertion | null`.
pub data TypeAssertion : Type 0 where
  absent must_be_null : TypeAssertion
  script : ScriptAssertion → TypeAssertion

pub data Mode : Type 0 where
  created live : Mode

pub record ExpectedCellAssertion : Type 0 where
  pub output_index : ℕ
  pub mode : Option Mode
  pub capacity : Option String
  pub lock : Option ScriptAssertion
  pub type_script : TypeAssertion
  pub expected_data : Option String

pub record AssertionCheck : Type 0 where
  pub name : String
  pub expected : Json
  pub actual : Json
  pub ok : Bool

pub record AssertionResult : Type 0 where
  pub ok : Bool
  pub output_index : ℕ
  pub mode : Mode
  pub checks : List AssertionCheck
  pub evidence : Option Fields

abbrev check : String → Json → Json → Bool → AssertionCheck
check name expected actual ok = record {
  name = name;
  expected = expected;
  actual = actual;
  ok = ok;
}

-- `hexEq`: the callers give a text on the left, so a missing right side is never equal to it.
unfoldable pub hex_eq : String → Option String → Bool
hex_eq a none = false
hex_eq a (some b) = lower_text a == lower_text b

numbers_eq : Option ℕ → Option ℕ → Bool → Bool
numbers_eq (some left) (some right) otherwise = nat_beq left right
numbers_eq _ _ otherwise = otherwise

unfoldable pub integer_hex_eq : String → String → Bool
unfolding numbers_eq
integer_hex_eq a b =
    numbers_eq (parse_hex_codes (codes a)) (parse_hex_codes (codes b)) (hex_eq a (some b))

-- `actual?.field`.
abbrev pub of_script : (RpcScript → String) → Option RpcScript → Option String
of_script f none = none
of_script f (some s) = some (f s)

-- A check for a field that the assertion gives, and none for one that it leaves out.
abbrev optional_check : Option String → (String → AssertionCheck) → List AssertionCheck
optional_check none f = []
optional_check (some e) f = f e ∷ []

abbrev equals : String → Option String → Bool
equals a none = false
equals a (some b) = a == b

code_hash_checks : Bool → Option String → Option RpcScript → List AssertionCheck
code_hash_checks is_lock e actual = optional_check e (λ h.
    check (if is_lock then "lock.codeHash" else "type.codeHash") (text h)
      (nullable_text (of_script (λ s. s.code_hash) actual))
      (hex_eq h (of_script (λ s. s.code_hash) actual)))

hash_type_checks : Bool → Option String → Option RpcScript → List AssertionCheck
hash_type_checks is_lock e actual = optional_check e (λ h.
    check (if is_lock then "lock.hashType" else "type.hashType") (text h)
      (nullable_text (of_script (λ s. s.hash_type) actual))
      (equals h (of_script (λ s. s.hash_type) actual)))

args_checks : Bool → Option String → Option RpcScript → List AssertionCheck
args_checks is_lock e actual = optional_check e (λ h.
    check (if is_lock then "lock.args" else "type.args") (text h)
      (nullable_text (of_script (λ s. s.args) actual)) (hex_eq h (of_script (λ s. s.args) actual)))

script_checks : Bool → ScriptAssertion → Option RpcScript → List AssertionCheck
unfolding code_hash_checks hash_type_checks args_checks
script_checks is_lock e actual =
    code_hash_checks is_lock e.code_hash actual
    ++ (hash_type_checks is_lock e.hash_type actual ++ args_checks is_lock e.args actual)

abbrev type_given : TypeAssertion → Bool
type_given TypeAssertion.absent = false
type_given _ = true

unfoldable pub assertion_has_checks : ExpectedCellAssertion → Bool
assertion_has_checks a =
    is_some a.capacity || is_some a.lock || type_given a.type_script || is_some a.expected_data

script_json : Option RpcScript → Json
script_json none = null
script_json (some s) = obj (
    field "code_hash" (text s.code_hash)
      (field "hash_type" (text s.hash_type) (field "args" (text s.args) end)))

lock_checks : Option ScriptAssertion → RpcCellOutput → List AssertionCheck
unfolding script_checks
lock_checks none o = []
lock_checks (some e) o = script_checks true e (some o.lock)

type_checks : TypeAssertion → RpcCellOutput → List AssertionCheck
unfolding script_checks script_json
type_checks TypeAssertion.absent o = []
type_checks TypeAssertion.must_be_null o =
    check "type" null (script_json o.type_script) (is_none o.type_script) ∷ []
type_checks (TypeAssertion.script e) o = script_checks false e o.type_script

capacity_checks : Option String → RpcCellOutput → List AssertionCheck
capacity_checks e o =
    optional_check e
      (λ c. check "capacity" (text c) (text o.capacity) (integer_hex_eq c o.capacity))

data_checks : Option String → Option String → List AssertionCheck
data_checks e cell_data =
    optional_check e (λ d. check "data" (text d) (nullable_text cell_data) (hex_eq d cell_data))

-- The checks in the order of the source.
pub cell_checks : RpcCellOutput → Option String → ExpectedCellAssertion → List AssertionCheck
unfolding capacity_checks lock_checks type_checks data_checks
cell_checks o cell_data a =
    capacity_checks a.capacity o
    ++ (lock_checks a.lock o
        ++ (type_checks a.type_script o ++ data_checks a.expected_data cell_data))

abbrev failed_result : ExpectedCellAssertion → Mode → AssertionCheck → AssertionResult
failed_result a mode c = record {
  ok = false;
  output_index = a.output_index;
  mode = mode;
  checks = c ∷ [];
  evidence = none;
}

pub all_ok : List AssertionCheck → Bool
all_ok cs = ltb 0 (length cs) && every (λ c. c.ok) cs

unfoldable pub verify_cell_output :
    Option RpcCellOutput → Option String → ExpectedCellAssertion → Mode → AssertionResult
unfolding cell_checks all_ok
verify_cell_output none cell_data a mode =
    failed_result a mode (check "outputIndex" (num a.output_index) null false)
verify_cell_output (some o) cell_data a mode =
    if not (assertion_has_checks a)
    then failed_result a mode
        (check "assertion" (text "at least one Cell field check") (text "empty") false)
    else record {
      ok = all_ok (cell_checks o cell_data a);
      output_index = a.output_index;
      mode = mode;
      checks = cell_checks o cell_data a;
      evidence = none;
    }

unfoldable pub verify_expected_cell : RpcTransaction → ExpectedCellAssertion → AssertionResult
verify_expected_cell t a =
    verify_cell_output (get_elem? t.outputs a.output_index)
      (get_elem? t.outputs_data a.output_index) a Mode.created

unfoldable pub verify_expected_cells :
    RpcTransaction → List ExpectedCellAssertion → List AssertionResult
verify_expected_cells t = map (verify_expected_cell t)

pub data_value : Option LiveData → Option String
data_value none = none
data_value (some (LiveData.plain s)) = some s
data_value (some (LiveData.wrapped c)) = c

-- `liveCell && liveCell.status === "live" && liveCell.cell`.
live_content : Option RpcLiveCell → Option LiveCellContent
live_content none = none
live_content (some l) = if l.status == "live" then l.cell else none

live_status : Option RpcLiveCell → Option String
live_status none = none
live_status (some l) = some l.status

live_block : Option RpcLiveCell → Option String
live_block none = none
live_block (some l) = l.block_hash

live_result : Option LiveCellContent → Option RpcLiveCell → ExpectedCellAssertion → AssertionResult
unfolding live_status live_block data_value
live_result none l a =
    failed_result a Mode.live (check "live" (bool true) (nullable_text (live_status l)) false)
live_result (some c) l a =
    let result = verify_cell_output (some c.output) (data_value c.cell_data) a Mode.live in
    record result { evidence = some (field "liveBlockHash" (nullable_text (live_block l)) end) }

unfoldable pub verify_live_cell : Option RpcLiveCell → ExpectedCellAssertion → AssertionResult
unfolding live_content live_result
verify_live_cell l a = live_result (live_content l) l a
