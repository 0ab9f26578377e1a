-- ===== src/Assertions/Coverage.antt =====
-- When the checks of an assertion say something of the Cell.
use cell_flow.Prelude.{
  ◌≡◌, ◌↔◌, ◌⊎◌, Bool, true, false, ◌&&◌, ◌||◌, List, [], ◌∷◌, ◌++◌, Option, none, some, String,
  arith, inl, inr, string_eq, length, is_some, refl, ◌<◌,
}
use cell_flow.Assertions.Checks.{Passes}
use cell_flow.Assertions.{
  RpcScript, RpcCellOutput, ScriptAssertion, TypeAssertion, ExpectedCellAssertion, AssertionCheck,
  capacity_checks, data_checks, script_checks, lock_checks, type_checks, cell_checks, all_ok,
  assertion_has_checks,
}

-- Some field of a script is given.
abbrev pub some_script_field : ScriptAssertion → Bool
some_script_field e = is_some e.code_hash || is_some e.hash_type || is_some e.args

-- The assertion says something of the Cell.
abbrev pub SaysSomething : ExpectedCellAssertion → Type 0
SaysSomething a =
    (is_some a.capacity ≡ true)
    ⊎ ((e : ScriptAssertion) × (a.lock ≡ some e) × (some_script_field e ≡ true))
    ⊎ (a.type_script ≡ TypeAssertion.must_be_null)
    ⊎ ((e : ScriptAssertion) × (a.type_script ≡ TypeAssertion.script e)
        × (some_script_field e ≡ true))
    ⊎ (is_some a.expected_data ≡ true)

abbrev pub Speaks : List AssertionCheck → Type 0
Speaks cs = 0 < length cs

Speaks-append : (xs ys : List AssertionCheck) → Speaks (xs ++ ys) ↔ (Speaks xs ⊎ Speaks ys)
Speaks-append [] ys = ground arith
Speaks-append (x ∷ xs) ys = ground arith

Speaks-script :
    (is_lock : Bool) (e : ScriptAssertion) (actual : Option RpcScript)
    → Speaks (script_checks is_lock e actual) ↔ (some_script_field e ≡ true)
unfolding script_checks
Speaks-script is_lock e actual = ground arith

Speaks-lock :
    (l : Option ScriptAssertion) (o : RpcCellOutput)
    → Speaks (lock_checks l o)
      ↔ ((e : ScriptAssertion) × (l ≡ some e) × (some_script_field e ≡ true))
unfolding lock_checks
Speaks-lock none o = (λ p. elim p [ ], λ (e, h, k). cc)
Speaks-lock (some e) o = (
  λ p. (e, refl, (Speaks-script true e (some o.lock)).0 p),
  λ (f, h, k). (Speaks-script true e (some o.lock)).1 (ground arith),
)

Speaks-type :
    (t : TypeAssertion) (o : RpcCellOutput)
    → Speaks (type_checks t o) ↔ (
        (t ≡ TypeAssertion.must_be_null)
        ⊎ ((e : ScriptAssertion) × (t ≡ TypeAssertion.script e) × (some_script_field e ≡ true)))
unfolding type_checks
Speaks-type TypeAssertion.absent o =
    (λ p. elim p [ ], λ q. elim q [ inl e ↦ cc | inr (e, h, k) ↦ cc ])
Speaks-type TypeAssertion.must_be_null o = (λ p. inl refl, λ p. omega arith)
Speaks-type (TypeAssertion.script e) o = (
  λ p. inr (e, refl, (Speaks-script false e o.type_script).0 p),
  λ q. elim q [
    | inl h ↦ cc
    | inr (f, h, k) ↦ (Speaks-script false e o.type_script).1 (ground arith)
  ],
)

Speaks-capacity :
    (e : Option String) (o : RpcCellOutput) → Speaks (capacity_checks e o) ↔ (is_some e ≡ true)
unfolding capacity_checks
Speaks-capacity none o = ground arith
Speaks-capacity (some c) o = ground arith

Speaks-data : (e cell_data : Option String) → Speaks (data_checks e cell_data) ↔ (is_some e ≡ true)
unfolding data_checks
Speaks-data none cell_data = ground arith
Speaks-data (some d) cell_data = ground arith

pub Speaks-cell :
    (o : RpcCellOutput) (cell_data : Option String) (a : ExpectedCellAssertion)
    → Speaks (cell_checks o cell_data a) ↔ SaysSomething a
unfolding cell_checks
Speaks-cell o cell_data a = ground (
  arith,
  Speaks-append (capacity_checks a.capacity o) (
      lock_checks a.lock o
      ++ (type_checks a.type_script o ++ data_checks a.expected_data cell_data)),
  Speaks-append (lock_checks a.lock o)
      (type_checks a.type_script o ++ data_checks a.expected_data cell_data),
  Speaks-append (type_checks a.type_script o) (data_checks a.expected_data cell_data),
  Speaks-capacity a.capacity o,
  Speaks-lock a.lock o,
  Speaks-type a.type_script o,
  Speaks-data a.expected_data cell_data,
)

pub SaysSomething-has_checks :
    (a : ExpectedCellAssertion) → SaysSomething a → assertion_has_checks a ≡ true
unfolding assertion_has_checks
SaysSomething-has_checks a h = ground arith

pub and_right : (b c : Bool) → (b && c) ≡ true → c ≡ true
and_right b c h = ground arith

pub all_ok_iff : (cs : List AssertionCheck) → (all_ok cs ≡ true) ↔ (Speaks cs × Passes cs)
unfolding all_ok
all_ok_iff cs = ground arith
