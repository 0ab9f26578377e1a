-- ===== src/Assertions/Checks.antt =====
-- What each list of checks says of the Cell.
use cell_flow.Prelude.{
  ◌≡◌, ◌↔◌, Bool, true, false, List, ◌++◌, Option, none, some, String, arith, eq_iff, string_eq,
  every, every-append, refl,
}
use cell_flow.Assertions.{
  RpcScript, RpcCellOutput, ScriptAssertion, TypeAssertion, ExpectedCellAssertion, AssertionCheck,
  hex_eq, integer_hex_eq, of_script, equals, code_hash_checks, hash_type_checks, args_checks,
  capacity_checks, data_checks, script_checks, lock_checks, type_checks, cell_checks,
}

-- A field that the assertion gives has the property.
abbrev pub Given {ℓ} : {A : Type ℓ} → Option A → (A → Type 0) → Type 0
Given none P = Unit
Given (some a) P = P a

abbrev pub ScriptMatches : ScriptAssertion → Option RpcScript → Type 0
ScriptMatches e actual =
    Given e.code_hash (λ h. hex_eq h (of_script (λ s. s.code_hash) actual) ≡ true)
    × Given e.hash_type (λ h. of_script (λ s. s.hash_type) actual ≡ some h)
    × Given e.args (λ h. hex_eq h (of_script (λ s. s.args) actual) ≡ true)

abbrev pub TypeMatches : TypeAssertion → Option RpcScript → Type 0
TypeMatches TypeAssertion.absent actual = Unit
TypeMatches TypeAssertion.must_be_null actual = actual ≡ none
TypeMatches (TypeAssertion.script e) actual = ScriptMatches e actual

-- The Cell has every field that the assertion gives: the capacity as an integer, hashes,
-- arguments and data as hexadecimal texts, the hash type as a text.
pub record CellMatches (o : RpcCellOutput) (cell_data : Option String) (a : ExpectedCellAssertion)
    : Type 0 where
  pub capacity_matches : Given a.capacity (λ c. integer_hex_eq c o.capacity ≡ true)
  pub lock_matches : Given a.lock (λ e. ScriptMatches e (some o.lock))
  pub type_matches : TypeMatches a.type_script o.type_script
  pub data_matches : Given a.expected_data (λ d. hex_eq d cell_data ≡ true)

abbrev pub Passes : List AssertionCheck → Type 0
Passes cs = every (λ c. c.ok) cs ≡ true

Passes-append :
    (xs ys : List AssertionCheck) (P Q : Type 0)
    → Passes xs ↔ P
    → Passes ys ↔ Q
    → Passes (xs ++ ys) ↔ (P × Q)
Passes-append xs ys P Q (f, f') (g, g') = (forward, backward)
  where
    forward : Passes (xs ++ ys) → P × Q
    forward h =
        let both = rw (every-append (λ c. c.ok) xs ys) at h in
        (f (ground (arith, both)), g (ground (arith, both)))

    backward : P × Q → Passes (xs ++ ys)
    backward (p, q) = rw (every-append (λ c. c.ok) xs ys, f' p, g' q)

equals_iff : (a : String) (b : Option String) → (equals a b ≡ true) ↔ (b ≡ some a)
equals_iff a none = ground arith
equals_iff a (some b) = ground (arith, eq_iff a b)

Passes-code_hash :
    (is_lock : Bool) (e : Option String) (actual : Option RpcScript)
    → Passes (code_hash_checks is_lock e actual)
      ↔ Given e (λ h. hex_eq h (of_script (λ s. s.code_hash) actual) ≡ true)
unfolding code_hash_checks
Passes-code_hash is_lock none actual = ground arith
Passes-code_hash is_lock (some h) actual = ground arith

Passes-hash_type :
    (is_lock : Bool) (e : Option String) (actual : Option RpcScript)
    → Passes (hash_type_checks is_lock e actual)
      ↔ Given e (λ h. of_script (λ s. s.hash_type) actual ≡ some h)
unfolding hash_type_checks
Passes-hash_type is_lock none actual = ground arith
Passes-hash_type is_lock (some h) actual =
    ground (arith, equals_iff h (of_script (λ s. s.hash_type) actual))

Passes-args :
    (is_lock : Bool) (e : Option String) (actual : Option RpcScript)
    → Passes (args_checks is_lock e actual)
      ↔ Given e (λ h. hex_eq h (of_script (λ s. s.args) actual) ≡ true)
unfolding args_checks
Passes-args is_lock none actual = ground arith
Passes-args is_lock (some h) actual = ground arith

Passes-script :
    (is_lock : Bool) (e : ScriptAssertion) (actual : Option RpcScript)
    → Passes (script_checks is_lock e actual) ↔ ScriptMatches e actual
unfolding script_checks
Passes-script is_lock e actual =
    let (f, g) =
      Passes-append (code_hash_checks is_lock e.code_hash actual) _ _ _
        (Passes-code_hash is_lock e.code_hash actual)
        (Passes-append (hash_type_checks is_lock e.hash_type actual)
          (args_checks is_lock e.args actual) _ _ (Passes-hash_type is_lock e.hash_type actual)
          (Passes-args is_lock e.args actual)) in
    (λ p. ((f p).0, (f p).1.0, (f p).1.1), λ m. g (m.0, (m.1, m.2)))

Passes-lock :
    (l : Option ScriptAssertion) (o : RpcCellOutput)
    → Passes (lock_checks l o) ↔ Given l (λ e. ScriptMatches e (some o.lock))
unfolding lock_checks
Passes-lock none o = (λ p. tt, λ g. refl)
Passes-lock (some e) o = Passes-script true e (some o.lock)

Passes-type :
    (t : TypeAssertion) (o : RpcCellOutput) → Passes (type_checks t o) ↔ TypeMatches t o.type_script
unfolding type_checks
Passes-type TypeAssertion.absent o = (λ p. tt, λ g. refl)
Passes-type TypeAssertion.must_be_null o = ground arith
Passes-type (TypeAssertion.script e) o = Passes-script false e o.type_script

Passes-capacity :
    (e : Option String) (o : RpcCellOutput)
    → Passes (capacity_checks e o) ↔ Given e (λ c. integer_hex_eq c o.capacity ≡ true)
unfolding capacity_checks
Passes-capacity none o = ground arith
Passes-capacity (some c) o = ground arith

Passes-data :
    (e cell_data : Option String)
    → Passes (data_checks e cell_data) ↔ Given e (λ d. hex_eq d cell_data ≡ true)
unfolding data_checks
Passes-data none cell_data = ground arith
Passes-data (some d) cell_data = ground arith

pub Passes-cell :
    (o : RpcCellOutput) (cell_data : Option String) (a : ExpectedCellAssertion)
    → Passes (cell_checks o cell_data a) ↔ CellMatches o cell_data a
unfolding cell_checks
Passes-cell o cell_data a =
    let (f, g) = Passes-append (capacity_checks a.capacity o) _ _ _ (Passes-capacity a.capacity o) (
      Passes-append (lock_checks a.lock o) _ _ _ (Passes-lock a.lock o) (
        Passes-append (type_checks a.type_script o) (data_checks a.expected_data cell_data) _ _
          (Passes-type a.type_script o) (Passes-data a.expected_data cell_data))) in
    (
      λ p. record {
        capacity_matches = (f p).0;
        lock_matches = (f p).1.0;
        type_matches = (f p).1.1.0;
        data_matches = (f p).1.1.1;
      },
      λ m. g (m.capacity_matches, (m.lock_matches, (m.type_matches, m.data_matches))),
    )
