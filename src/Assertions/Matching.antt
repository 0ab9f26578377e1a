-- ===== src/Assertions/Matching.antt =====
-- What a passed assertion says of the Cell.
use cell_flow.Prelude.{
  ◌≡◌, ◌↔◌, true, ◌&&◌, Option, none, some, String, arith, eq_iff, inl, inr, string_eq, refl, sym,
  subst, some-injective, Bool-cases, get_elem?,
}
use cell_flow.Assertions.{
  RpcCellOutput, RpcTransaction, RpcLiveCell, LiveCellContent, Mode, ExpectedCellAssertion,
  cell_checks, all_ok, assertion_has_checks, verify_cell_output, verify_expected_cell,
  verify_live_cell, live_content, live_result, data_value,
}
use cell_flow.Assertions.Checks.{CellMatches, Passes, Passes-cell}
use cell_flow.Assertions.Coverage.{
  SaysSomething, Speaks, Speaks-cell, SaysSomething-has_checks, all_ok_iff, and_right,
}

verify_output-ok :
    (o : RpcCellOutput) (cell_data : Option String) (a : ExpectedCellAssertion) (mode : Mode)
    → (verify_cell_output (some o) cell_data a mode).ok
      ≡ (assertion_has_checks a && all_ok (cell_checks o cell_data a))
unfolding verify_cell_output
verify_output-ok o cell_data a mode = elim (Bool-cases (assertion_has_checks a)) [
  | inl e ↦ rw e
  | inr e ↦ rw e
]

verify_output_iff :
    (o : RpcCellOutput) (cell_data : Option String) (a : ExpectedCellAssertion) (mode : Mode)
    → ((verify_cell_output (some o) cell_data a mode).ok ≡ true)
      ↔ (SaysSomething a × CellMatches o cell_data a)
verify_output_iff o cell_data a mode = (forward, backward)
  where
    says : Speaks (cell_checks o cell_data a) ↔ SaysSomething a
    says = Speaks-cell o cell_data a

    passes : Passes (cell_checks o cell_data a) ↔ CellMatches o cell_data a
    passes = Passes-cell o cell_data a

    forward :
        (verify_cell_output (some o) cell_data a mode).ok ≡ true
        → SaysSomething a × CellMatches o cell_data a
    forward p =
        let both = rw (verify_output-ok o cell_data a mode) at p in
        let found =
          (all_ok_iff (cell_checks o cell_data a)).0 (and_right (assertion_has_checks a) _ both) in
        (says.0 found.0, passes.0 found.1)

    backward :
        SaysSomething a × CellMatches o cell_data a
        → (verify_cell_output (some o) cell_data a mode).ok ≡ true
    backward (h, m) = rw (
      verify_output-ok o cell_data a mode,
      SaysSomething-has_checks a h,
      (all_ok_iff (cell_checks o cell_data a)).1 (says.1 h, passes.1 m),
    )

-- An output passes exactly when the assertion says something of it and the Cell has every field
-- that the assertion gives; an output that is missing never passes.
pub verify_cell_output_iff :
    (o : Option RpcCellOutput) (cell_data : Option String) (a : ExpectedCellAssertion) (mode : Mode)
    → ((verify_cell_output o cell_data a mode).ok ≡ true)
      ↔ ((c : RpcCellOutput) × (o ≡ some c) × SaysSomething a × CellMatches c cell_data a)
unfolding verify_cell_output
verify_cell_output_iff none cell_data a mode = (λ p. cc, λ (c, e, h, m). cc)
verify_cell_output_iff (some o) cell_data a mode =
    let (f, g) = verify_output_iff o cell_data a mode in
    (
      λ p. (o, refl, (f p).0, (f p).1),
      λ (c, e, h, m). g (h, subst (λ x. CellMatches x cell_data a) (sym (some-injective _ _ e)) m),
    )

live_content_iff :
    (l : Option RpcLiveCell) (content : LiveCellContent)
    → (live_content l ≡ some content) ↔ (
        (cell : RpcLiveCell) × (l ≡ some cell)
        × (cell.status ≡ "live")
        × (cell.cell ≡ some content))
unfolding live_content
live_content_iff none content = (λ p. cc, λ (cell, e, h, k). cc)
live_content_iff (some cell) content = (
  λ p. (
    cell,
    refl,
    ground (arith, eq_iff cell.status "live"),
    ground (arith, eq_iff cell.status "live"),
  ),
  λ (c, e, h, k). ground (arith, eq_iff cell.status "live"),
)

live_result_iff :
    (content : Option LiveCellContent) (l : Option RpcLiveCell) (a : ExpectedCellAssertion)
    → ((live_result content l a).ok ≡ true) ↔ (
        (c : LiveCellContent) × (content ≡ some c)
        × SaysSomething a
        × CellMatches c.output (data_value c.cell_data) a)
unfolding live_result
live_result_iff none l a = (λ p. cc, λ (c, e, h, m). cc)
live_result_iff (some c) l a =
    let (f, g) = verify_output_iff c.output (data_value c.cell_data) a Mode.live in
    (
      λ p. (c, refl, (f p).0, (f p).1),
      λ (d, e, h, m). g (
        h,
        subst (λ x. CellMatches x.output (data_value x.cell_data) a) (sym (some-injective _ _ e)) m,
      ),
    )

live_iff :
    (l : Option RpcLiveCell) (a : ExpectedCellAssertion)
    → ((verify_live_cell l a).ok ≡ true) ↔ (
        (cell : RpcLiveCell) × (content : LiveCellContent) × (l ≡ some cell)
        × (cell.status ≡ "live")
        × (cell.cell ≡ some content)
        × SaysSomething a
        × CellMatches content.output (data_value content.cell_data) a)
unfolding verify_live_cell
live_iff l a =
    let (f, g) = live_result_iff (live_content l) l a in
    (
      λ p.
          let (c, e, h, m) = f p in
          let (cell, q, r, s) = (live_content_iff l c).0 e in (cell, c, q, r, s, h, m),
      λ (cell, c, q, r, s, h, m). g (c, (live_content_iff l c).1 (cell, q, r, s), h, m),
    )

-- Against a transaction the output at the asserted index decides, with the data at that index.
-- Against the live Cell the RPC must call it live, and its content decides.
pub verify_at_source :
    (t : RpcTransaction) (l : Option RpcLiveCell) (a : ExpectedCellAssertion)
    → (((verify_expected_cell t a).ok ≡ true) ↔ (
        (c : RpcCellOutput) × (get_elem? t.outputs a.output_index ≡ some c)
        × SaysSomething a
        × CellMatches c (get_elem? t.outputs_data a.output_index) a))
      × (((verify_live_cell l a).ok ≡ true) ↔ (
          (cell : RpcLiveCell) × (content : LiveCellContent) × (l ≡ some cell)
          × (cell.status ≡ "live")
          × (cell.cell ≡ some content)
          × SaysSomething a
          × CellMatches content.output (data_value content.cell_data) a))
unfolding verify_expected_cell verify_live_cell
verify_at_source t l a = (
  verify_cell_output_iff (get_elem? t.outputs a.output_index)
      (get_elem? t.outputs_data a.output_index) a Mode.created,
  live_iff l a,
)
