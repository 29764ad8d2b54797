-- ===== src/Models/Gates.antt =====
-- models.py: evaluate_test_handoff, which turns untrusted tester output into a decision.
pub mod Green
pub mod Decisions
pub mod Examples
use Prim.Native.String.{◌++◌}
use python_ai_agent_flow.Prelude.{
  String, Option, none, some, Bool, true, false, not, ◌&&◌, ◌||◌, List, [], ◌∷◌, map, select,
  is_nonempty, is_some, if◌then◌else◌, ◌==◌, mem, has_repeats, Error, Result, ok, err, value_error,
  attribute_error, ◌>>=◌,
}
use mathlib.Core.List
use python_ai_agent_flow.Models.Enums.{
  GateKind, GateResult, TestOutcome, GateDecision, ItemState, gate_kind_eq, gate_result_eq,
  gate_value,
}
use python_ai_agent_flow.Models.Evidence.{Blocker}
use python_ai_agent_flow.Models.Handoffs.{GateProof, TestHandoff, is_failed}

pub record GateEvaluation : Type 0 where
  pub decision : GateDecision
  pub next_state : Option ItemState
  pub missing_gates : List GateKind
  pub failed_gates : List GateKind
  pub inapplicable_required_gates : List GateKind
  pub reasons : List String

-- GateEvaluation.can_advance
unfoldable pub can_advance : GateEvaluation → Bool
can_advance e = is_some e.next_state

-- `proof_by_gate.get(gate)`, where the dict comprehension keeps the last proof of a gate.
unfoldable pub proof_by_gate : List GateProof → GateKind → Option GateProof
proof_by_gate [] g = none
proof_by_gate (p ∷ ps) g = elim (proof_by_gate ps g) [
  | some q ↦ some q
  | none ↦ if p.gate == g then some p else none
]

abbrev has_result : GateResult → Option GateProof → Bool
has_result r none = false
has_result r (some p) = p.result == r

-- `missing`
unfoldable pub missing_gates : List GateKind → List GateProof → List GateKind
missing_gates required proofs = select (λ g. not (is_some (proof_by_gate proofs g))) required

-- `inapplicable` and `failed_required` of the passing branch
unfoldable pub gates_with : GateResult → List GateKind → List GateProof → List GateKind
gates_with r required proofs = select (λ g. has_result r (proof_by_gate proofs g)) required

-- `failed`
unfoldable pub failed_gates : List GateProof → List GateKind
failed_gates proofs = map (λ p. p.gate) (select is_failed proofs)

-- `failed_required` of the red branch
unfoldable pub failed_required_gates : List GateKind → List GateProof → List GateKind
unfolding failed_gates
failed_required_gates required proofs = select (λ g. mem g (failed_gates proofs)) required

-- `", ".join(g.value for g in gates)`
unfoldable pub join_values : List GateKind → String
join_values [] = ""
join_values (g ∷ []) = gate_value g
join_values (g ∷ gs) = gate_value g ++ (", " ++ join_values gs)

abbrev rejected : List GateKind → List GateKind → List GateKind → List String → GateEvaluation
rejected missing failed inapplicable reasons = record {
  decision = GateDecision.rejected;
  next_state = none;
  missing_gates = missing;
  failed_gates = failed;
  inapplicable_required_gates = inapplicable;
  reasons = reasons;
}

abbrev reason_if : List GateKind → String → List String
reason_if [] prefix = []
reason_if (g ∷ gs) prefix = (prefix ++ join_values (g ∷ gs)) ∷ []

-- The blocked branch: `handoff.blocker.summary` fails where there is no blocker.
unfoldable pub evaluate_blocked : TestHandoff → Result GateEvaluation
evaluate_blocked h = elim h.blocker [
  | none ↦ err attribute_error
  | some b ↦ ok (record {
    decision = GateDecision.blocked;
    next_state = some ItemState.blocked;
    missing_gates = [];
    failed_gates = [];
    inapplicable_required_gates = [];
    reasons = b.summary ∷ [];
  })
]

-- The red branch: a `None` in `reasons` is refused by pydantic.
unfoldable pub evaluate_red : List GateKind → TestHandoff → Result GateEvaluation
evaluate_red required h =
    let failed_required = failed_required_gates required h.gate_proofs in
    if not (is_nonempty failed_required)
    then ok (
        rejected [] (failed_gates h.gate_proofs) []
          ("a red result must fail at least one item-required gate" ∷ []))
    else elim h.failure_summary [
      | none ↦ err value_error
      | some summary ↦ ok (record {
        decision = GateDecision.return_to_fix;
        next_state = some ItemState.ready_for_fix;
        missing_gates = [];
        failed_gates = failed_required;
        inapplicable_required_gates = [];
        reasons = summary ∷ [];
      })
    ]

-- The passing branch.
unfoldable pub evaluate_pass : List GateKind → TestHandoff → Result GateEvaluation
evaluate_pass required h =
    let missing = missing_gates required h.gate_proofs in
    let inapplicable = gates_with GateResult.not_applicable required h.gate_proofs in
    let failed_required = gates_with GateResult.fail required h.gate_proofs in
    if is_nonempty missing || is_nonempty inapplicable || is_nonempty failed_required
    then ok (
        rejected missing failed_required inapplicable (
          List.◌++◌ (reason_if missing "missing proof for required gates: ") (
            List.◌++◌ (reason_if inapplicable "required gates cannot be marked not applicable: ")
              (reason_if failed_required "required gates failed: "))))
    else ok (record {
      decision = GateDecision.verified_green;
      next_state = some ItemState.verified_green;
      missing_gates = [];
      failed_gates = [];
      inapplicable_required_gates = [];
      reasons = "all required evidence gates passed with attached evidence" ∷ [];
    })

unfoldable pub evaluate_by_outcome :
    TestOutcome → List GateKind → TestHandoff → Result GateEvaluation
unfolding evaluate_blocked evaluate_red evaluate_pass
evaluate_by_outcome TestOutcome.blocked required h = evaluate_blocked h
evaluate_by_outcome TestOutcome.red required h = evaluate_red required h
evaluate_by_outcome TestOutcome.pass required h = evaluate_pass required h

unfoldable pub evaluate_test_handoff : List GateKind → TestHandoff → Result GateEvaluation
unfolding evaluate_by_outcome
evaluate_test_handoff required h =
    if not (is_nonempty required)
    then ok (rejected [] [] [] ("an item must define at least one required evidence gate" ∷ []))
    else if has_repeats required
    then ok (rejected [] [] [] ("required evidence gates must be unique" ∷ []))
    else evaluate_by_outcome h.outcome required h
