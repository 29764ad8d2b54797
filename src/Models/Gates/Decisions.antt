-- ===== src/Models/Gates/Decisions.antt =====
-- models.py: the other decisions of evaluate_test_handoff, and that it always decides on what
-- pydantic accepts.
use python_ai_agent_flow.Prelude.{
  ◌≡◌, ◌≢◌, ◌↔◌, Option, none, some, true, false, List, [], Memᴰ, select, is_nonempty, not_nonempty,
  inl, inr, ok, ok_of_ne_err, arith, All, All-Memᴰ, All-of_Memᴰ, All-select_none, select_none-All,
  select-Memᴰ, map-Memᴰ, mem-Memᴰ, Option-cases, subst,
}
use python_ai_agent_flow.Models.Enums.{
  GateKind, GateResult, TestOutcome, GateDecision, ItemState, gate_kind_eq, gate_result_eq,
}
use python_ai_agent_flow.Models.Handoffs.{GateProof, TestHandoff, is_failed, model_validate}
use python_ai_agent_flow.Models.Gates.Green.{proof_by_gate-Memᴰ}
use python_ai_agent_flow.Models.Gates.{
  GateEvaluation, can_advance, proof_by_gate, has_result, failed_gates, failed_required_gates,
  gates_with, evaluate_test_handoff,
}

-- A handoff that pydantic accepts is always evaluated: no field of `None` is read, and no `None`
-- becomes a reason.
pub evaluate_total :
    (required : List GateKind) (h : TestHandoff)
    → model_validate h ≡ ok tt
    → (e : GateEvaluation) × (evaluate_test_handoff required h ≡ ok e)
unfolding model_validate evaluate_test_handoff
evaluate_total required h v = ok_of_ne_err _ (λ x bad. ground (arith, v, bad))

-- The item state that a decision stands for.
abbrev pub state_of : GateDecision → Option ItemState
state_of GateDecision.verified_green = some ItemState.verified_green
state_of GateDecision.return_to_fix = some ItemState.ready_for_fix
state_of GateDecision.blocked = some ItemState.blocked
state_of GateDecision.rejected = none

-- Every evaluation is consistent: the next state is the one of its decision, it can advance
-- unless it is rejected, and it gives a reason.
pub evaluation_consistent :
    (required : List GateKind) (h : TestHandoff) {e : GateEvaluation}
    → evaluate_test_handoff required h ≡ ok e
    → (e.next_state ≡ state_of e.decision)
      × ((can_advance e ≡ true) ↔ (e.decision ≢ GateDecision.rejected))
      × (is_nonempty e.reasons ≡ true)
unfolding evaluate_test_handoff can_advance
evaluation_consistent required h ran = ground (arith, ran)

-- The outcome that the tester reports bounds the decision: GREEN needs PASS, a return to the
-- fixer needs RED, and BLOCKED needs BLOCKED.
pub decision_needs_outcome :
    (required : List GateKind) (h : TestHandoff) {e : GateEvaluation}
    → evaluate_test_handoff required h ≡ ok e
    → (e.decision ≡ GateDecision.verified_green → h.outcome ≡ TestOutcome.pass)
      × (e.decision ≡ GateDecision.return_to_fix → h.outcome ≡ TestOutcome.red)
      × (e.decision ≡ GateDecision.blocked → h.outcome ≡ TestOutcome.blocked)
unfolding evaluate_test_handoff
decision_needs_outcome required h ran = ground (arith, ran)

-- A failing proof of the gate that the handoff carries.
abbrev pub Fails : TestHandoff → GateKind → Type 0
Fails h g = (p : GateProof) × Memᴰ p h.gate_proofs × (p.gate ≡ g) × (p.result ≡ GateResult.fail)

module _ (required : List GateKind) (h : TestHandoff) where
  failed_required-Fails :
      (g : GateKind)
      → Memᴰ g (failed_required_gates required h.gate_proofs)
      → Memᴰ g required × Fails h g
  unfolding failed_required_gates failed_gates
  failed_required-Fails g m =
      let (required_gate, failed) = select-Memᴰ _ required m in
      let (p, kept, at_gate) = map-Memᴰ _ _ (mem-Memᴰ g _ failed) in
      let (carried, fails) = select-Memᴰ is_failed h.gate_proofs kept in
      (required_gate, (p, carried, at_gate, (gate_result_eq.equals_iff _ _).0 fails))

  red_parts :
      {e : GateEvaluation}
      → evaluate_test_handoff required h ≡ ok e
      → e.decision ≡ GateDecision.return_to_fix
      → (is_nonempty e.failed_gates ≡ true)
        × (e.failed_gates ≡ failed_required_gates required h.gate_proofs)
  unfolding evaluate_test_handoff
  red_parts ran red = ground (arith, ran, red)

-- An item goes back to the fixer only with evidence: the evaluation names at least one gate, and
-- every gate that it names is required and has a failing proof in the handoff.
pub return_to_fix-Fails :
    (required : List GateKind) (h : TestHandoff) {e : GateEvaluation}
    → evaluate_test_handoff required h ≡ ok e
    → e.decision ≡ GateDecision.return_to_fix
    → (is_nonempty e.failed_gates ≡ true) × All (λ g. Memᴰ g required × Fails h g) e.failed_gates
return_to_fix-Fails required h {e} ran red =
    let (named, same) = red_parts required h ran red in
    (
      named,
      All-of_Memᴰ _ e.failed_gates
          (λ g m. failed_required-Fails required h g (subst (λ gs. Memᴰ g gs) same m)),
    )

module _ (required : List GateKind) (h : TestHandoff) where
  valid_pass :
      model_validate h ≡ ok tt → h.outcome ≡ TestOutcome.pass → select is_failed h.gate_proofs ≡ []
  unfolding model_validate
  valid_pass v o = not_nonempty _ (ground (arith, v, o))

  none_failed :
      (g : GateKind)
      → select is_failed h.gate_proofs ≡ []
      → has_result GateResult.fail (proof_by_gate h.gate_proofs g) ≡ false
  none_failed g none_fails = elim (Option-cases (proof_by_gate h.gate_proofs g)) [
    | inl (p, found) ↦ rw found (
        All-Memᴰ (λ (x : GateProof). is_failed x ≡ false)
          (All-select_none is_failed h.gate_proofs none_fails)
          (proof_by_gate-Memᴰ h.gate_proofs g found).0)
    | inr absent ↦ rw absent
  ]

  no_failed_required :
      select is_failed h.gate_proofs ≡ [] → gates_with GateResult.fail required h.gate_proofs ≡ []
  unfolding gates_with
  no_failed_required none_fails =
      select_none-All _ required (All-of_Memᴰ _ required (λ g m. none_failed g none_fails))

-- Where the tester reports PASS in a handoff that pydantic accepts, no evaluation names a failed
-- gate: the branch that reports failed required gates is never taken.
pub pass_names_no_failure :
    (required : List GateKind) (h : TestHandoff) {e : GateEvaluation}
    → model_validate h ≡ ok tt
    → h.outcome ≡ TestOutcome.pass
    → evaluate_test_handoff required h ≡ ok e
    → e.failed_gates ≡ []
unfolding evaluate_test_handoff
pass_names_no_failure required h v o ran =
    ground (arith, no_failed_required required h (valid_pass required h v o), o, ran)
