-- ===== src/Models/Gates/Examples.antt =====
-- models.py: handoffs that reach each decision, and the theorems at them.
use python_ai_agent_flow.Prelude.{
  ◌≡◌, ◌≢◌, refl, ◌↔◌, none, some, true, List, [], ◌∷◌, Memᴰ, All, is_nonempty, ok,
}
use python_ai_agent_flow.Models.Enums.{
  EvidenceKind, GateKind, GateResult, TestOutcome, GateDecision, ItemState,
}
use python_ai_agent_flow.Models.Evidence.{EvidenceRef, end}
use python_ai_agent_flow.Models.Handoffs.{
  GateProof, TestHandoff, incompatible, validate_proof, validate_proofs, model_validate,
}
use python_ai_agent_flow.Models.Gates.{
  GateEvaluation, can_advance, proof_by_gate, missing_gates, gates_with, failed_gates,
  failed_required_gates, evaluate_test_handoff,
}
use python_ai_agent_flow.Models.Gates.Green.{IsGreen, IsProven, verified_green_iff, green-IsProven}
use python_ai_agent_flow.Models.Gates.Decisions.{
  state_of, Fails, evaluate_total, evaluation_consistent, return_to_fix-Fails,
}

abbrev log_file : EvidenceRef
log_file = record {
  id = "e1";
  kind = EvidenceKind.log;
  location = "/var/run/out.log";
  description = "unittest output";
  metadata = end;
}

abbrev query_result : EvidenceRef
query_result = record log_file { id = "e2"; kind = EvidenceKind.database }

abbrev tests_pass : GateProof
tests_pass = record {
  gate = GateKind.focused_tests;
  result = GateResult.pass;
  summary = "12 tests passed";
  evidence = log_file ∷ [];
}

abbrev rows_fail : GateProof
rows_fail = record {
  gate = GateKind.database;
  result = GateResult.fail;
  summary = "a row is missing";
  evidence = query_result ∷ [];
}

abbrev required : List GateKind
required = GateKind.focused_tests ∷ GateKind.database ∷ []

abbrev pub passing_handoff : TestHandoff
passing_handoff = record {
  item_id = "item-1";
  outcome = TestOutcome.pass;
  summary = "all green";
  gate_proofs = tests_pass ∷ record rows_fail { result = GateResult.pass } ∷ [];
  failure_summary = none;
  blocker = none;
}

abbrev failing_handoff : TestHandoff
failing_handoff = record passing_handoff {
  outcome = TestOutcome.red;
  gate_proofs = tests_pass ∷ rows_fail ∷ [];
  failure_summary = some "rows differ";
}

abbrev green_evaluation : GateEvaluation
green_evaluation = record {
  decision = GateDecision.verified_green;
  next_state = some ItemState.verified_green;
  missing_gates = [];
  failed_gates = [];
  inapplicable_required_gates = [];
  reasons = "all required evidence gates passed with attached evidence" ∷ [];
}

abbrev red_evaluation : GateEvaluation
red_evaluation = record green_evaluation {
  decision = GateDecision.return_to_fix;
  next_state = some ItemState.ready_for_fix;
  failed_gates = GateKind.database ∷ [];
  reasons = "rows differ" ∷ [];
}

handoff_valid : model_validate passing_handoff ≡ ok tt
unfolding model_validate validate_proofs validate_proof incompatible
handoff_valid = refl

pass_run : evaluate_test_handoff required passing_handoff ≡ ok green_evaluation
unfolding evaluate_test_handoff missing_gates gates_with proof_by_gate
pass_run = refl

red_run : evaluate_test_handoff required failing_handoff ≡ ok red_evaluation
unfolding evaluate_test_handoff failed_required_gates failed_gates
red_run = refl

verified_green_iff_example :
    (green_evaluation.decision ≡ GateDecision.verified_green) ↔ IsGreen required passing_handoff
verified_green_iff_example = verified_green_iff required passing_handoff pass_run

green-IsProven_example : All (IsProven passing_handoff) required
green-IsProven_example = green-IsProven required passing_handoff handoff_valid pass_run refl

evaluate_total_example :
    (e : GateEvaluation) × (evaluate_test_handoff required passing_handoff ≡ ok e)
evaluate_total_example = evaluate_total required passing_handoff handoff_valid

evaluation_consistent_example :
    (red_evaluation.next_state ≡ state_of red_evaluation.decision)
    × ((can_advance red_evaluation ≡ true) ↔ (red_evaluation.decision ≢ GateDecision.rejected))
    × (is_nonempty red_evaluation.reasons ≡ true)
evaluation_consistent_example = evaluation_consistent required failing_handoff red_run

return_to_fix-Fails_example :
    (is_nonempty red_evaluation.failed_gates ≡ true)
    × All (λ g. Memᴰ g required × Fails failing_handoff g) red_evaluation.failed_gates
return_to_fix-Fails_example = return_to_fix-Fails required failing_handoff red_run refl
