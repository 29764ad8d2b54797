-- ===== src/Models/Handoffs.antt =====
-- models.py: the handoffs that workers submit, with their validators. A `model_validator` that
-- returns `self` is `ok tt` here. Field types that pydantic checks by itself are not repeated.
use python_ai_agent_flow.Prelude.{
  String, Option, Bool, not, ◌&&◌, ◌||◌, List, [], ◌∷◌, map, select, is_nonempty, is_none, is_some,
  if◌then◌else◌, ◌==◌, mem, has_repeats, Result, ok, value_error, raise_if, ◌>>◌,
}
use python_ai_agent_flow.Models.Enums.{
  EvidenceKind, GateKind, GateResult, InvestigationOutcome, FixOutcome, TestOutcome, gate_kind_eq,
  gate_result_eq, evidence_kind_eq, investigation_outcome_eq, fix_outcome_eq, test_outcome_eq,
}
use python_ai_agent_flow.Models.Evidence.{EvidenceRef, Blocker}

pub record InvestigationHandoff : Type 0 where
  pub item_id : String
  pub outcome : InvestigationOutcome
  pub synopsis : String
  pub reproduction_steps : List String
  pub root_cause : String
  pub proposed_fix : String
  pub acceptance_criteria : List String
  pub evidence : List EvidenceRef
  pub blocker : Option Blocker

-- InvestigationHandoff.validate_outcome, after the `min_length=1` of its fields.
unfoldable pub validate_investigation : InvestigationHandoff → Result (Unit {0})
validate_investigation h = do
  raise_if (not (is_nonempty h.reproduction_steps)) value_error
  raise_if (not (is_nonempty h.acceptance_criteria)) value_error
  raise_if (not (is_nonempty h.evidence)) value_error
  raise_if (h.outcome == InvestigationOutcome.blocked && is_none h.blocker) value_error
  raise_if (h.outcome == InvestigationOutcome.ready_for_fix && is_some h.blocker) value_error

pub record FixHandoff : Type 0 where
  pub item_id : String
  pub outcome : FixOutcome
  pub summary : String
  pub changed_files : List String
  pub tests_run : List String
  pub tester_instructions : List String
  pub evidence : List EvidenceRef
  pub blocker : Option Blocker

-- FixHandoff.validate_outcome
unfoldable pub validate_fix : FixHandoff → Result (Unit {0})
validate_fix h =
    if h.outcome == FixOutcome.blocked then raise_if (is_none h.blocker) value_error else do
      raise_if (is_some h.blocker) value_error
      raise_if (not (is_nonempty h.changed_files)) value_error
      raise_if (not (is_nonempty h.tester_instructions)) value_error

-- _GATE_EVIDENCE_KINDS
unfoldable pub gate_evidence_kinds : GateKind → List EvidenceKind
gate_evidence_kinds GateKind.focused_tests = EvidenceKind.test ∷ EvidenceKind.log ∷ []
gate_evidence_kinds GateKind.browser = EvidenceKind.browser ∷ EvidenceKind.screenshot ∷ []
gate_evidence_kinds GateKind.database = EvidenceKind.database ∷ []
gate_evidence_kinds GateKind.gl = EvidenceKind.gl ∷ EvidenceKind.database ∷ []
gate_evidence_kinds GateKind.api = EvidenceKind.api ∷ EvidenceKind.log ∷ []
gate_evidence_kinds GateKind.export = EvidenceKind.export ∷ EvidenceKind.document ∷ []

pub record GateProof : Type 0 where
  pub gate : GateKind
  pub result : GateResult
  pub summary : String
  pub evidence : List EvidenceRef

-- `incompatible` of require_evidence_for_observed_results
unfoldable pub incompatible : GateProof → List EvidenceRef
unfolding gate_evidence_kinds
incompatible p = select (λ e. not (mem e.kind (gate_evidence_kinds p.gate))) p.evidence

-- GateProof.require_evidence_for_observed_results
unfoldable pub validate_proof : GateProof → Result (Unit {0})
validate_proof p = do
  raise_if (mem p.result (GateResult.pass ∷ GateResult.fail ∷ []) && not (is_nonempty p.evidence))
      value_error
  raise_if (is_nonempty (incompatible p)) value_error

pub record TestHandoff : Type 0 where
  pub item_id : String
  pub outcome : TestOutcome
  pub summary : String
  pub gate_proofs : List GateProof
  pub failure_summary : Option String
  pub blocker : Option Blocker

abbrev pub is_failed : GateProof → Bool
is_failed p = p.result == GateResult.fail

-- The `if self.outcome == ...` chain, by the outcome.
unfoldable pub validate_by_outcome : TestOutcome → TestHandoff → Result (Unit {0})
validate_by_outcome TestOutcome.pass h = do
  raise_if (not (is_nonempty h.gate_proofs)) value_error
  raise_if (is_nonempty (select is_failed h.gate_proofs)) value_error
  raise_if (is_some h.failure_summary || is_some h.blocker) value_error
validate_by_outcome TestOutcome.red h = do
  raise_if (not (is_nonempty (select is_failed h.gate_proofs))) value_error
  raise_if (is_none h.failure_summary) value_error
  raise_if (is_some h.blocker) value_error
validate_by_outcome TestOutcome.blocked h = do
  raise_if (is_none h.blocker) value_error
  raise_if (is_nonempty (select is_failed h.gate_proofs) || is_some h.failure_summary) value_error

-- TestHandoff.validate_outcome
unfoldable pub validate_test : TestHandoff → Result (Unit {0})
unfolding validate_by_outcome
validate_test h = do
  raise_if (has_repeats (map (λ p. p.gate) h.gate_proofs)) value_error
  validate_by_outcome h.outcome h

-- pydantic validates the nested proofs before the handoff that holds them.
unfoldable pub validate_proofs : List GateProof → Result (Unit {0})
validate_proofs [] = ok tt
validate_proofs (p ∷ ps) = do validate_proof p; validate_proofs ps

-- TestHandoff.model_validate
unfoldable pub model_validate : TestHandoff → Result (Unit {0})
unfolding validate_test
model_validate h = do validate_proofs h.gate_proofs; validate_test h
