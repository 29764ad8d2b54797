-- ===== src/Store/Stage.antt =====
-- storage.py: `_validate_stage_result`, which judges what a worker submits.
use python_ai_agent_flow.Prelude.{
  String, Option, none, some, Bool, true, false, not, ◌&&◌, ◌||◌, List, [], ◌∷◌, ◌++◌, all, find,
  ◌==◌, string_eq, option_eq, not_found, value_error, transition_conflict,
}
use python_ai_agent_flow.Models.Enums.{
  WorkerRole, ItemState, item_state_eq, GateKind, gate_kind_eq, InvestigationOutcome, FixOutcome,
}
use python_ai_agent_flow.Models.Evidence.{Fields, EvidenceRef, Blocker, get, is_true}
use python_ai_agent_flow.Models.Handoffs.{
  InvestigationHandoff, FixHandoff, TestHandoff, GateProof, validate_investigation, validate_fix,
  model_validate,
}
use python_ai_agent_flow.Models.Gates.{evaluate_test_handoff}
use python_ai_agent_flow.Store.Rows.{Db, Job}
use python_ai_agent_flow.Store.Tx.{
  Tx, pure, raise, select_from, require, conflict_if, lift, if◌then◌else◌, ◌>>=◌, ◌>>◌,
}

-- What a worker submits, with the fields that pydantic reads by their types.
pub data Handoff : Type 0 where
  investigation : InvestigationHandoff → Handoff
  fix : FixHandoff → Handoff
  test : TestHandoff → Handoff

-- What the stage takes from the code around it.
pub record StageEnv : Type 0 where
  -- The handoff that the persisted executions of the job's attempt give, or `none` where the checks
  -- of these executions raise.
  pub canonical_handoff : Db → Job → List GateKind → Option TestHandoff
  -- `handoff.model_dump(mode="json")`
  pub model_dump : Handoff → Fields
  -- `Path(p).expanduser()` is absolute and is a file.
  pub is_attached : String → Bool

abbrev pub item_of : Handoff → String
item_of (Handoff.investigation h) = h.item_id
item_of (Handoff.fix h) = h.item_id
item_of (Handoff.test h) = h.item_id

abbrev blocker_evidence : Option Blocker → List EvidenceRef
blocker_evidence none = []
blocker_evidence (some b) = b.evidence

abbrev proof_evidence : List GateProof → List EvidenceRef
proof_evidence [] = []
proof_evidence (p ∷ ps) = p.evidence ++ proof_evidence ps

-- _handoff_evidence
unfoldable pub handoff_evidence : Handoff → List EvidenceRef
handoff_evidence (Handoff.investigation h) = h.evidence ++ blocker_evidence h.blocker
handoff_evidence (Handoff.fix h) = h.evidence ++ blocker_evidence h.blocker
handoff_evidence (Handoff.test h) = blocker_evidence h.blocker ++ proof_evidence h.gate_proofs

abbrev pub as_test : Handoff → Option TestHandoff
as_test (Handoff.test h) = some h
as_test _ = none

abbrev pub after_investigation : InvestigationOutcome → ItemState
after_investigation InvestigationOutcome.blocked = ItemState.blocked
after_investigation InvestigationOutcome.ready_for_fix = ItemState.ready_for_fix

abbrev pub after_fix : FixOutcome → ItemState
after_fix FixOutcome.blocked = ItemState.blocked
after_fix FixOutcome.ready_for_test = ItemState.ready_for_test

abbrev same_gates : List GateKind → List GateKind → Bool
same_gates [] [] = true
same_gates (g ∷ gs) (k ∷ ks) = g == k && same_gates gs ks
same_gates _ _ = false

-- The gates that campaigns without simulation may require.
abbrev is_supported : List GateKind → Bool
is_supported gates =
    same_gates gates (GateKind.focused_tests ∷ [])
    || same_gates gates (GateKind.focused_tests ∷ GateKind.browser ∷ GateKind.database ∷ [])

module _ (env : StageEnv) where
  -- The test handoff that counts: the submitted one where simulation is allowed, else the persisted.
  unfoldable pub counted_handoff : Bool → Job → List GateKind → Handoff → Tx TestHandoff
  counted_handoff allow_simulated job gates submitted =
      if allow_simulated then require (as_test submitted) value_error else do
        conflict_if (not (is_supported gates)) value_error
        persisted ← select_from (λ db. env.canonical_handoff db job gates)
        require persisted value_error

  -- The tester's branch.
  unfoldable pub judge_test : Bool → Job → Handoff → Tx (Handoff × ItemState)
  judge_test allow_simulated job submitted = do
    found ← select_from (λ db. find (λ i. i.id == job.work_item_id) db.work_items)
    item ← require found not_found
    handoff ← counted_handoff allow_simulated job item.required_gates submitted
    lift (model_validate handoff)
    evaluation ← lift (evaluate_test_handoff item.required_gates handoff)
    next ← require evaluation.next_state value_error
    pure (Handoff.test handoff, next)

  -- The state that the handoff asks for; a handoff of another role is no handoff of this one.
  unfoldable pub judge : Bool → Job → WorkerRole → Handoff → Tx (Handoff × ItemState)
  judge allow_simulated job WorkerRole.investigator (Handoff.investigation h) = do
    lift (validate_investigation h)
    pure (Handoff.investigation h, after_investigation h.outcome)
  judge allow_simulated job WorkerRole.fixer (Handoff.fix h) = do
    lift (validate_fix h)
    pure (Handoff.fix h, after_fix h.outcome)
  judge allow_simulated job WorkerRole.tester h = judge_test allow_simulated job h
  judge allow_simulated job _ _ = raise value_error

  -- A piece of evidence is simulated where that is allowed, or is a file.
  abbrev pub is_admissible : Bool → EvidenceRef → Bool
  is_admissible allow_simulated e =
      let simulated = is_true (get "simulated" e.metadata) in
      (simulated && allow_simulated) || (not simulated && env.is_attached e.location)

  -- _validate_stage_result
  unfoldable pub validate_stage_result : Job → Handoff → ItemState → Tx Handoff
  validate_stage_result job submitted next = do
    owner ← select_from (λ db. find (λ c. c.id == job.campaign_id) db.campaigns)
    campaign ← require owner not_found
    let allow_simulated = is_true (get "allow_simulated_evidence" campaign.config)
    judged ← judge allow_simulated job job.role submitted
    conflict_if (not (item_of judged.0 == job.work_item_id)) value_error
    conflict_if (not (judged.1 == next)) transition_conflict
    conflict_if (not (all (is_admissible allow_simulated) (handoff_evidence judged.0))) value_error
    pure judged.0
