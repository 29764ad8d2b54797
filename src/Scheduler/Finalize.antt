-- ===== src/Scheduler/Finalize.antt =====
-- scheduler.py: `_finalize_handoff`, which turns an accepted handoff into the transition that the
-- store is asked to commit, and `_poll_operator_interrupt`.
pub mod Fits
use python_ai_agent_flow.Prelude.{String, Option, none, some, Bool, true, false, List}
use python_ai_agent_flow.Models.Enums.{
  WorkerRole, ItemState, GateKind, InvestigationOutcome, FixOutcome,
}
use python_ai_agent_flow.Models.Evidence.{Fields, Value}
use python_ai_agent_flow.Models.Handoffs.{TestHandoff}
use python_ai_agent_flow.Models.Gates.{GateEvaluation, evaluate_test_handoff}
use python_ai_agent_flow.Models.Records.{Job}
use python_ai_agent_flow.Store.Stage.{Handoff}
use python_ai_agent_flow.Scheduler.Calls.{
  Failure, Fence, Commit, Storage, Call, pure, raise, ask, lift, ◌>>=◌, ◌>>◌,
}

-- `model_dump(mode="json")` of the models, which is pydantic's.
pub record Dumps : Type 0 where
  pub handoff : Handoff → Fields
  pub evaluation : GateEvaluation → Fields

abbrev pub ends : ItemState → String → Commit
ends next event = record {
  next_item_state = next;
  event_type = event;
  next_job_role = none;
  next_job_payload = none;
}

abbrev pub goes_on : ItemState → String → WorkerRole → Fields → Commit
goes_on next event role payload = record {
  next_item_state = next;
  event_type = event;
  next_job_role = some role;
  next_job_payload = some payload;
}

module _ (dumps : Dumps) where
  abbrev payload_of : String → Handoff → Fields
  payload_of key h = Fields.field key (Value.object (dumps.handoff h)) Fields.end

  unfoldable pub investigation_commit : InvestigationOutcome → Handoff → Commit
  investigation_commit InvestigationOutcome.blocked h =
      ends ItemState.blocked "investigation_blocked"
  investigation_commit InvestigationOutcome.ready_for_fix h =
      goes_on ItemState.ready_for_fix "investigation_completed" WorkerRole.fixer
        (payload_of "investigation_handoff" h)

  unfoldable pub fix_commit : FixOutcome → Handoff → Commit
  fix_commit FixOutcome.blocked h = ends ItemState.blocked "fix_blocked"
  fix_commit FixOutcome.ready_for_test h =
      goes_on ItemState.ready_for_test "fix_completed" WorkerRole.tester
        (payload_of "fix_handoff" h)

  -- The branches on the state that the evaluation gives; the last is the `else`.
  unfoldable pub test_commit :
      {S : Type 0} → Option ItemState → GateEvaluation → Handoff → Call S Commit
  test_commit none evaluation h = raise Failure.invalid_worker_output
  test_commit (some ItemState.verified_green) evaluation h =
      pure (ends ItemState.verified_green "test_verified_green")
  test_commit (some ItemState.ready_for_fix) evaluation h = pure (
      goes_on ItemState.ready_for_fix "test_returned_to_fix" WorkerRole.fixer (
        Fields.field "test_failure" (Value.object (dumps.handoff h))
          (Fields.field "gate_evaluation" (Value.object (dumps.evaluation evaluation)) Fields.end)))
  test_commit (some ItemState.blocked) evaluation h = pure (ends ItemState.blocked "test_blocked")
  test_commit (some _) evaluation h = raise Failure.runtime_error

  -- The evaluation of a tester's handoff against the gates that its item requires.
  unfoldable pub judge_gates : {S : Type 0} → List GateKind → TestHandoff → Handoff → Call S Commit
  judge_gates gates t h = do
    evaluation ← lift (evaluate_test_handoff gates t)
    test_commit evaluation.next_state evaluation h

module _ {S : Type 0} (storage : Storage S Handoff) where
  -- The request, as an exception to raise.
  unfoldable pub poll_operator_interrupt : Fence → Call S (Option Failure)
  poll_operator_interrupt fence = do
    found ← ask (storage.poll_operator_interrupt fence)
    pure (interruption found)
    where
      interruption : Option (String × String) → Option Failure
      interruption none = none
      interruption (some (request, reason)) = some (Failure.operator_interruption request reason)

  -- `if pending_interrupt is not None: raise pending_interrupt`
  unfoldable pub raise_pending : Option Failure → Call S (Unit {0})
  raise_pending none = pure tt
  raise_pending (some f) = raise f

  -- What the handoff asks the store to commit.
  unfoldable pub commit_of : Dumps → Job → Handoff → Call S Commit
  commit_of dumps job (Handoff.investigation h) =
      pure (investigation_commit dumps h.outcome (Handoff.investigation h))
  commit_of dumps job (Handoff.fix h) = pure (fix_commit dumps h.outcome (Handoff.fix h))
  commit_of dumps job (Handoff.test h) = do
    item ← ask (storage.get_work_item job.item_id)
    judge_gates dumps item.required_gates h (Handoff.test h)

  unfoldable pub unless_accepted : Bool → Fence → Call S (Unit {0})
  unless_accepted true fence = pure tt
  unless_accepted false fence = do
    pending ← poll_operator_interrupt fence
    raise_pending pending
    raise Failure.lease_lost

  -- _finalize_handoff
  unfoldable pub finalize_handoff : Dumps → Fence → Job → Handoff → Call S (Unit {0})
  finalize_handoff dumps fence job h = do
    commit ← commit_of dumps job h
    accepted ← ask (storage.commit_stage_result fence h commit)
    unless_accepted accepted fence
