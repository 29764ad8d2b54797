-- ===== src/Store/Examples/Commits.antt =====
-- storage.py: a tester's job that proves its item green, and the theorems on commits at it.
use python_ai_agent_flow.Prelude.{none, some, true, ◌≡◌, refl, [], ◌∷◌, Result, ok}
use python_ai_agent_flow.Models.Enums.{
  WorkerRole, ItemState, item_state_eq, WorkspaceKind, GateKind,
}
use python_ai_agent_flow.Models.Evidence.{Fields, get}
use python_ai_agent_flow.Models.Handoffs.{
  validate_proofs, validate_proof, incompatible, model_validate,
}
use python_ai_agent_flow.Models.Gates.{
  missing_gates, gates_with, proof_by_gate, failed_required_gates, failed_gates,
  evaluate_test_handoff,
}
use python_ai_agent_flow.Models.Gates.Examples.{passing_handoff}
use python_ai_agent_flow.Store.Rows.{Db, Job, WorkItem}
use python_ai_agent_flow.Store.Stage.{Handoff, StageEnv}
use python_ai_agent_flow.Store.Release.{IsGivenUp}
use python_ai_agent_flow.Store.Owned.{IsOwned}
use python_ai_agent_flow.Store.Retries.{has_state}
use python_ai_agent_flow.Store.Verified.{IsProvenFor}
use python_ai_agent_flow.Store.Moves.{IsStored, IsQueued}
use python_ai_agent_flow.Store.Moves.Follows.{
  Follows, commit_stage_result-Follows, commit_stage_result-IsProvenFor,
}
use python_ai_agent_flow.Store.Committed.{commit_stage_result-IsGivenUp}
use python_ai_agent_flow.Store.Examples.{plain, item_at, job_at, attempt_at, two_jobs, db_of}
use python_ai_agent_flow.Store.Tx.{
  ◌>>=◌, pure, raise, lift, select_from, require, if◌then◌else◌, conflict_if, for_each,
  update_work_items, update_jobs, update_attempts, delete_leases, insert_job, append_event,
}
use python_ai_agent_flow.Store.Queries.{order_by}
use python_ai_agent_flow.Store.Fences.{
  job_by_id, is_live, assert_live_lease, assert_no_pending_operator_interrupt,
  assert_external_process_stopped, assert_managed_worktree_binding,
  assert_resume_authorization_fulfilled, registered_job_resource_leases,
  assert_registered_resource_fences, assert_attempt_focused_test_admission,
}
use python_ai_agent_flow.Store.Events.{append_resource_lease_events}
use python_ai_agent_flow.Store.Lifecycle.{
  move_item, assert_resource_fences, write_finish, finish_job,
}
use python_ai_agent_flow.Store.Stage.{
  handoff_evidence, counted_handoff, judge_test, judge, validate_stage_result,
}
use python_ai_agent_flow.Store.Commit.{
  stage_next_states, successor_of, enqueue_next, commit_stage_result,
}

-- The persisted executions give a handoff that passes, and every location is a file.
abbrev collected : StageEnv
collected = record {
  canonical_handoff = λ db job gates. some passing_handoff;
  model_dump = λ handoff. Fields.end;
  is_attached = λ location. true;
}

abbrev testing_job : Job
testing_job = record (job_at "job-1" "item-1" "attempt-1" []) {
  role = WorkerRole.tester;
  queued_item_state = ItemState.ready_for_test;
  active_item_state = ItemState.testing;
  workspace_kind = WorkspaceKind.source_read_only;
}

abbrev tested_item : WorkItem
tested_item = record (item_at "item-1") {
  state = ItemState.testing;
  required_gates = GateKind.focused_tests ∷ [];
}

abbrev one_tests : Db
one_tests = record two_jobs {
  work_items = tested_item ∷ [];
  jobs = testing_job ∷ [];
  attempts = attempt_at "attempt-1" "job-1" none ∷ [];
  resource_leases = [];
  external_processes = [];
}

abbrev commit_run : Result (Unit {0} × Db)
commit_run =
    commit_stage_result plain collected "job-1" "worker-1" "token-1" (Handoff.test passing_handoff)
      ItemState.testing ItemState.verified_green "stage.completed" [] none 50 one_tests

abbrev after_commit : Db
after_commit = db_of commit_run

commit_runs : commit_run ≡ ok (tt, after_commit)
unfolding ◌>>=◌ pure raise lift select_from require if◌then◌else◌ conflict_if for_each
    update_work_items update_jobs update_attempts delete_leases insert_job append_event order_by
    is_live assert_live_lease assert_no_pending_operator_interrupt assert_external_process_stopped
    assert_managed_worktree_binding assert_resume_authorization_fulfilled
    registered_job_resource_leases assert_registered_resource_fences
    assert_attempt_focused_test_admission append_resource_lease_events move_item
    assert_resource_fences write_finish finish_job handoff_evidence counted_handoff judge_test judge
    validate_stage_result stage_next_states successor_of enqueue_next commit_stage_result
    model_validate validate_proofs validate_proof incompatible evaluate_test_handoff missing_gates
    gates_with proof_by_gate failed_required_gates failed_gates get
commit_runs = refl

commit_stage_result-IsProvenFor_example :
    (job : Job) × (h : Handoff) × (job_by_id "job-1" one_tests ≡ some job)
    × IsOwned "worker-1" "token-1" 50 job
    × IsProvenFor collected job one_tests (Handoff.test passing_handoff) h
    × IsStored job Fields.end after_commit
    × (has_state job.work_item_id ItemState.verified_green after_commit ≡ true)
commit_stage_result-IsProvenFor_example =
    commit_stage_result-IsProvenFor plain collected "job-1" "worker-1" "token-1"
      (Handoff.test passing_handoff) ItemState.testing "stage.completed" [] none 50 one_tests
      after_commit commit_runs

commit_stage_result-Follows_example :
    (job : Job) × (h : Handoff) × (job_by_id "job-1" one_tests ≡ some job)
    × IsOwned "worker-1" "token-1" 50 job
    × Follows job.role ItemState.verified_green none
    × (has_state job.work_item_id ItemState.verified_green after_commit ≡ true)
    × IsStored job Fields.end after_commit
    × IsQueued job.work_item_id none after_commit
commit_stage_result-Follows_example =
    commit_stage_result-Follows plain collected "job-1" "worker-1" "token-1"
      (Handoff.test passing_handoff) ItemState.testing ItemState.verified_green "stage.completed" []
      none 50 one_tests after_commit commit_runs

commit_stage_result-IsGivenUp_example : IsGivenUp "job-1" "worker-1" "token-1" after_commit
commit_stage_result-IsGivenUp_example =
    commit_stage_result-IsGivenUp plain collected "job-1" "worker-1" "token-1"
      (Handoff.test passing_handoff) ItemState.testing ItemState.verified_green "stage.completed" []
      none 50 one_tests after_commit commit_runs
