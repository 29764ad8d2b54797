-- ===== src/SqliteScheduler/Examples.antt =====
-- sqlite_scheduler.py: the adapter over a database with two running jobs.
use python_ai_agent_flow.Prelude.{
  ◌+◌, ◌≤◌, none, true, false, ◌≡◌, refl, List, [], ◌∷◌, value_error,
}
use python_ai_agent_flow.Models.Evidence.{Fields}
use python_ai_agent_flow.Models.Records as Records
use python_ai_agent_flow.Store.Stage.{StageEnv}
use python_ai_agent_flow.Models.Enums.{WorkerRole, GateKind}
use python_ai_agent_flow.Models.Records.{validate_role_limits, validate_required_gates, below_one}
use python_ai_agent_flow.Store.Rows.{Campaign, WorkItem}
use python_ai_agent_flow.Store.Examples.{plain, pilot, item_at, free_job, two_jobs}
use python_ai_agent_flow.Store.Queries.{order_by}
use python_ai_agent_flow.Store.Tx.{
  ◌>>=◌ as tx_bind, pure, lift, select_from, require, if◌then◌else◌, conflict_if, for_each,
  update_work_items, update_jobs, update_attempts, update_leases, delete_leases, update_controls,
  append_event, update_focused, update_browser, update_database,
}
use python_ai_agent_flow.Store.Events.{
  append_resource_lease_event, append_resource_lease_events, report_end,
  end_prepared_focused_execution, end_prepared_evidence_executions,
}
use python_ai_agent_flow.Store.Fences.{
  is_live, assert_live_lease, assert_no_pending_operator_interrupt, assert_external_process_stopped,
  assert_managed_worktree_binding, assert_resumed_as, assert_resume_authorization_fulfilled,
  assert_registered_fence, registered_job_resource_leases, assert_registered_resource_fences,
  assert_attempt_focused_test_admission,
}
use python_ai_agent_flow.Store.Lifecycle.{
  heartbeat_job, fail_job, failed_attempts, move_item, release_leases, worktree_quarantined,
  write_failure,
}
use python_ai_agent_flow.Store.Controls.{poll_operator_interrupt, check_pending}
use python_ai_agent_flow.Scheduler.Calls.{
  Failure, returned, raised, Fence, Config, Scheduler, pure as call_pure, raise as call_raise,
  if◌then◌else◌ as call_if, ask, modify, try_except, ◌>>=◌ as call_bind,
}
use python_ai_agent_flow.Scheduler.Execute.{
  Surroundings, Race, execute_claim, fence_of, execute_fenced, submit, conclude, fail as fail_claim,
  after_failure, load_context, run_worker_with_heartbeat, heartbeat as heartbeat_round, end_with,
  beat_or_retry,
}
use python_ai_agent_flow.Scheduler.Execute.Settled.{IsSettled}
use python_ai_agent_flow.Scheduler.Finalize.{poll_operator_interrupt as poll_pending, raise_pending}
use python_ai_agent_flow.Sessions.{Session, Adapter, unless_conflict, transact, and_then, convert}
use python_ai_agent_flow.Reconciler.Examples.{obedient}
use python_ai_agent_flow.SqliteScheduler.{
  sqlite_storage, job_record, get_campaign, get_work_item, heartbeat, poll, fail, accepted,
}
use python_ai_agent_flow.SqliteScheduler.Fences.{
  LeaseStep, lease_of, Closing, close, close-LeaseStep,
}
use python_ai_agent_flow.SqliteScheduler.Once.{
  acceptances, acceptances_at_most_one, IsOver, execute_claim-IsSettled_in_store,
}

abbrev unstaged : StageEnv
unstaged = record {
  canonical_handoff = λ db job gates. none;
  model_dump = λ handoff. Fields.end;
  is_attached = λ location. false;
}

abbrev desk : Adapter
desk = record {
  env = plain;
  stage = unstaged;
  clock = λ n. 50 + n;
  draw = λ n i. "fresh";
  runtime = λ n. obedient;
  terminate_grace = 5;
  poll_interval = 1;
  reconciliation_owner = "supervisor-1";
  reconciliation_lease_seconds = 30;
  failure_of = λ f. Failure.runtime_error;
}

abbrev begun : Session
begun = record { db = two_jobs; made = 0 }

abbrev claim_fence : Fence
claim_fence = record { job_id = "job-1"; worker_id = "worker-1"; lease_token = "token-1" }

abbrev giving_up : Closing
giving_up = Closing.interrupts "shutdown"

close-LeaseStep_example :
    LeaseStep
      (lease_of claim_fence begun)
      (close desk claim_fence giving_up begun).0
      (lease_of claim_fence (close desk claim_fence giving_up begun).1)
close-LeaseStep_example = close-LeaseStep desk claim_fence giving_up begun

abbrev three_calls : List Closing
three_calls = giving_up ∷ Closing.fails "late" 3 ∷ giving_up ∷ []

acceptances_at_most_one_example : acceptances desk claim_fence three_calls begun ≤ 1
acceptances_at_most_one_example = acceptances_at_most_one desk claim_fence three_calls begun

-- The campaign and the items as the records demand them.
abbrev limited : Campaign
limited = record pilot {
  role_limits = (WorkerRole.investigator, 1) ∷ (WorkerRole.fixer, 1) ∷ (WorkerRole.tester, 1) ∷ [];
}

abbrev gated : WorkItem
gated = record (item_at "item-1") { required_gates = GateKind.focused_tests ∷ [] }

abbrev one_worker : Scheduler Session
one_worker = record {
  store = record {
    db = record two_jobs { campaigns = limited ∷ []; work_items = gated ∷ [] };
    made = 0;
  };
  slots = [];
  errors = [];
  stale_job_ids = [];
  role_cursor = 0;
  last_recovery_progressed = false;
}

abbrev settings : Config
settings = record {
  global_concurrency_limit = 2;
  lease_seconds = 60;
  max_attempts = 3;
  heartbeat_error_retries = 1;
  allow_simulated_evidence = true;
}

abbrev bare : Surroundings
bare = record {
  read = λ role payload. none;
  dumps = record { handoff = λ h. Fields.end; evaluation = λ e. Fields.end };
  is_attached = λ location. false;
  describe = λ f. "worker failed";
}

-- One heartbeat, and then the worker raises.
abbrev failing : Race Session
failing =
    Race.beat (λ s. s) (λ s. s) (Race.worker_ends (λ s. s) (raised (Failure.failed value_error)))

abbrev claimed : Records.Job
claimed = job_record free_job none

abbrev run_ends : Scheduler Session
run_ends =
    (execute_claim (sqlite_storage desk) settings bare "worker-1" claimed failing one_worker).1

run_returns :
    execute_claim (sqlite_storage desk) settings bare "worker-1" claimed failing one_worker
    ≡ (returned tt, run_ends)
unfolding execute_claim execute_fenced submit conclude fail_claim after_failure load_context
    run_worker_with_heartbeat heartbeat_round end_with beat_or_retry poll_pending raise_pending
    call_pure call_raise call_if ask modify try_except call_bind get_campaign get_work_item
    heartbeat poll fail and_then accepted unless_conflict transact convert validate_role_limits
    validate_required_gates poll_operator_interrupt check_pending tx_bind pure lift select_from
    require if◌then◌else◌ conflict_if for_each update_work_items update_jobs update_attempts
    update_leases delete_leases update_controls append_event update_focused update_browser
    update_database order_by is_live assert_live_lease assert_no_pending_operator_interrupt
    assert_external_process_stopped assert_managed_worktree_binding assert_resumed_as
    assert_resume_authorization_fulfilled assert_registered_fence registered_job_resource_leases
    assert_registered_resource_fences assert_attempt_focused_test_admission
    append_resource_lease_event append_resource_lease_events report_end
    end_prepared_focused_execution end_prepared_evidence_executions move_item heartbeat_job
    release_leases worktree_quarantined failed_attempts write_failure fail_job
run_returns = refl

execute_claim-IsSettled_in_store_example :
    IsSettled IsOver (fence_of "worker-1" claimed "token-1") run_ends
execute_claim-IsSettled_in_store_example =
    execute_claim-IsSettled_in_store desk settings bare "worker-1" "token-1" claimed failing
      one_worker run_ends refl run_returns
