-- ===== src/Sessions/Examples.antt =====
-- sqlite_scheduler.py: a job whose worker was lost, and whose process is ended for it.
use python_ai_agent_flow.Prelude.{◌+◌, none, true, false, ◌≡◌, refl, [], ◌∷◌}
use python_ai_agent_flow.Models.Evidence.{Fields}
use python_ai_agent_flow.Reconciler.Identity.{
  ReconciliationResult, ReconciliationStatus, Observed, expected_identity, by_pid,
}
use python_ai_agent_flow.Reconciler.Runtime.{
  pure as act_pure, if◌then◌else◌ as act_if, ◌>>=◌ as act_bind, inspect, list_group, signal_group,
  monotonic, sleep,
}
use python_ai_agent_flow.Reconciler.Reconcile.{
  pass_failure, pass_lookup, wait_or, after_list, wait_loop, wait_for_group_exit, signal_quietly,
  terminate_group, verify_group, dispatch, reconcile_verified, contain, reconcile_expected,
  reconcile,
}
use python_ai_agent_flow.Reconciler.Examples.{obedient}
use python_ai_agent_flow.Prelude.Texts.{stripped_left, stripped_right, is_space}
use python_ai_agent_flow.Store.Rows.{ExternalProcess}
use python_ai_agent_flow.Store.Stage.{StageEnv}
use python_ai_agent_flow.Store.Examples.{plain, guardian, two_jobs}
use python_ai_agent_flow.Store.Queries.{order_by}
use python_ai_agent_flow.Store.Tx.{
  ◌>>=◌, pure, select_from, require, if◌then◌else◌, conflict_if, for_each, update_work_items,
  update_jobs, update_attempts, delete_leases, update_controls, append_event, update_focused,
  update_browser, update_database,
}
use python_ai_agent_flow.Store.Events.{
  append_resource_lease_events, report_end, end_prepared_focused_execution,
  end_prepared_evidence_executions,
}
use python_ai_agent_flow.Store.Fences.{registered_job_resource_leases}
use python_ai_agent_flow.Store.Lifecycle.{move_item}
use python_ai_agent_flow.Store.Recover.{
  reject_interrupt, assert_expired_fences, write_expiry, expire_job_after_lease,
}
use python_ai_agent_flow.Store.External.{
  claimed_row, Completion, update_processes, claim_or_refusal, release_stopped,
  complete_external_process_reconciliation,
}
use python_ai_agent_flow.Scheduler.Calls.{Failure, returned}
use python_ai_agent_flow.Sessions.{Session, Adapter, transact, and_then}
use python_ai_agent_flow.Sessions.Processes.{from_mapping, reconcile_process, settle_process}
use python_ai_agent_flow.Sessions.Released.{IsGivenBack, settle_process-IsGivenBack}

abbrev unstaged : StageEnv
unstaged = record {
  canonical_handoff = λ db job gates. none;
  model_dump = λ handoff. Fields.end;
  is_attached = λ location. false;
}

-- After the leases have passed.
abbrev late_desk : Adapter
late_desk = record {
  env = plain;
  stage = unstaged;
  clock = λ n. 150 + n;
  draw = λ n i. "fresh";
  runtime = λ n. obedient;
  terminate_grace = 5;
  poll_interval = 1;
  reconciliation_owner = "supervisor-1";
  reconciliation_lease_seconds = 30;
  failure_of = λ f. Failure.runtime_error;
}

abbrev claimed_guardian : ExternalProcess
claimed_guardian = claimed_row "supervisor-1" "fresh" 179 149 guardian

abbrev lost_worker : Session
lost_worker = record {
  db = record two_jobs { external_processes = claimed_guardian ∷ [] };
  made = 0;
}

abbrev ended_guardian : ReconciliationResult
ended_guardian = record {
  binding = from_mapping claimed_guardian;
  status = ReconciliationStatus.terminated;
  reason = "verified process group exited after SIGTERM";
  observed = Observed.nothing;
}

abbrev given_back : Completion
given_back = record {
  job_id = "job-2";
  attempt_id = "attempt-2";
  status = ReconciliationStatus.terminated;
  recovered = true;
}

abbrev settled : Session
settled = (settle_process late_desk claimed_guardian lost_worker).1

settle_run :
    settle_process late_desk claimed_guardian lost_worker
    ≡ (returned (ended_guardian, given_back), settled)
unfolding settle_process reconcile_process and_then transact reconcile reconcile_expected
    reconcile_verified dispatch verify_group terminate_group signal_quietly wait_for_group_exit
    wait_loop after_list wait_or contain pass_lookup pass_failure expected_identity by_pid inspect
    list_group signal_group monotonic sleep act_pure act_if act_bind stripped_left stripped_right
    is_space order_by ◌>>=◌ pure select_from require if◌then◌else◌ conflict_if for_each
    update_work_items update_jobs update_attempts delete_leases update_controls append_event
    update_focused update_browser update_database append_resource_lease_events report_end
    end_prepared_focused_execution end_prepared_evidence_executions registered_job_resource_leases
    move_item reject_interrupt assert_expired_fences write_expiry expire_job_after_lease
    update_processes claim_or_refusal release_stopped complete_external_process_reconciliation
settle_run = refl

settle_process-IsGivenBack_example :
    IsGivenBack late_desk claimed_guardian lost_worker settled given_back
settle_process-IsGivenBack_example =
    settle_process-IsGivenBack late_desk claimed_guardian lost_worker settled ended_guardian
      given_back settle_run refl
