-- ===== src/Store/Examples/Running.antt =====
-- storage.py: the theorems on running jobs at a database with two of them.
use python_ai_agent_flow.Prelude.{
  arith, none, some, Bool, true, ◌≡◌, refl, [], ◌∷◌, All, Memᴰ, is_some, Result, ok,
}
use python_ai_agent_flow.Models.Evidence.{Fields}
use python_ai_agent_flow.Models.Enums.{ItemState}
use python_ai_agent_flow.Store.Rows.{Db, Job}
use python_ai_agent_flow.Store.Tx.{
  ◌>>=◌, pure, select_from, require, if◌then◌else◌, conflict_if, for_each, update_work_items,
  update_jobs, update_attempts, update_leases, delete_leases, update_controls, append_event,
  update_focused, update_browser, update_database,
}
use python_ai_agent_flow.Store.Queries.{order_by}
use python_ai_agent_flow.Store.Events.{
  append_resource_lease_event, append_resource_lease_events, report_end,
  end_prepared_focused_execution, end_prepared_evidence_executions,
}
use python_ai_agent_flow.Store.Fences.{
  job_by_id, is_live, assert_live_lease, assert_no_pending_operator_interrupt,
  assert_external_process_stopped, assert_managed_worktree_binding, assert_resumed_as,
  assert_resume_authorization_fulfilled, assert_registered_fence, registered_job_resource_leases,
  assert_registered_resource_fences, assert_attempt_focused_test_admission,
}
use python_ai_agent_flow.Store.Lifecycle.{
  heartbeat_job, fail_job, finish_job, failed_attempts, move_item, assert_resource_fences,
  write_finish, release_leases, worktree_quarantined, write_failure,
}
use python_ai_agent_flow.Store.Interrupt.{
  interrupt_job, observe_process, assert_operator_interrupt_request, write_interruption,
  authorize_interrupt, apply_interrupt,
}
use python_ai_agent_flow.Store.Recover.{
  Recovered, recover_expired, is_expired, process_of, reject_interrupt, assert_expired_fences,
  write_expiry, expire_job_after_lease, recover_job, recover_jobs, is_orphaned, report_orphan,
  drop_orphan,
}
use python_ai_agent_flow.Store.Owned.{IsOwned, NoRequest}
use python_ai_agent_flow.Store.Owned.Ended.{
  IsSafelyEnded, fail_job-IsSafelyEnded, interrupt_job-IsSafelyEnded,
}
use python_ai_agent_flow.Store.Owned.Renewed.{heartbeat_job-IsRenewed}
use python_ai_agent_flow.Store.Release.{IsGivenUp}
use python_ai_agent_flow.Store.Retired.{fail_job-IsGivenUp, fail_job-once, interrupt_job-IsGivenUp}
use python_ai_agent_flow.Store.Recovery.Jobs.{recover_expired_complete, recover_expired-leaves}
use python_ai_agent_flow.Store.Examples.{plain, free_job, busy_job, guardian, two_jobs, db_of}

abbrev after_heartbeat : Db
after_heartbeat = db_of (heartbeat_job plain "job-1" "worker-1" "token-1" 60 50 two_jobs)

heartbeat_run :
    heartbeat_job plain "job-1" "worker-1" "token-1" 60 50 two_jobs ≡ ok (tt, after_heartbeat)
unfolding ◌>>=◌ pure select_from require if◌then◌else◌ conflict_if for_each update_work_items
    update_jobs update_attempts update_leases delete_leases update_controls append_event
    update_focused update_browser update_database order_by is_live assert_live_lease
    assert_no_pending_operator_interrupt assert_external_process_stopped
    assert_managed_worktree_binding assert_resumed_as assert_resume_authorization_fulfilled
    assert_registered_fence registered_job_resource_leases assert_registered_resource_fences
    assert_attempt_focused_test_admission append_resource_lease_event append_resource_lease_events
    report_end end_prepared_focused_execution end_prepared_evidence_executions move_item
    heartbeat_job assert_resource_fences write_finish finish_job release_leases worktree_quarantined
    failed_attempts write_failure fail_job
heartbeat_run = refl

heartbeat_job-IsRenewed_example :
    ((job : Job) × (job_by_id "job-1" two_jobs ≡ some job) × IsOwned "worker-1" "token-1" 50 job)
    × ((job : Job) × (job_by_id "job-1" after_heartbeat ≡ some job)
        × IsOwned "worker-1" "token-1" 109 job)
heartbeat_job-IsRenewed_example =
    heartbeat_job-IsRenewed plain "job-1" "worker-1" "token-1" 60 50 109 two_jobs after_heartbeat
      heartbeat_run (omega arith)

-- The first job fails and is tried again.
abbrev failed_run : Result (Bool × Db)
failed_run =
    fail_job plain "job-1" "worker-1" "token-1" "boom" Fields.end true none 3 ItemState.blocked 50
      two_jobs

abbrev after_failure : Db
after_failure = db_of failed_run

failure_run : failed_run ≡ ok (true, after_failure)
unfolding ◌>>=◌ pure select_from require if◌then◌else◌ conflict_if for_each update_work_items
    update_jobs update_attempts update_leases delete_leases update_controls append_event
    update_focused update_browser update_database order_by is_live assert_live_lease
    assert_no_pending_operator_interrupt assert_external_process_stopped
    assert_managed_worktree_binding assert_resumed_as assert_resume_authorization_fulfilled
    assert_registered_fence registered_job_resource_leases assert_registered_resource_fences
    assert_attempt_focused_test_admission append_resource_lease_event append_resource_lease_events
    report_end end_prepared_focused_execution end_prepared_evidence_executions move_item
    heartbeat_job assert_resource_fences write_finish finish_job release_leases worktree_quarantined
    failed_attempts write_failure fail_job
failure_run = refl

fail_job-IsSafelyEnded_example :
    IsSafelyEnded "job-1" "worker-1" "token-1" 50 two_jobs after_failure
    × NoRequest "job-1" two_jobs.operator_controls
fail_job-IsSafelyEnded_example =
    fail_job-IsSafelyEnded plain "job-1" "worker-1" "token-1" "boom" Fields.end true none 3
      ItemState.blocked 50 true two_jobs after_failure failure_run

fail_job-IsGivenUp_example : IsGivenUp "job-1" "worker-1" "token-1" after_failure
fail_job-IsGivenUp_example =
    fail_job-IsGivenUp plain "job-1" "worker-1" "token-1" "boom" Fields.end true none 3
      ItemState.blocked 50 true two_jobs after_failure failure_run

fail_job-once_example : ¬ (
    fail_job plain "job-1" "worker-1" "token-1" "again" Fields.end true none 3 ItemState.blocked 51
      after_failure
    ≡ ok (true, after_failure))
fail_job-once_example =
    fail_job-once plain "job-1" "worker-1" "token-1" "boom" Fields.end true none 3 ItemState.blocked
      50 true two_jobs after_failure failure_run "again" Fields.end true none 3 ItemState.blocked 51
      true after_failure

abbrev after_interrupt : Db
after_interrupt = db_of (interrupt_job plain "job-1" "worker-1" "token-1" "stop" none 50 two_jobs)

interrupt_run :
    interrupt_job plain "job-1" "worker-1" "token-1" "stop" none 50 two_jobs
    ≡ ok (tt, after_interrupt)
unfolding ◌>>=◌ pure select_from require if◌then◌else◌ conflict_if for_each update_work_items
    update_jobs update_attempts update_leases delete_leases update_controls append_event
    update_focused update_browser update_database order_by is_live assert_live_lease
    assert_no_pending_operator_interrupt assert_external_process_stopped
    assert_managed_worktree_binding assert_resumed_as assert_resume_authorization_fulfilled
    assert_registered_fence registered_job_resource_leases assert_registered_resource_fences
    assert_attempt_focused_test_admission append_resource_lease_event append_resource_lease_events
    report_end end_prepared_focused_execution end_prepared_evidence_executions move_item
    heartbeat_job assert_resource_fences write_finish finish_job release_leases worktree_quarantined
    failed_attempts write_failure fail_job observe_process assert_operator_interrupt_request
    write_interruption authorize_interrupt apply_interrupt interrupt_job
interrupt_run = refl

interrupt_job-IsSafelyEnded_example :
    IsSafelyEnded "job-1" "worker-1" "token-1" 50 two_jobs after_interrupt
interrupt_job-IsSafelyEnded_example =
    interrupt_job-IsSafelyEnded plain "job-1" "worker-1" "token-1" "stop" none 50 two_jobs
      after_interrupt interrupt_run

interrupt_job-IsGivenUp_example : IsGivenUp "job-1" "worker-1" "token-1" after_interrupt
interrupt_job-IsGivenUp_example =
    interrupt_job-IsGivenUp plain "job-1" "worker-1" "token-1" "stop" none 50 two_jobs
      after_interrupt interrupt_run

abbrev after_finish : Db
after_finish = db_of (finish_job plain free_job "worker-1" "token-1" Fields.end 50 two_jobs)

finish_run :
    finish_job plain free_job "worker-1" "token-1" Fields.end 50 two_jobs ≡ ok (tt, after_finish)
unfolding ◌>>=◌ pure select_from require if◌then◌else◌ conflict_if for_each update_work_items
    update_jobs update_attempts update_leases delete_leases update_controls append_event
    update_focused update_browser update_database order_by is_live assert_live_lease
    assert_no_pending_operator_interrupt assert_external_process_stopped
    assert_managed_worktree_binding assert_resumed_as assert_resume_authorization_fulfilled
    assert_registered_fence registered_job_resource_leases assert_registered_resource_fences
    assert_attempt_focused_test_admission append_resource_lease_event append_resource_lease_events
    report_end end_prepared_focused_execution end_prepared_evidence_executions move_item
    heartbeat_job assert_resource_fences write_finish finish_job release_leases worktree_quarantined
    failed_attempts write_failure fail_job
finish_run = refl

-- At 200 both leases have passed: the first job is given back, the second is left to its process.
abbrev after_recovery : Db
after_recovery = db_of (recover_expired plain 200 two_jobs)

abbrev report : Recovered
report = record { job_ids = "job-1" ∷ []; external_processes_pending = ("job-2", guardian) ∷ [] }

recovery_run : recover_expired plain 200 two_jobs ≡ ok ((report, 0), after_recovery)
unfolding ◌>>=◌ pure select_from require if◌then◌else◌ conflict_if for_each update_work_items
    update_jobs update_attempts update_leases delete_leases update_controls append_event
    update_focused update_browser update_database order_by is_live assert_live_lease
    assert_no_pending_operator_interrupt assert_external_process_stopped
    assert_managed_worktree_binding assert_resumed_as assert_resume_authorization_fulfilled
    assert_registered_fence registered_job_resource_leases assert_registered_resource_fences
    assert_attempt_focused_test_admission append_resource_lease_event append_resource_lease_events
    report_end end_prepared_focused_execution end_prepared_evidence_executions move_item
    heartbeat_job assert_resource_fences write_finish finish_job release_leases worktree_quarantined
    failed_attempts write_failure fail_job reject_interrupt assert_expired_fences write_expiry
    expire_job_after_lease process_of recover_job recover_jobs is_orphaned report_orphan drop_orphan
    recover_expired
recovery_run = refl

busy_process : process_of busy_job two_jobs ≡ some guardian
unfolding process_of
busy_process = refl

recover_expired_complete_example :
    All
      (λ j. is_expired 200 j ≡ true → is_some (process_of j after_recovery) ≡ true)
      after_recovery.jobs
recover_expired_complete_example =
    recover_expired_complete plain 200 0 report two_jobs after_recovery recovery_run

recover_expired-leaves_example : Memᴰ busy_job after_recovery.jobs
recover_expired-leaves_example =
    recover_expired-leaves plain 200 0 report busy_job guardian two_jobs after_recovery
      (Memᴰ.tail (Memᴰ.head refl)) busy_process recovery_run
