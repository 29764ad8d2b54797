-- ===== src/Store/Interrupt.antt =====
-- storage.py: how a running job is interrupted, with or without a request of an operator.
use python_ai_agent_flow.Prelude.{
  ℕ, String, Option, none, some, Bool, true, false, not, ◌&&◌, ◌||◌, List, [], ◌∷◌, find, select,
  any, is_some, is_none, eqb, ◌==◌, nat_eq, string_eq, option_eq, lease_conflict,
}
use python_ai_agent_flow.Models.Enums.{JobStatus, AttemptStatus, attempt_status_eq}
use python_ai_agent_flow.Store.Statuses.{
  abandoned, ProcessState, process_state_eq, ControlAction, control_action_eq, ControlStatus,
  control_status_eq,
}
use python_ai_agent_flow.Store.Rows.{Db, Job, Attempt, ExternalProcess, Control, text, state}
use python_ai_agent_flow.Store.Env.{Env}
use python_ai_agent_flow.Store.Fences.{
  assert_live_lease, assert_no_pending_operator_interrupt, assert_external_process_stopped,
  is_unstopped, latest,
}
use python_ai_agent_flow.Store.Events.{
  job_event, optional, end_prepared_focused_execution, end_prepared_evidence_executions,
}
use python_ai_agent_flow.Store.Lifecycle.{is_running_attempt, unleased, move_item, release_leases}
use python_ai_agent_flow.Store.Tx.{
  Tx, pure, select_from, require, conflict_if, update_jobs, update_attempts, update_controls,
  append_event, if◌then◌else◌, ◌>>=◌, ◌>>◌,
}

abbrev pub same_texts : List String → List String → Bool
same_texts [] [] = true
same_texts (x ∷ xs) (y ∷ ys) = x == y && same_texts xs ys
same_texts _ _ = false

-- The job's fence, which the request recorded; the JSON texts are compared as the lists they print.
abbrev pub differs_from_job : Env → Control → Job → String → String → Bool
differs_from_job env request job worker token =
    not (request.job_id == job.id)
    || (not (some request.source_attempt_id == job.current_attempt_id)
        || (not (request.expected_lease_owner == some worker)
            || (not (request.expected_lease_token == some token)
                || (not (request.expected_worktree_id == job.managed_worktree_id)
                    || (not (same_texts request.expected_resources job.required_resources)
                        || not (
                            request.expected_resources_sha256
                            == env.resources_sha256 job.required_resources))))))

abbrev pub differs_from_attempt : Control → Attempt → Bool
differs_from_attempt request attempt =
    not (attempt.managed_worktree_id == request.expected_worktree_id)
    || (not (attempt.managed_worktree_generation == request.expected_worktree_generation)
        || (not (attempt.external_provider == request.expected_provider)
            || not (attempt.external_session_id == request.expected_session_id)))

-- The process that the request names, in the latest record of it.
abbrev pub named_process : Control → Attempt → Db → Option ExternalProcess
named_process request attempt db = latest (
    select
      (λ p.
        p.attempt_id == attempt.id
        && (some p.process_id == request.expected_process_id
            && some p.process_group_id == request.expected_process_group_id))
      db.external_processes)

abbrev is_replaced : ExternalProcess → Attempt → Db → Bool
is_replaced external attempt db =
    any (λ p. is_unstopped (some attempt.id) p && not (p.id == external.id)) db.external_processes

-- `expected_process == observed_process`
abbrev pub is_expected : Control → Option ExternalProcess → Bool
is_expected request none =
    is_none request.expected_process_id
    && (is_none request.expected_process_group_id
        && (is_none request.expected_process_start_seconds
            && (is_none request.expected_process_start_microseconds
                && is_none request.expected_process_executable)))
is_expected request (some p) =
    request.expected_process_id == some p.process_id
    && (request.expected_process_group_id == some p.process_group_id
        && (request.expected_process_start_seconds == p.start_seconds
            && (request.expected_process_start_microseconds == p.start_microseconds
                && request.expected_process_executable == p.kernel_executable)))

-- The process that _assert_operator_interrupt_request observes.
unfoldable pub observe_process : Control → Attempt → Bool → Tx (Option ExternalProcess)
observe_process request attempt allow_stopped =
    if not (allow_stopped && is_some request.expected_process_id)
    then select_from (λ db. latest (select (is_unstopped (some attempt.id)) db.external_processes))
    else do
      found ← select_from (named_process request attempt)
      external ← require found lease_conflict
      conflict_if
          (not (external.state == ProcessState.active)
            && not (external.state == ProcessState.stopped))
          lease_conflict
      replaced ← select_from (is_replaced external attempt)
      conflict_if (external.state == ProcessState.stopped && replaced) lease_conflict
      pure (some external)

-- _assert_operator_interrupt_request
unfoldable pub assert_operator_interrupt_request :
    Env → String → Job → String → String → Bool → Tx Control
assert_operator_interrupt_request env request_id job worker token allow_stopped = do
  asked ← select_from (λ db.
      find
        (λ c.
          c.id == request_id
          && (c.action == ControlAction.interrupt && c.status == ControlStatus.pending))
        db.operator_controls)
  request ← require asked lease_conflict
  conflict_if (differs_from_job env request job worker token) lease_conflict
  found ← select_from (λ db. find (is_running_attempt job) db.attempts)
  attempt ← require found lease_conflict
  conflict_if (differs_from_attempt request attempt) lease_conflict
  external ← observe_process request attempt allow_stopped
  conflict_if (not (is_expected request external)) lease_conflict
  pure request

-- The request is marked as applied.
unfoldable pub apply_interrupt : Option Control → String → Job → String → ℕ → Tx (Unit {0})
apply_interrupt none reason job worker now = pure tt
apply_interrupt (some request) reason job worker now = do
  changed ←
      update_controls (λ c. c.id == request.id && c.status == ControlStatus.pending)
        (λ c. record c {
          status = ControlStatus.applied;
          target_attempt_id = job.current_attempt_id;
          applied_at = some now;
        })
  conflict_if (not (eqb changed 1)) lease_conflict
  append_event (
      job_event "operator.interrupt_applied" job (some request.requested_by)
        (("request_id", text request.id)
          ∷ ("attempt_id", optional job.current_attempt_id)
          ∷ ("reason", text reason)
          ∷ [])
        now)

module _ (env : Env) where
  -- interrupt_job, once the fences hold: the job is requeued and its lease is given up.
  unfoldable pub write_interruption :
      Job → String → String → String → Option String → ℕ → Tx (Unit {0})
  write_interruption job worker token reason request now = do
    end_prepared_focused_execution job abandoned reason now (some worker)
    end_prepared_evidence_executions job abandoned reason now (some worker)
    move_item job job.active_item_state job.queued_item_state now
    _ ← update_attempts (is_running_attempt job) (λ a. record a {
      status = AttemptStatus.interrupted;
      error = some reason;
      finished_at = some now;
    })
    _ ←
        update_jobs (λ j. j.id == job.id)
          (λ j. record (unleased j) {
            status = JobStatus.pending;
            last_error = some reason;
            available_at = now;
            updated_at = now;
          })
    release_leases env job worker token now
    append_event (
        job_event "job.interrupted" job (some worker)
          (("reason", text reason)
            ∷ ("operator_request_id", optional request)
            ∷ ("from_state", state job.active_item_state)
            ∷ ("to_state", state job.queued_item_state)
            ∷ [])
          now)

  -- The request that interrupt_job applies: it stands, and gives the reason.
  unfoldable pub authorize_interrupt :
      Option String → String → Job → String → String → Tx (Option Control)
  authorize_interrupt none reason job worker token = do
    assert_no_pending_operator_interrupt job.id
    pure none
  authorize_interrupt (some request_id) reason job worker token = do
    request ← assert_operator_interrupt_request env request_id job worker token true
    conflict_if (not (reason == request.reason)) lease_conflict
    pure (some request)

  -- interrupt_job
  unfoldable pub interrupt_job :
      String → String → String → String → Option String → ℕ → Tx (Unit {0})
  interrupt_job job_id worker token reason request_id now = do
    job ← assert_live_lease job_id worker token now
    request ← authorize_interrupt request_id reason job worker token
    assert_external_process_stopped job
    write_interruption job worker token reason request_id now
    apply_interrupt request reason job worker now
