-- ===== src/Store/Fences.antt =====
-- storage.py: the `_assert_...` methods that fence every mutation of a running job.
use python_ai_agent_flow.Prelude.{
  ℕ, String, Option, none, some, Bool, not, ◌&&◌, ◌||◌, List, find, select, any, is_some, ltb, leb,
  ◌==◌, nat_eq, string_eq, option_eq, not_found, lease_conflict,
}
use python_ai_agent_flow.Models.Enums.{
  JobStatus, AttemptStatus, WorkspaceKind, job_status_eq, attempt_status_eq, workspace_kind_eq,
}
use python_ai_agent_flow.Store.Statuses.{
  ProcessState, WorktreeState, ControlAction, ControlStatus, process_state_eq, worktree_state_eq,
  control_action_eq, control_status_eq,
}
use python_ai_agent_flow.Store.Rows.{
  Db, Campaign, Job, ResourceLease, Definition, DefinitionRow, ExternalProcess, Worktree, Control,
}
use python_ai_agent_flow.Store.Env.{Env}
use python_ai_agent_flow.Store.Queries.{order_by, first, ascending_key, descending, has_passed}
use python_ai_agent_flow.Store.Tx.{
  Tx, pure, select_from, require, conflict_if, for_each, if◌then◌else◌, ◌>>=◌, ◌>>◌,
}

abbrev pub job_by_id : String → Db → Option Job
job_by_id id db = find (λ j. j.id == id) db.jobs

-- The row is held by the worker with the token, and its lease has not passed.
unfoldable pub is_live : Job → String → String → ℕ → Bool
is_live j worker token now = not (
    not (j.status == JobStatus.running)
    || (not (j.lease_owner == some worker)
        || (not (j.lease_token == some token) || has_passed j.lease_expires_at now)))

-- _assert_live_lease
unfoldable pub assert_live_lease : String → String → String → ℕ → Tx Job
assert_live_lease job_id worker token now = do
  found ← select_from (job_by_id job_id)
  job ← require found not_found
  conflict_if (not (is_live job worker token now)) lease_conflict
  pure job

-- _assert_no_pending_operator_interrupt
abbrev pub is_pending_interrupt : String → Control → Bool
is_pending_interrupt job_id c =
    c.job_id == job_id && (c.action == ControlAction.interrupt && c.status == ControlStatus.pending)

unfoldable pub assert_no_pending_operator_interrupt : String → Tx (Unit {0})
assert_no_pending_operator_interrupt job_id = do
  pending ← select_from (λ db. any (is_pending_interrupt job_id) db.operator_controls)
  conflict_if pending lease_conflict

-- `state != 'stopped'` of one attempt's processes.
abbrev pub is_unstopped : Option String → ExternalProcess → Bool
is_unstopped attempt_id p = some p.attempt_id == attempt_id && not (p.state == ProcessState.stopped)

abbrev pub recorded_later : ExternalProcess → ExternalProcess → Bool
recorded_later p q = descending p.recorded_at p.id q.recorded_at q.id

abbrev pub latest : List ExternalProcess → Option ExternalProcess
latest ps = first (order_by recorded_later ps)

abbrev is_process_of : Option String → Option ℕ → ExternalProcess → Bool
is_process_of attempt_id process_id p =
    some p.attempt_id == attempt_id && some p.process_id == process_id

-- _assert_external_process_stopped
unfoldable pub assert_external_process_stopped : Job → Tx (Unit {0})
assert_external_process_stopped job = do
  external ←
      select_from
        (λ db. latest (select (is_unstopped job.current_attempt_id) db.external_processes))
  found ← select_from (λ db. find (λ a. some a.id == job.current_attempt_id) db.attempts)
  attempt ← require found lease_conflict
  recorded ← select_from (λ db. latest (
      select (is_process_of job.current_attempt_id attempt.external_process_id)
        db.external_processes))
  conflict_if
      (not (is_some external) && (is_some attempt.external_process_id && not (is_some recorded)))
      lease_conflict
  conflict_if (is_some external) lease_conflict

abbrev pub is_ready_worktree : Option String → Job → Worktree → Bool
is_ready_worktree id job w =
    some w.id == id
    && (w.campaign_id == job.campaign_id
        && (w.work_item_id == job.work_item_id && w.state == WorktreeState.ready))

-- _assert_managed_worktree_binding
unfoldable pub assert_managed_worktree_binding : Job → Tx (Unit {0})
assert_managed_worktree_binding job =
    if not (job.workspace_kind == WorkspaceKind.managed_worktree) then pure tt else do
      conflict_if (not (is_some job.managed_worktree_id)) lease_conflict
      ready ←
          select_from
            (λ db. find (is_ready_worktree job.managed_worktree_id job) db.managed_worktrees)
      found ← select_from (λ db. find (λ a. some a.id == job.current_attempt_id) db.attempts)
      worktree ← require ready lease_conflict
      attempt ← require found lease_conflict
      conflict_if
          (not (attempt.managed_worktree_id == some worktree.id)
            || not (attempt.managed_worktree_generation == some worktree.generation))
          lease_conflict

-- _assert_resume_authorization_fulfilled, once the authorization is found.
unfoldable pub assert_resumed_as : Job → Control → Tx (Unit {0})
assert_resumed_as job authorization = do
  found ← select_from (λ db. find (λ a. some a.id == job.current_attempt_id) db.attempts)
  attempt ← require found lease_conflict
  conflict_if
      (not (attempt.external_provider == authorization.expected_provider)
        || not (attempt.external_session_id == authorization.expected_session_id))
      lease_conflict
  stopped ← select_from (λ db.
      any
        (λ p.
          some p.attempt_id == job.current_attempt_id
          && (p.state == ProcessState.stopped
              && some p.provider == authorization.expected_provider))
        db.external_processes)
  conflict_if (not stopped) lease_conflict

abbrev pub assert_authorized : Job → Option Control → Tx (Unit {0})
assert_authorized job none = pure tt
assert_authorized job (some authorization) = assert_resumed_as job authorization

-- _assert_resume_authorization_fulfilled
unfoldable pub assert_resume_authorization_fulfilled : Job → Tx (Unit {0})
assert_resume_authorization_fulfilled job = do
  authorization ← select_from (λ db.
      find
        (λ c.
          c.target_attempt_id == job.current_attempt_id
          && (is_some c.target_attempt_id
              && (c.action == ControlAction.resume && c.status == ControlStatus.applied)))
        db.operator_controls)
  assert_authorized job authorization

abbrev pub definition_by_id : Option String → Db → Option DefinitionRow
definition_by_id id db = find (λ d. some d.id == id) db.resource_definitions

-- `campaign_id in (None, job.campaign_id)`
abbrev pub is_in_scope : Definition → Job → Bool
is_in_scope d job = d.campaign_id == none || d.campaign_id == some job.campaign_id

abbrev lease_order : ResourceLease → ResourceLease → Bool
lease_order a b = ascending_key a.resource_key a.lease_slot b.resource_key b.lease_slot

-- _registered_job_resource_leases
unfoldable pub registered_job_resource_leases : String → Db → List ResourceLease
registered_job_resource_leases job_id db =
    order_by lease_order
      (select (λ l. l.job_id == some job_id && is_some l.resource_definition_id) db.resource_leases)

module _ (env : Env) where
  -- One round of _assert_registered_resource_fences.
  unfoldable pub assert_registered_fence : Job → ℕ → ResourceLease → Tx (Unit {0})
  assert_registered_fence job now lease = do
    row ← select_from (definition_by_id lease.resource_definition_id)
    definition_row ← require row lease_conflict
    definition ← require (env.validated definition_row) lease_conflict
    conflict_if
        (not definition.enabled
          || (not (is_in_scope definition job)
              || (not (lease.resource_key == definition.id)
                  || (not (lease.resource_identity_hash == some definition.identity_hash)
                      || (ltb definition.limit lease.lease_slot || leb lease.expires_at now)))))
        lease_conflict

  -- _assert_registered_resource_fences
  unfoldable pub assert_registered_resource_fences : Job → ℕ → Tx (Unit {0})
  assert_registered_resource_fences job now = do
    rows ← select_from (registered_job_resource_leases job.id)
    for_each (assert_registered_fence job now) rows

  abbrev pub assert_pinned_admission : Job → Campaign → Option String → Tx (Unit {0})
  assert_pinned_admission job campaign none =
      conflict_if (campaign.execution_mode == "focused_test_admission") lease_conflict
  assert_pinned_admission job campaign (some id) = do
    conflict_if (not (campaign.execution_mode == "focused_test_admission")) lease_conflict
    found ← select_from (λ db. find (λ a. a.id == id) db.focused_test_admissions)
    admission ← require found lease_conflict
    live ← select_from (λ db. env.admission_live db admission job)
    conflict_if (not live) lease_conflict

  -- _assert_attempt_focused_test_admission
  unfoldable pub assert_attempt_focused_test_admission : Job → Tx (Unit {0})
  assert_attempt_focused_test_admission job = do
    found ← select_from (λ db.
        find
          (λ a.
            some a.id == job.current_attempt_id
            && (a.job_id == job.id && a.status == AttemptStatus.running))
          db.attempts)
    attempt ← require found lease_conflict
    owner ← select_from (λ db. find (λ c. c.id == job.campaign_id) db.campaigns)
    campaign ← require owner lease_conflict
    assert_pinned_admission job campaign attempt.focused_test_admission_id
