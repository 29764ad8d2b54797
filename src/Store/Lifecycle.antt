-- ===== src/Store/Lifecycle.antt =====
-- storage.py: how a running job is kept alive and how it ends: heartbeat, success, failure,
-- interruption.
use python_ai_agent_flow.Prelude.{
  ℕ, ◌+◌, String, Option, none, some, Bool, true, false, not, ◌&&◌, ◌||◌, List, [], ◌∷◌, find,
  select, count, all, length, is_some, ltb, leb, eqb, ◌==◌, nat_eq, string_eq, option_eq, mem,
  to_set, value_error, lease_conflict, transition_conflict,
}
use python_ai_agent_flow.Models.Enums.{
  JobStatus, AttemptStatus, ItemState, item_state_eq, job_status_eq, attempt_status_eq,
}
use python_ai_agent_flow.Models.Evidence.{Fields}
use python_ai_agent_flow.Store.Statuses.{
  abandoned, WorktreeState, worktree_state_eq, control_status_eq,
}
use python_ai_agent_flow.Store.Rows.{
  Db, Job, Attempt, ResourceLease, Worktree, Datum, text, number, flag, state,
}
use python_ai_agent_flow.Store.Env.{Env}
use python_ai_agent_flow.Store.Fences.{
  assert_live_lease, assert_no_pending_operator_interrupt, assert_external_process_stopped,
  assert_managed_worktree_binding, assert_resume_authorization_fulfilled,
  registered_job_resource_leases, assert_registered_resource_fences,
  assert_attempt_focused_test_admission,
}
use python_ai_agent_flow.Store.Events.{
  job_event, append_resource_lease_events, end_prepared_focused_execution,
  end_prepared_evidence_executions,
}
use python_ai_agent_flow.Store.Tx.{
  Tx, pure, select_from, conflict_if, update_work_items, update_jobs, update_attempts,
  update_leases, delete_leases, append_event, ◌>>=◌, ◌>>◌,
}

-- `set(actual) == set(expected)`
abbrev pub same_keys : List String → List String → Bool
same_keys xs ys = all (λ x. mem x ys) xs && all (λ y. mem y xs) ys

abbrev pub keys_of : List ResourceLease → List String
keys_of [] = []
keys_of (l ∷ ls) = l.resource_key ∷ keys_of ls

abbrev pub of_job : Job → ResourceLease → Bool
of_job job l = l.job_id == some job.id

-- `job_id = ? AND owner_id = ? AND lease_token = ?`
abbrev pub held_by : Job → String → String → ResourceLease → Bool
held_by job worker token l =
    l.job_id == some job.id && (l.owner_id == worker && l.lease_token == token)

-- `id = ? AND status = 'running'` of the current attempt.
abbrev pub is_running_attempt : Job → Attempt → Bool
is_running_attempt job a = some a.id == job.current_attempt_id && a.status == AttemptStatus.running

-- The columns of a lease that is given up.
abbrev pub unleased : Job → Job
unleased j = record j {
  lease_owner = none;
  lease_token = none;
  lease_expires_at = none;
  heartbeat_at = none;
  current_attempt_id = none;
}

-- `UPDATE work_items SET state = ? WHERE id = ? AND state = ?`, which must change one row.
unfoldable pub move_item : Job → ItemState → ItemState → ℕ → Tx (Unit {0})
move_item job from to now = do
  changed ←
      update_work_items (λ i. i.id == job.work_item_id && i.state == from)
        (λ i. record i { state = to; updated_at = now })
  conflict_if (not (eqb changed 1)) transition_conflict

-- `if b then x else y` on values.
abbrev pub cond {ℓ} : {A : Type ℓ} → Bool → A → A → A
cond true x y = x
cond false x y = y

-- `x or default` on a time.
abbrev or_now : Option ℕ → ℕ → ℕ
or_now none now = now
or_now (some t) now = t

-- The resource fences of _finish_job.
unfoldable pub assert_resource_fences : Job → String → String → ℕ → Tx (Unit {0})
assert_resource_fences job worker token now = do
  persisted ← select_from (λ db. select (of_job job) db.resource_leases)
  conflict_if
      (not (same_keys (keys_of persisted) job.required_resources)
        || not (
            all (λ l. l.owner_id == worker && (l.lease_token == token && ltb now l.expires_at))
              persisted))
      lease_conflict

-- `worktree is None or worktree["state"] == "quarantined"`
abbrev pub is_quarantined : Option Worktree → Bool
is_quarantined none = true
is_quarantined (some w) = w.state == WorktreeState.quarantined

-- `managed_worktree_quarantined`
unfoldable pub worktree_quarantined : Job → Db → Bool
worktree_quarantined job db =
    is_some job.managed_worktree_id
    && is_quarantined (find (λ w. some w.id == job.managed_worktree_id) db.managed_worktrees)

-- `failed_attempts`
unfoldable pub failed_attempts : String → Db → ℕ
failed_attempts job_id db =
    count (λ a. a.job_id == job_id && a.status == AttemptStatus.failed) db.attempts

-- `will_requeue`
abbrev pub will_requeue : Bool → ℕ → ℕ → Bool → Bool
will_requeue requeue failed max_attempts quarantined =
    requeue && (ltb failed max_attempts && not quarantined)

-- What fail_job records.
abbrev pub failure_data : Job → String → Bool → ItemState → ℕ → ℕ → Bool → List (String × Datum)
failure_data job error again blocked_state failed max_attempts quarantined =
    ("error", text error)
    ∷ ("from_state", state job.active_item_state)
    ∷ ("to_state", state (cond again job.queued_item_state blocked_state))
    ∷ ("attempt_number", number job.attempt_count)
    ∷ ("failed_attempts", number failed)
    ∷ ("max_attempts", number max_attempts)
    ∷ ("managed_worktree_quarantined", flag quarantined)
    ∷ []

module _ (env : Env) where
  -- heartbeat_job
  unfoldable pub heartbeat_job : String → String → String → ℕ → ℕ → Tx (Unit {0})
  heartbeat_job job_id worker token lease_seconds now = do
    conflict_if (leb lease_seconds 0) value_error
    job ← assert_live_lease job_id worker token now
    assert_attempt_focused_test_admission env job
    assert_registered_resource_fences env job now
    _ ←
        update_jobs (λ j. j.id == job_id)
          (λ j. record j {
            heartbeat_at = some now;
            lease_expires_at = some (now + lease_seconds);
            updated_at = now;
          })
    _ ←
        update_attempts (is_running_attempt job)
          (λ a. record a { heartbeat_at = now; lease_expires_at = now + lease_seconds })
    updated ←
        update_leases (held_by job worker token)
          (λ l. record l { heartbeat_at = now; expires_at = now + lease_seconds })
    conflict_if (not (eqb updated (length job.required_resources))) lease_conflict

  -- _finish_job, from the updates on.
  unfoldable pub write_finish :
      Job → String → String → Fields → List ResourceLease → ℕ → Tx (Unit {0})
  write_finish job worker token result registered now = do
    attempt_changed ← update_attempts (is_running_attempt job) (λ a. record a {
      status = AttemptStatus.succeeded;
      result = some result;
      finished_at = some now;
    })
    job_changed ←
        update_jobs
          (λ j.
            j.id == job.id
            && (j.status == JobStatus.running
                && (j.lease_owner == some worker && j.lease_token == some token)))
          (λ j. record (unleased j) {
            status = JobStatus.completed;
            result = some result;
            updated_at = now;
          })
    conflict_if (not (eqb attempt_changed 1) || not (eqb job_changed 1)) lease_conflict
    released ← delete_leases (held_by job worker token)
    conflict_if (not (eqb released (length (to_set job.required_resources)))) lease_conflict
    append_resource_lease_events env "resource.released" registered job.campaign_id job.work_item_id
        job.id (some worker) now

  -- _finish_job
  unfoldable pub finish_job : Job → String → String → Fields → ℕ → Tx (Unit {0})
  finish_job job worker token result now = do
    assert_external_process_stopped job
    assert_resume_authorization_fulfilled job
    assert_managed_worktree_binding job
    assert_registered_resource_fences env job now
    assert_resource_fences job worker token now
    registered ← select_from (registered_job_resource_leases job.id)
    write_finish job worker token result registered now

  -- A job that is given back: its leases are deleted and the release is recorded.
  unfoldable pub release_leases : Job → String → String → ℕ → Tx (Unit {0})
  release_leases job worker token now = do
    registered ← select_from (registered_job_resource_leases job.id)
    _ ← delete_leases (λ l. l.job_id == some job.id && l.lease_token == token)
    append_resource_lease_events env "resource.released" registered job.campaign_id job.work_item_id
        job.id (some worker) now

  -- fail_job, once it is known whether the job is tried again.
  unfoldable pub write_failure :
      Job → String → String → String → Fields → Bool → ItemState → ℕ → ℕ → Tx (Unit {0})
  write_failure job worker token error result again blocked_state available now = do
    move_item job job.active_item_state (cond again job.queued_item_state blocked_state) now
    _ ←
        update_jobs (λ j. j.id == job.id)
          (λ j. record (unleased j) {
            status = cond again JobStatus.pending JobStatus.failed;
            result = some result;
            last_error = some error;
            available_at = available;
            updated_at = now;
          })
    release_leases job worker token now

  -- fail_job; returns whether the job was requeued.
  unfoldable pub fail_job :
      String → String → String → String → Fields → Bool → Option ℕ → ℕ → ItemState → ℕ → Tx Bool
  fail_job job_id worker token error result requeue available max_attempts blocked_state now = do
    conflict_if (ltb max_attempts 1) value_error
    job ← assert_live_lease job_id worker token now
    assert_no_pending_operator_interrupt job_id
    assert_external_process_stopped job
    end_prepared_focused_execution job abandoned error now (some worker)
    end_prepared_evidence_executions job abandoned error now (some worker)
    _ ← update_attempts (is_running_attempt job) (λ a. record a {
      status = AttemptStatus.failed;
      result = some result;
      error = some error;
      finished_at = some now;
    })
    failed ← select_from (failed_attempts job_id)
    quarantined ← select_from (worktree_quarantined job)
    let again = will_requeue requeue failed max_attempts quarantined
    write_failure job worker token error result again blocked_state (or_now available now) now
    append_event (
        job_event (cond again "job.requeued" "job.failed") job (some worker)
          (failure_data job error again blocked_state failed max_attempts quarantined) now)
    pure again
