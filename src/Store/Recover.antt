-- ===== src/Store/Recover.antt =====
-- storage.py: what becomes of leases that expire.
use Prim.Native.String.{◌++◌ as str_append}
use python_ai_agent_flow.Prelude.{
  ℕ, String, Option, none, some, Bool, not, ◌&&◌, ◌||◌, List, [], ◌∷◌, ◌++◌, find, select, all,
  length, is_some, is_none, leb, eqb, ◌==◌, nat_eq, string_eq, option_eq, to_set, lease_conflict,
}
use python_ai_agent_flow.Models.Enums.{JobStatus, AttemptStatus, job_status_eq, attempt_status_eq}
use python_ai_agent_flow.Store.Statuses.{abandoned, ControlStatus, control_status_eq}
use python_ai_agent_flow.Store.Rows.{
  Db, Job, ResourceLease, ExternalProcess, Control, Datum, text, state,
}
use python_ai_agent_flow.Store.Env.{Env}
use python_ai_agent_flow.Store.Queries.{order_by, at_most, text_before}
use python_ai_agent_flow.Store.Fences.{
  is_pending_interrupt, is_unstopped, registered_job_resource_leases,
}
use python_ai_agent_flow.Store.Events.{
  job_event, optional, append_resource_lease_event, append_resource_lease_events,
  end_prepared_focused_execution, end_prepared_evidence_executions,
}
use python_ai_agent_flow.Store.Lifecycle.{
  same_keys, keys_of, of_job, is_running_attempt, unleased, move_item,
}
use python_ai_agent_flow.Store.Tx.{
  Tx, pure, select_from, conflict_if, update_jobs, update_attempts, update_controls, delete_leases,
  append_event, for_each, if◌then◌else◌, ◌>>=◌, ◌>>◌,
}

-- A request to interrupt the job is rejected, since it came too late.
unfoldable pub reject_interrupt : Job → String → ℕ → Option Control → Tx (Unit {0})
reject_interrupt job error now none = pure tt
reject_interrupt job error now (some pending) =
    let reason = str_append error " before the operator interrupt was applied" in
    do
      changed ←
          update_controls (λ c. c.id == pending.id && c.status == ControlStatus.pending)
            (λ c. record c { status = ControlStatus.rejected; last_error = some reason })
      conflict_if (not (eqb changed 1)) lease_conflict
      append_event (
          job_event "operator.interrupt_rejected" job (some pending.requested_by)
            (("request_id", text pending.id)
              ∷ ("attempt_id", optional job.current_attempt_id)
              ∷ ("reason", text reason)
              ∷ [])
            now)

-- The leases are those that the job requires, under the job's own fence.
unfoldable pub assert_expired_fences : Job → Tx (Unit {0})
assert_expired_fences job = do
  persisted ← select_from (λ db. select (of_job job) db.resource_leases)
  conflict_if
      (not (same_keys (keys_of persisted) job.required_resources)
        || not (
            all (λ l. some l.owner_id == job.lease_owner && some l.lease_token == job.lease_token)
              persisted))
      lease_conflict

-- `id = ? AND status = 'running' AND current_attempt_id = ?`
abbrev pub is_running_job : Job → Job → Bool
is_running_job job j =
    j.id == job.id
    && (j.status == JobStatus.running
        && (is_some j.current_attempt_id && j.current_attempt_id == job.current_attempt_id))

-- The columns of a job whose lease expired.
abbrev pub expired_row : String → ℕ → Job → Job
expired_row error now j = record (unleased j) {
  status = JobStatus.pending;
  available_at = now;
  last_error = some error;
  updated_at = now;
}

-- The attempt and the job are given back.
unfoldable pub write_expiry : Job → String → ℕ → Tx (Unit {0})
write_expiry job error now = do
  attempt_changed ←
      update_attempts (is_running_attempt job) (λ a. record a {
        status = AttemptStatus.expired;
        finished_at = some now;
        error = some error;
      })
  conflict_if (not (eqb attempt_changed 1)) lease_conflict
  job_changed ← update_jobs (is_running_job job) (expired_row error now)
  conflict_if (not (eqb job_changed 1)) lease_conflict
  released ← delete_leases (λ l.
      l.job_id == some job.id
      && (some l.owner_id == job.lease_owner && some l.lease_token == job.lease_token))
  conflict_if (not (eqb released (length (to_set job.required_resources)))) lease_conflict

-- What a recovery reports: the jobs given back, and the jobs held by a process with that process.
pub record Recovered : Type 0 where
  pub job_ids : List String
  pub external_processes_pending : List (String × ExternalProcess)

-- A running job whose lease has passed.
abbrev pub is_expired : ℕ → Job → Bool
is_expired now j = j.status == JobStatus.running && at_most j.lease_expires_at now

-- The unstopped process of the job's attempt.
unfoldable pub process_of : Job → Db → Option ExternalProcess
process_of job db = find (is_unstopped job.current_attempt_id) db.external_processes

module _ (env : Env) where
  -- _expire_job_after_lease
  unfoldable pub expire_job_after_lease : Job → String → List (String × Datum) → ℕ → Tx (Unit {0})
  expire_job_after_lease job error details now = do
    pending ← select_from (λ db. find (is_pending_interrupt job.id) db.operator_controls)
    reject_interrupt job error now pending
    assert_expired_fences job
    registered ← select_from (registered_job_resource_leases job.id)
    move_item job job.active_item_state job.queued_item_state now
    end_prepared_focused_execution job abandoned error now none
    end_prepared_evidence_executions job abandoned error now none
    write_expiry job error now
    append_resource_lease_events env "resource.recovered" registered job.campaign_id
        job.work_item_id job.id job.lease_owner now
    append_event (
        job_event "job.lease_expired" job none
          (("from_state", state job.active_item_state)
            ∷ ("to_state", state job.queued_item_state)
            ∷ ("attempt_id", optional job.current_attempt_id)
            ∷ details)
          now)

  -- One round of _recover_expired over the expired jobs.
  unfoldable pub recover_job : ℕ → Job → Option ExternalProcess → Recovered → Tx Recovered
  recover_job now job (some external) done = pure record done {
    external_processes_pending = done.external_processes_pending ++ (job.id, external) ∷ [];
  }
  recover_job now job none done = do
    expire_job_after_lease job "lease expired" [] now
    pure record done { job_ids = done.job_ids ++ job.id ∷ [] }

  unfoldable pub recover_jobs : ℕ → List Job → Recovered → Tx Recovered
  recover_jobs now [] done = pure done
  recover_jobs now (job ∷ jobs) done = do
    external ← select_from (process_of job)
    more ← recover_job now job external done
    recover_jobs now jobs more

  -- `r.job_id IS NULL OR j.status IS NULL OR j.status != 'running'`
  abbrev has_no_runner : Db → ResourceLease → Bool
  has_no_runner db l =
      all (λ j. not (some j.id == l.job_id) || not (j.status == JobStatus.running)) db.jobs

  -- An expired lease whose job does not run.
  unfoldable pub is_orphaned : ℕ → Db → ResourceLease → Bool
  is_orphaned now db l = leb l.expires_at now && has_no_runner db l

  -- `str(row)` of a column of the joined row.
  abbrev joined : (Job → String) → Option Job → String
  joined column none = "None"
  joined column (some j) = column j

  abbrev named : Option String → String
  named none = "None"
  named (some s) = s

  -- The event of an orphaned lease.
  unfoldable pub report_orphan : ℕ → ResourceLease → Option Job → Tx (Unit {0})
  report_orphan now l job =
      if is_none l.resource_definition_id
      then append_event (record {
        event_kind = "resource.lease_expired";
        campaign_id = none;
        work_item_id = none;
        job_id = l.job_id;
        actor = some l.owner_id;
        event_data = ("resource_key", text l.resource_key) ∷ [];
        created_at = now;
      })
      else append_resource_lease_event env "resource.recovered" (joined Job.campaign_id job)
          (joined Job.work_item_id job) (named l.job_id) (some l.owner_id) now l

  unfoldable pub drop_orphan : ℕ → ResourceLease → Tx (Unit {0})
  drop_orphan now l = do
    job ← select_from (λ db. find (λ j. some j.id == l.job_id) db.jobs)
    _ ← delete_leases (λ r. r.resource_key == l.resource_key && r.lease_slot == l.lease_slot)
    report_orphan now l job

  -- _recover_expired; the second number is that of the orphaned leases.
  unfoldable pub recover_expired : ℕ → Tx (Recovered × ℕ)
  recover_expired now = do
    expired ←
        select_from
          (λ db. order_by (λ a b. text_before a.id b.id) (select (is_expired now) db.jobs))
    recovered ← recover_jobs now expired record { job_ids = []; external_processes_pending = [] }
    orphaned ← select_from (λ db. select (is_orphaned now db) db.resource_leases)
    for_each (drop_orphan now) orphaned
    pure (recovered, length orphaned)
