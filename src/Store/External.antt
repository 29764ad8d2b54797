-- ===== src/Store/External.antt =====
-- storage.py: `claim_external_process_reconciliation` and `complete_external_process_reconciliation`.
pub mod Claimed
pub mod Released
use python_ai_agent_flow.Prelude.{
  ℕ, ◌+◌, String, Option, none, some, Bool, true, not, ◌&&◌, ◌||◌, List, [], ◌∷◌, count, update,
  find, select, any, mem, is_none, ltb, leb, eqb, length, ◌==◌, nat_eq, string_eq, option_eq,
  not_found, value_error, lease_conflict, ok, false,
}
use python_ai_agent_flow.Prelude.Texts.{codes, stripped}
use python_ai_agent_flow.Models.Enums.{JobStatus, job_status_eq}
use python_ai_agent_flow.Reconciler.Identity.{
  PersistedIdentity, is_empty, ReconciliationStatus, gone, terminated, quarantined, Observed,
}
use python_ai_agent_flow.Store.Statuses.{ProcessState, process_state_eq, ExecutionStatus}
use python_ai_agent_flow.Store.Rows.{Db, Job, ExternalProcess, Datum}
use python_ai_agent_flow.Store.Env.{Env}
use python_ai_agent_flow.Store.Queries.{order_by, first, ascending, at_most, has_passed}
use python_ai_agent_flow.Store.Fences.{latest, job_by_id}
use python_ai_agent_flow.Store.Events.{
  job_event, end_prepared_focused_execution, end_prepared_evidence_executions,
}
use python_ai_agent_flow.Store.Recover.{expire_job_after_lease}
use python_ai_agent_flow.Store.Tx.{
  Tx, pure, raise, select_from, require, conflict_if, append_event, if◌then◌else◌, ◌>>=◌, ◌>>◌,
}

unfoldable pub update_processes :
    (ExternalProcess → Bool) → (ExternalProcess → ExternalProcess) → Tx ℕ
update_processes p f db = ok (
  count p db.external_processes,
  record db { external_processes = update p f db.external_processes },
)

-- `reconciliation_token IS NULL OR reconciliation_expires_at <= now`
abbrev pub is_unclaimed : ℕ → ExternalProcess → Bool
is_unclaimed now p = is_none p.reconciliation_token || at_most p.reconciliation_expires_at now

-- `state IN (...)`
abbrev pub is_listed : Bool → ExternalProcess → Bool
is_listed include_quarantined p =
    p.state == ProcessState.active
    || (p.state == ProcessState.legacy_unverifiable
        || (include_quarantined && p.state == ProcessState.quarantined))

-- The job of a process, where it runs the process's attempt on a lease that has passed.
abbrev pub is_left_by : ℕ → ExternalProcess → Job → Bool
is_left_by now p j =
    j.id == p.job_id
    && (j.status == JobStatus.running
        && (j.current_attempt_id == some p.attempt_id && at_most j.lease_expires_at now))

unfoldable pub is_candidate : Bool → List String → ℕ → Db → ExternalProcess → Bool
is_candidate include_quarantined excluded now db p =
    is_listed include_quarantined p
    && (not (mem p.attempt_id excluded) && (is_unclaimed now p && any (is_left_by now p) db.jobs))

-- `ORDER BY ep.recorded_at, ep.id LIMIT 1`
abbrev pub next_candidate : Bool → List String → ℕ → Db → Option ExternalProcess
next_candidate include_quarantined excluded now db = first (
    order_by (λ p q. ascending p.recorded_at p.id q.recorded_at q.id)
      (select (is_candidate include_quarantined excluded now db) db.external_processes))

-- The columns that a claim writes.
abbrev pub claimed_row : String → String → ℕ → ℕ → ExternalProcess → ExternalProcess
claimed_row owner token expires_at now p = record p {
  reconciliation_owner = some owner;
  reconciliation_token = some token;
  reconciliation_expires_at = some expires_at;
  updated_at = now;
}

unfoldable pub claim_candidate :
    String → String → ℕ → ℕ → Option ExternalProcess → Tx (Option ExternalProcess)
claim_candidate owner token lease_seconds now none = pure none
claim_candidate owner token lease_seconds now (some candidate) = do
  found ← select_from (job_by_id candidate.job_id)
  job ← require found not_found
  changed ←
      update_processes
        (λ p. p.id == candidate.id && (p.state == candidate.state && is_unclaimed now p))
        (claimed_row owner token (now + lease_seconds) now)
  conflict_if (not (eqb changed 1)) lease_conflict
  append_event (
      job_event "worker.external_process_reconciliation_claimed" job (some owner)
        (("attempt_id", Datum.text candidate.attempt_id)
          ∷ ("process_id", Datum.number candidate.process_id)
          ∷ ("process_group_id", Datum.number candidate.process_group_id)
          ∷ ("expires_at", Datum.number (now + lease_seconds))
          ∷ [])
        now)
  select_from (λ db. find (λ p. p.id == candidate.id) db.external_processes)

-- A text of 1 up to `limit` characters.
abbrev is_within : ℕ → String → Bool
is_within limit s = not (s == "") && leb (length (codes s)) limit

-- claim_external_process_reconciliation; the token is drawn.
unfoldable pub claim_external_process_reconciliation :
    String → ℕ → Bool → List String → String → ℕ → Tx (Option ExternalProcess)
claim_external_process_reconciliation named lease_seconds include_quarantined excluded token now =
    let owner = stripped named in
    do
      conflict_if (not (is_within 256 owner)) value_error
      conflict_if (eqb lease_seconds 0) value_error
      candidate ← select_from (next_candidate include_quarantined excluded now)
      claim_candidate owner token lease_seconds now candidate

pub record Completion : Type 0 where
  pub job_id : String
  pub attempt_id : String
  pub status : ReconciliationStatus
  pub recovered : Bool

abbrev status_text : ReconciliationStatus → String
status_text gone = "gone"
status_text terminated = "terminated"
status_text quarantined = "quarantined"

abbrev pub status_is_quarantined : ReconciliationStatus → Bool
status_is_quarantined quarantined = true
status_is_quarantined _ = false

-- The claim on a process of an attempt.
abbrev pub is_claim : String → String → String → ExternalProcess → Bool
is_claim attempt_id owner token p =
    p.attempt_id == attempt_id
    && (p.reconciliation_owner == some owner && p.reconciliation_token == some token)

-- `persisted_identity`
abbrev pub persisted_identity : ExternalProcess → PersistedIdentity
persisted_identity p = record {
  process_id = p.process_id;
  process_group_id = p.process_group_id;
  user_id = p.owner_uid;
  executable = p.kernel_executable;
  start_seconds = p.start_seconds;
  start_microseconds = p.start_microseconds;
  target_executable = p.target_executable;
  identity_version = p.identity_version;
}

abbrev pub same_identity : PersistedIdentity → PersistedIdentity → Bool
same_identity a b =
    a.process_id == b.process_id
    && (a.process_group_id == b.process_group_id
        && (a.user_id == b.user_id
            && (a.executable == b.executable
                && (a.start_seconds == b.start_seconds
                    && (a.start_microseconds == b.start_microseconds
                        && (a.target_executable == b.target_executable
                            && a.identity_version == b.identity_version))))))

-- The row names no process that could be verified.
abbrev pub is_unverifiable : ExternalProcess → Bool
is_unverifiable p =
    not (p.identity_version == some "darwin_libproc_v1")
    || (is_none p.owner_uid
        || (is_none p.start_seconds
            || (is_none p.start_microseconds
                || (is_empty p.kernel_executable || is_empty p.target_executable))))

-- The job runs another attempt, or its lease has not passed.
abbrev pub is_not_expired : String → ℕ → Job → Bool
is_not_expired attempt_id now job =
    not (job.status == JobStatus.running)
    || (not (job.current_attempt_id == some attempt_id) || not (at_most job.lease_expires_at now))

-- The columns of a claim, at its end.
abbrev unclaimed : ExternalProcess → ExternalProcess
unclaimed p = record p {
  reconciliation_owner = none;
  reconciliation_token = none;
  reconciliation_expires_at = none;
}

abbrev pub quarantined_row : String → ℕ → ExternalProcess → ExternalProcess
quarantined_row reason now p = record (unclaimed p) {
  state = ProcessState.quarantined;
  outcome = some quarantined;
  last_error = some reason;
  updated_at = now;
}

abbrev pub stopped_row : ReconciliationStatus → ℕ → ExternalProcess → ExternalProcess
stopped_row status now p = record (unclaimed p) {
  state = ProcessState.stopped;
  stopped_at = some now;
  outcome = some status;
  last_error = none;
  updated_at = now;
}

-- The row that carries the claim, or why there is none.
unfoldable pub claim_or_refusal : String → Option ExternalProcess → Tx ExternalProcess
claim_or_refusal attempt_id (some p) = pure p
claim_or_refusal attempt_id none = do
  exists ← select_from (λ db. any (λ p. p.attempt_id == attempt_id) db.external_processes)
  conflict_if (not exists) not_found
  raise lease_conflict

abbrev completion_data :
    ExternalProcess → String → ReconciliationStatus → String → Observed → List (String × Datum)
completion_data p attempt_id status reason seen =
    ("attempt_id", Datum.text attempt_id)
    ∷ ("process_id", Datum.number p.process_id)
    ∷ ("process_group_id", Datum.number p.process_group_id)
    ∷ ("status", Datum.text (status_text status))
    ∷ ("reason", Datum.text reason)
    ∷ ("observed", Datum.observation seen)
    ∷ []

-- The process stays, and so does the job.
unfoldable pub keep_quarantined :
    Job → ExternalProcess → String → String → String → Observed → ℕ → Tx Completion
keep_quarantined job p attempt_id owner reason seen now = do
  end_prepared_focused_execution job ExecutionStatus.quarantined reason now (some owner)
  end_prepared_evidence_executions job ExecutionStatus.quarantined reason now (some owner)
  _ ← update_processes (λ q. q.id == p.id) (quarantined_row reason now)
  append_event (
      job_event "worker.external_process_reconciliation_blocked" job (some owner)
        (completion_data p attempt_id quarantined reason seen) now)
  pure record { job_id = job.id; attempt_id = attempt_id; status = quarantined; recovered = false }

module _ (env : Env) where
  -- The process is gone, and its job is given back.
  unfoldable pub release_stopped :
      Job
      → ExternalProcess
      → String
      → String
      → ReconciliationStatus
      → String
      → Observed
      → ℕ
      → Tx Completion
  release_stopped job p attempt_id owner status reason seen now = do
    conflict_if (is_unverifiable p) lease_conflict
    changed ← update_processes (λ q. q.id == p.id && is_listed true q) (stopped_row status now)
    conflict_if (not (eqb changed 1)) lease_conflict
    append_event (
        job_event "worker.external_process_reconciled" job (some owner)
          (completion_data p attempt_id status reason seen) now)
    expire_job_after_lease env job "lease expired after external process reconciliation"
        (("external_process_status", Datum.text (status_text status)) ∷ []) now
    pure record { job_id = job.id; attempt_id = attempt_id; status = status; recovered = true }

  -- complete_external_process_reconciliation
  unfoldable pub complete_external_process_reconciliation :
      String
      → String
      → String
      → PersistedIdentity
      → ReconciliationStatus
      → String
      → Observed
      → ℕ
      → Tx Completion
  complete_external_process_reconciliation attempt_id owner token expected status given seen now =
      let reason = stripped given in
      do
        conflict_if (not (is_within 4096 reason)) value_error
        found ←
            select_from
              (λ db. latest (select (is_claim attempt_id owner token) db.external_processes))
        p ← claim_or_refusal attempt_id found
        row ← select_from (job_by_id p.job_id)
        job ← require row not_found
        conflict_if
            (not (is_claim attempt_id owner token p) || has_passed p.reconciliation_expires_at now)
            lease_conflict
        conflict_if (is_not_expired attempt_id now job) lease_conflict
        conflict_if (not (same_identity expected (persisted_identity p))) lease_conflict
        if status_is_quarantined status
            then keep_quarantined job p attempt_id owner reason seen now
            else release_stopped job p attempt_id owner status reason seen now
