-- ===== src/Store/Controls.antt =====
-- storage.py: the requests of operators: `request_job_interrupt`, `poll_operator_interrupt` and
-- `request_job_resume`. The parameter `is_plain` says of a text that it has no control character and
-- that no pattern of secrets is found in it.
pub mod Requested
pub mod Polled
use python_ai_agent_flow.Prelude.{
  ℕ, String, Option, none, some, Bool, true, false, not, ◌&&◌, ◌||◌, List, [], ◌∷◌, ◌++◌, find,
  select, any, is_none, leb, eqb, length, ◌==◌, nat_eq, string_eq, option_eq, not_found,
  value_error, lease_conflict,
}
use python_ai_agent_flow.Prelude.Texts.{codes, strip}
use python_ai_agent_flow.Models.Enums.{JobStatus, job_status_eq, AttemptStatus, attempt_status_eq}
use python_ai_agent_flow.Store.Statuses.{
  ProcessState, process_state_eq, ControlAction, control_action_eq, ControlStatus,
  control_status_eq,
}
use python_ai_agent_flow.Store.Rows.{Job, Attempt, ExternalProcess, Control, Datum}
use python_ai_agent_flow.Store.Env.{Env}
use python_ai_agent_flow.Store.Fences.{
  assert_live_lease, is_unstopped, latest, job_by_id, is_pending_interrupt,
}
use python_ai_agent_flow.Store.Events.{job_event}
use python_ai_agent_flow.Store.Interrupt.{assert_operator_interrupt_request}
use python_ai_agent_flow.Store.Tx.{
  Tx, pure, select_from, require, conflict_if, if_absent, append_event, ◌>>=◌, ◌>>◌,
}

-- `value == value.strip()`
abbrev same_codes : List ℕ → List ℕ → Bool
same_codes [] [] = true
same_codes (x ∷ xs) (y ∷ ys) = eqb x y && same_codes xs ys
same_codes _ _ = false

abbrev is_stripped : String → Bool
is_stripped s = same_codes (strip (codes s)) (codes s)

-- Neither empty nor padded, and no longer than a limit.
abbrev is_exact : String → Bool
is_exact s = is_stripped s && not (s == "")

abbrev is_short : String → ℕ → Bool
is_short s limit = leb (length (codes s)) limit

-- INSERT INTO operator_controls: the id is the primary key, and one request of an action may be
-- pending for a job.
abbrev pub clashes : Control → Control → Bool
clashes c r =
    r.id == c.id
    || (r.job_id == c.job_id
        && (r.action == c.action
            && (r.status == ControlStatus.pending && c.status == ControlStatus.pending)))

unfoldable pub insert_control : Control → Tx (Unit {0})
insert_control c db =
    if_absent (any (clashes c) db.operator_controls)
      (record db { operator_controls = db.operator_controls ++ c ∷ [] })

-- _operator_text
unfoldable pub operator_text : (String → Bool) → String → ℕ → Tx (Unit {0})
operator_text is_plain s limit =
    conflict_if (not (is_exact s && (is_short s limit && is_plain s))) value_error

abbrev is_unset : Option String → Bool
is_unset none = true
is_unset (some s) = s == ""

abbrev has_expired : Option ℕ → ℕ → Bool
has_expired none now = false
has_expired (some t) now = leb t now

-- The job does not run under the fence that the operator names.
abbrev pub lacks_fence : Job → String → ℕ → Bool
lacks_fence job token now =
    not (job.status == JobStatus.running)
    || (not (job.lease_token == some token)
        || (has_expired job.lease_expires_at now
            || (is_unset job.lease_owner || is_unset job.current_attempt_id)))

-- The same request again.
abbrev repeats : Job → String → String → String → Control → Bool
repeats job token requested_by reason c =
    some c.source_attempt_id == job.current_attempt_id
    && (c.expected_lease_token == some token
        && (c.requested_by == requested_by && c.reason == reason))

module _ (env : Env) where
  -- The row of a request to interrupt.
  abbrev pub interrupt_row :
      String → String → String → String → ℕ → Job → Attempt → Option ExternalProcess → Control
  interrupt_row request_id token requested_by reason now job attempt external = record {
    id = request_id;
    job_id = job.id;
    action = ControlAction.interrupt;
    status = ControlStatus.pending;
    requested_by = requested_by;
    reason = reason;
    source_attempt_id = attempt.id;
    target_attempt_id = none;
    expected_lease_owner = job.lease_owner;
    expected_lease_token = some token;
    expected_provider = attempt.external_provider;
    expected_session_id = attempt.external_session_id;
    expected_process_id = elim external [ none ↦ none | some p ↦ some p.process_id ];
    expected_process_group_id = elim external [ none ↦ none | some p ↦ some p.process_group_id ];
    expected_process_start_seconds = elim external [ none ↦ none | some p ↦ p.start_seconds ];
    expected_process_start_microseconds = elim external [
      | none ↦ none
      | some p ↦ p.start_microseconds
    ];
    expected_process_executable = elim external [ none ↦ none | some p ↦ p.kernel_executable ];
    expected_worktree_id = attempt.managed_worktree_id;
    expected_worktree_generation = attempt.managed_worktree_generation;
    expected_resources = job.required_resources;
    expected_resources_sha256 = env.resources_sha256 job.required_resources;
    last_error = none;
    requested_at = now;
    applied_at = none;
  }

  abbrev pid_datum : Option ℕ → Datum
  pid_datum none = Datum.absent
  pid_datum (some n) = Datum.number n

  -- A request that is new: the attempt and its process are recorded with it.
  unfoldable pub insert_interrupt : String → String → String → String → ℕ → Job → Tx Control
  insert_interrupt request_id token requested_by reason now job = do
    found ← select_from (λ db.
        find (λ a. some a.id == job.current_attempt_id && a.status == AttemptStatus.running)
          db.attempts)
    attempt ← require found lease_conflict
    external ←
        select_from (λ db. latest (select (is_unstopped (some attempt.id)) db.external_processes))
    let row = interrupt_row request_id token requested_by reason now job attempt external
    insert_control row
    append_event (
        job_event "operator.interrupt_requested" job (some requested_by)
          (("request_id", Datum.text request_id)
            ∷ ("attempt_id", Datum.text attempt.id)
            ∷ ("process_id", pid_datum row.expected_process_id)
            ∷ ("process_group_id", pid_datum row.expected_process_group_id)
            ∷ ("reason", Datum.text reason)
            ∷ [])
          now)
    pure row

  -- A pending request is answered again to the operator who made it, and refused to others.
  unfoldable pub once_pending :
      String → String → String → String → ℕ → Job → Option Control → Tx Control
  once_pending request_id token requested_by reason now job none =
      insert_interrupt request_id token requested_by reason now job
  once_pending request_id token requested_by reason now job (some c) = do
    conflict_if (not (repeats job token requested_by reason c)) lease_conflict
    pure c

  -- request_job_interrupt; the id of the request is drawn.
  unfoldable pub request_job_interrupt :
      (String → Bool) → String → String → String → String → String → ℕ → Tx Control
  request_job_interrupt is_plain job_id token requested_by reason request_id now = do
    operator_text is_plain requested_by 256
    operator_text is_plain reason 4096
    conflict_if (not (is_exact job_id && is_exact token)) value_error
    found ← select_from (job_by_id job_id)
    job ← require found not_found
    conflict_if (lacks_fence job token now) lease_conflict
    existing ← select_from (λ db. find (is_pending_interrupt job_id) db.operator_controls)
    once_pending request_id token requested_by reason now job existing

  unfoldable pub check_pending : Job → String → String → Option Control → Tx (Option Control)
  check_pending job worker token none = pure none
  check_pending job worker token (some c) = do
    validated ← assert_operator_interrupt_request env c.id job worker token true
    pure (some validated)

  -- poll_operator_interrupt
  unfoldable pub poll_operator_interrupt : String → String → String → ℕ → Tx (Option Control)
  poll_operator_interrupt job_id worker token now = do
    job ← assert_live_lease job_id worker token now
    pending ← select_from (λ db. find (is_pending_interrupt job_id) db.operator_controls)
    check_pending job worker token pending

  abbrev resume_row :
      String → String → String → String → String → String → ℕ → Job → Attempt → Control
  resume_row request_id source_attempt_id provider session_id requested_by reason now job attempt =
      record {
        id = request_id;
        job_id = job.id;
        action = ControlAction.resume;
        status = ControlStatus.pending;
        requested_by = requested_by;
        reason = reason;
        source_attempt_id = source_attempt_id;
        target_attempt_id = none;
        expected_lease_owner = none;
        expected_lease_token = none;
        expected_provider = some provider;
        expected_session_id = some session_id;
        expected_process_id = none;
        expected_process_group_id = none;
        expected_process_start_seconds = none;
        expected_process_start_microseconds = none;
        expected_process_executable = none;
        expected_worktree_id = attempt.managed_worktree_id;
        expected_worktree_generation = attempt.managed_worktree_generation;
        expected_resources = job.required_resources;
        expected_resources_sha256 = env.resources_sha256 job.required_resources;
        last_error = none;
        requested_at = now;
        applied_at = none;
      }

  -- The insertion of a resume, whose IntegrityError is a LeaseConflict.
  unfoldable pub insert_resume : Control → Tx (Unit {0})
  insert_resume row = do
    clash ← select_from (λ db. any (clashes row) db.operator_controls)
    conflict_if clash lease_conflict
    insert_control row

  abbrev is_waiting_job : Job → Bool
  is_waiting_job job = job.status == JobStatus.pending && is_none job.current_attempt_id

  -- The session of the interrupted attempt is the one that is named.
  abbrev differs_from_session : Job → String → String → Attempt → Bool
  differs_from_session job provider session_id a =
      not (a.attempt_number == job.attempt_count)
      || (not (a.external_provider == some provider)
          || not (a.external_session_id == some session_id))

  abbrev is_exact_within : String → ℕ → Bool
  is_exact_within s limit = is_exact s && is_short s limit

  -- request_job_resume
  unfoldable pub request_job_resume :
      (String → Bool)
      → String
      → String
      → String
      → String
      → String
      → String
      → String
      → ℕ
      → Tx Control
  request_job_resume is_plain job_id source_attempt_id provider session_id requested_by reason
        request_id now =
      do
        operator_text is_plain requested_by 256
        operator_text is_plain reason 4096
        conflict_if
            (not (
              is_exact_within job_id 512
              && (is_exact_within source_attempt_id 512
                  && (is_exact_within provider 64 && is_exact_within session_id 512))))
            value_error
        found ← select_from (job_by_id job_id)
        job ← require found lease_conflict
        conflict_if (not (is_waiting_job job)) lease_conflict
        source ← select_from (λ db.
            find
              (λ a.
                a.id == source_attempt_id
                && (a.job_id == job_id && a.status == AttemptStatus.interrupted))
              db.attempts)
        attempt ← require source lease_conflict
        conflict_if (differs_from_session job provider session_id attempt) lease_conflict
        unresolved ←
            select_from (λ db. any (is_unstopped (some source_attempt_id)) db.external_processes)
        conflict_if unresolved lease_conflict
        stopped ← select_from (λ db.
            any
              (λ p.
                p.attempt_id == source_attempt_id
                && (p.state == ProcessState.stopped && p.provider == provider))
              db.external_processes)
        conflict_if (not stopped) lease_conflict
        let row =
            resume_row request_id source_attempt_id provider session_id requested_by reason now job
              attempt
        insert_resume row
        append_event (
            job_event "operator.resume_requested" job (some requested_by)
              (("request_id", Datum.text request_id)
                ∷ ("source_attempt_id", Datum.text source_attempt_id)
                ∷ ("provider", Datum.text provider)
                ∷ ("session_id", Datum.text session_id)
                ∷ ("reason", Datum.text reason)
                ∷ [])
              now)
        pure row
