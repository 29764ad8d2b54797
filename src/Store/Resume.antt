-- ===== src/Store/Resume.antt =====
-- storage.py: the authorization to resume that a claim takes up.
use python_ai_agent_flow.Prelude.{
  ℕ, suc, String, Option, none, some, Bool, not, ◌&&◌, ◌||◌, [], ◌∷◌, any, find, select, eqb, ◌==◌,
  nat_eq, string_eq, option_eq, lease_conflict,
}
use python_ai_agent_flow.Models.Enums.{AttemptStatus, attempt_status_eq}
use python_ai_agent_flow.Store.Statuses.{
  ControlAction, control_action_eq, ControlStatus, control_status_eq, ProcessState,
  process_state_eq,
}
use python_ai_agent_flow.Store.Rows.{Db, Job, Attempt, Control, Datum}
use python_ai_agent_flow.Store.Env.{Env}
use python_ai_agent_flow.Store.Queries.{order_by, first, ascending}
use python_ai_agent_flow.Store.Fences.{is_unstopped}
use python_ai_agent_flow.Store.Events.{job_event, optional}
use python_ai_agent_flow.Store.Interrupt.{same_texts}
use python_ai_agent_flow.Store.Tx.{
  Tx, pure, select_from, require, conflict_if, update_controls, append_event, ◌>>=◌, ◌>>◌,
}

-- The first pending request to resume the job.
unfoldable pub pending_resume : Job → Db → Option Control
pending_resume job db = first (
    order_by (λ a b. ascending a.requested_at a.id b.requested_at b.id)
      (select
        (λ c.
          c.job_id == job.id
          && (c.action == ControlAction.resume && c.status == ControlStatus.pending))
        db.operator_controls))

-- The request does not fit the interrupted attempt, or the job.
abbrev differs_from_source : Env → Job → ℕ → Control → Attempt → Bool
differs_from_source env job attempt_number request source =
    not (suc source.attempt_number == attempt_number)
    || (not (source.external_provider == request.expected_provider)
        || (not (source.external_session_id == request.expected_session_id)
            || (not (source.managed_worktree_id == request.expected_worktree_id)
                || (not (source.managed_worktree_generation == request.expected_worktree_generation)
                    || (not (same_texts request.expected_resources job.required_resources)
                        || not (
                            request.expected_resources_sha256
                            == env.resources_sha256 job.required_resources))))))

-- A process of the interrupted attempt is unstopped, or none of its provider has stopped.
abbrev is_unresolved : Control → Db → Bool
is_unresolved request db =
    any (is_unstopped (some request.source_attempt_id)) db.external_processes
    || not (
        any
          (λ p.
            p.attempt_id == request.source_attempt_id
            && (p.state == ProcessState.stopped && some p.provider == request.expected_provider))
          db.external_processes)

module _ (env : Env) where
  -- A pending request to resume is applied to the new attempt.
  unfoldable pub apply_resume : Job → String → ℕ → ℕ → Option Control → Tx (Unit {0})
  apply_resume job attempt_id attempt_number now none = pure tt
  apply_resume job attempt_id attempt_number now (some request) = do
    found ← select_from (λ db.
        find
          (λ a.
            a.id == request.source_attempt_id
            && (a.job_id == job.id && a.status == AttemptStatus.interrupted))
          db.attempts)
    source ← require found lease_conflict
    unresolved ← select_from (is_unresolved request)
    conflict_if (differs_from_source env job attempt_number request source || unresolved)
        lease_conflict
    changed ←
        update_controls (λ c. c.id == request.id && c.status == ControlStatus.pending)
          (λ c. record c {
            status = ControlStatus.applied;
            target_attempt_id = some attempt_id;
            applied_at = some now;
          })
    conflict_if (not (eqb changed 1)) lease_conflict
    append_event (
        job_event "operator.resume_applied" job (some request.requested_by)
          (("request_id", Datum.text request.id)
            ∷ ("source_attempt_id", Datum.text source.id)
            ∷ ("target_attempt_id", Datum.text attempt_id)
            ∷ ("provider", optional request.expected_provider)
            ∷ ("session_id", optional request.expected_session_id)
            ∷ [])
          now)
