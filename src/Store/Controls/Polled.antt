-- ===== src/Store/Controls/Polled.antt =====
-- storage.py: a request to interrupt reaches the worker that it is meant for.
use python_ai_agent_flow.Prelude.{
  ℕ, String, Option, none, some, Bool, true, false, ◌&&◌, List, find, All, All-map, find-none-All,
  find-some, any, ◌==◌, nat_eq, string_eq, option_eq, beq_refl, ◌≡◌, refl, sym, ◌∙◌, subst, arith,
  ok, lease_conflict, not_found,
}
use python_ai_agent_flow.Models.Enums.{attempt_status_eq}
use python_ai_agent_flow.Store.Statuses.{
  process_state_eq, ControlAction, control_action_eq, ControlStatus, control_status_eq,
}
use python_ai_agent_flow.Store.Rows.{Db, Job, Attempt, ExternalProcess, Control, Event}
use python_ai_agent_flow.Store.Env.{Env}
use python_ai_agent_flow.Store.Fences.{assert_live_lease, is_live, job_by_id, is_pending_interrupt}
use python_ai_agent_flow.Store.Lifecycle.{is_running_attempt}
use python_ai_agent_flow.Store.Interrupt.{
  assert_operator_interrupt_request, observe_process, differs_from_job, differs_from_attempt,
  is_expected,
}
use python_ai_agent_flow.Store.Stale.{IsHeld}
use python_ai_agent_flow.Store.Controls.{
  clashes, interrupt_row, request_job_interrupt, check_pending, poll_operator_interrupt,
}
use python_ai_agent_flow.Store.Tx.Post.{Post-ok}
use python_ai_agent_flow.Store.Tx.{pure, if◌then◌else◌}
use python_ai_agent_flow.Store.Tx.Steps.{after_step, read_step, need_step, pass_step}
use python_ai_agent_flow.Store.Controls.Requested.{
  find-last, any-false-All, same_texts_refl, unstopped_process, IsTraced, running_attempt,
  with_request, request-Post,
}

-- The worker that holds the row asks for the request.
module _ (env : Env) (job_id worker token request_id requested_by reason : String) (now later : ℕ)
    (db : Db) (es : List Event) (job : Job) (row : Attempt)
    (held : IsHeld db job_id worker token later job) (found : running_attempt job db ≡ some row)
    (same_worktree : row.managed_worktree_id ≡ job.managed_worktree_id) where
  abbrev request : Control
  request =
      interrupt_row env request_id token requested_by reason now job row (unstopped_process row db)

  abbrev requested_db : Db
  requested_db = with_request db request es

  live_step : assert_live_lease job_id worker token later requested_db ≡ ok (job, requested_db)
  unfolding assert_live_lease pure
  live_step =
      after_step _ _ requested_db (read_step (job_by_id job_id) requested_db held.0)
      ∙ after_step _ _ requested_db (need_step (some job) not_found requested_db refl)
      ∙ after_step _ _ requested_db (pass_step _ lease_conflict requested_db (rw held.1 refl))

  owner : (job.lease_owner == some worker) ≡ true
  unfolding is_live
  owner = ground (arith, held.1)

  current : (some row.id == job.current_attempt_id) ≡ true
  current = ground (arith, (find-some (is_running_attempt job) db.attempts found).1)

  same_job : differs_from_job env request job worker token ≡ false
  same_job = rw (beq_refl job.id) (
      rw current (
        rw owner (
          rw (beq_refl token) (
            rw
              ((option_eq.equals_iff row.managed_worktree_id job.managed_worktree_id).1
                same_worktree)
              (rw (same_texts_refl job.required_resources)
                (rw (beq_refl (env.resources_sha256 job.required_resources)) refl))))))

  same_attempt : differs_from_attempt request row ≡ false
  same_attempt = rw (beq_refl row.managed_worktree_id) (
      rw (beq_refl row.managed_worktree_generation)
        (rw (beq_refl row.external_provider) (rw (beq_refl row.external_session_id) refl)))

  abbrev request_with : Option ExternalProcess → Control
  request_with o = interrupt_row env request_id token requested_by reason now job row o

  is_expected_refl : (o : Option ExternalProcess) → is_expected (request_with o) o ≡ true
  is_expected_refl none = refl
  is_expected_refl (some p) = rw (beq_refl p.process_id) (
      rw (beq_refl p.process_group_id) (
        rw (beq_refl p.start_seconds)
          (rw (beq_refl p.start_microseconds) (rw (beq_refl p.kernel_executable) refl))))

  observe_step :
      (o : Option ExternalProcess)
      → unstopped_process row db ≡ o
      → IsTraced row db
      → observe_process (request_with o) row true requested_db ≡ ok (o, requested_db)
  unfolding observe_process if◌then◌else◌ pure
  observe_step none e traced = read_step _ requested_db e
  observe_step (some p) e traced =
      let (named, active) = traced p e in
      after_step _ _ requested_db (read_step _ requested_db named)
      ∙ after_step _ _ requested_db (need_step (some p) lease_conflict requested_db refl)
      ∙ after_step _ _ requested_db (pass_step _ lease_conflict requested_db (rw active refl))
      ∙ after_step _ _ requested_db (read_step _ requested_db refl)
      ∙ after_step _ _ requested_db (pass_step _ lease_conflict requested_db (rw active refl))

  abbrev is_asked : Control → Bool
  is_asked r =
      r.id == request_id
      && (r.action == ControlAction.interrupt && r.status == ControlStatus.pending)

  none_asked :
      any (clashes request) db.operator_controls ≡ false
      → All (λ r. is_asked r ≡ false) db.operator_controls
  none_asked h =
      All-map (λ r k. ground (arith, k)) db.operator_controls
        (any-false-All (clashes request) db.operator_controls h)

  asked_step :
      any (clashes request) db.operator_controls ≡ false
      → IsTraced row db
      → assert_operator_interrupt_request env request_id job worker token true requested_db
        ≡ ok (request, requested_db)
  unfolding assert_operator_interrupt_request pure
  asked_step new traced =
      let d = requested_db in
      after_step _ _ d (
        read_step _ d (
          find-last is_asked db.operator_controls request (none_asked new)
            (rw (beq_refl request_id) refl)))
      ∙ after_step _ _ d (need_step (some request) lease_conflict d refl)
      ∙ after_step _ _ d (pass_step _ lease_conflict d same_job)
      ∙ after_step _ _ d (read_step _ d found)
      ∙ after_step _ _ d (need_step (some row) lease_conflict d refl)
      ∙ after_step _ _ d (pass_step _ lease_conflict d same_attempt)
      ∙ after_step _ _ d (observe_step (unstopped_process row db) refl traced)
      ∙ after_step _ _ d
          (pass_step _ lease_conflict d (rw (is_expected_refl (unstopped_process row db)) refl))

  poll_step :
      any (clashes request) db.operator_controls ≡ false
      → find (is_pending_interrupt job_id) db.operator_controls ≡ none
      → IsTraced row db
      → poll_operator_interrupt env job_id worker token later requested_db
        ≡ ok (some request, requested_db)
  unfolding poll_operator_interrupt check_pending pure
  poll_step new fresh traced =
      let d = requested_db in
      after_step _ _ d live_step
      ∙ after_step _ _ d (
          read_step _ d (
            find-last (is_pending_interrupt job_id) db.operator_controls request
              (find-none-All _ db.operator_controls fresh)
              (rw (find-some (λ j. j.id == job_id) db.jobs held.0).1 refl)))
      ∙ after_step _ _ d (asked_step new traced)

-- A request to interrupt a job that has none pending reaches its worker: whoever holds the job's row
-- under the token that the request names, at a later time in the lease, and polls, is answered that
-- request. The attempt works in the job's worktree, and its process is known by its ids.
pub poll_operator_interrupt-request_job_interrupt :
    (env : Env) (is_plain : String → Bool)
    (job_id worker token requested_by reason request_id : String) (now later : ℕ) (db db' : Db)
    (job : Job) (c : Control)
    → IsHeld db job_id worker token later job
    → find (is_pending_interrupt job_id) db.operator_controls ≡ none
    → ((row : Attempt)
        → running_attempt job db ≡ some row
        → (row.managed_worktree_id ≡ job.managed_worktree_id) × IsTraced row db)
    → request_job_interrupt env is_plain job_id token requested_by reason request_id now db
      ≡ ok (c, db')
    → poll_operator_interrupt env job_id worker token later db' ≡ ok (some c, db')
poll_operator_interrupt-request_job_interrupt env is_plain job_id worker token requested_by reason
      request_id now later db db' job c held fresh proper h =
    let (row, found, is_row, inserted) =
      Post-ok
        (request-Post env is_plain job_id token requested_by reason request_id now db job held.0
          fresh)
        h in
    let (es, is_db) = inserted.1 in
    let (worktree, traced) = proper row found in
    let Answers = λ (z : Db). poll_operator_interrupt env job_id worker token later z in
    subst (λ z. Answers z ≡ ok (some c, z)) (sym is_db)
      (subst (λ z. Answers (with_request db z es) ≡ ok (some z, with_request db z es)) (sym is_row)
        (poll_step env job_id worker token request_id requested_by reason now later db es job row
          held found worktree
          (subst (λ z. any (clashes z) db.operator_controls ≡ false) is_row inserted.0) fresh
          traced))
