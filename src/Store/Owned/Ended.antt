-- ===== src/Store/Owned/Ended.antt =====
-- storage.py: what `fail_job` and `interrupt_job` demand of the worker and leave of its processes.
use python_ai_agent_flow.Prelude.{
  ℕ, String, Option, none, some, Bool, false, ◌≡◌, refl, sym, subst, ltb, List, any, nat_eq,
  string_eq, option_eq, ok, value_error, lease_conflict,
}
use python_ai_agent_flow.Models.Enums.{ItemState, job_status_eq}
use python_ai_agent_flow.Models.Evidence.{Fields}
use python_ai_agent_flow.Store.Statuses.{process_state_eq, control_action_eq, control_status_eq}
use python_ai_agent_flow.Store.Rows.{Db, Job, Control, ExternalProcess}
use python_ai_agent_flow.Store.Env.{Env}
use python_ai_agent_flow.Store.Fences.{
  job_by_id, is_unstopped, assert_live_lease, assert_no_pending_operator_interrupt,
  assert_external_process_stopped,
}
use python_ai_agent_flow.Store.Events.{
  end_prepared_focused_execution, end_prepared_evidence_executions,
}
use python_ai_agent_flow.Store.Lifecycle.{move_item, release_leases, write_failure, fail_job}
use python_ai_agent_flow.Store.Interrupt.{
  authorize_interrupt, write_interruption, apply_interrupt, interrupt_job,
}
use python_ai_agent_flow.Store.Stale.{
  IsHeld, assert_live_lease-Post, assert_no_interrupt-Post, assert_stopped-Post,
  authorize_interrupt-Post,
}
use python_ai_agent_flow.Store.Release.{
  Post-append_event, Post-update_jobs, Post-update_controls, Post-delete_leases, lease_events-Post,
}
use python_ai_agent_flow.Store.Recovery.Steps.{focused-Kept, evidence-Kept, move_item-Kept}
use python_ai_agent_flow.Store.Tx.{
  update_jobs, update_attempts, update_controls, delete_leases, append_event,
}
use python_ai_agent_flow.Store.Tx.Post.{
  Post, Post-pure, Post-read, Post-guard, Post-bind, Post-same, Post-map, Post-ok,
}
use python_ai_agent_flow.Store.Owned.{
  IsOwned, NoRequest, AllEnded, live-IsOwned, unrequested, ended,
}

-- The worker owned the row, and the processes of its attempt are stopped afterwards.
abbrev pub IsSafelyEnded : String → String → String → ℕ → Db → Db → Type 0
IsSafelyEnded job_id worker token now db db' =
    (job : Job) × (job_by_id job_id db ≡ some job)
    × IsOwned worker token now job
    × AllEnded job db'.external_processes

module _ (env : Env) (job_id worker token : String) (now : ℕ) (db : Db) where
  -- The processes are those that the database had.
  abbrev Same : Db → Type 0
  Same d = d.external_processes ≡ db.external_processes

  abbrev SameProcesses : List Job → List ExternalProcess → Type 0
  SameProcesses js ps = ps ≡ db.external_processes

  release-Same :
      (job : Job) (d : Db) → Same d → Post (λ _. Same) (release_leases env job worker token now d)
  unfolding release_leases
  release-Same job d h = Post-read _ _ d (
      Post-bind (λ _. Same) (delete_leases _) _ d (Post-delete_leases _ d (λ _. h))
        (λ _ d1 h1. lease_events-Post Same (λ _ _ g. g) env _ _ _ _ _ _ now d1 h1))

  failure-Same :
      (job : Job) (error : String) (result : Fields) (again : Bool) (blocked_state : ItemState)
      (available : ℕ) (d : Db)
      → Same d
      → Post
          (λ _. Same)
          (write_failure env job worker token error result again blocked_state available now d)
  unfolding write_failure
  failure-Same job error result again blocked_state available d h =
      Post-bind (λ _. Same) (move_item job _ _ now) _ d
        (move_item-Kept SameProcesses job _ _ now d h)
        (λ _ d1 h1.
          Post-bind (λ _. Same) (update_jobs _ _) _ d1 (Post-update_jobs _ _ d1 (λ _. h1))
            (λ _ d2 h2. release-Same job d2 h2))

  interruption-Same :
      (job : Job) (reason : String) (request : Option String) (d : Db)
      → Same d
      → Post (λ _. Same) (write_interruption env job worker token reason request now d)
  unfolding write_interruption update_attempts
  interruption-Same job reason request d h =
      Post-bind (λ _. Same) (end_prepared_focused_execution job _ reason now _) _ d
        (focused-Kept SameProcesses job _ reason now _ d h)
        (λ _ d1 h1.
          Post-bind (λ _. Same) (end_prepared_evidence_executions job _ reason now _) _ d1
            (evidence-Kept SameProcesses job _ reason now _ d1 h1)
            (λ _ d2 h2.
              Post-bind (λ _. Same) (move_item job _ _ now) _ d2
                (move_item-Kept SameProcesses job _ _ now d2 h2)
                (λ _ d3 h3.
                  Post-bind (λ _. Same) (update_attempts _ _) _ d3 record { holds = h3 }
                    (λ _ d4 h4.
                      Post-bind (λ _. Same) (update_jobs _ _) _ d4
                        (Post-update_jobs _ _ d4 (λ _. h4))
                        (λ _ d5 h5.
                          Post-bind (λ _. Same) (release_leases env job worker token now) _ d5
                            (release-Same job d5 h5)
                            (λ _ d6 h6. Post-append_event _ d6 (λ es. h6)))))))

  apply-Same :
      (request : Option Control) (reason : String) (job : Job) (d : Db)
      → Same d
      → Post (λ _. Same) (apply_interrupt request reason job worker now d)
  unfolding apply_interrupt
  apply-Same none reason job d h = Post-pure tt d h
  apply-Same (some c) reason job d h =
      Post-bind (λ _. Same) (update_controls _ _) _ d (Post-update_controls _ _ d (λ n cs. h))
        (λ n d1 h1. Post-guard _ lease_conflict _ d1 (λ _. Post-append_event _ d1 (λ es. h1)))

  ended-after :
      (job : Job) (d : Db)
      → IsHeld db job_id worker token now job
      → any (is_unstopped job.current_attempt_id) db.external_processes ≡ false
      → Same d
      → IsSafelyEnded job_id worker token now db d
  ended-after job d held stopped same = (
    job,
    held.0,
    live-IsOwned job worker token now held.1,
    subst (AllEnded job) (sym same) (ended job db.external_processes stopped),
  )

  fail_job-Ended :
      (error : String) (result : Fields) (requeue : Bool) (available : Option ℕ) (max_attempts : ℕ)
      (blocked_state : ItemState)
      → Post
          (λ _ d.
            IsSafelyEnded job_id worker token now db d × NoRequest job_id db.operator_controls)
          (fail_job env job_id worker token error result requeue available max_attempts
            blocked_state now db)
  unfolding fail_job update_attempts
  fail_job-Ended error result requeue available max_attempts blocked_state =
      Post-guard (ltb max_attempts 1) value_error _ db (λ _.
        Post-same _ (assert_live_lease job_id worker token now) _ db
          (assert_live_lease-Post job_id worker token now db)
          (λ job held.
            Post-same _ (assert_no_pending_operator_interrupt job_id) _ db
              (assert_no_interrupt-Post job_id db)
              (λ _ free.
                Post-same _ (assert_external_process_stopped job) _ db (assert_stopped-Post job db)
                  (λ _ stopped.
                    Post-bind (λ _. Same) (end_prepared_focused_execution job _ error now _) _ db
                      (focused-Kept SameProcesses job _ error now _ db refl)
                      (λ _ d1 h1.
                        Post-bind (λ _. Same) (end_prepared_evidence_executions job _ error now _) _
                          d1 (evidence-Kept SameProcesses job _ error now _ d1 h1)
                          (λ _ d2 h2.
                            Post-bind (λ _. Same) (update_attempts _ _) _ d2 record { holds = h2 }
                              (λ _ d3 h3. Post-read _ _ d3 (
                                Post-read _ _ d3 (
                                  Post-bind (λ _. Same)
                                    (write_failure env job worker token error result _ blocked_state
                                      _ now)
                                    _ d3 (failure-Same job error result _ blocked_state _ d3 h3)
                                    (λ _ d4 h4.
                                      Post-bind (λ _. Same) (append_event _) _ d4
                                        (Post-append_event _ d4 (λ es. h4))
                                        (λ _ d5 h5. Post-pure _ d5 (
                                          ended-after job d5 held stopped h5,
                                          unrequested job_id db.operator_controls free,
                                        ))))))))))))

  interrupt_job-Ended :
      (reason : String) (request : Option String)
      → Post
          (λ _. IsSafelyEnded job_id worker token now db)
          (interrupt_job env job_id worker token reason request now db)
  unfolding interrupt_job
  interrupt_job-Ended reason request =
      Post-same _ (assert_live_lease job_id worker token now) _ db
        (assert_live_lease-Post job_id worker token now db)
        (λ job held.
          Post-same _ (authorize_interrupt env request reason job worker token) _ db
            (authorize_interrupt-Post env request reason job worker token db)
            (λ asked _.
              Post-same _ (assert_external_process_stopped job) _ db (assert_stopped-Post job db)
                (λ _ stopped.
                  Post-bind (λ _. Same) (write_interruption env job worker token reason request now)
                    _ db (interruption-Same job reason request db refl)
                    (λ _ d1 h1.
                      Post-map (λ _. Same) _ (apply-Same asked reason job d1 h1)
                        (λ _ d2 h2. ended-after job d2 held stopped h2)))))

-- A failure that is recorded was reported by the worker that holds the row of the running job,
-- under a lease that has not passed, while no request to interrupt the job was pending; and
-- afterwards every process of its attempt is stopped.
pub fail_job-IsSafelyEnded :
    (env : Env) (job_id worker token error : String) (result : Fields) (requeue : Bool)
    (available : Option ℕ) (max_attempts : ℕ) (blocked_state : ItemState) (now : ℕ) (again : Bool)
    (db db' : Db)
    → fail_job env job_id worker token error result requeue available max_attempts blocked_state now
        db
      ≡ ok (again, db')
    → IsSafelyEnded job_id worker token now db db' × NoRequest job_id db.operator_controls
fail_job-IsSafelyEnded env job_id worker token error result requeue available max_attempts
      blocked_state now again db db' h =
    Post-ok
      (fail_job-Ended env job_id worker token now db error result requeue available max_attempts
        blocked_state)
      h

-- An interruption that is recorded was reported by the worker that holds the row of the running
-- job, under a lease that has not passed; and afterwards every process of its attempt is stopped.
pub interrupt_job-IsSafelyEnded :
    (env : Env) (job_id worker token reason : String) (request : Option String) (now : ℕ)
    (db db' : Db)
    → interrupt_job env job_id worker token reason request now db ≡ ok (tt, db')
    → IsSafelyEnded job_id worker token now db db'
interrupt_job-IsSafelyEnded env job_id worker token reason request now db db' h =
    Post-ok (interrupt_job-Ended env job_id worker token now db reason request) h
