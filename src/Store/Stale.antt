-- ===== src/Store/Stale.antt =====
-- storage.py: what a worker needs to hold for its calls to change a job.
use python_ai_agent_flow.Prelude.{
  ℕ, String, Option, none, some, Bool, true, false, not, ◌≡◌, refl, arith, leb, ltb, any, List, [],
  ◌∷◌, select, is_some, Bool-cases, one_outcome, inl, inr, if◌then◌else◌, subst, ok, not_found,
  lease_conflict, value_error,
}
use python_ai_agent_flow.Models.Enums.{ItemState}
use python_ai_agent_flow.Models.Evidence.{Fields}
use python_ai_agent_flow.Store.Rows.{Db, Job, Attempt, Control, ExternalProcess}
use python_ai_agent_flow.Store.Env.{Env}
use python_ai_agent_flow.Store.Queries.{insert_row, order_by, first}
use python_ai_agent_flow.Store.Fences.{
  recorded_later, job_by_id, is_live, assert_live_lease, is_pending_interrupt, is_unstopped, latest,
  assert_no_pending_operator_interrupt, assert_external_process_stopped,
}
use python_ai_agent_flow.Store.Lifecycle.{heartbeat_job, fail_job}
use python_ai_agent_flow.Store.Interrupt.{
  interrupt_job, authorize_interrupt, assert_operator_interrupt_request, observe_process,
}
use python_ai_agent_flow.Store.Tx.Post.{
  Post, Post-pure, Post-any, Post-if, Post-select_from, Post-read, Post-need, Post-guard, Post-same,
  Post-conflict_if, Post-ok,
}

-- The job's row is held by the worker, with the token, under a lease that has not passed.
abbrev pub IsHeld : Db → String → String → String → ℕ → Job → Type 0
IsHeld db job_id worker token now job =
    (job_by_id job_id db ≡ some job) × (is_live job worker token now ≡ true)

pub assert_live_lease-Post :
    (job_id worker token : String) (now : ℕ) (db : Db)
    → Post
        (λ job db'. (db' ≡ db) × IsHeld db job_id worker token now job)
        (assert_live_lease job_id worker token now db)
unfolding assert_live_lease
assert_live_lease-Post job_id worker token now db = Post-read (job_by_id job_id) _ db (
    Post-need (job_by_id job_id db) not_found _ db (λ job found.
      Post-guard (not (is_live job worker token now)) lease_conflict _ db
        (λ live. Post-pure job db (refl, (found, ground arith)))))

pub assert_no_interrupt-Post :
    (job_id : String) (db : Db)
    → Post
        (λ _ db'. (db' ≡ db) × (any (is_pending_interrupt job_id) db.operator_controls ≡ false))
        (assert_no_pending_operator_interrupt job_id db)
unfolding assert_no_pending_operator_interrupt
assert_no_interrupt-Post job_id db =
    Post-read (λ d. any (is_pending_interrupt job_id) d.operator_controls) _ db
      (Post-conflict_if _ lease_conflict db (λ e. (refl, e)))

first-insert_row :
    (before : ExternalProcess → ExternalProcess → Bool) (p : ExternalProcess)
    (ps : List ExternalProcess)
    → is_some (first (insert_row before p ps)) ≡ true
first-insert_row before p [] = refl
first-insert_row before p (q ∷ ps) = elim (Bool-cases (before p q)) [
  | inl y ↦ rw y refl
  | inr n ↦ rw n refl
]

any-latest :
    (c : ExternalProcess → Bool) (ps : List ExternalProcess)
    → is_some (latest (select c ps)) ≡ false
    → any c ps ≡ false
unfolding order_by
any-latest c [] h = refl
any-latest c (p ∷ ps) h =
    let shown =
      λ (b : Bool). is_some (latest (if b then p ∷ select c ps else select c ps)) ≡ false in
    elim (Bool-cases (c p)) [
      | inl y ↦
          one_outcome (first-insert_row recorded_later p (order_by recorded_later (select c ps)))
            (subst shown y h)
      | inr n ↦ rw n (any-latest c ps (subst shown n h))
    ]

pub assert_stopped-Post :
    (job : Job) (db : Db)
    → Post
        (λ _ db'.
          (db' ≡ db) × (any (is_unstopped job.current_attempt_id) db.external_processes ≡ false))
        (assert_external_process_stopped job db)
unfolding assert_external_process_stopped
assert_stopped-Post job db = Post-read _ _ db (
    Post-read _ _ db (
      Post-need _ lease_conflict _ db (λ attempt found. Post-read _ _ db (
        Post-guard _ lease_conflict _ db (λ g. Post-conflict_if _ lease_conflict db (λ e.
          (refl, any-latest (is_unstopped job.current_attempt_id) db.external_processes e)))))))

observe_process-Post :
    (request : Control) (attempt : Attempt) (allow : Bool) (db : Db)
    → Post (λ _ db'. (db' ≡ db) × Unit {0}) (observe_process request attempt allow db)
unfolding observe_process
observe_process-Post request attempt allow db =
    Post-if _ _ _ db (λ _. Post-select_from _ db (refl, tt))
      (λ _. Post-read _ _ db (
        Post-need _ lease_conflict _ db (λ external _. Post-guard _ lease_conflict _ db (λ _.
          Post-read _ _ db (Post-guard _ lease_conflict _ db (λ _. Post-pure _ db (refl, tt)))))))

request-Post :
    (env : Env) (id : String) (job : Job) (worker token : String) (allow : Bool) (db : Db)
    → Post
        (λ _ db'. (db' ≡ db) × Unit {0})
        (assert_operator_interrupt_request env id job worker token allow db)
unfolding assert_operator_interrupt_request
request-Post env id job worker token allow db = Post-read _ _ db (
    Post-need _ lease_conflict _ db (λ request _. Post-guard _ lease_conflict _ db (λ _.
      Post-read _ _ db (
        Post-need _ lease_conflict _ db (λ attempt _. Post-guard _ lease_conflict _ db (λ _.
          Post-same (λ _. Unit {0}) (observe_process request attempt allow) _ db
            (observe_process-Post request attempt allow db)
            (λ external _.
              Post-guard _ lease_conflict _ db (λ _. Post-pure request db (refl, tt)))))))))

pub authorize_interrupt-Post :
    (env : Env) (id : Option String) (reason : String) (job : Job) (worker token : String) (db : Db)
    → Post (λ _ db'. (db' ≡ db) × Unit {0}) (authorize_interrupt env id reason job worker token db)
unfolding authorize_interrupt
authorize_interrupt-Post env none reason job worker token db =
    Post-same _ (assert_no_pending_operator_interrupt job.id) _ db
      (assert_no_interrupt-Post job.id db) (λ _ _. Post-pure none db (refl, tt))
authorize_interrupt-Post env (some id) reason job worker token db =
    Post-same (λ _. Unit {0}) (assert_operator_interrupt_request env id job worker token true) _ db
      (request-Post env id job worker token true db)
      (λ request _. Post-guard _ lease_conflict _ db (λ _. Post-pure (some request) db (refl, tt)))

-- The hold of the row, no request to interrupt it, and no process that may still write.
abbrev pub IsReleasable : Db → String → String → String → ℕ → Job → Type 0
IsReleasable db job_id worker token now job =
    IsHeld db job_id worker token now job
    × (any (is_pending_interrupt job_id) db.operator_controls ≡ false)
    × (any (is_unstopped job.current_attempt_id) db.external_processes ≡ false)

module _ (env : Env) (job_id worker token : String) (now : ℕ) (db : Db) where
  heartbeat_job-Post :
      (lease_seconds : ℕ)
      → Post
          (λ _ _. (job : Job) × IsHeld db job_id worker token now job)
          (heartbeat_job env job_id worker token lease_seconds now db)
  unfolding heartbeat_job
  heartbeat_job-Post lease_seconds = Post-guard (leb lease_seconds 0) value_error _ db (λ _.
      Post-same _ (assert_live_lease job_id worker token now) _ db
        (assert_live_lease-Post job_id worker token now db)
        (λ job held. Post-any (λ _ _. (job, held)) _))

  fail_job-Post :
      (error : String) (result : Fields) (requeue : Bool) (available : Option ℕ) (max_attempts : ℕ)
      (blocked_state : ItemState)
      → Post
          (λ _ _. (job : Job) × IsReleasable db job_id worker token now job)
          (fail_job env job_id worker token error result requeue available max_attempts
            blocked_state now db)
  unfolding fail_job
  fail_job-Post error result requeue available max_attempts blocked_state =
      Post-guard (ltb max_attempts 1) value_error _ db (λ _.
        Post-same _ (assert_live_lease job_id worker token now) _ db
          (assert_live_lease-Post job_id worker token now db)
          (λ job held.
            Post-same _ (assert_no_pending_operator_interrupt job_id) _ db
              (assert_no_interrupt-Post job_id db)
              (λ _ free.
                Post-same _ (assert_external_process_stopped job) _ db (assert_stopped-Post job db)
                  (λ _ stopped. Post-any (λ _ _. (job, (held, free, stopped))) _))))

  interrupt_job-Post :
      (reason : String) (request : Option String)
      → Post
          (λ _ _.
            (job : Job) × IsHeld db job_id worker token now job
            × (any (is_unstopped job.current_attempt_id) db.external_processes ≡ false))
          (interrupt_job env job_id worker token reason request now db)
  unfolding interrupt_job
  interrupt_job-Post reason request =
      Post-same _ (assert_live_lease job_id worker token now) _ db
        (assert_live_lease-Post job_id worker token now db)
        (λ job held.
          Post-same _ (authorize_interrupt env request reason job worker token) _ db
            (authorize_interrupt-Post env request reason job worker token db)
            (λ asked _.
              Post-same _ (assert_external_process_stopped job) _ db (assert_stopped-Post job db)
                (λ _ stopped. Post-any (λ _ _. (job, held, stopped)) _)))

-- A heartbeat that succeeds was sent by the worker that holds the row, under a lease that has not
-- passed.
pub heartbeat_job-IsHeld :
    (env : Env) (job_id worker token : String) (lease_seconds now : ℕ) (db db' : Db)
    → heartbeat_job env job_id worker token lease_seconds now db ≡ ok (tt, db')
    → (job : Job) × IsHeld db job_id worker token now job
heartbeat_job-IsHeld env job_id worker token lease_seconds now db db' h =
    Post-ok (heartbeat_job-Post env job_id worker token now db lease_seconds) h

-- A failure that is recorded was reported by the worker that holds the row, with no request to
-- interrupt the job pending and no process of its attempt left unstopped.
pub fail_job-IsReleasable :
    (env : Env) (job_id worker token error : String) (result : Fields) (requeue : Bool)
    (available : Option ℕ) (max_attempts : ℕ) (blocked_state : ItemState) (now : ℕ) (again : Bool)
    (db db' : Db)
    → fail_job env job_id worker token error result requeue available max_attempts blocked_state now
        db
      ≡ ok (again, db')
    → (job : Job) × IsReleasable db job_id worker token now job
fail_job-IsReleasable env job_id worker token error result requeue available max_attempts
      blocked_state now again db db' h =
    Post-ok
      (fail_job-Post env job_id worker token now db error result requeue available max_attempts
        blocked_state)
      h

-- An interruption that is recorded was reported by the worker that holds the row, with no process
-- of its attempt left unstopped.
pub interrupt_job-stopped :
    (env : Env) (job_id worker token reason : String) (request : Option String) (now : ℕ)
    (db db' : Db)
    → interrupt_job env job_id worker token reason request now db ≡ ok (tt, db')
    → (job : Job) × IsHeld db job_id worker token now job
      × (any (is_unstopped job.current_attempt_id) db.external_processes ≡ false)
interrupt_job-stopped env job_id worker token reason request now db db' h =
    Post-ok (interrupt_job-Post env job_id worker token now db reason request) h
