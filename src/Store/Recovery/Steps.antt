-- ===== src/Store/Recovery/Steps.antt =====
-- storage.py: what a recovery keeps of the jobs and of the processes, step by step.
use python_ai_agent_flow.Prelude.{
  ℕ, String, Option, none, some, Bool, true, false, ◌&&◌, ◌≡◌, refl, arith, List, [], ◌∷◌, count,
  update, is_some, Bool-cases, inl, inr, ◌==◌, nat_eq, string_eq, option_eq, lease_conflict,
  transition_conflict,
}
use python_ai_agent_flow.Models.Enums.{ItemState, AttemptStatus, attempt_status_eq}
use python_ai_agent_flow.Store.Statuses.{ExecutionStatus}
use python_ai_agent_flow.Store.Rows.{
  Db, Job, Attempt, ExternalProcess, ResourceLease, Control, Datum,
}
use python_ai_agent_flow.Store.Env.{Env}
use python_ai_agent_flow.Store.Events.{
  report_end, end_prepared_focused_execution, end_prepared_evidence_executions,
}
use python_ai_agent_flow.Store.Lifecycle.{is_running_attempt, move_item}
use python_ai_agent_flow.Store.Recover.{
  is_running_job, expired_row, reject_interrupt, assert_expired_fences, write_expiry,
  expire_job_after_lease, report_orphan, drop_orphan,
}
use python_ai_agent_flow.Store.Release.{
  Post-append_event, Post-update_jobs, Post-update_controls, Post-delete_leases, lease_events-Post,
  lease_event-Post,
}
use python_ai_agent_flow.Store.Retries.{Post-update_work_items}
use python_ai_agent_flow.Store.Tx.{
  update_jobs, update_controls, update_attempts, update_work_items, update_focused, update_browser,
  update_database, delete_leases,
}
use python_ai_agent_flow.Store.Tx.Post.{
  Post, Post-pure, Post-read, Post-guard, Post-bind, Post-if, Post-conflict_if,
}

-- Steps that write neither table.
module _ (F : List Job → List ExternalProcess → Type 0) where
  abbrev pub Kept : Db → Type 0
  Kept db = F db.jobs db.external_processes

  report_end-Kept :
      (prefix : String) (n : ℕ) (job : Job) (status : ExecutionStatus) (reason : String)
      (actor : Option String) (now : ℕ) (db : Db)
      → Kept db
      → Post (λ _. Kept) (report_end prefix n job status reason actor now db)
  unfolding report_end
  report_end-Kept prefix n job status reason actor now db h =
      Post-if _ _ _ db (λ _. Post-append_event _ db (λ es. h)) (λ _. Post-pure tt db h)

  pub focused-Kept :
      (job : Job) (status : ExecutionStatus) (reason : String) (now : ℕ) (actor : Option String)
      (db : Db)
      → Kept db
      → Post (λ _. Kept) (end_prepared_focused_execution job status reason now actor db)
  unfolding end_prepared_focused_execution update_focused
  focused-Kept job status reason now actor db h =
      Post-bind (λ _. Kept) (update_focused _ _) _ db record { holds = h }
        (λ n db1 h1. report_end-Kept _ n job status reason actor now db1 h1)

  pub evidence-Kept :
      (job : Job) (status : ExecutionStatus) (reason : String) (now : ℕ) (actor : Option String)
      (db : Db)
      → Kept db
      → Post (λ _. Kept) (end_prepared_evidence_executions job status reason now actor db)
  unfolding end_prepared_evidence_executions update_browser update_database
  evidence-Kept job status reason now actor db h =
      Post-bind (λ _. Kept) (update_browser _ _) _ db record { holds = h }
        (λ n db1 h1.
          Post-bind (λ _. Kept) (report_end _ n job status reason actor now) _ db1
            (report_end-Kept _ n job status reason actor now db1 h1)
            (λ _ db2 h2.
              Post-bind (λ _. Kept) (update_database _ _) _ db2 record { holds = h2 }
                (λ m db3 h3. report_end-Kept _ m job status reason actor now db3 h3)))

  reject_interrupt-Kept :
      (job : Job) (error : String) (now : ℕ) (c : Option Control) (db : Db)
      → Kept db
      → Post (λ _. Kept) (reject_interrupt job error now c db)
  unfolding reject_interrupt
  reject_interrupt-Kept job error now none db h = Post-pure tt db h
  reject_interrupt-Kept job error now (some c) db h =
      Post-bind (λ _. Kept) (update_controls _ _) _ db (Post-update_controls _ _ db (λ n cs. h))
        (λ n db1 h1. Post-guard _ lease_conflict _ db1 (λ _. Post-append_event _ db1 (λ es. h1)))

  pub move_item-Kept :
      (job : Job) (from to : ItemState) (now : ℕ) (db : Db)
      → Kept db
      → Post (λ _. Kept) (move_item job from to now db)
  unfolding move_item
  move_item-Kept job from to now db h =
      Post-bind (λ _. Kept) (update_work_items _ _) _ db (Post-update_work_items _ _ db h)
        (λ n db' g. Post-conflict_if _ transition_conflict db' (λ e. g))

  assert_expired_fences-Kept :
      (job : Job) (db : Db) → Kept db → Post (λ _. Kept) (assert_expired_fences job db)
  unfolding assert_expired_fences
  assert_expired_fences-Kept job db h =
      Post-read _ _ db (Post-conflict_if _ lease_conflict db (λ _. h))

  pub drop_orphan-Kept :
      (env : Env) (now : ℕ) (l : ResourceLease) (db : Db)
      → Kept db
      → Post (λ _. Kept) (drop_orphan env now l db)
  unfolding drop_orphan report_orphan
  drop_orphan-Kept env now l db h = Post-read _ _ db (
      Post-bind (λ _. Kept) (delete_leases _) _ db (Post-delete_leases _ db (λ _. h))
        (λ _ db1 h1.
          Post-if _ _ _ db1 (λ _. Post-append_event _ db1 (λ es. h1))
            (λ _. lease_event-Post Kept (λ _ _ g. g) env _ _ _ _ _ now l db1 h1)))

-- No attempt is that of a job without one.
unstarted :
    (o : Option String) (id : String) (b : Bool) → is_some o ≡ false → (some id == o && b) ≡ false
unstarted none id b h = refl
unstarted (some a) id b h = cc

count-no_attempt :
    (job : Job) (rows : List Attempt)
    → is_some job.current_attempt_id ≡ false
    → count (is_running_attempt job) rows ≡ 0
count-no_attempt job [] h = refl
count-no_attempt job (a ∷ rows) h =
    rw (unstarted job.current_attempt_id a.id (a.status == AttemptStatus.running) h)
      (count-no_attempt job rows h)

-- The attempt that was running is that of the job.
has_attempt :
    (job : Job) (rows : List Attempt)
    → count (is_running_attempt job) rows ≡ 1
    → is_some job.current_attempt_id ≡ true
has_attempt job rows h = elim (Bool-cases (is_some job.current_attempt_id)) [
  | inl y ↦ y
  | inr n ↦ ground (arith, count-no_attempt job rows n)
]

-- The step that writes the jobs.
module _ (F G : List Job → List ExternalProcess → Type 0) (job : Job) (error : String) (now : ℕ)
    (expires : (js : List Job) (ps : List ExternalProcess)
      → is_some job.current_attempt_id ≡ true
      → F js ps
      → G (update (is_running_job job) (expired_row error now) js) ps) where
  write_expiry-Post : (db : Db) → Kept F db → Post (λ _. Kept G) (write_expiry job error now db)
  unfolding write_expiry update_attempts
  write_expiry-Post db h =
      Post-bind (λ n d. (n ≡ count (is_running_attempt job) db.attempts) × Kept F d)
        (update_attempts (is_running_attempt job) _) _ db record { holds = (refl, h) }
        (λ n db1 h1. Post-guard _ lease_conflict _ db1 (λ one.
          Post-bind (λ _. Kept G) (update_jobs (is_running_job job) (expired_row error now)) _ db1
            (Post-update_jobs _ _ db1
              (λ _. expires _ _ (has_attempt job db.attempts (ground (arith, one, h1.0))) h1.1))
            (λ _ db2 h2. Post-guard _ lease_conflict _ db2 (λ _.
              Post-bind (λ _. Kept G) (delete_leases _) _ db2 (Post-delete_leases _ db2 (λ _. h2))
                (λ _ db3 h3. Post-conflict_if _ lease_conflict db3 (λ _. h3))))))

  pub expire-Post :
      (env : Env) (details : List (String × Datum)) (db : Db)
      → Kept F db
      → Post (λ _. Kept G) (expire_job_after_lease env job error details now db)
  unfolding expire_job_after_lease
  expire-Post env details db h = Post-read _ _ db (
      Post-bind (λ _. Kept F) (reject_interrupt job error now _) _ db
        (reject_interrupt-Kept F job error now _ db h)
        (λ _ db1 h1.
          Post-bind (λ _. Kept F) (assert_expired_fences job) _ db1
            (assert_expired_fences-Kept F job db1 h1)
            (λ _ db2 h2. Post-read _ _ db2 (
              Post-bind (λ _. Kept F) (move_item job _ _ now) _ db2
                (move_item-Kept F job _ _ now db2 h2)
                (λ _ db3 h3.
                  Post-bind (λ _. Kept F) (end_prepared_focused_execution job _ error now none) _
                    db3 (focused-Kept F job _ error now none db3 h3)
                    (λ _ db4 h4.
                      Post-bind (λ _. Kept F)
                        (end_prepared_evidence_executions job _ error now none) _ db4
                        (evidence-Kept F job _ error now none db4 h4)
                        (λ _ db5 h5.
                          Post-bind (λ _. Kept G) (write_expiry job error now) _ db5
                            (write_expiry-Post db5 h5)
                            (λ _ db6 h6.
                              Post-bind (λ _. Kept G) _ _ db6
                                (lease_events-Post (Kept G) (λ _ _ g. g) env _ _ _ _ _ _ now db6 h6)
                                (λ _ db7 h7. Post-append_event _ db7 (λ es. h7))))))))))
