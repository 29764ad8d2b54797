-- ===== src/Store/Committed.antt =====
-- storage.py: what a committed stage leaves behind.
use python_ai_agent_flow.Prelude.{
  ℕ, String, Option, none, some, Bool, true, false, ◌&&◌, ◌≡◌, refl, subst, List, All-append, ◌==◌,
  string_eq, option_eq, ok, not_found, value_error, transition_conflict,
}
use python_ai_agent_flow.Models.Enums.{
  WorkerRole, WorkspaceKind, ItemState, item_state_eq, job_status_eq,
}
use python_ai_agent_flow.Store.Rows.{Db, Campaign, Job, Datum}
use python_ai_agent_flow.Store.Env.{Env}
use python_ai_agent_flow.Store.Fences.{assert_live_lease}
use python_ai_agent_flow.Store.Lifecycle.{finish_job}
use python_ai_agent_flow.Store.Stage.{Handoff, StageEnv}
use python_ai_agent_flow.Store.Enqueue.{NewJob, new_row, check_worktree, insert_new, enqueue_job}
use python_ai_agent_flow.Store.Commit.{enqueue_next, succeed, commit_stage_result}
use python_ai_agent_flow.Store.Stale.{assert_live_lease-Post}
use python_ai_agent_flow.Store.Release.{
  IsGivenUp, runs_under, finish_job-Post, id-IsHeld, Post-append_event,
}
use python_ai_agent_flow.Store.Limits.Steps.{if_absent-Post}
use python_ai_agent_flow.Store.Tx.{insert_job, append_event}
use python_ai_agent_flow.Store.Tx.Post.{
  Post, Post-conflict_if, Post-pure, Post-read, Post-need, Post-guard, Post-bind, Post-then,
  Post-same, Post-ok,
}

-- A row that is inserted is pending, so it runs under no fence.
not_running : (a : Bool) → (a && false) ≡ false
not_running true = refl
not_running false = refl

module _ (job_id worker token : String) where
  new-GivenUp :
      (new : NewJob) (campaign_id item_id : String) (kind : WorkspaceKind) (now : ℕ) (db : Db)
      → IsGivenUp job_id worker token db
      → Post (λ _. IsGivenUp job_id worker token) (insert_new new campaign_id item_id kind now db)
  unfolding insert_new insert_job
  new-GivenUp new campaign_id item_id kind now db h = Post-guard _ value_error _ db (λ _.
      Post-guard _ value_error _ db (λ _. Post-guard _ value_error _ db (λ _.
        Post-bind (λ _. IsGivenUp job_id worker token)
          (insert_job (new_row new campaign_id item_id kind now)) _ db
          (if_absent-Post _ _ (
            All-append (λ j. runs_under job_id worker token j ≡ false) db.jobs _ h.0
                (not_running (new.id == job_id), tt),
            h.1,
          ))
          (λ _ db1 h1. Post-append_event _ db1 (λ es. h1)))))

  worktree-GivenUp :
      (c : Campaign) (item_id : String) (role : WorkerRole) (kind : WorkspaceKind)
      (o : Option String) (db : Db)
      → IsGivenUp job_id worker token db
      → Post (λ _. IsGivenUp job_id worker token) (check_worktree c item_id role kind o db)
  unfolding check_worktree
  worktree-GivenUp c item_id role kind none db h = Post-conflict_if _ value_error db (λ _. h)
  worktree-GivenUp c item_id role kind (some id) db h =
      Post-guard _ value_error _ db
        (λ _. Post-read _ _ db (Post-conflict_if _ transition_conflict db (λ _. h)))

  enqueue-GivenUp :
      (item_id : String) (new : NewJob) (now : ℕ) (db : Db)
      → IsGivenUp job_id worker token db
      → Post (λ _. IsGivenUp job_id worker token) (enqueue_job item_id new now db)
  unfolding enqueue_job
  enqueue-GivenUp item_id new now db h = Post-read _ _ db (
      Post-need _ not_found _ db (λ item _. Post-read _ _ db (
        Post-need _ not_found _ db (λ c _. Post-guard _ transition_conflict _ db (λ _.
          Post-guard _ value_error _ db (λ _. Post-guard _ value_error _ db (λ _.
            Post-guard _ value_error _ db (λ _. Post-guard _ value_error _ db (λ _.
              Post-bind (λ _. IsGivenUp job_id worker token)
                (check_worktree c item_id new.role _ new.managed_worktree_id) _ db
                (worktree-GivenUp c item_id new.role _ new.managed_worktree_id db h)
                (λ _ db1 h1. new-GivenUp new c.id item_id _ now db1 h1))))))))))

  next-GivenUp :
      (job : Job) (o : Option NewJob) (now : ℕ) (db : Db)
      → IsGivenUp job_id worker token db
      → Post (λ _. IsGivenUp job_id worker token) (enqueue_next job o now db)
  unfolding enqueue_next
  next-GivenUp job none now db h = Post-pure tt db h
  next-GivenUp job (some n) now db h = enqueue-GivenUp job.work_item_id (succeed job n) now db h

  commit-GivenUp :
      (env : Env) (stage : StageEnv) (result : Handoff) (expected next : ItemState) (kind : String)
      (details : List (String × Datum)) (next_job : Option NewJob) (now : ℕ) (db : Db)
      → Post
          (λ _. IsGivenUp job_id worker token)
          (commit_stage_result env stage job_id worker token result expected next kind details
            next_job now db)
  unfolding commit_stage_result
  commit-GivenUp env stage result expected next kind details next_job now db =
      Post-same _ (assert_live_lease job_id worker token now) _ db
        (assert_live_lease-Post job_id worker token now db)
        (λ job held. Post-then _ _ db (λ _ db1. Post-then _ _ db1 (λ _ db2.
          Post-guard _ transition_conflict _ db2 (λ _. Post-guard _ transition_conflict _ db2 (λ _.
            Post-then _ _ db2 (λ h db3. Post-guard _ transition_conflict _ db3 (λ _.
              Post-then _ _ db3 (λ _ db4.
                Post-bind (λ _. IsGivenUp job_id worker token)
                  (finish_job env job worker token _ now) _ db4
                  (subst
                    (λ id.
                      Post (λ _. IsGivenUp id worker token)
                        (finish_job env job worker token (stage.model_dump h) now db4))
                    (id-IsHeld env job_id worker token now db job held)
                    (finish_job-Post env worker token job now (stage.model_dump h) db4))
                  (λ _ db5 h5.
                    Post-bind (λ _. IsGivenUp job_id worker token) (append_event _) _ db5
                      (Post-append_event _ db5 (λ es. h5))
                      (λ _ db6 h6. next-GivenUp job next_job now db6 h6))))))))))

-- A stage that is committed leaves no row that runs under the worker's fence, and no resource
-- leased under it, also where a successor was enqueued.
pub commit_stage_result-IsGivenUp :
    (env : Env) (stage : StageEnv) (job_id worker token : String) (result : Handoff)
    (expected next : ItemState) (kind : String) (details : List (String × Datum))
    (next_job : Option NewJob) (now : ℕ) (db db' : Db)
    → commit_stage_result env stage job_id worker token result expected next kind details next_job
        now db
      ≡ ok (tt, db')
    → IsGivenUp job_id worker token db'
commit_stage_result-IsGivenUp env stage job_id worker token result expected next kind details
      next_job now db db' h =
    Post-ok
      (commit-GivenUp job_id worker token env stage result expected next kind details next_job now
        db)
      h
