-- ===== src/Store/Retries.antt =====
-- storage.py: what fail_job decides, and what it makes of the job and of its work item.
use python_ai_agent_flow.Prelude.{
  ℕ, ◌<◌, String, Option, Bool, true, ◌&&◌, ◌≡◌, ◌≢◌, ◌↔◌, ◌⊎◌, find, none, some, arith, List, All,
  any, any-update, count, update, ◌==◌, beq_refl, nat_eq, string_eq, option_eq, transition_conflict,
}
use python_ai_agent_flow.Models.Enums.{
  ItemState, item_state_eq, JobStatus, AttemptStatus, attempt_status_eq,
}
use python_ai_agent_flow.Store.Statuses.{WorktreeState}
use python_ai_agent_flow.Store.Rows.{Db, Job, WorkItem, Attempt, Worktree}
use python_ai_agent_flow.Store.Env.{Env}
use python_ai_agent_flow.Store.Lifecycle.{cond, move_item}
use python_ai_agent_flow.Store.Tx.{update_work_items}
use python_ai_agent_flow.Store.Tx.Post.{Post, Post-bind, Post-conflict_if}

pub Post-update_work_items :
    {Q : ℕ → Db → Type 0} (p : WorkItem → Bool) (f : WorkItem → WorkItem) (db : Db)
    → Q (count p db.work_items) (record db { work_items = update p f db.work_items })
    → Post Q (update_work_items p f db)
unfolding update_work_items
Post-update_work_items p f db q = record { holds = q }

-- A row of the work item with this state.
abbrev pub has_state : String → ItemState → Db → Bool
has_state id s db = any (λ i. i.id == id && i.state == s) db.work_items

-- Every row of the job has this status.
abbrev pub HasStatus : String → JobStatus → Db → Type 0
HasStatus id s db = All (λ j. (j.id == id) ≡ true → j.status ≡ s) db.jobs

-- What is settled before the job is written, and what it is written to.
abbrev IsSettled : Job → List Attempt → List Worktree → Db → Type 0
IsSettled job attempts worktrees db = (db.attempts ≡ attempts) × (db.managed_worktrees ≡ worktrees)

abbrev IsWritten : Job → List Attempt → List Worktree → ItemState → JobStatus → Db → Type 0
IsWritten job attempts worktrees to status db =
    IsSettled job attempts worktrees db
    × (has_state job.work_item_id to db ≡ true)
    × HasStatus job.id status db

pub move_item-Post :
    (job : Job) (from to : ItemState) (now : ℕ) (attempts : List Attempt)
    (worktrees : List Worktree) (db : Db)
    → IsSettled job attempts worktrees db
    → Post
        (λ _ db'. IsSettled job attempts worktrees db' × (has_state job.work_item_id to db' ≡ true))
        (move_item job from to now db)
unfolding move_item
move_item-Post job from to now attempts worktrees db h =
    Post-bind
      (λ n db'.
        IsSettled job attempts worktrees db' × (n ≡ 1 → has_state job.work_item_id to db' ≡ true))
      (update_work_items _ _) _ db
      (Post-update_work_items _ _ db (
        h,
        any-update (λ i. i.id == job.work_item_id && i.state == from)
            (λ i. i.id == job.work_item_id && i.state == to) _ db.work_items
            (λ i e. ground (arith, e, beq_refl to)),
      ))
      (λ n db' g. Post-conflict_if _ transition_conflict db' (λ e. (g.0, g.1 (ground (arith, e)))))

-- The job has no managed worktree, or the first of that id is there and not quarantined.
abbrev pub IsUsable : Option String → List Worktree → Type 0
IsUsable id ws =
    (id ≡ none)
    ⊎ ((w : Worktree) × (find (λ x. some x.id == id) ws ≡ some w)
        × (w.state ≢ WorktreeState.quarantined))

-- How often the job has failed.
abbrev pub failures : String → Db → ℕ
failures id db = count (λ a. a.job_id == id && a.status == AttemptStatus.failed) db.attempts

-- When a job is tried again: it was asked for, it has failed fewer times than is allowed, and its
-- worktree may be used.
abbrev pub IsRetry : Job → Bool → ℕ → Db → Type 0
IsRetry job requeue max_attempts db =
    (requeue ≡ true)
    × (failures job.id db < max_attempts)
    × IsUsable job.managed_worktree_id db.managed_worktrees

-- What fail_job decides about the job, from what the database holds then.
abbrev pub IsDecided : Job → Bool → ℕ → ItemState → Bool → Db → Type 0
IsDecided job requeue max_attempts blocked_state again db =
    ((again ≡ true) ↔ IsRetry job requeue max_attempts db)
    × (has_state job.work_item_id (cond again job.queued_item_state blocked_state) db ≡ true)
    × HasStatus job.id (cond again JobStatus.pending JobStatus.failed) db
