-- ===== src/Store/Moves.antt =====
-- storage.py: what a committed stage makes of its item, of its attempt and of the next job.
pub mod Follows
use python_ai_agent_flow.Prelude.{
  ℕ, String, Option, none, some, Bool, true, false, not, ◌&&◌, ◌||◌, ◌≡◌, refl, sym, ap, ◌∙◌, subst,
  arith, List, [], ◌∷◌, ◌++◌, Memᴰ, any, any-update, count, update, mem, Bool-cases, inl, inr, eqb,
  ◌==◌, nat_eq, string_eq, option_eq, lease_conflict, not_found, value_error, transition_conflict,
}
use python_ai_agent_flow.Models.Enums.{
  ItemState, item_state_eq, AttemptStatus, JobStatus, WorkerRole, WorkspaceKind,
}
use python_ai_agent_flow.Models.Evidence.{Fields}
use python_ai_agent_flow.Store.Rows.{Db, Campaign, Job, Attempt, WorkItem, ResourceLease, Datum}
use python_ai_agent_flow.Store.Env.{Env}
use python_ai_agent_flow.Store.Fences.{
  assert_live_lease, assert_no_pending_operator_interrupt, assert_external_process_stopped,
  assert_resume_authorization_fulfilled, assert_managed_worktree_binding,
  assert_registered_resource_fences, assert_attempt_focused_test_admission,
}
use python_ai_agent_flow.Store.Lifecycle.{
  is_running_attempt, move_item, assert_resource_fences, write_finish, finish_job,
}
use python_ai_agent_flow.Store.Enqueue.{NewJob, new_row, check_worktree, insert_new, enqueue_job}
use python_ai_agent_flow.Store.Commit.{succeed, enqueue_next}
use python_ai_agent_flow.Store.Stale.{assert_stopped-Post}
use python_ai_agent_flow.Store.Unchanged.{
  resume-Post, binding-Post, registered-Post, resources-Post,
}
use python_ai_agent_flow.Store.Release.{
  Post-append_event, Post-update_jobs, Post-delete_leases, lease_events-Post,
}
use python_ai_agent_flow.Store.Retries.{has_state, Post-update_work_items}
use python_ai_agent_flow.Store.Limits.Steps.{if_absent-Post}
use python_ai_agent_flow.Store.Tx.{
  update_work_items, update_attempts, update_jobs, delete_leases, insert_job, append_event,
}
use python_ai_agent_flow.Store.Tx.Post.{
  Post, Post-pure, Post-read, Post-need, Post-guard, Post-bind, Post-same, Post-conflict_if,
  Post-map,
}

-- The job's attempt has ended with this result.
abbrev pub IsStored : Job → Fields → Db → Type 0
IsStored job result db =
    (a : Attempt) × Memᴰ a db.attempts
    × (some a.id ≡ job.current_attempt_id)
    × (a.status ≡ AttemptStatus.succeeded)
    × (a.result ≡ some result)

-- The job that follows is in the table, and waits.
abbrev pub IsQueued : String → Option NewJob → Db → Type 0
IsQueued item_id none db = Unit
IsQueued item_id (some n) db =
    (j : Job) × Memᴰ j db.jobs
    × (j.id ≡ n.id)
    × (j.work_item_id ≡ item_id)
    × (j.role ≡ n.role)
    × (j.status ≡ JobStatus.pending)

-- The row that an update takes.
update-one :
    {A : Type 0} (p : A → Bool) (f : A → A) (xs : List A)
    → count p xs ≡ 1
    → (x : A) × (p x ≡ true) × Memᴰ (f x) (update p f xs)
update-one p f [] h = absurd (omega (arith, h))
update-one p f (y ∷ ys) h = elim (Bool-cases (p y)) [
  | inl t ↦ (y, t, rw t (Memᴰ.head refl))
  | inr n ↦ let (x, t, m) = update-one p f ys (ground (arith, n, h)) in (x, t, rw n (Memᴰ.tail m))
]

last-Memᴰ : {A : Type 0} (xs : List A) (x : A) → Memᴰ x (xs ++ x ∷ [])
last-Memᴰ [] x = Memᴰ.head refl
last-Memᴰ (y ∷ ys) x = Memᴰ.tail (last-Memᴰ ys x)

succeed_same :
    (job : Job) (n : NewJob) → ((succeed job n).id ≡ n.id) × ((succeed job n).role ≡ n.role)
succeed_same job n = ground arith

module _ (job : Job) (next : ItemState) (result : Fields) where
  abbrev InState : Db → Type 0
  InState db = has_state job.work_item_id next db ≡ true

  -- The item has its state, and the attempt its result.
  abbrev pub IsEnded : Db → Type 0
  IsEnded db = InState db × IsStored job result db

  moved-InState :
      (from : ItemState) (now : ℕ) (db : Db) → Post (λ _. InState) (move_item job from next now db)
  unfolding move_item
  moved-InState from now db =
      Post-bind (λ n d. n ≡ 1 → InState d) (update_work_items _ _) _ db
        (Post-update_work_items _ _ db (
          any-update (λ i. i.id == job.work_item_id && i.state == from)
            (λ i. i.id == job.work_item_id && i.state == next) _ db.work_items
            (λ i e. ground (arith, e, (item_state_eq.equals_iff next next).1 refl))))
        (λ n d g. Post-conflict_if _ transition_conflict d (λ e. g (ground (arith, e))))

  module _ (env : Env) (worker token : String) (now : ℕ) where
    written-Ended :
        (leases : List ResourceLease) (db : Db)
        → InState db
        → Post (λ _. IsEnded) (write_finish env job worker token result leases now db)
    unfolding write_finish update_attempts
    written-Ended leases db h =
        Post-bind (λ n d. InState d × (n ≡ 1 → IsStored job result d)) (update_attempts _ _) _ db
          record {
            holds = (
              h,
              λ one.
                  let (a, taken, m) = update-one (is_running_attempt job) _ db.attempts one in
                  (
                    _,
                    m,
                    (option_eq.equals_iff (some a.id) job.current_attempt_id).0
                        (ground (arith, taken)),
                    refl,
                    refl,
                  ),
            );
          }
          (λ n d1 h1.
            Post-bind (λ _ d. InState d × (n ≡ 1 → IsStored job result d)) (update_jobs _ _) _ d1
              (Post-update_jobs _ _ d1 (λ _. h1))
              (λ m d2 h2. Post-guard _ lease_conflict _ d2 (λ changed.
                let done : IsEnded d2 = (h2.0, h2.1 (ground (arith, changed))) in
                Post-bind (λ _. IsEnded) (delete_leases _) _ d2
                  (Post-delete_leases _ d2 (λ _. done))
                  (λ _ d3 h3.
                    Post-guard _ lease_conflict _ d3
                      (λ _. lease_events-Post IsEnded (λ _ _ g. g) env _ _ _ _ _ _ now d3 h3)))))

    pub finish_job-Ended :
        (db : Db) → InState db → Post (λ _. IsEnded) (finish_job env job worker token result now db)
    unfolding finish_job
    finish_job-Ended db h =
        Post-same _ (assert_external_process_stopped job) _ db (assert_stopped-Post job db) (λ _ _.
          Post-same (λ _. Unit {0}) (assert_resume_authorization_fulfilled job) _ db
            (resume-Post job db)
            (λ _ _.
              Post-same (λ _. Unit {0}) (assert_managed_worktree_binding job) _ db
                (binding-Post job db)
                (λ _ _.
                  Post-same (λ _. Unit {0}) (assert_registered_resource_fences env job now) _ db
                    (registered-Post env job now db)
                    (λ _ _.
                      Post-same (λ _. Unit {0}) (assert_resource_fences job worker token now) _ db
                        (resources-Post job worker token now db)
                        (λ _ _. Post-read _ _ db (written-Ended _ db h))))))

  -- The enqueuing of a job keeps the items and the attempts.
  new-Ended :
      (new : NewJob) (campaign_id item_id : String) (kind : WorkspaceKind) (now : ℕ) (db : Db)
      → IsEnded db
      → Post
          (λ _ d. IsEnded d × IsQueued item_id (some new) d)
          (insert_new new campaign_id item_id kind now db)
  unfolding insert_new insert_job
  new-Ended new campaign_id item_id kind now db h = Post-guard _ value_error _ db (λ _.
      Post-guard _ value_error _ db (λ _. Post-guard _ value_error _ db (λ _.
        Post-bind (λ _ d. IsEnded d × IsQueued item_id (some new) d)
          (insert_job (new_row new campaign_id item_id kind now)) _ db
          (if_absent-Post _ _ (
            h,
            (new_row new campaign_id item_id kind now, last-Memᴰ db.jobs _, refl, refl, refl, refl),
          ))
          (λ _ db1 h1. Post-append_event _ db1 (λ es. h1)))))

  worktree-Ended :
      (c : Campaign) (item_id : String) (role : WorkerRole) (kind : WorkspaceKind)
      (o : Option String) (db : Db)
      → IsEnded db
      → Post (λ _. IsEnded) (check_worktree c item_id role kind o db)
  unfolding check_worktree
  worktree-Ended c item_id role kind none db h = Post-conflict_if _ value_error db (λ _. h)
  worktree-Ended c item_id role kind (some id) db h =
      Post-guard _ value_error _ db
        (λ _. Post-read _ _ db (Post-conflict_if _ transition_conflict db (λ _. h)))

  enqueue-Ended :
      (item_id : String) (new : NewJob) (now : ℕ) (db : Db)
      → IsEnded db
      → Post (λ _ d. IsEnded d × IsQueued item_id (some new) d) (enqueue_job item_id new now db)
  unfolding enqueue_job
  enqueue-Ended item_id new now db h = Post-read _ _ db (
      Post-need _ not_found _ db (λ item _. Post-read _ _ db (
        Post-need _ not_found _ db (λ c _. Post-guard _ transition_conflict _ db (λ _.
          Post-guard _ value_error _ db (λ _. Post-guard _ value_error _ db (λ _.
            Post-guard _ value_error _ db (λ _. Post-guard _ value_error _ db (λ _.
              Post-bind (λ _. IsEnded) (check_worktree c item_id new.role _ new.managed_worktree_id)
                _ db (worktree-Ended c item_id new.role _ new.managed_worktree_id db h)
                (λ _ db1 h1. new-Ended new c.id item_id _ now db1 h1))))))))))

  pub next-Ended :
      (o : Option NewJob) (now : ℕ) (db : Db)
      → IsEnded db
      → Post (λ _ d. IsEnded d × IsQueued job.work_item_id o d) (enqueue_next job o now db)
  unfolding enqueue_next
  next-Ended none now db h = Post-pure tt db (h, tt)
  next-Ended (some n) now db h =
      Post-map (λ _ d. IsEnded d × IsQueued job.work_item_id (some (succeed job n)) d) _
        (enqueue-Ended job.work_item_id (succeed job n) now db h)
        (λ _ d (ended, (j, m, id, item, role, waits)).
          (ended, (j, m, id ∙ (succeed_same job n).0, item, role ∙ (succeed_same job n).1, waits)))
