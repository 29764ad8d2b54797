-- ===== src/Store/Owned/Renewed.antt =====
-- storage.py: a heartbeat renews the lease of the worker that sends it.
use python_ai_agent_flow.Prelude.{
  ℕ, ◌+◌, ◌<◌, String, some, Bool, ◌≡◌, refl, ap, ◌∙◌, subst, leb, List, [], ◌∷◌, find, update,
  Bool-cases, inl, inr, some_injective, ◌==◌, nat_eq, string_eq, option_eq, ok, value_error,
  lease_conflict,
}
use python_ai_agent_flow.Models.Enums.{job_status_eq}
use python_ai_agent_flow.Store.Statuses.{process_state_eq, control_action_eq, control_status_eq}
use python_ai_agent_flow.Store.Rows.{Db, Job}
use python_ai_agent_flow.Store.Env.{Env}
use python_ai_agent_flow.Store.Fences.{
  job_by_id, assert_live_lease, assert_attempt_focused_test_admission,
  assert_registered_resource_fences,
}
use python_ai_agent_flow.Store.Lifecycle.{cond, heartbeat_job}
use python_ai_agent_flow.Store.Stale.{assert_live_lease-Post}
use python_ai_agent_flow.Store.Unchanged.{admission-Post, registered-Post}
use python_ai_agent_flow.Store.Release.{Post-update_jobs}
use python_ai_agent_flow.Store.Tx.{update_jobs, update_attempts, update_leases}
use python_ai_agent_flow.Store.Tx.Post.{
  Post, Post-guard, Post-bind, Post-same, Post-conflict_if, Post-ok,
}
use python_ai_agent_flow.Store.Owned.{IsOwned, live-IsOwned}

-- The row that an update takes is found again.
find-update :
    {A : Type 0} (p : A → Bool) (f : A → A) (xs : List A) {x : A}
    → ((y : A) → p (f y) ≡ p y)
    → find p xs ≡ some x
    → find p (update p f xs) ≡ some (f x)
find-update p f [] same h = cc
find-update p f (y ∷ ys) {x} same h =
    let found = λ (b : Bool). cond b (some y) (find p ys) ≡ some x in
    elim (Bool-cases (p y)) [
      | inl t ↦ rw t (rw (same y ∙ t) (ap (λ z. some (f z)) (some_injective (subst found t h))))
      | inr n ↦ rw n (rw n (find-update p f ys same (subst found n h)))
    ]

module _ (env : Env) (job_id worker token : String) (lease_seconds now : ℕ) (db : Db) where
  -- The worker owned the row.
  abbrev Owned : Job → Type 0
  Owned job = (job_by_id job_id db ≡ some job) × IsOwned worker token now job

  -- The row of the heartbeat.
  abbrev beaten : Job → Job
  beaten j = record j {
    heartbeat_at = some now;
    lease_expires_at = some (now + lease_seconds);
    updated_at = now;
  }

  abbrev Beaten : Db → Type 0
  Beaten d = (job : Job) × Owned job × (job_by_id job_id d ≡ some (beaten job))

  heartbeat_job-Beaten :
      Post (λ _. Beaten) (heartbeat_job env job_id worker token lease_seconds now db)
  unfolding heartbeat_job update_attempts update_leases
  heartbeat_job-Beaten = Post-guard (leb lease_seconds 0) value_error _ db (λ _.
      Post-same _ (assert_live_lease job_id worker token now) _ db
        (assert_live_lease-Post job_id worker token now db)
        (λ job held.
          Post-same (λ _. Unit {0}) (assert_attempt_focused_test_admission env job) _ db
            (admission-Post env job db)
            (λ _ _.
              Post-same (λ _. Unit {0}) (assert_registered_resource_fences env job now) _ db
                (registered-Post env job now db)
                (λ _ _.
                  Post-bind (λ _. Beaten) (update_jobs (λ j. j.id == job_id) beaten) _ db
                    (Post-update_jobs (λ j. j.id == job_id) beaten db
                      (λ _. (
                        job,
                        (held.0, live-IsOwned job worker token now held.1),
                        find-update (λ j. j.id == job_id) beaten db.jobs (λ j. refl) held.0,
                      )))
                    (λ _ d1 h1.
                      Post-bind (λ _. Beaten) (update_attempts _ _) _ d1 record { holds = h1 }
                        (λ _ d2 h2.
                          Post-bind (λ _. Beaten) (update_leases _ _) _ d2 record { holds = h2 }
                            (λ _ d3 h3. Post-conflict_if _ lease_conflict d3 (λ _. h3))))))))

-- A heartbeat that succeeds was sent by the worker that holds the row of the running job, under a
-- lease that has not passed; and that worker holds the row, running and under the same token, at
-- every later time before the time of the heartbeat and the seconds asked for.
pub heartbeat_job-IsRenewed :
    (env : Env) (job_id worker token : String) (lease_seconds now later : ℕ) (db db' : Db)
    → heartbeat_job env job_id worker token lease_seconds now db ≡ ok (tt, db')
    → later < now + lease_seconds
    → ((job : Job) × (job_by_id job_id db ≡ some job) × IsOwned worker token now job)
      × ((job : Job) × (job_by_id job_id db' ≡ some job) × IsOwned worker token later job)
heartbeat_job-IsRenewed env job_id worker token lease_seconds now later db db' h soon =
    let (job, (at_id, owned), found) =
      Post-ok (heartbeat_job-Beaten env job_id worker token lease_seconds now db) h in
    (
      (job, at_id, owned),
      (
        record job {
          heartbeat_at = some now;
          lease_expires_at = some (now + lease_seconds);
          updated_at = now;
        },
        found,
        (owned.0, owned.1, owned.2, (now + lease_seconds, refl, soon)),
      ),
    )
