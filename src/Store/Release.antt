-- ===== src/Store/Release.antt =====
-- storage.py: what is left of a job's lease when the job ends, fails or is interrupted.
use python_ai_agent_flow.Prelude.{
  ℕ, String, Option, none, some, Bool, true, false, not, ◌&&◌, ◌≡◌, refl, subst, arith, ltb, List,
  All, All-update, All-intro, All-map, All-select-not, find-some, update, select, ◌==◌, nat_eq,
  string_eq, option_eq, value_error, lease_conflict,
}
use python_ai_agent_flow.Models.Enums.{ItemState, JobStatus, job_status_eq}
use python_ai_agent_flow.Models.Evidence.{Fields}
use python_ai_agent_flow.Store.Rows.{Db, Job, ResourceLease, Event, Control}
use python_ai_agent_flow.Store.Env.{Env}
use python_ai_agent_flow.Store.Fences.{assert_live_lease}
use python_ai_agent_flow.Store.Events.{append_resource_lease_event, append_resource_lease_events}
use python_ai_agent_flow.Store.Lifecycle.{
  held_by, cond, release_leases, write_failure, fail_job, write_finish, finish_job, move_item,
}
use python_ai_agent_flow.Store.Interrupt.{interrupt_job, write_interruption, apply_interrupt}
use python_ai_agent_flow.Store.Stale.{IsHeld, assert_live_lease-Post}
use python_ai_agent_flow.Store.Tx.{update_jobs, delete_leases, update_controls, append_event}
use python_ai_agent_flow.Store.Tx.Post.{
  Post, Post-pure, Post-map, Post-read, Post-guard, Post-bind, Post-then, Post-same, Post-if,
  Post-for_each,
}

-- The row runs under the worker's fence.
abbrev pub runs_under : String → String → String → Job → Bool
runs_under job_id worker token j =
    j.id == job_id
    && (j.status == JobStatus.running
        && (j.lease_owner == some worker && j.lease_token == some token))

-- The resource is leased under the worker's fence.
abbrev pub is_lease_of : String → String → String → ResourceLease → Bool
is_lease_of job_id worker token l =
    l.job_id == some job_id && (l.owner_id == worker && l.lease_token == token)

-- No row runs under the fence.
abbrev pub IsStopped : String → String → String → Db → Type 0
IsStopped job_id worker token db = All (λ j. runs_under job_id worker token j ≡ false) db.jobs

-- No row runs under the fence, and no resource is leased under it.
abbrev pub IsGivenUp : String → String → String → Db → Type 0
IsGivenUp job_id worker token db =
    IsStopped job_id worker token db
    × All (λ l. is_lease_of job_id worker token l ≡ false) db.resource_leases

-- An event changes no other table.
pub Post-append_event :
    {Q : Unit {0} → Db → Type 0} (e : Event) (db : Db)
    → ((es : List Event) → Q tt (record db { events = es }))
    → Post Q (append_event e db)
unfolding append_event
Post-append_event e db q = record { holds = q _ }

module _ (I : Db → Type 0)
    (keeps : (db : Db) (es : List Event) → I db → I (record db { events = es })) (env : Env) where
  pub lease_event-Post :
      (kind campaign_id item_id job_id : String) (actor : Option String) (now : ℕ)
      (l : ResourceLease) (db : Db)
      → I db
      → Post
          (λ _. I)
          (append_resource_lease_event env kind campaign_id item_id job_id actor now l db)
  unfolding append_resource_lease_event
  lease_event-Post kind campaign_id item_id job_id actor now l db h =
      Post-if _ _ _ db (λ _. Post-pure tt db h)
        (λ _. Post-read _ _ db (Post-append_event _ db (λ es. keeps db es h)))

  -- The events of leases keep what does not depend on the events.
  pub lease_events-Post :
      (kind : String) (leases : List ResourceLease) (campaign_id item_id job_id : String)
      (actor : Option String) (now : ℕ) (db : Db)
      → I db
      → Post
          (λ _. I)
          (append_resource_lease_events env kind leases campaign_id item_id job_id actor now db)
  unfolding append_resource_lease_events
  lease_events-Post kind leases campaign_id item_id job_id actor now db h =
      Post-for_each I _ leases db
        (λ l db' h'. lease_event-Post kind campaign_id item_id job_id actor now l db' h') h

-- What an update of the jobs establishes about all of them.
pub Post-update_jobs :
    {Q : ℕ → Db → Type 0} (p : Job → Bool) (f : Job → Job) (db : Db)
    → ((n : ℕ) → Q n (record db { jobs = update p f db.jobs }))
    → Post Q (update_jobs p f db)
unfolding update_jobs
Post-update_jobs p f db q = record { holds = q _ }

pub stop_jobs-Post :
    (job_id worker token : String) (p : Job → Bool) (f : Job → Job) (db : Db)
    → ((j : Job) → runs_under job_id worker token (f j) ≡ false)
    → ((j : Job) → p j ≡ false → runs_under job_id worker token j ≡ false)
    → Post (λ _. IsStopped job_id worker token) (update_jobs p f db)
stop_jobs-Post job_id worker token p f db ended others = Post-update_jobs p f db (λ _.
    All-update (λ j. runs_under job_id worker token j ≡ false) p f db.jobs (λ j _. ended j)
      (All-intro (λ j. p j ≡ false → runs_under job_id worker token j ≡ false) others db.jobs))

pub Post-update_controls :
    {Q : ℕ → Db → Type 0} (p : Control → Bool) (f : Control → Control) (db : Db)
    → ((n : ℕ) (cs : List Control) → Q n (record db { operator_controls = cs }))
    → Post Q (update_controls p f db)
unfolding update_controls
Post-update_controls p f db q = record { holds = q _ _ }

pub Post-delete_leases :
    {Q : ℕ → Db → Type 0} (p : ResourceLease → Bool) (db : Db)
    → ((n : ℕ) → Q n (record db { resource_leases = select (λ l. not (p l)) db.resource_leases }))
    → Post Q (delete_leases p db)
unfolding delete_leases
Post-delete_leases p db q = record { holds = q _ }

-- A row with no owner does not run under a fence.
unowned : (a b : Bool) → (a && (b && false)) ≡ false
unowned true true = refl
unowned true false = refl
unowned false b = refl

module _ (env : Env) (worker token : String) (job : Job) (now : ℕ) where
  release_leases-Post :
      (db : Db)
      → IsStopped job.id worker token db
      → Post (λ _. IsGivenUp job.id worker token) (release_leases env job worker token now db)
  unfolding release_leases
  release_leases-Post db stopped = Post-read _ _ db (
      Post-bind (λ _. IsGivenUp job.id worker token)
        (delete_leases (λ l. l.job_id == some job.id && l.lease_token == token)) _ db
        (Post-delete_leases _ db (λ _. (
          stopped,
          All-map (λ l h. ground (arith, h)) _
              (All-select-not (λ l. l.job_id == some job.id && l.lease_token == token)
                db.resource_leases),
        )))
        (λ _ db' h.
          lease_events-Post (IsGivenUp job.id worker token) (λ _ _ g. g) env _ _ _ _ _ _ now db' h))

  write_failure-Post :
      (error : String) (result : Fields) (again : Bool) (blocked_state : ItemState) (available : ℕ)
      (db : Db)
      → Post
          (λ _. IsGivenUp job.id worker token)
          (write_failure env job worker token error result again blocked_state available now db)
  unfolding write_failure
  write_failure-Post error result again blocked_state available db =
      Post-then
        (move_item job job.active_item_state (cond again job.queued_item_state blocked_state) now) _
        db
        (λ _ db1.
          Post-bind (λ _. IsStopped job.id worker token) (update_jobs (λ j. j.id == job.id) _) _ db1
            (stop_jobs-Post job.id worker token (λ j. j.id == job.id) _ db1
              (λ j. unowned (j.id == job.id) _) (λ j e. ground (arith, e)))
            (λ _ db2 stopped. release_leases-Post db2 stopped))

  write_interruption-Post :
      (reason : String) (request : Option String) (db : Db)
      → Post
          (λ _. IsGivenUp job.id worker token)
          (write_interruption env job worker token reason request now db)
  unfolding write_interruption
  write_interruption-Post reason request db = Post-then _ _ db (λ _ db1. Post-then _ _ db1 (λ _ db2.
      Post-then _ _ db2 (λ _ db3. Post-then _ _ db3 (λ _ db4.
        Post-bind (λ _. IsStopped job.id worker token) (update_jobs (λ j. j.id == job.id) _) _ db4
          (stop_jobs-Post job.id worker token (λ j. j.id == job.id) _ db4
            (λ j. unowned (j.id == job.id) (JobStatus.pending == JobStatus.running))
            (λ j e. ground (arith, e)))
          (λ _ db5 stopped.
            Post-bind (λ _. IsGivenUp job.id worker token) (release_leases env job worker token now)
              _ db5 (release_leases-Post db5 stopped)
              (λ _ db6 h. Post-append_event _ db6 (λ es. h)))))))

  apply_interrupt-Post :
      (request : Option Control) (reason : String) (db : Db)
      → IsGivenUp job.id worker token db
      → Post (λ _. IsGivenUp job.id worker token) (apply_interrupt request reason job worker now db)
  unfolding apply_interrupt
  apply_interrupt-Post none reason db h = Post-pure tt db h
  apply_interrupt-Post (some request) reason db h =
      Post-bind (λ _. IsGivenUp job.id worker token) (update_controls _ _) _ db
        (Post-update_controls _ _ db (λ n cs. h))
        (λ n db1 h1. Post-guard _ lease_conflict _ db1 (λ _. Post-append_event _ db1 (λ es. h1)))

  write_finish-Post :
      (result : Fields) (registered : List ResourceLease) (db : Db)
      → Post
          (λ _. IsGivenUp job.id worker token)
          (write_finish env job worker token result registered now db)
  unfolding write_finish
  write_finish-Post result registered db = Post-then _ _ db (λ _ db1.
      Post-bind (λ _. IsStopped job.id worker token)
        (update_jobs (runs_under job.id worker token) _) _ db1
        (stop_jobs-Post job.id worker token (runs_under job.id worker token) _ db1
          (λ j. unowned (j.id == job.id) (JobStatus.completed == JobStatus.running)) (λ j e. e))
        (λ _ db2 stopped. Post-guard _ lease_conflict _ db2 (λ _.
          Post-bind (λ _. IsGivenUp job.id worker token) (delete_leases _) _ db2
            (Post-delete_leases _ db2
              (λ _. (stopped, All-select-not (held_by job worker token) db2.resource_leases)))
            (λ _ db3 h. Post-guard _ lease_conflict _ db3 (λ _.
              lease_events-Post (IsGivenUp job.id worker token) (λ _ _ g. g) env _ _ _ _ _ _ now db3
                h)))))

  pub finish_job-Post :
      (result : Fields) (db : Db)
      → Post (λ _. IsGivenUp job.id worker token) (finish_job env job worker token result now db)
  unfolding finish_job
  finish_job-Post result db = Post-then _ _ db (λ _ db1. Post-then _ _ db1 (λ _ db2.
      Post-then _ _ db2 (λ _ db3. Post-then _ _ db3 (λ _ db4.
        Post-then _ _ db4 (λ _ db5. Post-read _ _ db5 (write_finish-Post result _ db5))))))

module _ (env : Env) (job_id worker token : String) (now : ℕ) (db : Db) where
  -- The row that is found has the id that was asked for.
  pub id-IsHeld : (job : Job) → IsHeld db job_id worker token now job → job.id ≡ job_id
  id-IsHeld job held =
      (string_eq.equals_iff job.id job_id).0 (find-some (λ j. j.id == job_id) db.jobs held.0).1

  moved {ℓ} :
      {A : Type ℓ} (job : Job)
      → IsHeld db job_id worker token now job
      → (a : A) (db' : Db) → IsGivenUp job.id worker token db'
      → IsGivenUp job_id worker token db'
  moved job held a db' h = subst (λ id. IsGivenUp id worker token db') (id-IsHeld job held) h

  pub fail_job-Post :
      (error : String) (result : Fields) (requeue : Bool) (available : Option ℕ) (max_attempts : ℕ)
      (blocked_state : ItemState)
      → Post
          (λ _. IsGivenUp job_id worker token)
          (fail_job env job_id worker token error result requeue available max_attempts
            blocked_state now db)
  unfolding fail_job
  fail_job-Post error result requeue available max_attempts blocked_state =
      Post-guard (ltb max_attempts 1) value_error _ db (λ _.
        Post-same _ (assert_live_lease job_id worker token now) _ db
          (assert_live_lease-Post job_id worker token now db)
          (λ job held.
            Post-map (λ _. IsGivenUp job.id worker token) _
              (Post-then _ _ db (λ _ db1. Post-then _ _ db1 (λ _ db2. Post-then _ _ db2 (λ _ db3.
                Post-then _ _ db3 (λ _ db4. Post-then _ _ db4 (λ _ db5. Post-read _ _ db5 (
                  Post-read _ _ db5 (
                    Post-bind (λ _. IsGivenUp job.id worker token) _ _ db5
                      (write_failure-Post env worker token job now error result _ blocked_state _
                        db5)
                      (λ _ db6 h.
                        Post-bind (λ _. IsGivenUp job.id worker token) _ _ db6
                          (Post-append_event _ db6 (λ es. h))
                          (λ _ db7 h'. Post-pure _ db7 h'))))))))))
              (moved job held)))

  pub interrupt_job-Post :
      (reason : String) (request : Option String)
      → Post
          (λ _. IsGivenUp job_id worker token)
          (interrupt_job env job_id worker token reason request now db)
  unfolding interrupt_job
  interrupt_job-Post reason request =
      Post-same _ (assert_live_lease job_id worker token now) _ db
        (assert_live_lease-Post job_id worker token now db)
        (λ job held.
          Post-map (λ _. IsGivenUp job.id worker token) _
            (Post-then _ _ db (λ asked db1. Post-then _ _ db1 (λ _ db2.
              Post-bind (λ _. IsGivenUp job.id worker token) _ _ db2
                (write_interruption-Post env worker token job now reason request db2)
                (λ _ db3 h. apply_interrupt-Post env worker token job now asked reason db3 h))))
            (moved job held))
