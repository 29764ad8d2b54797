-- ===== src/Store/Retired.antt =====
-- storage.py: a fence that was given up is dead.
use python_ai_agent_flow.Prelude.{
  ℕ, String, Option, Bool, true, false, ◌≡◌, arith, one_outcome, All-Memᴰ, find-some, ◌==◌,
  string_eq, ok,
}
use python_ai_agent_flow.Models.Enums.{ItemState}
use python_ai_agent_flow.Models.Evidence.{Fields}
use python_ai_agent_flow.Store.Rows.{Db, Job}
use python_ai_agent_flow.Store.Env.{Env}
use python_ai_agent_flow.Store.Fences.{is_live}
use python_ai_agent_flow.Store.Lifecycle.{heartbeat_job, fail_job, finish_job}
use python_ai_agent_flow.Store.Interrupt.{interrupt_job}
use python_ai_agent_flow.Store.Stale.{IsHeld, heartbeat_job-IsHeld, fail_job-IsReleasable}
use python_ai_agent_flow.Store.Release.{
  IsStopped, IsGivenUp, runs_under, fail_job-Post, interrupt_job-Post, finish_job-Post,
}
use python_ai_agent_flow.Store.Tx.Post.{Post-ok}

-- A row under a live lease runs under its fence.
pub live-runs :
    (job : Job) (job_id worker token : String) (now : ℕ)
    → (job.id == job_id) ≡ true
    → is_live job worker token now ≡ true
    → runs_under job_id worker token job ≡ true
unfolding is_live
live-runs job job_id worker token now e live = ground (arith, e, live)

-- Where no row runs under the fence, the worker holds none.
stopped-not-IsHeld :
    (job_id worker token : String) (now : ℕ) (db : Db) (job : Job)
    → IsStopped job_id worker token db
    → ¬ IsHeld db job_id worker token now job
stopped-not-IsHeld job_id worker token now db job stopped held =
    let (m, e) = find-some (λ j. j.id == job_id) db.jobs held.0 in
    one_outcome (live-runs job job_id worker token now e held.1)
      (All-Memᴰ (λ j. runs_under job_id worker token j ≡ false) stopped m)

module _ (env : Env) (job_id worker token error : String) (result : Fields) (requeue : Bool)
    (available : Option ℕ) (max_attempts : ℕ) (blocked_state : ItemState) (now : ℕ) (again : Bool)
    (db db' : Db)
    (failed : fail_job env job_id worker token error result requeue available max_attempts
        blocked_state now db
      ≡ ok (again, db')) where
  -- A failure that is recorded leaves no row that runs under the worker's fence, and no resource
  -- leased under it.
  pub fail_job-IsGivenUp : IsGivenUp job_id worker token db'
  fail_job-IsGivenUp =
      Post-ok
        (fail_job-Post env job_id worker token now db error result requeue available max_attempts
          blocked_state)
        failed

  -- After a failure is recorded, a heartbeat of the same worker with the same token does not
  -- succeed, at any time.
  pub heartbeat_job-after-fail_job :
      (lease_seconds later : ℕ) (db'' : Db)
      → ¬ (heartbeat_job env job_id worker token lease_seconds later db' ≡ ok (tt, db''))
  heartbeat_job-after-fail_job lease_seconds later db'' h =
      let (job, held) =
        heartbeat_job-IsHeld env job_id worker token lease_seconds later db' db'' h in
      stopped-not-IsHeld job_id worker token later db' job fail_job-IsGivenUp.0 held

  -- A failure is recorded at most once under a fence.
  pub fail_job-once :
      (error' : String) (result' : Fields) (requeue' : Bool) (available' : Option ℕ)
      (max_attempts' : ℕ) (blocked_state' : ItemState) (later : ℕ) (again' : Bool) (db'' : Db)
      → ¬ (
          fail_job env job_id worker token error' result' requeue' available' max_attempts'
            blocked_state' later db'
          ≡ ok (again', db''))
  fail_job-once error' result' requeue' available' max_attempts' blocked_state' later again' db''
        h =
      let (job, releasable) =
        fail_job-IsReleasable env job_id worker token error' result' requeue' available'
          max_attempts' blocked_state' later again' db' db'' h in
      stopped-not-IsHeld job_id worker token later db' job fail_job-IsGivenUp.0 releasable.0

-- An interruption that is recorded leaves no row that runs under the worker's fence, and no
-- resource leased under it.
pub interrupt_job-IsGivenUp :
    (env : Env) (job_id worker token reason : String) (request : Option String) (now : ℕ)
    (db db' : Db)
    → interrupt_job env job_id worker token reason request now db ≡ ok (tt, db')
    → IsGivenUp job_id worker token db'
interrupt_job-IsGivenUp env job_id worker token reason request now db db' h =
    Post-ok (interrupt_job-Post env job_id worker token now db reason request) h

-- A job that ends with a result leaves no row that runs under the worker's fence, and no resource
-- leased under it.
pub finish_job-IsGivenUp :
    (env : Env) (job : Job) (worker token : String) (result : Fields) (now : ℕ) (db db' : Db)
    → finish_job env job worker token result now db ≡ ok (tt, db')
    → IsGivenUp job.id worker token db'
finish_job-IsGivenUp env job worker token result now db db' h =
    Post-ok (finish_job-Post env worker token job now result db) h
