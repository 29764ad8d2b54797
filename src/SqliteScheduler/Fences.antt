-- ===== src/SqliteScheduler/Fences.antt =====
-- sqlite_scheduler.py: a claim as an abstract lease, which the calls that end a claim refine.
use python_ai_agent_flow.Prelude.{
  ℕ, suc, String, Option, none, some, Bool, true, false, List, [], ◌∷◌, ◌≡◌, refl, sym, ap, subst,
  any, All, find-some, any-of_Memᴰ, ◌==◌, string_eq, Error, Result, ok, not_found, err,
  if◌then◌else◌,
}
use python_ai_agent_flow.Models.Enums.{ItemState}
use python_ai_agent_flow.Models.Evidence.{Fields}
use python_ai_agent_flow.Store.Interrupt.{interrupt_job}
use python_ai_agent_flow.Store.Rows.{Db, Job}
use python_ai_agent_flow.Store.Stale.{IsHeld, fail_job-IsReleasable, interrupt_job-stopped}
use python_ai_agent_flow.Store.Release.{runs_under}
use python_ai_agent_flow.Store.Retired.{live-runs, fail_job-IsGivenUp, interrupt_job-IsGivenUp}
use python_ai_agent_flow.Store.Committed.{commit_stage_result-IsGivenUp}
use python_ai_agent_flow.Store.Tx.{require, select_from, ◌>>=◌}
use python_ai_agent_flow.Store.Fences.{job_by_id}
use python_ai_agent_flow.Store.Enqueue.{role_text}
use python_ai_agent_flow.Store.Rows.{Datum}
use python_ai_agent_flow.Store.Verified.{commit_stage_result-stage}
use python_ai_agent_flow.Store.Stage.{Handoff}
use python_ai_agent_flow.Scheduler.Calls.{Failure, Outcome, returned, raised, Op, Fence, Commit}
use python_ai_agent_flow.Sessions.{
  Session, Adapter, committed, transact, answer, unless_conflict, and_then, proceed_with,
}
use python_ai_agent_flow.SqliteScheduler.{
  accepted, successor_job, complete, interrupt, fail, commit,
}

-- The abstract lease: a claim is held until it is over.
pub data Lease : Type 0 where
  held over : Lease

-- What a call that ends a claim may do to it.
pub data LeaseStep : Lease → Outcome Bool → Lease → Type 0 where
  ends : LeaseStep held (returned true) over
  refuses : (l : Lease) → LeaseStep l (returned false) l
  breaks : (l : Lease) (f : Failure) → LeaseStep l (raised f) l

abbrev runs : Fence → Db → Bool
runs f db = any (runs_under f.job_id f.worker_id f.lease_token) db.jobs

-- The lease of a fence: held while a row runs under it.
unfoldable pub lease_of : Fence → Session → Lease
lease_of f s = if runs f s.db then Lease.held else Lease.over

lease_held : (f : Fence) (s : Session) → runs f s.db ≡ true → lease_of f s ≡ Lease.held
unfolding lease_of
lease_held f s h = rw h refl

lease_over : (f : Fence) (s : Session) → runs f s.db ≡ false → lease_of f s ≡ Lease.over
unfolding lease_of
lease_over f s h = rw h refl

any-All-false :
    {A : Type 0} (p : A → Bool) (xs : List A) → All (λ x. p x ≡ false) xs → any p xs ≡ false
any-All-false p [] h = refl
any-All-false p (x ∷ xs) h = rw h.0 (any-All-false p xs h.1)

IsHeld-runs :
    (f : Fence) (now : ℕ) (db : Db) (job : Job)
    → IsHeld db f.job_id f.worker_id f.lease_token now job
    → runs f db ≡ true
IsHeld-runs f now db job h =
    let (m, e) = find-some (λ j. j.id == f.job_id) db.jobs h.0 in
    any-of_Memᴰ (runs_under f.job_id f.worker_id f.lease_token) db.jobs m
      (live-runs job f.job_id f.worker_id f.lease_token now e h.1)

-- A transaction whose success takes the lease away.
module _ {A : Type 0} (f : Fence) where
  abbrev Ends : Db → Result (A × Db) → Type 0
  Ends db r = (a : A) (db' : Db) → r ≡ ok (a, db') → (runs f db ≡ true) × (runs f db' ≡ false)

  abbrev step_of : Session → Result (A × Db) → Outcome Bool × Session
  step_of s r = answer (λ _. true) false (committed s r)

  step_of-LeaseStep :
      (s : Session) (r : Result (A × Db))
      → Ends s.db r
      → LeaseStep (lease_of f s) (step_of s r).0 (lease_of f (step_of s r).1)
  unfolding lease_of
  step_of-LeaseStep s (ok (a, db')) h =
      let (before, after) = h a db' refl in
      subst (λ l. LeaseStep l (returned true) (lease_of f (record { db = db'; made = suc s.made })))
        (sym (lease_held f s before))
        (subst (λ l. LeaseStep Lease.held (returned true) l)
          (sym (lease_over f (record { db = db'; made = suc s.made }) after)) LeaseStep.ends)
  step_of-LeaseStep s (err Error.lease_conflict) h = LeaseStep.refuses _
  step_of-LeaseStep s (err Error.value_error) h = LeaseStep.breaks _ _
  step_of-LeaseStep s (err Error.attribute_error) h = LeaseStep.breaks _ _
  step_of-LeaseStep s (err Error.not_found) h = LeaseStep.breaks _ _
  step_of-LeaseStep s (err Error.transition_conflict) h = LeaseStep.breaks _ _
  step_of-LeaseStep s (err Error.integrity_error) h = LeaseStep.breaks _ _

-- The calls by which the scheduler ends a claim.
pub data Closing : Type 0 where
  commits : Handoff → Commit → Closing
  fails : String → ℕ → Closing
  interrupts : String → Closing
  completes : String → String → Closing

unfoldable pub close : Adapter → Fence → Closing → Op Session Bool
close a f (commits h c) = commit a f h c
close a f (fails error max_attempts) = fail a f error max_attempts
close a f (interrupts reason) = interrupt a f reason
close a f (completes request reason) = complete a f request reason

module _ (a : Adapter) (f : Fence) where
  abbrev Refined : Outcome Bool × Session → Session → Type 0
  Refined r s = LeaseStep (lease_of f s) r.0 (lease_of f r.1)

  interrupt_job-Ends :
      (reason : String) (request : Option String) (now : ℕ) (db : Db)
      → Ends f db (interrupt_job a.env f.job_id f.worker_id f.lease_token reason request now db)
  interrupt_job-Ends reason request now db _ db' h =
      let (job, live, _) =
        interrupt_job-stopped a.env f.job_id f.worker_id f.lease_token reason request now db db'
          h in
      (
        IsHeld-runs f now db job live,
        any-All-false _ db'.jobs
            (interrupt_job-IsGivenUp a.env f.job_id f.worker_id f.lease_token reason request now db
              db' h).0,
      )

  interrupt_refines : (reason : String) (s : Session) → Refined (interrupt a f reason s) s
  unfolding interrupt accepted unless_conflict transact
  interrupt_refines reason s =
      step_of-LeaseStep f s _ (interrupt_job-Ends reason none (a.clock s.made) s.db)

  complete_refines :
      (request reason : String) (s : Session) → Refined (complete a f request reason s) s
  unfolding complete accepted unless_conflict transact
  complete_refines request reason s =
      step_of-LeaseStep f s _ (interrupt_job-Ends reason (some request) (a.clock s.made) s.db)

  fail_refines :
      (error : String) (max_attempts : ℕ) (s : Session) → Refined (fail a f error max_attempts s) s
  unfolding fail unless_conflict transact
  fail_refines error max_attempts s = step_of-LeaseStep f s _ (λ again db' h.
      let (job, releasable) =
        fail_job-IsReleasable a.env f.job_id f.worker_id f.lease_token error Fields.end true none
          max_attempts ItemState.blocked (a.clock s.made) again s.db db' h in
      (
        IsHeld-runs f (a.clock s.made) s.db job releasable.0,
        any-All-false _ db'.jobs
            (fail_job-IsGivenUp a.env f.job_id f.worker_id f.lease_token error Fields.end true none
              max_attempts ItemState.blocked (a.clock s.made) again s.db db' h).0,
      ))

  -- Reading first changes no row.
  abbrev Reads : Db → Result (Job × Db) → Type 0
  Reads db (err e) = Unit
  Reads db (ok (job, db')) = db' ≡ db

  read_refines :
      (k : Job → Op Session Bool) (s : Session) (r : Result (Job × Db))
      → Reads s.db r
      → ((job : Job) (s' : Session) → Refined (k job s') s')
      → Refined (proceed_with k (committed s r)) s
  unfolding lease_of
  read_refines k s (err e) same next = LeaseStep.breaks _ (Failure.failed e)
  read_refines k s (ok (job, db')) same next =
      let s' : Session = record { db = db'; made = suc s.made } in
      subst (λ l. LeaseStep l (k job s').0 (lease_of f (k job s').1))
        (ap (λ db. if runs f db then Lease.held else Lease.over) same) (next job s')

  require-Reads : (o : Option Job) (db : Db) → Reads db (require o not_found db)
  unfolding require
  require-Reads none db = tt
  require-Reads (some j) db = refl

  commit_refines : (h : Handoff) (c : Commit) (s : Session) → Refined (commit a f h c s) s
  unfolding commit and_then transact accepted unless_conflict select_from ◌>>=◌
  commit_refines h c s =
      read_refines _ s (require (job_by_id f.job_id s.db) not_found s.db)
        (require-Reads (job_by_id f.job_id s.db) s.db)
        (λ current s'. step_of-LeaseStep f s' _ (λ _ db' k.
          let now = a.clock s'.made in
          let successor = successor_job (a.draw s'.made 0) now c c.next_job_role in
          let details = ("role", Datum.text (role_text current.role)) ∷ [] in
          let (job, live, _) =
            commit_stage_result-stage a.env a.stage f.job_id f.worker_id f.lease_token h
              current.active_item_state c.event_type details successor now s'.db c.next_item_state
              db' k in
          (
            IsHeld-runs f now s'.db job live,
            any-All-false _ db'.jobs
                (commit_stage_result-IsGivenUp a.env a.stage f.job_id f.worker_id f.lease_token h
                  current.active_item_state c.next_item_state c.event_type details successor now
                  s'.db db' k).0,
          )))

-- Every call by which the scheduler ends a claim, in every state of the database and at any time,
-- does to the claim what the abstract lease allows: it is accepted only while a row runs under the
-- fence, and none does afterwards; where it is refused or raises, the claim is as it was.
pub close-LeaseStep :
    (a : Adapter) (f : Fence) (call : Closing) (s : Session)
    → LeaseStep (lease_of f s) (close a f call s).0 (lease_of f (close a f call s).1)
unfolding close
close-LeaseStep a f (commits h c) s = commit_refines a f h c s
close-LeaseStep a f (fails error max_attempts) s = fail_refines a f error max_attempts s
close-LeaseStep a f (interrupts reason) s = interrupt_refines a f reason s
close-LeaseStep a f (completes request reason) s = complete_refines a f request reason s
