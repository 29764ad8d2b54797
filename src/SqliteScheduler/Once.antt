-- ===== src/SqliteScheduler/Once.antt =====
-- sqlite_scheduler.py: what the abstract lease gives: a claim ends at most once, and the store keeps
-- what the scheduler relies on.
use python_ai_agent_flow.Prelude.{
  ℕ, ◌+◌, ◌≤◌, String, Bool, true, false, List, [], ◌∷◌, ◌≡◌, refl, subst, arith, some,
}
use python_ai_agent_flow.Models.Records.{Job}
use python_ai_agent_flow.Scheduler.Calls.{Outcome, returned, raised, Fence, Config, Scheduler}
use python_ai_agent_flow.Scheduler.Execute.{Surroundings, Race, execute_claim, fence_of}
use python_ai_agent_flow.Scheduler.Execute.Settled.{Settles, IsSettled, execute_claim-IsSettled}
use python_ai_agent_flow.Sessions.{Session, Adapter}
use python_ai_agent_flow.SqliteScheduler.{sqlite_storage}
use python_ai_agent_flow.SqliteScheduler.Fences.{
  Lease, LeaseStep, lease_of, Closing, commits, fails, interrupts, completes, close,
  close-LeaseStep,
}

-- The calls of one fence, one after the other, whatever each answers: how many are accepted.
abbrev one_if : Outcome Bool → ℕ
one_if (returned true) = 1
one_if (returned false) = 0
one_if (raised f) = 0

unfoldable pub acceptances : Adapter → Fence → List Closing → Session → ℕ
acceptances a f [] s = 0
acceptances a f (call ∷ calls) s =
    one_if (close a f call s).0 + acceptances a f calls (close a f call s).1

-- What a lease has left to give.
abbrev left : Lease → ℕ
left Lease.held = 1
left Lease.over = 0

LeaseStep-left : {l l' : Lease} {o : Outcome Bool} → LeaseStep l o l' → one_if o + left l' ≤ left l
LeaseStep-left LeaseStep.ends = omega arith
LeaseStep-left (LeaseStep.refuses l) = omega arith
LeaseStep-left (LeaseStep.breaks l f) = omega arith

acceptances-left :
    (a : Adapter) (f : Fence) (calls : List Closing) (s : Session)
    → acceptances a f calls s ≤ left (lease_of f s)
unfolding acceptances
acceptances-left a f [] s = omega arith
acceptances-left a f (call ∷ calls) s = omega (
  arith,
  LeaseStep-left (close-LeaseStep a f call s),
  acceptances-left a f calls (close a f call s).1,
)

left_le : (l : Lease) → left l ≤ 1
left_le l = ground arith

-- Of all the calls that end the claim of one fence, at most one is accepted, whatever the calls
-- are, their order, and the times at which they are made.
pub acceptances_at_most_one :
    (a : Adapter) (f : Fence) (calls : List Closing) (s : Session) → acceptances a f calls s ≤ 1
acceptances_at_most_one a f calls s =
    omega (arith, acceptances-left a f calls s, left_le (lease_of f s))

abbrev pub IsOver : Fence → Session → Type 0
IsOver f s = lease_of f s ≡ Lease.over

abbrev Taken : Outcome Bool → Lease → Type 0
Taken (returned true) l = l ≡ Lease.over
Taken _ l = Unit

LeaseStep-Taken : {l l' : Lease} {o : Outcome Bool} → LeaseStep l o l' → Taken o l'
LeaseStep-Taken LeaseStep.ends = refl
LeaseStep-Taken (LeaseStep.refuses l) = tt
LeaseStep-Taken (LeaseStep.breaks l f) = tt

close-IsOver :
    (a : Adapter) (f : Fence) (call : Closing) (s s' : Session)
    → close a f call s ≡ (returned true, s')
    → IsOver f s'
close-IsOver a f call s s' h =
    subst (λ r. Taken r.0 (lease_of f r.1)) h (LeaseStep-Taken (close-LeaseStep a f call s))

-- The store behind the adapter is one that the scheduler may rely on: where it accepts a call that
-- ends a claim, no row runs under the fence.
pub sqlite_storage-Settles : (a : Adapter) → Settles (sqlite_storage a) IsOver
unfolding close
sqlite_storage-Settles a = record {
  committed = λ f h c s s' e. close-IsOver a f (commits h c) s s' e;
  failed = λ f error max s s' e. close-IsOver a f (fails error max) s s' e;
  interrupted = λ f reason s s' e. close-IsOver a f (interrupts reason) s s' e;
  completed = λ f request reason s s' e. close-IsOver a f (completes request reason) s s' e;
}

-- The scheduler over the store: an execution that returns leaves no row that runs under the claim's
-- fence, or lists the job as stale, or lists a failure of the heartbeats as an error, whatever the
-- worker did, whatever it submitted, and whatever others did to the database before each heartbeat.
pub execute_claim-IsSettled_in_store :
    (a : Adapter) (config : Config) (around : Surroundings) (worker token : String) (job : Job)
    (race : Race Session) (s s' : Scheduler Session)
    → job.lease_token ≡ some token
    → execute_claim (sqlite_storage a) config around worker job race s ≡ (returned tt, s')
    → IsSettled IsOver (fence_of worker job token) s'
execute_claim-IsSettled_in_store a config around worker token job race s s' =
    execute_claim-IsSettled (sqlite_storage a) IsOver (sqlite_storage-Settles a) config around
      worker token job race s s'
