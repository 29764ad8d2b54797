-- ===== src/Scheduler/Finalize/Fits.antt =====
-- scheduler.py: the commits that the scheduler asks for are of the shape that the store takes.
use python_ai_agent_flow.Prelude.{Option, none, some, true, mem, is_some, ◌≡◌, refl}
use python_ai_agent_flow.Models.Enums.{
  WorkerRole, ItemState, item_state_eq, InvestigationOutcome, FixOutcome,
}
use python_ai_agent_flow.Models.Gates.{GateEvaluation}
use python_ai_agent_flow.Models.Records.{Job}
use python_ai_agent_flow.Store.Stage.{Handoff}
use python_ai_agent_flow.Store.Commit.{stage_next_states, successor_of}
use python_ai_agent_flow.Scheduler.Calls.{Failure, returned, Storage, Commit, Scheduler}
use python_ai_agent_flow.Scheduler.Calls.Post.{
  Post, Post-pure, Post-raise, Post-returned, Post-last,
}
use python_ai_agent_flow.Scheduler.Finalize.{
  Dumps, investigation_commit, fix_commit, test_commit, judge_gates, commit_of,
}
use python_ai_agent_flow.Scheduler.Output.Accepted.{role_of}

-- The state is one that the role may set, and the successor is the one that the state asks for,
-- with a payload just where there is one.
abbrev pub IsStageOf : WorkerRole → Commit → Type 0
IsStageOf role c =
    (mem c.next_item_state (stage_next_states role) ≡ true)
    × (c.next_job_role ≡ successor_of c.next_item_state)
    × (is_some c.next_job_payload ≡ is_some c.next_job_role)

module _ (dumps : Dumps) where
  investigation_fits :
      (o : InvestigationOutcome) (h : Handoff)
      → IsStageOf WorkerRole.investigator (investigation_commit dumps o h)
  unfolding investigation_commit stage_next_states successor_of
  investigation_fits InvestigationOutcome.blocked h = (refl, refl, refl)
  investigation_fits InvestigationOutcome.ready_for_fix h = (refl, refl, refl)

  fix_fits : (o : FixOutcome) (h : Handoff) → IsStageOf WorkerRole.fixer (fix_commit dumps o h)
  unfolding fix_commit stage_next_states successor_of
  fix_fits FixOutcome.blocked h = (refl, refl, refl)
  fix_fits FixOutcome.ready_for_test h = (refl, refl, refl)

module _ {S : Type 0} (dumps : Dumps) where
  abbrev Fits : WorkerRole → Commit → Scheduler S → Type 0
  Fits role c s = IsStageOf role c

  abbrev Any : Failure → Scheduler S → Type 0
  Any _ _ = Unit

  test_commit-Fits :
      (o : Option ItemState) (e : GateEvaluation) (h : Handoff) (s : Scheduler S)
      → Post (Fits WorkerRole.tester) Any (test_commit dumps o e h s)
  unfolding test_commit stage_next_states successor_of
  test_commit-Fits none e h s = Post-raise _ s tt
  test_commit-Fits (some ItemState.verified_green) e h s = Post-pure _ s (refl, refl, refl)
  test_commit-Fits (some ItemState.ready_for_fix) e h s = Post-pure _ s (refl, refl, refl)
  test_commit-Fits (some ItemState.blocked) e h s = Post-pure _ s (refl, refl, refl)
  test_commit-Fits (some ItemState.backlog) e h s = Post-raise _ s tt
  test_commit-Fits (some ItemState.investigating) e h s = Post-raise _ s tt
  test_commit-Fits (some ItemState.fixing) e h s = Post-raise _ s tt
  test_commit-Fits (some ItemState.ready_for_test) e h s = Post-raise _ s tt
  test_commit-Fits (some ItemState.testing) e h s = Post-raise _ s tt

  commit_of-Post :
      (storage : Storage S Handoff) (job : Job) (h : Handoff) (s : Scheduler S)
      → Post (Fits (role_of h)) Any (commit_of storage dumps job h s)
  unfolding commit_of judge_gates
  commit_of-Post storage job (Handoff.investigation h) s =
      Post-pure _ s (investigation_fits dumps h.outcome (Handoff.investigation h))
  commit_of-Post storage job (Handoff.fix h) s =
      Post-pure _ s (fix_fits dumps h.outcome (Handoff.fix h))
  commit_of-Post storage job (Handoff.test h) s =
      Post-last _ _ s
        (λ item s₁. Post-last _ _ s₁ (λ e s₂. test_commit-Fits e.next_state e (Handoff.test h) s₂))

-- Whatever the scheduler asks the store to commit for a handoff has a state that the handoff's role
-- may set and the successor that the store asks for in that state; and it has a payload exactly where
-- it has a successor.
pub commit_of-IsStageOf :
    {S : Type 0} (storage : Storage S Handoff) (dumps : Dumps) (job : Job) (h : Handoff)
    (s s' : Scheduler S) (c : Commit)
    → commit_of storage dumps job h s ≡ (returned c, s')
    → IsStageOf (role_of h) c
commit_of-IsStageOf storage dumps job h s s' c =
    Post-returned (commit_of-Post dumps storage job h s)
