-- ===== src/Store/Moves/Follows.antt =====
-- storage.py: the stages as a state machine, and what a committed stage rests on and makes.
use python_ai_agent_flow.Prelude.{
  ℕ, String, List, Option, none, some, true, not, ◌≡◌, refl, sym, subst, arith, mem, ◌==◌,
  option_eq, string_eq, ok, transition_conflict,
}
use python_ai_agent_flow.Models.Enums.{WorkerRole, worker_role_eq, ItemState, item_state_eq}
use python_ai_agent_flow.Store.Rows.{Db, Job, Datum}
use python_ai_agent_flow.Store.Env.{Env}
use python_ai_agent_flow.Store.Fences.{
  job_by_id, assert_live_lease, assert_no_pending_operator_interrupt,
  assert_attempt_focused_test_admission,
}
use python_ai_agent_flow.Store.Lifecycle.{move_item, finish_job}
use python_ai_agent_flow.Store.Stage.{Handoff, StageEnv, validate_stage_result}
use python_ai_agent_flow.Store.Enqueue.{NewJob}
use python_ai_agent_flow.Store.Commit.{
  stage_next_states, successor_of, role_of, commit_stage_result,
}
use python_ai_agent_flow.Store.Stale.{assert_live_lease-Post, assert_no_interrupt-Post}
use python_ai_agent_flow.Store.Owned.{IsOwned, live-IsOwned}
use python_ai_agent_flow.Store.Unchanged.{admission-Post}
use python_ai_agent_flow.Store.Release.{Post-append_event}
use python_ai_agent_flow.Store.Retries.{has_state}
use python_ai_agent_flow.Store.Verified.{IsProvenFor, validated-Post}
use python_ai_agent_flow.Store.Moves.{
  IsStored, IsQueued, IsEnded, moved-InState, finish_job-Ended, next-Ended,
}
use python_ai_agent_flow.Store.Tx.{append_event}
use python_ai_agent_flow.Store.Tx.Post.{Post, Post-guard, Post-bind, Post-same, Post-map, Post-ok}

-- The stages: the role that ends one, the state that the item goes to, and the role that is next.
pub data Follows : WorkerRole → ItemState → Option WorkerRole → Type 0 where
  investigated : Follows WorkerRole.investigator ItemState.ready_for_fix (some WorkerRole.fixer)
  fixed : Follows WorkerRole.fixer ItemState.ready_for_test (some WorkerRole.tester)
  returned : Follows WorkerRole.tester ItemState.ready_for_fix (some WorkerRole.fixer)
  proven : Follows WorkerRole.tester ItemState.verified_green none
  stuck : (role : WorkerRole) → Follows role ItemState.blocked none

allowed-Follows :
    (role : WorkerRole) (next : ItemState)
    → mem next (stage_next_states role) ≡ true
    → Follows role next (successor_of next)
unfolding stage_next_states successor_of
allowed-Follows WorkerRole.investigator ItemState.ready_for_fix h = Follows.investigated
allowed-Follows WorkerRole.investigator ItemState.blocked h = Follows.stuck _
allowed-Follows WorkerRole.investigator _ h = cc
allowed-Follows WorkerRole.fixer ItemState.ready_for_test h = Follows.fixed
allowed-Follows WorkerRole.fixer ItemState.blocked h = Follows.stuck _
allowed-Follows WorkerRole.fixer _ h = cc
allowed-Follows WorkerRole.tester ItemState.verified_green h = Follows.proven
allowed-Follows WorkerRole.tester ItemState.ready_for_fix h = Follows.returned
allowed-Follows WorkerRole.tester ItemState.blocked h = Follows.stuck _
allowed-Follows WorkerRole.tester _ h = cc

module _ (env : Env) (stage : StageEnv) (job_id worker token : String) (result : Handoff)
    (expected next : ItemState) (kind : String) (details : List (String × Datum))
    (next_job : Option NewJob) (now : ℕ) (db : Db) where
  -- A job that the worker holds, the handoff that was accepted, and what they come to.
  abbrev IsMoved : Job → Handoff → Db → Type 0
  IsMoved job h db' =
      (job_by_id job_id db ≡ some job)
      × IsOwned worker token now job
      × Follows job.role next (role_of next_job)
      × (next ≡ ItemState.verified_green → IsProvenFor stage job db result h)
      × (IsEnded job next (stage.model_dump h) db' × IsQueued job.work_item_id next_job db')

  commit-Moved :
      Post
        (λ _ d. (job : Job) × (h : Handoff) × IsMoved job h d)
        (commit_stage_result env stage job_id worker token result expected next kind details
          next_job now db)
  unfolding commit_stage_result
  commit-Moved =
      Post-same _ (assert_live_lease job_id worker token now) _ db
        (assert_live_lease-Post job_id worker token now db)
        (λ job held.
          Post-same _ (assert_no_pending_operator_interrupt job_id) _ db
            (assert_no_interrupt-Post job_id db)
            (λ _ _.
              Post-same (λ _. Unit {0}) (assert_attempt_focused_test_admission env job) _ db
                (admission-Post env job db)
                (λ _ _. Post-guard _ transition_conflict _ db (λ _.
                  Post-guard (not (mem next (stage_next_states job.role))) transition_conflict _ db
                    (λ allowed.
                      Post-same _ (validate_stage_result stage job result next) _ db
                        (validated-Post stage job db result next)
                        (λ h rests.
                          Post-guard (not (role_of next_job == successor_of next))
                            transition_conflict _ db
                            (λ same.
                              let ended = IsEnded job next (stage.model_dump h) in
                              Post-bind (λ _ d. has_state job.work_item_id next d ≡ true)
                                (move_item job expected next now) _ db
                                (moved-InState job next (stage.model_dump h) expected now db)
                                (λ _ d1 h1.
                                  Post-bind (λ _. ended)
                                    (finish_job env job worker token (stage.model_dump h) now) _ d1
                                    (finish_job-Ended job next (stage.model_dump h) env worker token
                                      now d1 h1)
                                    (λ _ d2 h2.
                                      Post-bind (λ _. ended) (append_event _) _ d2
                                        (Post-append_event _ d2 (λ es. h2))
                                        (λ _ d3 h3.
                                          Post-map _ _
                                            (next-Ended job next (stage.model_dump h) next_job now
                                              d3 h3)
                                            (λ _ d4 h4. (
                                              job,
                                              h,
                                              (
                                                held.0,
                                                live-IsOwned job worker token now held.1,
                                                subst (Follows job.role next)
                                                    (sym (
                                                      (option_eq.equals_iff (role_of next_job)
                                                          (successor_of next)).0
                                                        (ground (arith, same))))
                                                    (allowed-Follows job.role next
                                                      (ground (arith, allowed))),
                                                rests,
                                                h4,
                                              ),
                                            ))))))))))))

-- A stage that is committed was reported by the worker that holds the row of the running job, under
-- a lease that has not passed. The job's role, the state and the role of the job that follows are a
-- step of the stages; the item is in that state afterwards, the attempt has ended with the dump of
-- a handoff, and the job that follows is in the table and waits.
pub commit_stage_result-Follows :
    (env : Env) (stage : StageEnv) (job_id worker token : String) (result : Handoff)
    (expected next : ItemState) (kind : String) (details : List (String × Datum))
    (next_job : Option NewJob) (now : ℕ) (db db' : Db)
    → commit_stage_result env stage job_id worker token result expected next kind details next_job
        now db
      ≡ ok (tt, db')
    → (job : Job) × (h : Handoff) × (job_by_id job_id db ≡ some job)
      × IsOwned worker token now job
      × Follows job.role next (role_of next_job)
      × (has_state job.work_item_id next db' ≡ true)
      × IsStored job (stage.model_dump h) db'
      × IsQueued job.work_item_id next_job db'
commit_stage_result-Follows env stage job_id worker token result expected next kind details next_job
      now db db' h =
    let (job, r, (found, owned, step, rests, ((state, stored), queued))) =
      Post-ok
        (commit-Moved env stage job_id worker token result expected next kind details next_job now
          db)
        h in
    (job, r, found, owned, step, state, stored, queued)

-- A stage that is committed with the item VERIFIED_GREEN was reported by the worker that holds the
-- row of the running job, and the test handoff that counts proves every gate that the item
-- requires: what the worker submitted, where the campaign allows simulation, else what the
-- persisted executions give. Its dump is stored as the attempt's result, and the item is green.
pub commit_stage_result-IsProvenFor :
    (env : Env) (stage : StageEnv) (job_id worker token : String) (result : Handoff)
    (expected : ItemState) (kind : String) (details : List (String × Datum))
    (next_job : Option NewJob) (now : ℕ) (db db' : Db)
    → commit_stage_result env stage job_id worker token result expected ItemState.verified_green
        kind details next_job now db
      ≡ ok (tt, db')
    → (job : Job) × (h : Handoff) × (job_by_id job_id db ≡ some job)
      × IsOwned worker token now job
      × IsProvenFor stage job db result h
      × IsStored job (stage.model_dump h) db'
      × (has_state job.work_item_id ItemState.verified_green db' ≡ true)
commit_stage_result-IsProvenFor env stage job_id worker token result expected kind details next_job
      now db db' h =
    let (job, r, (found, owned, step, rests, ((state, stored), queued))) =
      Post-ok
        (commit-Moved env stage job_id worker token result expected ItemState.verified_green kind
          details next_job now db)
        h in
    (job, r, found, owned, rests refl, stored, state)
