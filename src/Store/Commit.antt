-- ===== src/Store/Commit.antt =====
-- storage.py: `commit_stage_result`, which ends a stage and starts the next.
use python_ai_agent_flow.Prelude.{
  ℕ, String, Option, none, some, not, ◌&&◌, ◌++◌, List, [], ◌∷◌, mem, ◌==◌, nat_eq, string_eq,
  option_eq, transition_conflict,
}
use python_ai_agent_flow.Models.Enums.{
  WorkerRole, worker_role_eq, ItemState, item_state_eq, WorkspaceKind, workspace_kind_eq,
}
use python_ai_agent_flow.Store.Rows.{Job, Datum}
use python_ai_agent_flow.Store.Env.{Env}
use python_ai_agent_flow.Store.Fences.{
  assert_live_lease, assert_no_pending_operator_interrupt, assert_attempt_focused_test_admission,
}
use python_ai_agent_flow.Store.Events.{job_event}
use python_ai_agent_flow.Store.Lifecycle.{cond, move_item, finish_job}
use python_ai_agent_flow.Store.Stage.{Handoff, StageEnv, validate_stage_result}
use python_ai_agent_flow.Store.Enqueue.{NewJob, enqueue_job}
use python_ai_agent_flow.Store.Tx.{Tx, pure, conflict_if, append_event, ◌>>=◌, ◌>>◌}

-- STAGE_NEXT_STATES
unfoldable pub stage_next_states : WorkerRole → List ItemState
stage_next_states WorkerRole.investigator = ItemState.ready_for_fix ∷ ItemState.blocked ∷ []
stage_next_states WorkerRole.fixer = ItemState.ready_for_test ∷ ItemState.blocked ∷ []
stage_next_states WorkerRole.tester =
    ItemState.verified_green ∷ ItemState.ready_for_fix ∷ ItemState.blocked ∷ []

-- `successor_by_state.get(next_item_state)`
unfoldable pub successor_of : ItemState → Option WorkerRole
successor_of ItemState.ready_for_fix = some WorkerRole.fixer
successor_of ItemState.ready_for_test = some WorkerRole.tester
successor_of _ = none

abbrev pub role_of : Option NewJob → Option WorkerRole
role_of none = none
role_of (some n) = some n.role

-- A successor works where the job of a managed worktree did.
abbrev pub succeed : Job → NewJob → NewJob
succeed job n =
    cond
      (job.workspace_kind == WorkspaceKind.managed_worktree
        && mem n.role (WorkerRole.fixer ∷ WorkerRole.tester ∷ []))
      (record n {
        workspace_kind = some WorkspaceKind.managed_worktree;
        managed_worktree_id = job.managed_worktree_id;
      })
      n

unfoldable pub enqueue_next : Job → Option NewJob → ℕ → Tx (Unit {0})
enqueue_next job none now = pure tt
enqueue_next job (some n) now = enqueue_job job.work_item_id (succeed job n) now

-- commit_stage_result
unfoldable pub commit_stage_result :
    Env
    → StageEnv
    → String
    → String
    → String
    → Handoff
    → ItemState
    → ItemState
    → String
    → List (String × Datum)
    → Option NewJob
    → ℕ
    → Tx (Unit {0})
commit_stage_result env stage job_id worker token result expected next kind details next_job now =
    do
      job ← assert_live_lease job_id worker token now
      assert_no_pending_operator_interrupt job_id
      assert_attempt_focused_test_admission env job
      conflict_if (not (expected == job.active_item_state)) transition_conflict
      conflict_if (not (mem next (stage_next_states job.role))) transition_conflict
      validated ← validate_stage_result stage job result next
      conflict_if (not (role_of next_job == successor_of next)) transition_conflict
      move_item job expected next now
      finish_job env job worker token (stage.model_dump validated) now
      append_event (
          job_event kind job (some worker)
            (details ++ ("from_state", Datum.state expected) ∷ ("to_state", Datum.state next) ∷ [])
            now)
      enqueue_next job next_job now
