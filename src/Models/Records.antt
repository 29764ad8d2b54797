-- ===== src/Models/Records.antt =====
-- models.py: the records of campaigns, work items and jobs, with their validators.
pub mod Jobs
mod Examples
use python_ai_agent_flow.Prelude.{
  ℕ, ltb, String, Option, none, some, Bool, true, false, not, ◌&&◌, ◌||◌, List, [], ◌∷◌, map, any,
  all, is_nonempty, is_none, is_some, if◌then◌else◌, ◌==◌, option_eq, mem, has_repeats, Error,
  Result, ok, err, value_error, raise_if, ◌>>=◌, ◌>>◌,
}
use python_ai_agent_flow.Models.Enums.{
  WorkerRole, ItemState, JobStatus, WorkspaceKind, GateKind, worker_role_eq, item_state_eq,
  job_status_eq, workspace_kind_eq, gate_kind_eq,
}
use python_ai_agent_flow.Models.Evidence.{Fields}

-- Python's `int`; `negsuc n` is -(n + 1).
pub data ℤ : Type 0 where
  pos : ℕ → ℤ
  negsuc : ℕ → ℤ

-- `limit < 1`
unfoldable pub below_one : ℤ → Bool
below_one (pos n) = ltb n 1
below_one (negsuc n) = true

abbrev pub worker_roles : List WorkerRole
worker_roles = WorkerRole.investigator ∷ WorkerRole.fixer ∷ WorkerRole.tester ∷ []

-- Campaign.validate_role_concurrency_limits. The items of the dict have distinct keys, all of
-- them roles, so `set(value) != expected_roles` says that a role is missing.
unfoldable pub validate_role_limits : List (WorkerRole × ℤ) → Result (Unit {0})
unfolding below_one
validate_role_limits limits = do
  raise_if (not (all (λ r. mem r (map (λ kv. kv.0) limits)) worker_roles)) value_error
  raise_if (any (λ kv. below_one kv.1) limits) value_error

-- WorkItem.required_gates_must_be_unique_and_nonempty
unfoldable pub validate_required_gates : List GateKind → Result (Unit {0})
validate_required_gates gates = do
  raise_if (not (is_nonempty gates)) value_error
  raise_if (has_repeats gates) value_error

-- _ROLE_STATE_PAIRS
unfoldable pub role_states : WorkerRole → ItemState × ItemState
role_states WorkerRole.investigator = (ItemState.backlog, ItemState.investigating)
role_states WorkerRole.fixer = (ItemState.ready_for_fix, ItemState.fixing)
role_states WorkerRole.tester = (ItemState.ready_for_test, ItemState.testing)

-- Times are ticks of the clock.
pub record Job : Type 0 where
  pub id : String
  pub campaign_id : String
  pub item_id : String
  pub role : WorkerRole
  pub status : JobStatus
  pub attempt_number : ℕ
  pub queued_item_state : Option ItemState
  pub active_item_state : Option ItemState
  pub required_resources : List String
  pub payload : Fields
  pub workspace_kind : WorkspaceKind
  pub managed_worktree_id : Option String
  pub lease_token : Option String
  pub lease_owner : Option String
  pub lease_expires_at : Option ℕ
  pub current_attempt_id : Option String
  pub resume_external_provider : Option String
  pub resume_external_session_id : Option String

-- One of the two item states: a missing one is filled in, another one is refused.
unfoldable pub settle_state : Option ItemState → ItemState → Result (Option ItemState)
settle_state none expected = ok (some expected)
settle_state (some s) expected = if s == expected then ok (some s) else err value_error

abbrev pub has_lease_field : Job → Bool
has_lease_field j = is_some j.lease_token || is_some j.lease_owner || is_some j.lease_expires_at

abbrev pub has_lease : Job → Bool
has_lease j = is_some j.lease_token && is_some j.lease_owner && is_some j.lease_expires_at

abbrev pub is_active : JobStatus → Bool
is_active s = mem s (JobStatus.leased ∷ JobStatus.running ∷ [])

-- The checks of validate_role_states_and_lease that change nothing.
unfoldable pub check_fences : Job → Result (Unit {0})
check_fences j = do
  raise_if (has_lease_field j && not (has_lease j)) value_error
  raise_if (is_active j.status && not (has_lease j)) value_error
  raise_if
      ((is_some j.resume_external_provider || is_some j.resume_external_session_id)
        && not (is_some j.resume_external_provider && is_some j.resume_external_session_id))
      value_error
  raise_if
      (is_some j.managed_worktree_id && not (j.workspace_kind == WorkspaceKind.managed_worktree))
      value_error
  raise_if (j.workspace_kind == WorkspaceKind.managed_worktree && j.role == WorkerRole.investigator)
      value_error

-- Job.validate_role_states_and_lease
unfoldable pub validate_job : Job → Result Job
unfolding settle_state
validate_job j = do
  let states = role_states j.role
  queued ← settle_state j.queued_item_state states.0
  active ← settle_state j.active_item_state states.1
  check_fences j
  ok (record j { queued_item_state = queued; active_item_state = active })
