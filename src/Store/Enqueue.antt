-- ===== src/Store/Enqueue.antt =====
-- storage.py: `_enqueue_job`, which adds a pending job to a work item.
use Prim.Native.String.{◌++◌ as str_append}
use python_ai_agent_flow.Prelude.{
  ℕ, String, Option, none, some, Bool, false, not, ◌&&◌, ◌||◌, List, [], ◌∷◌, any, find, length,
  eqb, to_set, ◌==◌, nat_eq, string_eq, option_eq, not_found, value_error, transition_conflict,
}
use python_ai_agent_flow.Prelude.Texts.{codes, strip, starts_with}
use python_ai_agent_flow.Models.Enums.{
  WorkerRole, worker_role_eq, ItemState, item_state_eq, JobStatus, WorkspaceKind, workspace_kind_eq,
}
use python_ai_agent_flow.Models.Evidence.{Fields, get, is_true}
use python_ai_agent_flow.Models.Records.{role_states}
use python_ai_agent_flow.Store.Statuses.{WorktreeState, worktree_state_eq}
use python_ai_agent_flow.Store.Rows.{Campaign, Job, Worktree, Datum}
use python_ai_agent_flow.Store.Queries.{order_by, text_before}
use python_ai_agent_flow.Store.Lifecycle.{cond}
use python_ai_agent_flow.Store.Events.{job_event}
use python_ai_agent_flow.Store.Tx.{
  Tx, select_from, require, conflict_if, insert_job, append_event, ◌>>=◌, ◌>>◌,
}

-- The arguments of _enqueue_job; the id is drawn where none is given.
pub record NewJob : Type 0 where
  pub id : String
  pub role : WorkerRole
  pub stage : String
  pub queued_item_state : ItemState
  pub active_item_state : ItemState
  pub payload : Fields
  pub required_resources : List String
  pub required_approval_action : Option String
  pub workspace_kind : Option WorkspaceKind
  pub managed_worktree_id : Option String
  pub priority : ℕ
  pub available_at : ℕ

-- `not text.strip()`
unfoldable pub is_blank : String → Bool
is_blank s = eqb (length (strip (codes s))) 0

abbrev is_blank_action : Option String → Bool
is_blank_action none = false
is_blank_action (some s) = is_blank s

-- The workspace that a role works in by itself.
abbrev own_workspace : WorkerRole → Bool → WorkspaceKind
own_workspace role allow_simulated =
    cond ((role == WorkerRole.fixer || role == WorkerRole.tester) && allow_simulated)
      WorkspaceKind.simulated
      (cond (role == WorkerRole.fixer) WorkspaceKind.managed_worktree
        WorkspaceKind.source_read_only)

abbrev workspace_of : NewJob → Bool → Option WorkspaceKind → WorkspaceKind
workspace_of new allow_simulated none = own_workspace new.role allow_simulated
workspace_of new allow_simulated (some kind) = kind

abbrev is_ready_for : Campaign → String → String → Worktree → Bool
is_ready_for campaign item_id id w =
    w.id == id
    && (w.campaign_id == campaign.id
        && (w.work_item_id == item_id && w.state == WorktreeState.ready))

-- The worktree of a successor is ready, and only a fixer's job may wait for one.
unfoldable pub check_worktree :
    Campaign → String → WorkerRole → WorkspaceKind → Option String → Tx (Unit {0})
check_worktree campaign item_id role kind none =
    conflict_if (kind == WorkspaceKind.managed_worktree && not (role == WorkerRole.fixer))
      value_error
check_worktree campaign item_id role kind (some id) = do
  conflict_if (not (kind == WorkspaceKind.managed_worktree)) value_error
  ready ← select_from (λ db. any (is_ready_for campaign item_id id) db.managed_worktrees)
  conflict_if (not ready) transition_conflict

abbrev bound_resources : Option String → List String → List String
bound_resources none keys = keys
bound_resources (some id) keys = str_append "git-worktree:" id ∷ keys

-- `sorted(set(...))` of the resources, with that of the worktree.
unfoldable pub resources_of : NewJob → List String
resources_of new =
    order_by text_before (to_set (bound_resources new.managed_worktree_id new.required_resources))

-- The row that is inserted.
abbrev pub new_row : NewJob → String → String → WorkspaceKind → ℕ → Job
new_row new campaign_id item_id kind now = record {
  id = new.id;
  campaign_id = campaign_id;
  work_item_id = item_id;
  role = new.role;
  stage = new.stage;
  status = JobStatus.pending;
  priority = new.priority;
  payload = new.payload;
  required_resources = resources_of new;
  queued_item_state = new.queued_item_state;
  active_item_state = new.active_item_state;
  required_approval_action = new.required_approval_action;
  workspace_kind = kind;
  managed_worktree_id = new.managed_worktree_id;
  available_at = new.available_at;
  lease_owner = none;
  lease_token = none;
  lease_expires_at = none;
  heartbeat_at = none;
  current_attempt_id = none;
  attempt_count = 0;
  result = none;
  last_error = none;
  created_at = now;
  updated_at = now;
}

abbrev pub role_text : WorkerRole → String
role_text WorkerRole.investigator = "investigator"
role_text WorkerRole.fixer = "fixer"
role_text WorkerRole.tester = "tester"

-- The checks of the resources and of the approval, and the insertion.
unfoldable pub insert_new : NewJob → String → String → WorkspaceKind → ℕ → Tx (Unit {0})
insert_new new campaign_id item_id kind now = do
  conflict_if (any (λ r. starts_with (codes r) (codes "git-worktree:")) new.required_resources)
      value_error
  conflict_if (any is_blank (resources_of new)) value_error
  conflict_if (is_blank_action new.required_approval_action) value_error
  insert_job (new_row new campaign_id item_id kind now)
  append_event (
      job_event "job.enqueued" (new_row new campaign_id item_id kind now) none
        (("role", Datum.text (role_text new.role)) ∷ ("stage", Datum.text new.stage) ∷ []) now)

-- _enqueue_job
unfoldable pub enqueue_job : String → NewJob → ℕ → Tx (Unit {0})
enqueue_job item_id new now = do
  found ← select_from (λ db. find (λ i. i.id == item_id) db.work_items)
  item ← require found not_found
  owner ← select_from (λ db. find (λ c. c.id == item.campaign_id) db.campaigns)
  campaign ← require owner not_found
  conflict_if (not (item.state == new.queued_item_state)) transition_conflict
  conflict_if
      (not (new.queued_item_state == (role_states new.role).0)
        || not (new.active_item_state == (role_states new.role).1))
      value_error
  conflict_if (is_blank new.stage) value_error
  let allow_simulated = is_true (get "allow_simulated_evidence" campaign.config)
  let kind = workspace_of new allow_simulated new.workspace_kind
  conflict_if (kind == WorkspaceKind.simulated && not allow_simulated) value_error
  conflict_if
      (new.role == WorkerRole.fixer
        && (not (kind == WorkspaceKind.managed_worktree) && not (kind == WorkspaceKind.simulated)))
      value_error
  check_worktree campaign item_id new.role kind new.managed_worktree_id
  insert_new new campaign.id item_id kind now
