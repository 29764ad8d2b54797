-- ===== src/Store/Rows.antt =====
-- storage.py: the tables, a record for the rows of each. Times are ticks of the clock.
use python_ai_agent_flow.Prelude.{ℕ, String, Option, Bool, List}
use python_ai_agent_flow.Models.Enums.{
  WorkerRole, ItemState, JobStatus, AttemptStatus, WorkspaceKind, GateKind,
}
use python_ai_agent_flow.Models.Evidence.{Fields}
use python_ai_agent_flow.Reconciler.Identity.{ReconciliationStatus, Observed}
use python_ai_agent_flow.Store.Statuses.{
  CampaignStatus, ProcessState, WorktreeState, ControlAction, ControlStatus, ApprovalStatus,
  ExecutionStatus,
}

pub record Campaign : Type 0 where
  pub id : String
  pub status : CampaignStatus
  pub global_limit : ℕ
  pub role_limits : List (WorkerRole × ℕ)
  pub execution_mode : String
  pub config : Fields

pub record WorkItem : Type 0 where
  pub id : String
  pub campaign_id : String
  pub state : ItemState
  pub required_gates : List GateKind
  pub updated_at : ℕ

pub record Job : Type 0 where
  pub id : String
  pub campaign_id : String
  pub work_item_id : String
  pub role : WorkerRole
  pub stage : String
  pub status : JobStatus
  pub priority : ℕ
  pub payload : Fields
  pub required_resources : List String
  pub queued_item_state : ItemState
  pub active_item_state : ItemState
  pub required_approval_action : Option String
  pub workspace_kind : WorkspaceKind
  pub managed_worktree_id : Option String
  pub available_at : ℕ
  pub lease_owner : Option String
  pub lease_token : Option String
  pub lease_expires_at : Option ℕ
  pub heartbeat_at : Option ℕ
  pub current_attempt_id : Option String
  pub attempt_count : ℕ
  pub result : Option Fields
  pub last_error : Option String
  pub created_at : ℕ
  pub updated_at : ℕ

pub record Attempt : Type 0 where
  pub id : String
  pub job_id : String
  pub attempt_number : ℕ
  pub worker_id : String
  pub lease_token : String
  pub status : AttemptStatus
  pub result : Option Fields
  pub error : Option String
  pub managed_worktree_id : Option String
  pub managed_worktree_generation : Option ℕ
  pub focused_test_admission_id : Option String
  pub external_provider : Option String
  pub external_session_id : Option String
  pub external_process_id : Option ℕ
  pub started_at : ℕ
  pub heartbeat_at : ℕ
  pub lease_expires_at : ℕ
  pub finished_at : Option ℕ

pub record ResourceLease : Type 0 where
  pub resource_key : String
  pub lease_slot : ℕ
  pub resource_definition_id : Option String
  pub resource_identity_hash : Option String
  pub owner_id : String
  pub job_id : Option String
  pub lease_token : String
  pub acquired_at : ℕ
  pub heartbeat_at : ℕ
  pub expires_at : ℕ

-- A row of `resource_definitions` before it is validated, and a definition that was.
pub record DefinitionRow : Type 0 where
  pub id : String
  pub enabled : Bool
  pub columns : Fields

pub record Definition : Type 0 where
  pub id : String
  pub enabled : Bool
  pub campaign_id : Option String
  pub limit : ℕ
  pub identity_hash : String
  pub kind : String
  pub label : String

pub record ExternalProcess : Type 0 where
  pub id : String
  pub attempt_id : String
  pub job_id : String
  pub provider : String
  pub process_id : ℕ
  pub process_group_id : ℕ
  pub start_seconds : Option ℕ
  pub start_microseconds : Option ℕ
  pub kernel_executable : Option String
  pub owner_uid : Option ℕ
  pub target_executable : Option String
  pub identity_version : Option String
  pub state : ProcessState
  pub recorded_at : ℕ
  pub updated_at : ℕ
  pub stopped_at : Option ℕ
  pub outcome : Option ReconciliationStatus
  pub last_error : Option String
  pub reconciliation_owner : Option String
  pub reconciliation_token : Option String
  pub reconciliation_expires_at : Option ℕ

pub record Worktree : Type 0 where
  pub id : String
  pub generation : ℕ
  pub campaign_id : String
  pub work_item_id : String
  pub repository_path : String
  pub state : WorktreeState

pub record Control : Type 0 where
  pub id : String
  pub job_id : String
  pub action : ControlAction
  pub status : ControlStatus
  pub requested_by : String
  pub reason : String
  pub source_attempt_id : String
  pub target_attempt_id : Option String
  pub expected_lease_owner : Option String
  pub expected_lease_token : Option String
  pub expected_provider : Option String
  pub expected_session_id : Option String
  pub expected_process_id : Option ℕ
  pub expected_process_group_id : Option ℕ
  pub expected_process_start_seconds : Option ℕ
  pub expected_process_start_microseconds : Option ℕ
  pub expected_process_executable : Option String
  pub expected_worktree_id : Option String
  pub expected_worktree_generation : Option ℕ
  pub expected_resources : List String
  pub expected_resources_sha256 : String
  pub last_error : Option String
  pub requested_at : ℕ
  pub applied_at : Option ℕ

pub record Approval : Type 0 where
  pub id : String
  pub campaign_id : String
  pub work_item_id : Option String
  pub action : String
  pub scope : Fields
  pub status : ApprovalStatus
  pub requested_by : String
  pub requested_at : ℕ
  pub resolved_by : Option String
  pub resolved_at : Option ℕ

-- A row of `focused_test_admissions`.
pub record Admission : Type 0 where
  pub id : String
  pub tester_job_id : String
  pub active : Bool
  pub admitted_at : ℕ

-- A row of focused_test_executions, browser_evidence_executions or database_query_executions.
pub record Execution : Type 0 where
  pub attempt_id : String
  pub job_id : String
  pub status : ExecutionStatus
  pub error : Option String
  pub finished_at : Option ℕ
  pub updated_at : ℕ

-- What the events carry besides their rows.
pub data Datum : Type 0 where
  absent : Datum
  text : String → Datum
  number : ℕ → Datum
  flag : Bool → Datum
  state : ItemState → Datum
  texts : List String → Datum
  observation : Observed → Datum

pub record Event : Type 0 where
  pub event_kind : String
  pub campaign_id : Option String
  pub work_item_id : Option String
  pub job_id : Option String
  pub actor : Option String
  pub event_data : List (String × Datum)
  pub created_at : ℕ

pub record Db : Type 0 where
  pub campaigns : List Campaign
  pub work_items : List WorkItem
  pub jobs : List Job
  pub attempts : List Attempt
  pub resource_leases : List ResourceLease
  pub resource_definitions : List DefinitionRow
  pub external_processes : List ExternalProcess
  pub managed_worktrees : List Worktree
  pub operator_controls : List Control
  pub approvals : List Approval
  pub focused_test_admissions : List Admission
  pub focused_test_executions : List Execution
  pub browser_evidence_executions : List Execution
  pub database_query_executions : List Execution
  pub events : List Event
