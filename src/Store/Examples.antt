-- ===== src/Store/Examples.antt =====
-- storage.py: a database with two running jobs.
pub mod Running
pub mod Claims
pub mod Commits
pub mod Leases
pub mod Controls
pub mod External
use python_ai_agent_flow.Prelude.{
  ℕ, ◌<◌, String, Option, none, some, Bool, true, false, ◌≡◌, refl, List, [], ◌∷◌, All, Memᴰ, any,
  is_some, Result, ok, err,
}
use python_ai_agent_flow.Models.Evidence.{Fields}
use python_ai_agent_flow.Models.Enums.{
  WorkerRole, ItemState, JobStatus, AttemptStatus, WorkspaceKind,
}
use python_ai_agent_flow.Store.Statuses.{CampaignStatus, ProcessState}
use python_ai_agent_flow.Store.Rows.{
  Db, Campaign, WorkItem, Job, Attempt, ResourceLease, ExternalProcess,
}
use python_ai_agent_flow.Store.Tx.{
  ◌>>=◌, pure, select_from, require, if◌then◌else◌, conflict_if, for_each, update_work_items,
  update_jobs, update_attempts, update_leases, delete_leases, update_controls, append_event,
  update_focused, update_browser, update_database,
}
use python_ai_agent_flow.Store.Queries.{order_by}
use python_ai_agent_flow.Store.Events.{
  append_resource_lease_event, append_resource_lease_events, report_end,
  end_prepared_focused_execution, end_prepared_evidence_executions,
}
use python_ai_agent_flow.Store.Env.{Env}
use python_ai_agent_flow.Store.Fences.{
  is_live, is_unstopped, assert_live_lease, assert_no_pending_operator_interrupt,
  assert_external_process_stopped, assert_managed_worktree_binding, assert_resumed_as,
  assert_resume_authorization_fulfilled, assert_registered_fence, registered_job_resource_leases,
  assert_registered_resource_fences, assert_attempt_focused_test_admission,
}
use python_ai_agent_flow.Store.Lifecycle.{
  heartbeat_job, fail_job, finish_job, failed_attempts, move_item, assert_resource_fences,
  write_finish, release_leases, worktree_quarantined, write_failure,
}
use python_ai_agent_flow.Store.Interrupt.{
  interrupt_job, observe_process, assert_operator_interrupt_request, write_interruption,
  authorize_interrupt, apply_interrupt,
}
use python_ai_agent_flow.Store.Recover.{
  Recovered, recover_expired, is_expired, process_of, reject_interrupt, assert_expired_fences,
  write_expiry, expire_job_after_lease, recover_job, recover_jobs, is_orphaned, report_orphan,
  drop_orphan,
}
use python_ai_agent_flow.Store.Stale.{
  IsHeld, IsReleasable, heartbeat_job-IsHeld, fail_job-IsReleasable, interrupt_job-stopped,
}
use python_ai_agent_flow.Store.Release.{IsGivenUp}
use python_ai_agent_flow.Store.Retries.{IsDecided}
use python_ai_agent_flow.Store.Retired.{
  fail_job-IsGivenUp, heartbeat_job-after-fail_job, fail_job-once, interrupt_job-IsGivenUp,
  finish_job-IsGivenUp,
}
use python_ai_agent_flow.Store.Recovery.Jobs.{recover_expired_complete, recover_expired-leaves}

-- No resource definition is registered, and paths stand for themselves.
abbrev pub plain : Env
plain = record {
  validated = λ row. none;
  admission_live = λ db admission job. true;
  resources_sha256 = λ keys. "";
  resolve = λ path. path;
  members = λ value. [];
}

abbrev pub pilot : Campaign
pilot = record {
  id = "campaign-1";
  status = CampaignStatus.active;
  global_limit = 2;
  role_limits = [];
  execution_mode = "simulated";
  config = Fields.end;
}

abbrev pub item_at : String → WorkItem
item_at id = record {
  id = id;
  campaign_id = "campaign-1";
  state = ItemState.fixing;
  required_gates = [];
  updated_at = 10;
}

abbrev pub job_at : String → String → String → List String → Job
job_at id item attempt resources = record {
  id = id;
  campaign_id = "campaign-1";
  work_item_id = item;
  role = WorkerRole.fixer;
  stage = "fix";
  status = JobStatus.running;
  priority = 0;
  payload = Fields.end;
  required_resources = resources;
  queued_item_state = ItemState.ready_for_fix;
  active_item_state = ItemState.fixing;
  required_approval_action = none;
  workspace_kind = WorkspaceKind.simulated;
  managed_worktree_id = none;
  available_at = 0;
  lease_owner = some "worker-1";
  lease_token = some "token-1";
  lease_expires_at = some 100;
  heartbeat_at = some 10;
  current_attempt_id = some attempt;
  attempt_count = 1;
  result = none;
  last_error = none;
  created_at = 5;
  updated_at = 10;
}

abbrev pub attempt_at : String → String → Option ℕ → Attempt
attempt_at id job pid = record {
  id = id;
  job_id = job;
  attempt_number = 1;
  worker_id = "worker-1";
  lease_token = "token-1";
  status = AttemptStatus.running;
  result = none;
  error = none;
  managed_worktree_id = none;
  managed_worktree_generation = none;
  focused_test_admission_id = none;
  external_provider = none;
  external_session_id = none;
  external_process_id = pid;
  started_at = 10;
  heartbeat_at = 10;
  lease_expires_at = 100;
  finished_at = none;
}

abbrev pub free_job : Job
free_job = job_at "job-1" "item-1" "attempt-1" ("browser:main" ∷ [])

abbrev pub busy_job : Job
busy_job = job_at "job-2" "item-2" "attempt-2" []

-- The process of the second job is not stopped.
abbrev pub guardian : ExternalProcess
guardian = record {
  id = "process-1";
  attempt_id = "attempt-2";
  job_id = "job-2";
  provider = "codex";
  process_id = 400;
  process_group_id = 400;
  start_seconds = some 1700000000;
  start_microseconds = some 42;
  kernel_executable = some "/usr/bin/guardian";
  owner_uid = some 501;
  target_executable = some "/usr/bin/codex";
  identity_version = some "darwin_libproc_v1";
  state = ProcessState.active;
  recorded_at = 11;
  updated_at = 11;
  stopped_at = none;
  outcome = none;
  last_error = none;
  reconciliation_owner = none;
  reconciliation_token = none;
  reconciliation_expires_at = none;
}

abbrev browser_lease : ResourceLease
browser_lease = record {
  resource_key = "browser:main";
  lease_slot = 1;
  resource_definition_id = none;
  resource_identity_hash = none;
  owner_id = "worker-1";
  job_id = some "job-1";
  lease_token = "token-1";
  acquired_at = 10;
  heartbeat_at = 10;
  expires_at = 100;
}

abbrev pub two_jobs : Db
two_jobs = record {
  campaigns = pilot ∷ [];
  work_items = item_at "item-1" ∷ item_at "item-2" ∷ [];
  jobs = free_job ∷ busy_job ∷ [];
  attempts = attempt_at "attempt-1" "job-1" none ∷ attempt_at "attempt-2" "job-2" (some 400) ∷ [];
  resource_leases = browser_lease ∷ [];
  resource_definitions = [];
  external_processes = guardian ∷ [];
  managed_worktrees = [];
  operator_controls = [];
  approvals = [];
  focused_test_admissions = [];
  focused_test_executions = [];
  browser_evidence_executions = [];
  database_query_executions = [];
  events = [];
}

-- The database after a call that returns.
abbrev pub db_of {ℓ} : {A : Type ℓ} → Result (A × Db) → Db
db_of (err e) = two_jobs
db_of (ok (a, db)) = db
