-- ===== src/Models/Records/Examples.antt =====
-- models.py: a running job, and the theorems on validation at it.
use python_ai_agent_flow.Prelude.{◌≡◌, refl, none, some, [], ◌∷◌, ok}
use python_ai_agent_flow.Models.Enums.{WorkerRole, JobStatus, WorkspaceKind, ItemState}
use python_ai_agent_flow.Models.Evidence.{end}
use python_ai_agent_flow.Models.Records.{Job, role_states, check_fences, validate_job}
use python_ai_agent_flow.Models.Records.Jobs.{
  IsWellFormed, validate_job-IsWellFormed, validate_job_of_IsWellFormed,
}

abbrev submitted : Job
submitted = record {
  id = "job-1";
  campaign_id = "c";
  item_id = "item-1";
  role = WorkerRole.fixer;
  status = JobStatus.running;
  attempt_number = 1;
  queued_item_state = none;
  active_item_state = none;
  required_resources = "git-worktree:w" ∷ [];
  payload = end;
  workspace_kind = WorkspaceKind.managed_worktree;
  managed_worktree_id = some "w";
  lease_token = some "t";
  lease_owner = some "worker";
  lease_expires_at = some 60;
  current_attempt_id = some "a";
  resume_external_provider = none;
  resume_external_session_id = none;
}

abbrev stored : Job
stored = record submitted {
  queued_item_state = some ItemState.ready_for_fix;
  active_item_state = some ItemState.fixing;
}

submitted_valid : validate_job submitted ≡ ok stored
unfolding validate_job role_states check_fences
submitted_valid = refl

validate_job-IsWellFormed_example : IsWellFormed stored
validate_job-IsWellFormed_example = validate_job-IsWellFormed submitted submitted_valid

validate_job_of_IsWellFormed_example : validate_job stored ≡ ok stored
validate_job_of_IsWellFormed_example =
    validate_job_of_IsWellFormed stored (validate_job-IsWellFormed submitted submitted_valid)
