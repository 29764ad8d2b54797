-- ===== src/Store/Eligible.antt =====
-- storage.py: which pending job `claim_job` may start: admission, workspace, approval, limits.
use python_ai_agent_flow.Prelude.{
  ℕ, String, Option, none, some, Bool, true, not, ◌&&◌, ◌||◌, List, [], ◌∷◌, any, count, find,
  select, mem, is_none, is_some, leb, ◌==◌, nat_eq, string_eq, option_eq,
}
use Prim.Native.String.{◌++◌ as str_append}
use python_ai_agent_flow.Models.Enums.{
  WorkerRole, worker_role_eq, JobStatus, job_status_eq, WorkspaceKind, workspace_kind_eq,
  item_state_eq,
}
use python_ai_agent_flow.Models.Evidence.{get, is_true}
use python_ai_agent_flow.Store.Statuses.{campaign_status_eq, ApprovalStatus, approval_status_eq}
use python_ai_agent_flow.Store.Rows.{Db, Campaign, Job, Admission, Worktree, Approval}
use python_ai_agent_flow.Store.Env.{Env}
use python_ai_agent_flow.Store.Queries.{order_by, first, descending}
use python_ai_agent_flow.Store.Fences.{is_ready_worktree}
use python_ai_agent_flow.Store.Lifecycle.{cond}
use python_ai_agent_flow.Store.Coverage.{approval_covers_job, approval_covers_repository}
use python_ai_agent_flow.Store.Plan.{Planned, resource_claim_plan}

-- What is found out about a job that may be started.
pub record Grant : Type 0 where
  pub admission : Option Admission
  pub worktree : Option Worktree
  pub plan : List Planned

abbrev pub is_running_in : String → Job → Bool
is_running_in campaign_id j = j.campaign_id == campaign_id && j.status == JobStatus.running

abbrev pub is_running_as : String → WorkerRole → Job → Bool
is_running_as campaign_id role j = is_running_in campaign_id j && j.role == role

-- `role_limits.get(role, global_limit)`
abbrev pub limit_for : WorkerRole → ℕ → List (WorkerRole × ℕ) → ℕ
limit_for role otherwise [] = otherwise
limit_for role otherwise ((r, n) ∷ rest) = cond (r == role) n (limit_for role otherwise rest)

abbrev pub role_limit : WorkerRole → Campaign → ℕ
role_limit role c = limit_for role c.global_limit c.role_limits

-- `active_total >= global_limit or active_by_role.get(role, 0) >= role_limit`
unfoldable pub at_limit : WorkerRole → Job → Campaign → Db → Bool
at_limit role job campaign db =
    leb campaign.global_limit (count (is_running_in job.campaign_id) db.jobs)
    || leb (role_limit role campaign) (count (is_running_as job.campaign_id role) db.jobs)

abbrev bound_worktree : Job → Db → Option String → Option (Option Worktree)
bound_worktree job db none = none
bound_worktree job db (some id) =
    cond
      (is_some (find (is_ready_worktree job.managed_worktree_id job) db.managed_worktrees)
        && mem (str_append "git-worktree:" id) job.required_resources)
      (some (find (is_ready_worktree job.managed_worktree_id job) db.managed_worktrees)) none

-- The worktree of the job, if it works in one; `none` passes the job over.
unfoldable pub find_workspace : WorkerRole → Job → Campaign → Db → Option (Option Worktree)
find_workspace role job campaign db =
    cond (job.workspace_kind == WorkspaceKind.simulated)
      (cond (is_true (get "allow_simulated_evidence" campaign.config)) (some none) none)
      (cond (job.workspace_kind == WorkspaceKind.managed_worktree)
        (bound_worktree job db job.managed_worktree_id)
        (cond (role == WorkerRole.fixer) none (some none)))

abbrev pub is_approval_for : Job → String → Approval → Bool
is_approval_for job action a =
    a.campaign_id == job.campaign_id
    && (a.action == action
        && (a.status == ApprovalStatus.approved
            && (is_none a.work_item_id || a.work_item_id == some job.work_item_id)))

abbrev pub grant_plan : Option Admission → Option Worktree → Option (List Planned) → Option Grant
grant_plan admission worktree none = none
grant_plan admission worktree (some plan) =
    some record { admission = admission; worktree = worktree; plan = plan }

module _ (env : Env) where
  abbrev live_admission : Db → Job → Option Admission → Option (Option Admission)
  live_admission db job none = none
  live_admission db job (some a) = cond (env.admission_live db a job) (some (some a)) none

  -- The admission that pins a tester's job, if its campaign wants one; `none` passes the job over.
  unfoldable pub find_admission : WorkerRole → Job → Campaign → Db → Option (Option Admission)
  find_admission role job campaign db =
      cond (not (campaign.execution_mode == "focused_test_admission")) (some none) (
        cond (not (role == WorkerRole.tester)) none (
          live_admission db job (
            first (
              order_by (λ a b. descending a.admitted_at a.id b.admitted_at b.id)
                (select (λ a. a.tester_job_id == job.id && a.active) db.focused_test_admissions)))))

  abbrev pub covers : Job → Campaign → Option Worktree → Approval → Bool
  covers job campaign none a = approval_covers_job env campaign.config job.payload a.scope
  covers job campaign (some w) a =
      approval_covers_repository env campaign.config w.repository_path a.scope

  -- Whether the action that the job needs was approved for it.
  unfoldable pub is_approved : Job → Campaign → Option Worktree → Option String → Db → Bool
  is_approved job campaign worktree none db = true
  is_approved job campaign worktree (some action) db =
      any (λ a. is_approval_for job action a && covers job campaign worktree a) db.approvals

  abbrev pub grant_workspace :
      WorkerRole → Job → Campaign → Db → Option Admission → Option (Option Worktree) → Option Grant
  grant_workspace role job campaign db admission none = none
  grant_workspace role job campaign db admission (some worktree) =
      cond (not (is_approved job campaign worktree job.required_approval_action db)) none (
        cond (at_limit role job campaign db) none
          (grant_plan admission worktree (resource_claim_plan env job job.required_resources db)))

  abbrev pub grant_admitted :
      WorkerRole → Job → Campaign → Db → Option (Option Admission) → Option Grant
  grant_admitted role job campaign db none = none
  grant_admitted role job campaign db (some admission) =
      grant_workspace role job campaign db admission (find_workspace role job campaign db)

  -- The tests of claim_job on one candidate; `none` passes it over.
  unfoldable pub grant : WorkerRole → Job → Campaign → Db → Option Grant
  grant role job campaign db =
      grant_admitted role job campaign db (find_admission role job campaign db)
