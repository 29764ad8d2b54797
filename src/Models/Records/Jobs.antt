-- ===== src/Models/Records/Jobs.antt =====
-- models.py: what a job satisfies once it is validated.
use python_ai_agent_flow.Prelude.{◌≡◌, ◌≢◌, refl, some, true, is_some, subst, sym, ok, arith}
use python_ai_agent_flow.Models.Enums.{WorkerRole, WorkspaceKind, worker_role_eq}
use python_ai_agent_flow.Models.Records.{
  Job, role_states, has_lease, has_lease_field, is_active, check_fences, validate_job,
}

pub record IsWellFormed (j : Job) : Type 0 where
  pub queues : j.queued_item_state ≡ some (role_states j.role).0
  pub activates : j.active_item_state ≡ some (role_states j.role).1
  pub lease_whole : has_lease_field j ≡ has_lease j
  pub active_leased : is_active j.status ≡ true → has_lease j ≡ true
  pub resume_whole : is_some j.resume_external_provider ≡ is_some j.resume_external_session_id
  pub worktree_kind :
      is_some j.managed_worktree_id ≡ true → j.workspace_kind ≡ WorkspaceKind.managed_worktree
  pub no_investigator :
      j.workspace_kind ≡ WorkspaceKind.managed_worktree → j.role ≢ WorkerRole.investigator

-- What the checks that change nothing let through.
check_fences_parts :
    (j : Job)
    → check_fences j ≡ ok tt
    → (has_lease_field j ≡ has_lease j)
      × (is_active j.status ≡ true → has_lease j ≡ true)
      × (is_some j.resume_external_provider ≡ is_some j.resume_external_session_id)
      × (is_some j.managed_worktree_id ≡ true → j.workspace_kind ≡ WorkspaceKind.managed_worktree)
      × (j.workspace_kind ≡ WorkspaceKind.managed_worktree → j.role ≢ WorkerRole.investigator)
unfolding check_fences
check_fences_parts j h =
    (ground arith, ground arith, ground arith, ground arith, λ k r. ground (arith, h, k, r))

check_fences_of_IsWellFormed : (j : Job) → IsWellFormed j → check_fences j ≡ ok tt
unfolding check_fences
check_fences_of_IsWellFormed j w = ground arith

validate_job_parts :
    (j : Job) {j' : Job}
    → validate_job j ≡ ok j'
    → (check_fences j ≡ ok tt)
      × (j' ≡ record j {
        queued_item_state = some (role_states j.role).0;
        active_item_state = some (role_states j.role).1;
      })
unfolding validate_job
validate_job_parts j h = ground arith

-- Whatever the validator returns is well formed: it has the item states of its role, a whole
-- lease or none, a lease if it is leased or running, a whole resume session or none, a worktree
-- only in a managed workspace, and that never for an investigator.
pub validate_job-IsWellFormed : (j : Job) {j' : Job} → validate_job j ≡ ok j' → IsWellFormed j'
validate_job-IsWellFormed j h =
    let (passed, same) = validate_job_parts j h in
    let (lease, active, resume, worktree, investigator) = check_fences_parts j passed in
    subst IsWellFormed (sym same) (record {
      queues = refl;
      activates = refl;
      lease_whole = lease;
      active_leased = active;
      resume_whole = resume;
      worktree_kind = worktree;
      no_investigator = investigator;
    })

-- The validator accepts what is well formed, and changes nothing of it. So it is idempotent, as
-- `validate_assignment` needs.
pub validate_job_of_IsWellFormed : (j : Job) → IsWellFormed j → validate_job j ≡ ok j
unfolding validate_job
validate_job_of_IsWellFormed j w = ground (arith, check_fences_of_IsWellFormed j w)
