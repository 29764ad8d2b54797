-- ===== src/Store/Limits.antt =====
-- storage.py: the limits that `claim_job` keeps.
pub mod Below
pub mod Steps
use python_ai_agent_flow.Prelude.{
  ◌≤◌, ◌<◌, Option, some, Bool, true, false, not, ◌≡◌, ap, Memᴰ, count, find, ◌==◌, nat_eq,
  string_eq, lease_conflict,
}
use python_ai_agent_flow.Models.Enums.{WorkerRole}
use python_ai_agent_flow.Store.Statuses.{campaign_status_eq}
use python_ai_agent_flow.Store.Rows.{
  Db, Campaign, Job, Attempt, ResourceLease, Control, Admission, Worktree,
}
use python_ai_agent_flow.Store.Env.{Env}
use python_ai_agent_flow.Store.Fences.{job_by_id}
use python_ai_agent_flow.Store.Events.{append_resource_lease_events}
use python_ai_agent_flow.Store.Eligible.{
  is_running_in, is_running_as, role_limit, at_limit, find_admission, find_workspace, grant,
  grant_workspace, grant_admitted, is_approved,
}
use python_ai_agent_flow.Store.Lifecycle.{cond}
use python_ai_agent_flow.Store.Resume.{apply_resume}
use python_ai_agent_flow.Store.Claim.{Claimed, Claimant, write_claim}
use python_ai_agent_flow.Store.Release.{Post-append_event, Post-update_controls, lease_events-Post}
use python_ai_agent_flow.Store.Tx.{
  append_event, insert_attempt, insert_lease, for_each, update_controls, if_absent,
}
use python_ai_agent_flow.Store.Tx.Post.{Post, Post-need, Post-for_each}
use python_ai_agent_flow.Store.Limits.Steps.{IsRowOf}

-- The job that was started and its campaign, with the counts of running jobs within its limits.
abbrev pub IsWithinLimits : WorkerRole → Claimed → Db → Type 0
IsWithinLimits role c db =
    (job : Job) × (campaign : Campaign) × (c.row ≡ job_by_id job.id db)
    × (Memᴰ campaign db.campaigns × ((campaign.id == job.campaign_id) ≡ true))
    × (count (is_running_in job.campaign_id) db.jobs ≤ campaign.global_limit)
    × (count (is_running_as job.campaign_id role) db.jobs ≤ role_limit role campaign)

abbrev IsCandidate : Db → Job × Campaign → Type 0
IsCandidate db x = Memᴰ x.1 db.campaigns × ((x.1.id == x.0.campaign_id) ≡ true)

module _ (env : Env) (who : Claimant) where
  abbrev AllWithin : Option Claimed → Db → Type 0
  AllWithin o d = (c : Claimed) → o ≡ some c → IsWithinLimits who.role c d
