-- ===== src/Store/Limits/Below.antt =====
-- storage.py: what the tests of a candidate say of the limits.
use python_ai_agent_flow.Prelude.{
  ◌<◌, Option, none, some, Bool, true, false, not, ◌≡◌, refl, arith, List, count, nat_eq, string_eq,
}
use python_ai_agent_flow.Models.Enums.{WorkerRole}
use python_ai_agent_flow.Store.Statuses.{campaign_status_eq}
use python_ai_agent_flow.Store.Rows.{Db, Campaign, Job, Admission, Worktree}
use python_ai_agent_flow.Store.Env.{Env}
use python_ai_agent_flow.Store.Eligible.{
  Grant, is_running_in, is_running_as, role_limit, at_limit, find_admission, find_workspace, grant,
  grant_workspace, grant_admitted, is_approved,
}
use python_ai_agent_flow.Store.Lifecycle.{cond}

-- Both counts are below their limits.
abbrev pub IsBelow : WorkerRole → Job → Campaign → List Job → Type 0
IsBelow role job c jobs =
    (count (is_running_in job.campaign_id) jobs < c.global_limit)
    × (count (is_running_as job.campaign_id role) jobs < role_limit role c)

cond-some {ℓ} :
    {A : Type ℓ} (b : Bool) (o : Option A) {a : A}
    → cond b none o ≡ some a
    → (b ≡ false) × (o ≡ some a)
cond-some true o h = cc
cond-some false o h = (refl, h)

at_limit-false :
    (role : WorkerRole) (job : Job) (c : Campaign) (db : Db)
    → at_limit role job c db ≡ false
    → IsBelow role job c db.jobs
unfolding at_limit
at_limit-false role job c db h = (ground (arith, h), ground (arith, h))

workspace-Below :
    (env : Env) (role : WorkerRole) (job : Job) (c : Campaign) (db : Db) (a : Option Admission)
    (o : Option (Option Worktree)) (g : Grant)
    → grant_workspace env role job c db a o ≡ some g
    → IsBelow role job c db.jobs
workspace-Below env role job c db a none g h = cc
workspace-Below env role job c db a (some w) g h =
    at_limit-false role job c db
      (cond-some _ _
        (cond-some (not (is_approved env job c w job.required_approval_action db)) _ h).1).0

admitted-Below :
    (env : Env) (role : WorkerRole) (job : Job) (c : Campaign) (db : Db)
    (o : Option (Option Admission)) (g : Grant)
    → grant_admitted env role job c db o ≡ some g
    → IsBelow role job c db.jobs
admitted-Below env role job c db none g h = cc
admitted-Below env role job c db (some a) g h =
    workspace-Below env role job c db a (find_workspace role job c db) g h

-- A grant is given below both limits.
pub grant-Below :
    (env : Env) (role : WorkerRole) (job : Job) (c : Campaign) (db : Db) (g : Grant)
    → grant env role job c db ≡ some g
    → IsBelow role job c db.jobs
unfolding grant
grant-Below env role job c db g h =
    admitted-Below env role job c db (find_admission env role job c db) g h
