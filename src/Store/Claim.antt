-- ===== src/Store/Claim.antt =====
-- storage.py: `claim_job`, which starts the first pending job that may run.
use python_ai_agent_flow.Prelude.{
  ℕ, suc, ◌+◌, String, Option, none, some, Bool, not, ◌&&◌, List, [], ◌∷◌, any, find, select, leb,
  eqb, ◌==◌, nat_eq, string_eq, value_error, transition_conflict,
}
use python_ai_agent_flow.Models.Enums.{
  WorkerRole, worker_role_eq, item_state_eq, JobStatus, job_status_eq, AttemptStatus,
}
use python_ai_agent_flow.Store.Statuses.{CampaignStatus, campaign_status_eq}
use python_ai_agent_flow.Store.Rows.{
  Db, Campaign, Job, Attempt, ResourceLease, Definition, Control, Admission, Worktree, Datum,
}
use python_ai_agent_flow.Store.Env.{Env}
use python_ai_agent_flow.Store.Queries.{order_by, ascending}
use python_ai_agent_flow.Prelude.{◌||◌, ltb}
use python_ai_agent_flow.Store.Fences.{job_by_id, registered_job_resource_leases}
use python_ai_agent_flow.Store.Events.{job_event, optional, append_resource_lease_events}
use python_ai_agent_flow.Store.Recover.{recover_expired}
use python_ai_agent_flow.Store.Plan.{Planned}
use python_ai_agent_flow.Store.Eligible.{Grant, grant}
use python_ai_agent_flow.Store.Resume.{pending_resume, apply_resume}
use python_ai_agent_flow.Store.Tx.{
  Tx, pure, select_from, conflict_if, for_each, update_work_items, update_jobs, insert_attempt,
  insert_lease, append_event, if◌then◌else◌, ◌>>=◌, ◌>>◌,
}

-- The row of the claimed job, with the request to resume that it takes up.
pub record Claimed : Type 0 where
  pub row : Option Job
  pub resumed : Option Control

-- What the caller brings: the role, the worker, the ids drawn, and the times.
pub record Claimant : Type 0 where
  pub role : WorkerRole
  pub worker_id : String
  pub attempt_id : String
  pub lease_token : String
  pub now : ℕ
  pub expires_at : ℕ

-- `ORDER BY priority DESC, created_at, id`
abbrev claim_order : Job → Job → Bool
claim_order a b =
    ltb b.priority a.priority
    || (a.priority == b.priority && ascending a.created_at a.id b.created_at b.id)

abbrev in_state : Job → Db → Bool
in_state job db =
    any (λ i. i.id == job.work_item_id && i.state == job.queued_item_state) db.work_items

abbrev is_waiting : WorkerRole → ℕ → Db → Job → Bool
is_waiting role now db j =
    j.status == JobStatus.pending && (j.role == role && (leb j.available_at now && in_state j db))

abbrev pub with_campaign : Job → Option Campaign → List (Job × Campaign) → List (Job × Campaign)
with_campaign job none rest = rest
with_campaign job (some c) rest = (job, c) ∷ rest

-- The join of the jobs with the active campaigns.
abbrev pub join_campaigns : Db → List Job → List (Job × Campaign)
join_campaigns db [] = []
join_campaigns db (j ∷ js) =
    with_campaign j
      (find (λ c. c.id == j.campaign_id && c.status == CampaignStatus.active) db.campaigns)
      (join_campaigns db js)

-- `candidates`
unfoldable pub candidates : WorkerRole → ℕ → Db → List (Job × Campaign)
candidates role now db =
    join_campaigns db (order_by claim_order (select (is_waiting role now db) db.jobs))

-- `id = ? AND status = 'pending'`
abbrev pub is_pending_job : Job → Job → Bool
is_pending_job job j = j.id == job.id && j.status == JobStatus.pending

-- The columns of a job that is claimed.
abbrev pub claimed_row : Claimant → Job → Job → Job
claimed_row who job j = record j {
  status = JobStatus.running;
  lease_owner = some who.worker_id;
  lease_token = some who.lease_token;
  lease_expires_at = some who.expires_at;
  heartbeat_at = some who.now;
  current_attempt_id = some who.attempt_id;
  attempt_count = suc job.attempt_count;
  updated_at = who.now;
}

abbrev generation_of : Option Worktree → Option ℕ
generation_of none = none
generation_of (some w) = some w.generation

abbrev admission_id : Option Admission → Option String
admission_id none = none
admission_id (some a) = some a.id

abbrev new_attempt : Claimant → Job → Grant → Attempt
new_attempt who job g = record {
  id = who.attempt_id;
  job_id = job.id;
  attempt_number = suc job.attempt_count;
  worker_id = who.worker_id;
  lease_token = who.lease_token;
  status = AttemptStatus.running;
  result = none;
  error = none;
  managed_worktree_id = job.managed_worktree_id;
  managed_worktree_generation = generation_of g.worktree;
  focused_test_admission_id = admission_id g.admission;
  external_provider = none;
  external_session_id = none;
  external_process_id = none;
  started_at = who.now;
  heartbeat_at = who.now;
  lease_expires_at = who.expires_at;
  finished_at = none;
}

abbrev definition_id : Option Definition → Option String
definition_id none = none
definition_id (some d) = some d.id

abbrev identity_of : Option Definition → Option String
identity_of none = none
identity_of (some d) = some d.identity_hash

abbrev pub new_lease : Claimant → Job → Planned → ResourceLease
new_lease who job p = record {
  resource_key = p.resource_key;
  lease_slot = p.lease_slot;
  resource_definition_id = definition_id p.definition;
  resource_identity_hash = identity_of p.definition;
  owner_id = who.worker_id;
  job_id = some job.id;
  lease_token = who.lease_token;
  acquired_at = who.now;
  heartbeat_at = who.now;
  expires_at = who.expires_at;
}

module _ (env : Env) (who : Claimant) where
  -- What a claim writes after the job's row: the attempt, the leases, the events, the resumption.
  unfoldable pub write_claim : Job → Grant → Tx (Option Claimed)
  write_claim job g = do
    insert_attempt (new_attempt who job g)
    for_each (λ p. insert_lease (new_lease who job p)) g.plan
    append_event (
        job_event "job.claimed" job (some who.worker_id)
          (("attempt_id", Datum.text who.attempt_id)
            ∷ ("attempt_number", Datum.number (suc job.attempt_count))
            ∷ ("lease_token", Datum.text who.lease_token)
            ∷ ("resources", Datum.texts job.required_resources)
            ∷ ("focused_test_admission_id", optional (admission_id g.admission))
            ∷ ("from_state", Datum.state job.queued_item_state)
            ∷ ("to_state", Datum.state job.active_item_state)
            ∷ [])
          who.now)
    registered ← select_from (registered_job_resource_leases job.id)
    append_resource_lease_events env "resource.claimed" registered job.campaign_id job.work_item_id
        job.id (some who.worker_id) who.now
    row ← select_from (job_by_id job.id)
    request ← select_from (pending_resume job)
    apply_resume env job who.attempt_id (suc job.attempt_count) who.now request
    pure (some record { row = row; resumed = request })

  -- The job is started.
  unfoldable pub start_job : Job → Grant → Tx (Option Claimed)
  start_job job g = do
    changed ← update_jobs (is_pending_job job) (claimed_row who job)
    conflict_if (not (eqb changed 1)) transition_conflict
    write_claim job g

  -- A candidate that passes the tests is started, if its item is still where it was.
  unfoldable pub try_candidate : Job → Option Grant → Tx (Option Claimed)
  try_candidate job none = pure none
  try_candidate job (some g) = do
    changed ←
        update_work_items (λ i. i.id == job.work_item_id && i.state == job.queued_item_state)
          (λ i. record i { state = job.active_item_state; updated_at = who.now })
    if not (eqb changed 1) then pure none else start_job job g

  unfoldable pub or_next : Option Claimed → Tx (Option Claimed) → Tx (Option Claimed)
  or_next none next = next
  or_next (some c) next = pure (some c)

  -- The loop over the candidates.
  unfoldable pub claim_first : List (Job × Campaign) → Tx (Option Claimed)
  claim_first [] = pure none
  claim_first ((job, campaign) ∷ rest) = do
    granted ← select_from (grant env who.role job campaign)
    claimed ← try_candidate job granted
    or_next claimed (claim_first rest)

-- claim_job
unfoldable pub claim_job : Env → WorkerRole → String → String → String → ℕ → ℕ → Tx (Option Claimed)
claim_job env role worker attempt_id token lease_seconds now = do
  conflict_if (leb lease_seconds 0) value_error
  _ ← recover_expired env now
  found ← select_from (candidates role now)
  claim_first env
      record {
        role = role;
        worker_id = worker;
        attempt_id = attempt_id;
        lease_token = token;
        now = now;
        expires_at = now + lease_seconds;
      }
      found
