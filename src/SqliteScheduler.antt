-- ===== src/SqliteScheduler.antt =====
-- sqlite_scheduler.py: the store behind the scheduler's protocol. Each method is one transaction at
-- the time of the clock; a LeaseConflict becomes the answer "no", and other exceptions stay.
pub mod Fences
pub mod Once
mod Examples
use python_ai_agent_flow.Prelude.{
  ℕ, suc, String, Option, none, some, Bool, true, false, List, [], ◌∷◌, ◌++◌, map, find, length,
  eqb, ◌==◌, string_eq, Error, Result, ok, err, not_found, attribute_error, mem,
  if◌then◌else◌ as choose,
}
use python_ai_agent_flow.Models.Enums.{WorkerRole, worker_role_eq, ItemState}
use python_ai_agent_flow.Models.Evidence.{Fields}
use python_ai_agent_flow.Models.Records as Records
use python_ai_agent_flow.Models.Records.{
  role_states, validate_job, validate_required_gates, validate_role_limits, ℤ,
}
use python_ai_agent_flow.Store.Rows.{Db, Job, Campaign, WorkItem, Control, Datum}
use python_ai_agent_flow.Store.Env.{Env}
use python_ai_agent_flow.Store.Tx.{Tx, pure, select_from, require, lift, ◌>>=◌, ◌>>◌}
use python_ai_agent_flow.Store.Fences.{job_by_id}
use python_ai_agent_flow.Store.Lifecycle.{heartbeat_job, fail_job}
use python_ai_agent_flow.Store.Recover.{recover_expired}
use python_ai_agent_flow.Store.Interrupt.{interrupt_job}
use python_ai_agent_flow.Store.Controls.{poll_operator_interrupt}
use python_ai_agent_flow.Store.Claim.{Claimed, claim_job}
use python_ai_agent_flow.Store.Stage.{Handoff, StageEnv}
use python_ai_agent_flow.Store.Enqueue.{NewJob, role_text}
use python_ai_agent_flow.Store.Commit.{commit_stage_result}
use python_ai_agent_flow.Sessions.{Session, Adapter, transact, unless_conflict, and_then, convert}
use python_ai_agent_flow.Sessions.Processes.{recover_expired_leases}
use python_ai_agent_flow.Scheduler.Calls.{
  Failure, Outcome, returned, raised, Op, Recovery, Fence, Commit, Storage,
}

abbrev map_ok {ℓ κ} : {A : Type ℓ} {B : Type κ} → (A → B) → Result A → Result B
map_ok f (ok a) = ok (f a)
map_ok f (err e) = err e

abbrev limits_of : List (WorkerRole × ℕ) → List (WorkerRole × ℤ)
limits_of limits = map (λ l. (l.0, ℤ.pos l.1)) limits

-- Whether a call that returns nothing was accepted.
unfoldable pub accepted : Op Session (Unit {0}) → Op Session Bool
accepted op = unless_conflict (λ _. true) false op

-- `attempt_number or attempt_count or 1`
abbrev attempt_of : ℕ → ℕ
attempt_of n = choose (eqb n 0) 1 n

abbrev provider_of : Option Control → Option String
provider_of none = none
provider_of (some c) = c.expected_provider

abbrev session_of : Option Control → Option String
session_of none = none
session_of (some c) = c.expected_session_id

-- The record that _job fills, before its validator.
abbrev pub job_record : Job → Option Control → Records.Job
job_record j resumed = record {
  id = j.id;
  campaign_id = j.campaign_id;
  item_id = j.work_item_id;
  role = j.role;
  status = j.status;
  attempt_number = attempt_of j.attempt_count;
  queued_item_state = some j.queued_item_state;
  active_item_state = some j.active_item_state;
  required_resources = j.required_resources;
  payload = j.payload;
  workspace_kind = j.workspace_kind;
  managed_worktree_id = j.managed_worktree_id;
  lease_token = j.lease_token;
  lease_owner = j.lease_owner;
  lease_expires_at = j.lease_expires_at;
  current_attempt_id = j.current_attempt_id;
  resume_external_provider = provider_of resumed;
  resume_external_session_id = session_of resumed;
}

abbrev job_of_row : Option Job → Option Control → Result (Option Records.Job)
job_of_row none resumed = err attribute_error
job_of_row (some row) resumed = map_ok some (validate_job (job_record row resumed))

-- _job, on what the store's `claim_job` returns.
unfoldable pub job_of : Option Claimed → Result (Option Records.Job)
job_of none = ok none
job_of (some c) = job_of_row c.row c.resumed

abbrev request_of : Option Control → Option (String × String)
request_of none = none
request_of (some c) = some (c.id, c.reason)

-- LOCAL_WRITE_APPROVAL_ACTION
abbrev local_write_approval_action : String
local_write_approval_action = "local_code_changes"

abbrev pub approval_of : WorkerRole → Option String
approval_of role = choose (role == WorkerRole.fixer) (some local_write_approval_action) none

abbrev payload_or_empty : Option Fields → Fields
payload_or_empty none = Fields.end
payload_or_empty (some p) = p

-- The successor that commit_stage_result asks for.
unfoldable pub successor_job : String → ℕ → Commit → Option WorkerRole → Option NewJob
successor_job id now c none = none
successor_job id now c (some role) = some record {
  id = id;
  role = role;
  stage = role_text role;
  queued_item_state = (role_states role).0;
  active_item_state = (role_states role).1;
  payload = payload_or_empty c.next_job_payload;
  required_resources = [];
  required_approval_action = approval_of role;
  workspace_kind = none;
  managed_worktree_id = none;
  priority = 0;
  available_at = now;
}

module _ (a : Adapter) where
  unfoldable pub claim : WorkerRole → String → ℕ → Op Session (Option Records.Job)
  claim role worker lease_seconds =
      and_then
        (transact
          (λ n. claim_job a.env role worker (a.draw n 0) (a.draw n 1) lease_seconds (a.clock n)))
        (λ found. convert (job_of found))

  unfoldable pub get_campaign : String → Op Session Campaign
  get_campaign id = transact (λ _. do
    found ← select_from (λ db. find (λ c. c.id == id) db.campaigns)
    campaign ← require found not_found
    lift (validate_role_limits (limits_of campaign.role_limits))
    pure campaign)

  unfoldable pub get_work_item : String → Op Session WorkItem
  get_work_item id = transact (λ _. do
    found ← select_from (λ db. find (λ i. i.id == id) db.work_items)
    item ← require found not_found
    lift (validate_required_gates item.required_gates)
    pure item)

  unfoldable pub heartbeat : Fence → ℕ → Op Session Bool
  heartbeat f lease_seconds = accepted (
      transact
        (λ n. heartbeat_job a.env f.job_id f.worker_id f.lease_token lease_seconds (a.clock n)))

  unfoldable pub poll : Fence → Op Session (Option (String × String))
  poll f =
      unless_conflict request_of none (
        transact
          (λ n. poll_operator_interrupt a.env f.job_id f.worker_id f.lease_token (a.clock n)))

  unfoldable pub complete : Fence → String → String → Op Session Bool
  complete f request reason = accepted (
      transact (λ n.
        interrupt_job a.env f.job_id f.worker_id f.lease_token reason (some request) (a.clock n)))

  unfoldable pub interrupt : Fence → String → Op Session Bool
  interrupt f reason = accepted (
      transact
        (λ n. interrupt_job a.env f.job_id f.worker_id f.lease_token reason none (a.clock n)))

  unfoldable pub fail : Fence → String → ℕ → Op Session Bool
  fail f error max_attempts =
      unless_conflict (λ _. true) false
        (transact (λ n.
          fail_job a.env f.job_id f.worker_id f.lease_token error Fields.end true none max_attempts
            ItemState.blocked (a.clock n)))

  -- commit_stage_result: the job is read first, outside of the `try`.
  unfoldable pub commit : Fence → Handoff → Commit → Op Session Bool
  commit f h c =
      and_then
        (transact (λ _. do found ← select_from (job_by_id f.job_id); require found not_found))
        (λ current. accepted (
          transact (λ n.
            commit_stage_result a.env a.stage f.job_id f.worker_id f.lease_token h
              current.active_item_state c.next_item_state c.event_type
              (("role", Datum.text (role_text current.role)) ∷ [])
              (successor_job (a.draw n 0) (a.clock n) c c.next_job_role) (a.clock n))))

  -- SQLiteSchedulerStorage
  abbrev pub sqlite_storage : Storage Session Handoff
  sqlite_storage = record {
    recover_expired_leases = recover_expired_leases a;
    claim_job = claim;
    get_campaign = get_campaign;
    get_work_item = get_work_item;
    heartbeat_job = heartbeat;
    poll_operator_interrupt = poll;
    complete_operator_interrupt = complete;
    interrupt_job = interrupt;
    fail_job = fail;
    commit_stage_result = commit;
  }
