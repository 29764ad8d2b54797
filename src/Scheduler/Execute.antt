-- ===== src/Scheduler/Execute.antt =====
-- scheduler.py: `_execute_claim`, which runs the worker of a claimed job under heartbeats and brings
-- the claim to an end, and `_heartbeat`.
pub mod Settled
use python_ai_agent_flow.Prelude.{
  ℕ, zero, suc, String, Option, none, some, Bool, true, false, not, ◌==◌, string_eq,
}
use python_ai_agent_flow.Models.Enums.{WorkerRole}
use python_ai_agent_flow.Models.Evidence.{Fields}
use python_ai_agent_flow.Models.Records.{Job}
use python_ai_agent_flow.Store.Stage.{Handoff}
use python_ai_agent_flow.Scheduler.Calls.{
  Failure, Outcome, Fence, Storage, Config, Scheduler, Call, pure, raise, ask, modify, try_except,
  append_error, append_stale, note_stale, if◌then◌else◌, ◌>>=◌, ◌>>◌,
}
use python_ai_agent_flow.Scheduler.Pool.{record_recovered_job_ids}
use python_ai_agent_flow.Scheduler.Finalize.{
  Dumps, poll_operator_interrupt, raise_pending, finalize_handoff,
}
use python_ai_agent_flow.Scheduler.Output.{
  WorkerOutput, validate_and_bind_output, validate_evidence_attachments,
}

-- What a claim takes from the code around it: pydantic's reading and dumping of handoffs, the file
-- system, and `f"{type(error).__name__}: {error}"`.
pub record Surroundings : Type 0 where
  pub read : WorkerRole → Fields → Option Handoff
  pub dumps : Dumps
  pub is_attached : String → Bool
  pub describe : Failure → String

-- A run of the worker, as it races its heartbeats: what happens to the store before each heartbeat,
-- and until a cancelled worker has ended should this heartbeat raise; after the last heartbeat, what
-- the worker returns or raises.
pub data Race (S : Type 0) : Type 0 where
  worker_ends : (S → S) → Outcome WorkerOutput → Race S
  beat : (S → S) → (S → S) → Race S → Race S

module _ {S : Type 0} (storage : Storage S Handoff) (config : Config) (fence : Fence) where
  -- The tries of one heartbeat: an exception is tried again, but for the last and a cancellation.
  unfoldable pub beat_or_retry : ℕ → Call S Bool
  beat_or_retry zero =
      try_except (ask (storage.heartbeat_job fence config.lease_seconds))
        (λ e. raise (after_tries e))
    where
      after_tries : Failure → Failure
      after_tries Failure.cancelled = Failure.cancelled
      after_tries _ = Failure.heartbeat_storage_failure
  beat_or_retry (suc retries) =
      let again = beat_or_retry retries in
      try_except (ask (storage.heartbeat_job fence config.lease_seconds)) (retry again)
    where
      retry : Call S Bool → Failure → Call S Bool
      retry again Failure.cancelled = raise Failure.cancelled
      retry again _ = again

  -- One round of _heartbeat.
  unfoldable pub heartbeat : Call S (Unit {0})
  heartbeat = do
    accepted ← beat_or_retry config.heartbeat_error_retries
    if not accepted
        then raise Failure.lease_lost
        else do pending ← poll_operator_interrupt storage fence; raise_pending storage pending

  unfoldable pub end_with : {A : Type 0} → Outcome A → Call S A
  end_with (Outcome.returned a) = pure a
  end_with (Outcome.raised e) = raise e

  -- _run_worker_with_heartbeat: a heartbeat that raises cancels the worker, and comes first.
  unfoldable pub run_worker_with_heartbeat : Race S → Call S WorkerOutput
  run_worker_with_heartbeat (Race.worker_ends work outcome) = do
    modify (λ s. record s { store = work s.store })
    end_with outcome
  run_worker_with_heartbeat (Race.beat work reap race) = do
    modify (λ s. record s { store = work s.store })
    try_except heartbeat (λ e. do modify (λ s. record s { store = reap s.store }); raise e)
    run_worker_with_heartbeat race

  abbrev stale_unless : String → Bool → Call S (Unit {0})
  stale_unless id true = pure tt
  stale_unless id false = append_stale id

  -- The claim is put back as the operator asked.
  unfoldable pub complete_interrupt : String → String → Call S (Unit {0})
  complete_interrupt request reason = do
    accepted ← ask (storage.complete_operator_interrupt fence request reason)
    stale_unless fence.job_id accepted

  -- A refused interruption leaves the job to the recovery.
  unfoldable pub recover_unless : Bool → Call S (Unit {0})
  recover_unless true = pure tt
  recover_unless false = do
    recovery ← ask storage.recover_expired_leases
    record_recovered_job_ids recovery.job_ids
    note_stale fence.job_id

  -- `except HeartbeatStorageFailure`
  unfoldable pub after_heartbeat_failure : Failure → Call S (Unit {0})
  after_heartbeat_failure error = do
    append_error error
    try_except
        (do
          accepted ←
              ask (storage.interrupt_job fence "heartbeat storage failure interrupted active work")
          recover_unless accepted)
        append_error

  -- A refused failure is an interruption that is pending, or a stale lease.
  unfoldable pub after_refused_failure : Option Failure → Call S (Unit {0})
  after_refused_failure (some (Failure.operator_interruption request reason)) =
      complete_interrupt request reason
  after_refused_failure _ = append_stale fence.job_id

  unfoldable pub after_failure : Bool → Call S (Unit {0})
  after_failure true = pure tt
  after_failure false = do
    pending ← poll_operator_interrupt storage fence
    after_refused_failure pending

  -- `except Exception`
  unfoldable pub fail : String → Call S (Unit {0})
  fail error = do
    accepted ← ask (storage.fail_job fence error config.max_attempts)
    after_failure accepted

  module _ (around : Surroundings) where
    -- The campaign and the item of the claim, which must be its own.
    unfoldable pub load_context : Job → Call S (Unit {0})
    load_context job = do
      campaign ← ask (storage.get_campaign job.campaign_id)
      item ← ask (storage.get_work_item job.item_id)
      if not (item.id == job.item_id)
          then raise Failure.runtime_error
          else if not (campaign.id == job.campaign_id)
          then raise Failure.runtime_error
          else pure tt

    -- The body of the `try`.
    unfoldable pub submit : Job → Race S → Call S (Unit {0})
    submit job race = do
      load_context job
      output ← run_worker_with_heartbeat race
      pending ← poll_operator_interrupt storage fence
      raise_pending storage pending
      handoff ← validate_and_bind_output around.read job.role job.item_id output
      validate_evidence_attachments around.is_attached config.allow_simulated_evidence handoff
      finalize_handoff storage around.dumps fence job handoff

    -- The except clauses.
    unfoldable pub conclude : Failure → Call S (Unit {0})
    conclude (Failure.operator_interruption request reason) = complete_interrupt request reason
    conclude Failure.lease_lost = append_stale fence.job_id
    conclude Failure.heartbeat_storage_failure =
        after_heartbeat_failure Failure.heartbeat_storage_failure
    conclude Failure.cancelled = raise Failure.cancelled
    conclude Failure.invalid_worker_output = fail (around.describe Failure.invalid_worker_output)
    conclude Failure.runtime_error = fail (around.describe Failure.runtime_error)
    conclude (Failure.failed e) = fail (around.describe (Failure.failed e))

    unfoldable pub execute_fenced : Job → Race S → Call S (Unit {0})
    execute_fenced job race = try_except (submit job race) conclude

abbrev pub fence_of : String → Job → String → Fence
fence_of worker job token = record { job_id = job.id; worker_id = worker; lease_token = token }

module _ {S : Type 0} (storage : Storage S Handoff) (config : Config) (around : Surroundings) where
  abbrev pub under_token : String → Job → Race S → Option String → Call S (Unit {0})
  under_token worker job race none = raise Failure.runtime_error
  under_token worker job race (some token) =
      execute_fenced storage config (fence_of worker job token) around job race

  -- _execute_claim
  unfoldable pub execute_claim : String → Job → Race S → Call S (Unit {0})
  execute_claim worker job race = under_token worker job race job.lease_token
