-- ===== src/Sessions/Processes.antt =====
-- sqlite_scheduler.py: `recover_expired_leases`, over `reconcile_expired_processes` with a limit on
-- the processes. Each process is claimed in the store, examined by `reconcile`, and completed in
-- the store.
use python_ai_agent_flow.Prelude.{
  ℕ, zero, suc, String, Option, none, some, Bool, false, List, [], ◌∷◌, ◌++◌, length, mem,
  string_eq, value_error, if◌then◌else◌,
}
use python_ai_agent_flow.Reconciler.Identity.{Binding, persistence_identity, ReconciliationResult}
use python_ai_agent_flow.Reconciler.Runtime as Process
use python_ai_agent_flow.Reconciler.Reconcile.{reconcile}
use python_ai_agent_flow.Store.Rows.{ExternalProcess}
use python_ai_agent_flow.Store.Recover.{recover_expired}
use python_ai_agent_flow.Store.External.{
  Completion, claim_external_process_reconciliation, complete_external_process_reconciliation,
}
use python_ai_agent_flow.Scheduler.Calls.{Failure, Outcome, returned, raised, Op, Recovery}
use python_ai_agent_flow.Sessions.{Session, Adapter, transact, and_then}

-- ExternalProcessBinding.from_mapping, on a row of the table.
abbrev pub from_mapping : ExternalProcess → Binding
from_mapping p = record {
  job_id = p.job_id;
  attempt_id = p.attempt_id;
  process_id = p.process_id;
  process_group_id = p.process_group_id;
  user_id = p.owner_uid;
  executable = p.kernel_executable;
  start_seconds = p.start_seconds;
  start_microseconds = p.start_microseconds;
  target_executable = p.target_executable;
  identity_version = p.identity_version;
}

-- `dict.fromkeys(ids)`
abbrev keep_first : List String → List String → List String
keep_first seen [] = []
keep_first seen (id ∷ ids) =
    let rest = keep_first (id ∷ seen) ids in if mem id seen then rest else id ∷ rest

-- `str(claim["reconciliation_token"])`
abbrev pub token_text : Option String → String
token_text none = "None"
token_text (some token) = token

-- The state of the loop.
pub record Progress : Type 0 where
  pub recovered_job_ids : List String
  pub results : List ReconciliationResult
  pub processed_attempt_ids : List String

abbrev add_recovered : Completion → List String → List String
add_recovered c ids = if c.recovered then ids ++ c.job_id ∷ [] else ids

abbrev pub with_result :
    ReconciliationResult → Completion → Op Session (ReconciliationResult × Completion)
with_result r c s = (returned (r, c), s)

module _ (a : Adapter) where
  -- One round of fuel more than the grace period has ticks is enough, so the last case is never
  -- reached on a clock that runs.
  abbrev pub answered : Process.Outcome ReconciliationResult → Outcome ReconciliationResult
  answered (Process.returns r) = returned r
  answered (Process.raises f) = raised (a.failure_of f)
  answered Process.out_of_fuel = raised Failure.runtime_error

  abbrev pub examined : Binding → Session → Process.Outcome ReconciliationResult × Process.History
  examined b s =
      reconcile (a.runtime s.made) a.terminate_grace a.poll_interval (suc a.terminate_grace) b []

  -- `self.process_reconciler.reconcile(binding)`
  unfoldable pub reconcile_process : Binding → Op Session ReconciliationResult
  reconcile_process b s = (answered (examined b s).0, s)

  -- A claimed process is examined, and the result is committed.
  unfoldable pub settle_process : ExternalProcess → Op Session (ReconciliationResult × Completion)
  settle_process p =
      let b = from_mapping p in
      and_then (reconcile_process b) (λ r.
        and_then
          (transact (λ n.
            complete_external_process_reconciliation a.env b.attempt_id a.reconciliation_owner
              (token_text p.reconciliation_token) (persistence_identity b) r.status r.reason
              r.observed (a.clock n)))
          (with_result r))

  -- A round whose claim was answered.
  unfoldable pub after_claim :
      (Progress → Op Session Progress) → Progress → Option ExternalProcess → Op Session Progress
  after_claim continue done none s = (returned done, s)
  after_claim continue done (some p) s =
      and_then (settle_process p)
        (λ settled. continue record {
          recovered_job_ids = add_recovered settled.1 done.recovered_job_ids;
          results = done.results ++ settled.0 ∷ [];
          processed_attempt_ids = p.attempt_id ∷ done.processed_attempt_ids;
        })
        s

  -- The loop, while processes may be examined.
  unfoldable pub reconcile_next : ℕ → Bool → Progress → Op Session Progress
  reconcile_next zero retry_quarantined done s = (returned done, s)
  reconcile_next (suc remaining) retry_quarantined done s =
      and_then
        (transact (λ n.
          claim_external_process_reconciliation a.reconciliation_owner
            a.reconciliation_lease_seconds retry_quarantined done.processed_attempt_ids (a.draw n 0)
            (a.clock n)))
        (after_claim (λ more s'. reconcile_next remaining retry_quarantined more s') done) s

  -- reconcile_expired_processes, with the results that it leaves.
  unfoldable pub reconcile_expired_processes : ℕ → Bool → Op Session Progress
  reconcile_expired_processes zero retry_quarantined s = (raised (Failure.failed value_error), s)
  reconcile_expired_processes (suc limit) retry_quarantined s =
      and_then (transact (λ n. recover_expired a.env (a.clock n)))
        (λ summary.
          and_then
            (reconcile_next (suc limit) retry_quarantined record {
              recovered_job_ids = summary.0.job_ids;
              results = [];
              processed_attempt_ids = [];
            })
            (λ done s'. (
              returned (record done { recovered_job_ids = keep_first [] done.recovered_job_ids }),
              s',
            )))
        s

  -- recover_expired_leases
  unfoldable pub recover_expired_leases : Op Session Recovery
  recover_expired_leases = and_then (reconcile_expired_processes 1 false) (λ done s. (
    returned
        record { job_ids = done.recovered_job_ids; reconciliation_count = length done.results },
    s,
  ))
