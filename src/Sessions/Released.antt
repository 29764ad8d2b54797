-- ===== src/Sessions/Released.antt =====
-- sqlite_scheduler.py: a job whose process was reconciled is given back on proof.
use python_ai_agent_flow.Prelude.{
  suc, true, false, Memᴰ, ◌≡◌, refl, ap, subst, arith, nat_eq, string_eq, option_eq, Result, ok,
  err,
}
use python_ai_agent_flow.Reconciler.Identity.{
  PersistedIdentity, persistence_identity, ReconciliationStatus, ReconciliationResult, can_release,
}
use python_ai_agent_flow.Reconciler.Runtime as Process
use python_ai_agent_flow.Reconciler.Reconcile.Safety.{EndsEmpty}
use python_ai_agent_flow.Reconciler.Reconcile.Claims.{releasable_saw_empty}
use python_ai_agent_flow.Store.Rows.{Db, ExternalProcess}
use python_ai_agent_flow.Store.External.{
  Completion, status_is_quarantined, same_identity, persisted_identity,
  complete_external_process_reconciliation,
}
use python_ai_agent_flow.Store.External.Released.{
  AllReleased, complete_external_process_reconciliation-IsReleased,
}
use python_ai_agent_flow.Scheduler.Calls.{Outcome, returned}
use python_ai_agent_flow.Sessions.{Session, Adapter, committed, transact, and_then, proceed_with}
use python_ai_agent_flow.Sessions.Processes.{
  from_mapping, with_result, token_text, answered, examined, reconcile_process, settle_process,
}

releasable :
    (r : ReconciliationResult) → status_is_quarantined r.status ≡ false → can_release r ≡ true
unfolding can_release
releasable r h = released r.status h
  where
    released :
        (s : ReconciliationStatus)
        → status_is_quarantined s ≡ false
        → elim s [
          | ReconciliationStatus.gone ↦ true
          | ReconciliationStatus.terminated ↦ true
          | ReconciliationStatus.quarantined ↦ false
        ]
          ≡ true
    released ReconciliationStatus.gone e = refl
    released ReconciliationStatus.terminated e = refl
    released ReconciliationStatus.quarantined e = cc

same_group :
    (a b : PersistedIdentity) → same_identity a b ≡ true → a.process_group_id ≡ b.process_group_id
same_group a b h = (nat_eq.equals_iff a.process_group_id b.process_group_id).0 (ground arith)

pair_of : {A B : Type 0} {a : A} (o : A × B) → o.0 ≡ a → o ≡ (a, o.1)
pair_of o h = ap (λ x. (x, o.1)) h

module _ (a : Adapter) (p : ExternalProcess) (s s' : Session) (r : ReconciliationResult)
    (c : Completion) where
  committed_settled :
      (r0 : ReconciliationResult) (x : Result (Completion × Db))
      → proceed_with (with_result r0) (committed s x) ≡ (returned (r, c), s')
      → (r0 ≡ r) × (x ≡ ok (c, s'.db))
  committed_settled r0 (ok (c0, db0)) h = (cc, cc)
  committed_settled r0 (err e) h = cc

  abbrev completed : ReconciliationResult → Result (Completion × Db)
  completed r0 =
      complete_external_process_reconciliation a.env p.attempt_id a.reconciliation_owner
        (token_text p.reconciliation_token) (persistence_identity (from_mapping p)) r0.status
        r0.reason r0.observed (a.clock s.made) s.db

  abbrev complete_with :
      ReconciliationResult → Session → Outcome (ReconciliationResult × Completion) × Session
  complete_with r0 s0 = proceed_with (with_result r0) (
      committed s0 (
        complete_external_process_reconciliation a.env p.attempt_id a.reconciliation_owner
          (token_text p.reconciliation_token) (persistence_identity (from_mapping p)) r0.status
          r0.reason r0.observed (a.clock s0.made) s0.db))

  examined_settled :
      (o : Process.Outcome ReconciliationResult)
      → proceed_with complete_with (answered a o, s) ≡ (returned (r, c), s')
      → (o ≡ Process.returns r) × (completed r ≡ ok (c, s'.db))
  examined_settled (Process.returns r0) h =
      let (e, k) = committed_settled r0 (completed r0) h in
      (ap Process.returns e, subst (λ x. completed x ≡ ok (c, s'.db)) e k)
  examined_settled (Process.raises f) h = cc
  examined_settled Process.out_of_fuel h = cc

-- What becomes of a process whose job was given back.
abbrev pub IsGivenBack : Adapter → ExternalProcess → Session → Session → Completion → Type 0
IsGivenBack a p s s' c =
    (q : ExternalProcess) × ((c.job_id ≡ q.job_id)
      × (Memᴰ q s.db.external_processes
          × (EndsEmpty q.process_group_id (examined a (from_mapping p) s).1
              × AllReleased q s'.db.jobs s'.db.external_processes)))

-- A job that is given back after its process was examined had that process in the store, and the
-- last thing that the examination did was to list the process's group and find it empty; now the
-- process is stopped, and no row runs its attempt.
pub settle_process-IsGivenBack :
    (a : Adapter) (p : ExternalProcess) (s s' : Session) (r : ReconciliationResult) (c : Completion)
    → settle_process a p s ≡ (returned (r, c), s')
    → c.recovered ≡ true
    → IsGivenBack a p s s' c
unfolding settle_process reconcile_process and_then transact
settle_process-IsGivenBack a p s s' r c h recovered =
    let (ran, done) = examined_settled a p s s' r c (examined a (from_mapping p) s).0 h in
    let (q, (job, ((m, (claim, (identity, free))), released))) =
      complete_external_process_reconciliation-IsReleased a.env p.attempt_id a.reconciliation_owner
        (token_text p.reconciliation_token) (persistence_identity (from_mapping p)) r.status
        r.reason r.observed (a.clock s.made) s.db s'.db c done recovered in
    let empty =
      releasable_saw_empty (a.runtime s.made) a.terminate_grace a.poll_interval
        (suc a.terminate_grace) (from_mapping p) (pair_of _ ran) (releasable r free) in
    (
      q,
      (
        job,
        (
          m,
          (
            subst (λ g. EndsEmpty g (examined a (from_mapping p) s).1)
                (same_group (persistence_identity (from_mapping p)) (persisted_identity q) identity)
                empty,
            released,
          ),
        ),
      ),
    )
