-- ===== src/Store/Owned.antt =====
-- storage.py: who may change a running job, said of the rows.
pub mod Ended
pub mod Renewed
use python_ai_agent_flow.Prelude.{
  ℕ, ◌+◌, ◌<◌, String, Option, none, some, Bool, true, false, not, ◌&&◌, ◌||◌, ◌≡◌, ◌≢◌, refl, sym,
  ap, ◌∙◌, subst, arith, leb, ltb, List, [], ◌∷◌, All, All-map, any, find, find-some, update,
  Bool-cases, inl, inr, some_injective, one_outcome, ◌==◌, nat_eq, string_eq, option_eq, ok,
  value_error, lease_conflict,
}
use python_ai_agent_flow.Models.Enums.{ItemState, JobStatus, job_status_eq}
use python_ai_agent_flow.Models.Evidence.{Fields}
use python_ai_agent_flow.Store.Statuses.{
  ProcessState, process_state_eq, ControlAction, control_action_eq, ControlStatus,
  control_status_eq,
}
use python_ai_agent_flow.Store.Rows.{Db, Job, Control, ExternalProcess}
use python_ai_agent_flow.Store.Env.{Env}
use python_ai_agent_flow.Store.Queries.{has_passed}
use python_ai_agent_flow.Store.Fences.{
  job_by_id, is_live, is_pending_interrupt, is_unstopped, assert_live_lease,
  assert_no_pending_operator_interrupt, assert_external_process_stopped,
  assert_attempt_focused_test_admission, assert_registered_resource_fences,
}
use python_ai_agent_flow.Store.Events.{
  end_prepared_focused_execution, end_prepared_evidence_executions,
}
use python_ai_agent_flow.Store.Lifecycle.{
  move_item, release_leases, write_failure, heartbeat_job, fail_job,
}
use python_ai_agent_flow.Store.Interrupt.{
  authorize_interrupt, write_interruption, apply_interrupt, interrupt_job,
}
use python_ai_agent_flow.Store.Stale.{
  IsHeld, assert_live_lease-Post, assert_no_interrupt-Post, assert_stopped-Post,
  authorize_interrupt-Post,
}
use python_ai_agent_flow.Store.Unchanged.{admission-Post, registered-Post}
use python_ai_agent_flow.Store.Release.{
  Post-append_event, Post-update_jobs, Post-update_controls, Post-delete_leases, lease_events-Post,
}
use python_ai_agent_flow.Store.Recovery.Steps.{focused-Kept, evidence-Kept, move_item-Kept}
use python_ai_agent_flow.Store.Tx.{
  update_jobs, update_attempts, update_leases, update_controls, delete_leases, append_event,
}
use python_ai_agent_flow.Store.Tx.Post.{
  Post, Post-pure, Post-read, Post-guard, Post-bind, Post-same, Post-conflict_if, Post-map, Post-ok,
}

-- The job runs, the worker holds it under the token, and its lease ends after `now`.
abbrev pub IsOwned : String → String → ℕ → Job → Type 0
IsOwned worker token now job =
    (job.status ≡ JobStatus.running)
    × (job.lease_owner ≡ some worker)
    × (job.lease_token ≡ some token)
    × ((expires : ℕ) × (job.lease_expires_at ≡ some expires) × (now < expires))

-- No request to interrupt the job waits for an answer.
abbrev pub NoRequest : String → List Control → Type 0
NoRequest job_id cs =
    All
      (λ c.
        c.job_id ≡ job_id → c.action ≡ ControlAction.interrupt → c.status ≢ ControlStatus.pending)
      cs

-- The processes of the job's attempt are stopped.
abbrev pub AllEnded : Job → List ExternalProcess → Type 0
AllEnded job ps =
    All (λ p. some p.attempt_id ≡ job.current_attempt_id → p.state ≡ ProcessState.stopped) ps

unexpired :
    (o : Option ℕ) (now : ℕ)
    → has_passed o now ≡ false
    → (expires : ℕ) × (o ≡ some expires) × (now < expires)
unexpired none now h = cc
unexpired (some t) now h = (t, refl, ground arith)

pub live-IsOwned :
    (job : Job) (worker token : String) (now : ℕ)
    → is_live job worker token now ≡ true
    → IsOwned worker token now job
unfolding is_live
live-IsOwned job worker token now h = (
  (job_status_eq.equals_iff job.status JobStatus.running).0 (ground arith),
  (option_eq.equals_iff job.lease_owner (some worker)).0 (ground arith),
  (option_eq.equals_iff job.lease_token (some token)).0 (ground arith),
  unexpired job.lease_expires_at now (ground arith),
)

any-All-not :
    {A : Type 0} (p : A → Bool) (xs : List A) → any p xs ≡ false → All (λ x. p x ≡ false) xs
any-All-not p [] h = tt
any-All-not p (x ∷ xs) h = (ground (arith, h), any-All-not p xs (ground (arith, h)))

pub unrequested :
    (job_id : String) (cs : List Control)
    → any (is_pending_interrupt job_id) cs ≡ false
    → NoRequest job_id cs
unrequested job_id cs h =
    All-map
      (λ c free same action pending.
        one_outcome
          (rw ((string_eq.equals_iff c.job_id job_id).1 same) (
            rw ((control_action_eq.equals_iff c.action ControlAction.interrupt).1 action)
              ((control_status_eq.equals_iff c.status ControlStatus.pending).1 pending)))
          free)
      cs (any-All-not (is_pending_interrupt job_id) cs h)

pub ended :
    (job : Job) (ps : List ExternalProcess)
    → any (is_unstopped job.current_attempt_id) ps ≡ false
    → AllEnded job ps
ended job ps h =
    All-map
      (λ p free same. (process_state_eq.equals_iff p.state ProcessState.stopped).0 (
        stopped_of _ _ ((option_eq.equals_iff (some p.attempt_id) job.current_attempt_id).1 same)
          free))
      ps (any-All-not (is_unstopped job.current_attempt_id) ps h)
  where
    stopped_of : (a b : Bool) → a ≡ true → (a && not b) ≡ false → b ≡ true
    stopped_of a b t f = ground arith
