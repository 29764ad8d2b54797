-- ===== src/Reconciler/Reconcile.antt =====
-- process_reconciler.py: ExternalProcessReconciler.
pub mod Safety
pub mod Claims
pub mod Termination
use Prim.Native.String.{◌++◌}
use python_ai_agent_flow.Prelude.{
  ℕ, zero, suc, ◌+◌, ◌-◌, min, ltb, leb, String, Option, none, some, Bool, true, false, not, ◌&&◌,
  ◌||◌, List, [], ◌∷◌, all, is_none, is_nonempty, ◌==◌, nat_eq, string_eq, option_eq,
}
use python_ai_agent_flow.Reconciler.Identity.{
  ProcessIdentity, identity_eq, Binding, is_empty, expected_identity, ReconciliationStatus, gone,
  terminated, Observed, nothing, members, owners, observed, mismatch, ReconciliationResult,
  quarantine, by_pid,
}
use python_ai_agent_flow.Reconciler.Runtime.{
  Signal, sigterm, sigkill, FailureKind, Failure, History, Runtime, Outcome, returns, raises,
  out_of_fuel, Action, pure, raise, continue, if◌then◌else◌, inspect, list_group, signal_group,
  monotonic, sleep, ◌>>=◌, ◌>>◌,
}

unfoldable pub pass_failure : FailureKind → Failure → History → Outcome (Unit {0}) × History
pass_failure FailureKind.process_lookup f h = pure tt h
pass_failure _ f h = raise f h

-- `except ProcessLookupError: pass`
unfoldable pub pass_lookup : Outcome (Unit {0}) × History → Outcome (Unit {0}) × History
pass_lookup (raises f, h) = pass_failure f.kind f h
pass_lookup (o, h) = (o, h)

-- `_is_verified_subset`
unfoldable pub is_verified_subset : List ProcessIdentity → List ProcessIdentity → Bool
unfolding by_pid
is_verified_subset remaining original =
    is_nonempty remaining && all (λ i. by_pid original i.process_id == some i) remaining

-- `except (OSError, ProcessInspectionError)` of the wait loop.
unfoldable pub retried : FailureKind → Bool
retried FailureKind.process_lookup = true
retried FailureKind.os_error = true
retried FailureKind.inspection_error = true
retried _ = false

-- `except (OSError, ProcessInspectionError, ValueError)` of `reconcile`.
unfoldable pub contained : FailureKind → Bool
contained FailureKind.other = false
contained _ = true

abbrev result : Binding → ReconciliationStatus → String → Observed → ReconciliationResult
result b status reason seen = record {
  binding = b;
  status = status;
  reason = reason;
  observed = seen;
}

module _ (r : Runtime) (terminate_grace poll_interval : ℕ) where
  -- The rest of one round of the loop, once the members are read or the read has failed: `retry`
  -- is the next round, `over` what happens when the deadline has passed. `remaining <= 0` is
  -- `deadline <= now`.
  unfoldable pub wait_or : ℕ → Action Bool → Action Bool → Action Bool
  wait_or deadline over retry = do
    now ← monotonic r
    if leb deadline now then over else do sleep (min poll_interval (deadline - now)); retry

  -- One read of the group: empty ends the loop, members or a retried failure wait.
  unfoldable pub after_list :
      ℕ → Action Bool → Outcome (List ProcessIdentity) × History → Outcome Bool × History
  after_list deadline retry (returns [], h) = pure true h
  after_list deadline retry (returns (i ∷ is), h) = wait_or deadline (pure false) retry h
  after_list deadline retry (raises f, h) =
      (if retried f.kind then wait_or deadline (raise f) retry else raise f) h
  after_list deadline retry (out_of_fuel, h) = (out_of_fuel, h)

  unfoldable pub wait_loop : ℕ → ℕ → ℕ → Action Bool
  wait_loop zero deadline pgid h = (out_of_fuel, h)
  wait_loop (suc fuel) deadline pgid h =
      after_list deadline (λ h'. wait_loop fuel deadline pgid h') (list_group r pgid h)

  -- `_wait_for_group_exit`
  unfoldable pub wait_for_group_exit : ℕ → ℕ → Action Bool
  wait_for_group_exit fuel pgid = do now ← monotonic r; wait_loop fuel (now + terminate_grace) pgid

  unfoldable pub signal_quietly : ℕ → Signal → Action (Unit {0})
  signal_quietly pgid s h = pass_lookup (signal_group r pgid s h)

  -- From the SIGKILL on.
  unfoldable pub kill_group : ℕ → Binding → Action ReconciliationResult
  kill_group fuel b = do
    signal_quietly b.process_group_id sigkill
    exited ← wait_for_group_exit fuel b.process_group_id
    if exited
        then pure (result b terminated "verified process group exited after SIGKILL" nothing)
        else do
          left ← list_group r b.process_group_id
          pure (quarantine b "verified process group remained after SIGKILL" (members left))

  -- The checks between a SIGTERM that did not suffice and the SIGKILL.
  unfoldable pub escalate :
      ℕ → Binding → ProcessIdentity → List ProcessIdentity → Action ReconciliationResult
  escalate fuel b expected original = do
    remaining ← list_group r b.process_group_id
    if not (is_verified_subset remaining original)
        then pure
            (quarantine b "process group membership changed before SIGKILL" (members remaining))
        else do
          before_kill ← inspect r b.process_id
          if not (before_kill == some expected)
              then pure (
                  quarantine b "launcher identity changed or vanished before SIGKILL"
                    (elim before_kill [ none ↦ nothing | some i ↦ observed i ]))
              else kill_group fuel b

  -- From the SIGTERM on.
  unfoldable pub terminate_group :
      ℕ → Binding → ProcessIdentity → List ProcessIdentity → Action ReconciliationResult
  terminate_group fuel b expected original = do
    signal_quietly b.process_group_id sigterm
    exited ← wait_for_group_exit fuel b.process_group_id
    if exited
        then pure (result b terminated "verified process group exited after SIGTERM" nothing)
        else escalate fuel b expected original

  -- The launcher was observed with its expected identity.
  unfoldable pub verify_group : ℕ → Binding → ProcessIdentity → Action ReconciliationResult
  verify_group fuel b expected = do
    original ← list_group r b.process_group_id
    if not (by_pid original b.process_id == some expected)
        then pure (
            quarantine b "verified launcher is not present in its persisted process group"
              (members original))
        else do
          before_term ← inspect r b.process_id
          if not (before_term == some expected)
              then pure (
                  quarantine b "launcher identity changed immediately before SIGTERM"
                    (elim before_term [ none ↦ nothing | some i ↦ observed i ]))
              else terminate_group fuel b expected original

  -- `observed is None`
  unfoldable pub launcher_gone : Binding → Action ReconciliationResult
  launcher_gone b = do
    left ← list_group r b.process_group_id
    if is_nonempty left
        then pure (
            quarantine b "launcher is gone but its persisted process group is still populated"
              (members left))
        else pure (result b gone "persisted launcher and process group are gone" nothing)

  -- The fingerprints differ.
  unfoldable pub launcher_replaced :
      Binding → ProcessIdentity → ProcessIdentity → Action ReconciliationResult
  launcher_replaced b expected seen = do
    left ← list_group r b.process_group_id
    if not (is_nonempty left)
        then pure (
            result b gone "persisted process group is gone; PID now belongs to another process"
              (observed seen))
        else pure (
            quarantine b "PID, PGID, owner, executable, or start identity no longer matches"
              (mismatch expected seen))

  unfoldable pub dispatch :
      ℕ → Binding → ProcessIdentity → Option ProcessIdentity → Action ReconciliationResult
  dispatch fuel b expected none = launcher_gone b
  dispatch fuel b expected (some seen) =
      if seen == expected then verify_group fuel b expected else launcher_replaced b expected seen

  -- The body of the `try` block.
  unfoldable pub reconcile_verified : ℕ → Binding → ProcessIdentity → Action ReconciliationResult
  reconcile_verified fuel b expected = do
    seen ← inspect r b.process_id
    dispatch fuel b expected seen

  -- The `except` clause around it.
  unfoldable pub contain :
      Binding → Outcome ReconciliationResult × History → Outcome ReconciliationResult × History
  contain b (raises f, h) =
      (if contained f.kind
          then pure (quarantine b ("process inspection or signaling failed: " ++ f.message) nothing)
          else raise f)
        h
  contain b (o, h) = (o, h)

  -- The binding targets the supervisor or a reserved id.
  abbrev pub is_protected : Binding → Bool
  is_protected b =
      leb b.process_id 1
      || (leb b.process_group_id 1 || (b.process_id == r.getpid || b.process_group_id == r.getpgrp))

  unfoldable pub reconcile_expected :
      ℕ → Binding → Option ProcessIdentity → Action ReconciliationResult
  reconcile_expected fuel b none = pure (
      quarantine b "persisted process identity is incomplete; migrated binding is unverifiable"
        nothing)
  reconcile_expected fuel b (some expected) =
      if not (b.identity_version == some "darwin_libproc_v1") || is_empty b.target_executable
      then pure (
          quarantine b "persisted process identity is incomplete; migrated binding is unverifiable"
            nothing)
      else if not (expected.user_id == r.getuid)
      then pure (
          quarantine b "persisted process owner does not match the supervisor user"
            (owners expected.user_id r.getuid))
      else λ h. contain b (reconcile_verified fuel b expected h)

  unfoldable pub reconcile : ℕ → Binding → Action ReconciliationResult
  reconcile fuel b =
      if is_protected b
      then pure
          (quarantine b "persisted process identity targets a protected supervisor process" nothing)
      else reconcile_expected fuel b (expected_identity b)
