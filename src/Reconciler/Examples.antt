-- ===== src/Reconciler/Examples.antt =====
-- process_reconciler.py: a worker that exits on SIGTERM, and the theorems at it.
use python_ai_agent_flow.Prelude.{
  ℕ, ◌+◌, ◌≤◌, some, true, List, [], ◌∷◌, ◌≡◌, ◌≢◌, ◌⊎◌, refl, arith,
}
use python_ai_agent_flow.Reconciler.Identity.{
  ProcessIdentity, Binding, expected_identity, terminated, nothing, ReconciliationResult,
  can_release, by_pid,
}
use python_ai_agent_flow.Reconciler.Runtime.{
  other, answers, fails, Call, signalled, slept, History, Runtime, Ticks, returns, raises,
  out_of_fuel, pure, raise, if◌then◌else◌, ◌>>=◌, inspect, list_group, signal_group, monotonic,
  sleep,
}
use python_ai_agent_flow.Reconciler.Reconcile.{
  pass_failure, pass_lookup, contained, wait_or, after_list, wait_loop, wait_for_group_exit,
  signal_quietly, terminate_group, verify_group, dispatch, reconcile_verified, contain,
  reconcile_expected, reconcile,
}
use python_ai_agent_flow.Reconciler.Reconcile.Safety.{IsGuarded, EndsEmpty}
use python_ai_agent_flow.Reconciler.Reconcile.Claims.{
  IsTarget, IsQuarantine, reconcile-Refused_or_IsTarget, reconcile-IsGuarded, releasable_saw_empty,
}
use python_ai_agent_flow.Reconciler.Reconcile.Termination.{reconcile_ends}

abbrev launcher : ProcessIdentity
launcher = record {
  process_id = 400;
  process_group_id = 400;
  user_id = 501;
  executable = "/usr/bin/guardian";
  start_seconds = 1700000000;
  start_microseconds = 42;
}

abbrev lost : Binding
lost = record {
  job_id = "job-1";
  attempt_id = "attempt-1";
  process_id = 400;
  process_group_id = 400;
  user_id = some 501;
  executable = some "/usr/bin/guardian";
  start_seconds = some 1700000000;
  start_microseconds = some 42;
  target_executable = some "/usr/bin/codex";
  identity_version = some "darwin_libproc_v1";
}

-- The time that the sleeps of a history took.
abbrev elapsed : History → ℕ
elapsed [] = 0
elapsed (slept d ∷ h) = elapsed h + d
elapsed (_ ∷ h) = elapsed h

-- A process group that is gone once it was signalled and has had a moment.
abbrev members_at : History → List ProcessIdentity
members_at [] = launcher ∷ []
members_at (signalled _ _ _ ∷ h) = []
members_at (_ ∷ h) = members_at h

abbrev pub obedient : Runtime
obedient = record {
  getpid = 77;
  getpgrp = 70;
  getuid = 501;
  inspect = λ h pid. answers (some launcher);
  list_group = λ h pgid. answers (members_at h);
  signal_group = λ h pgid s. answers tt;
  monotonic = elapsed;
}

-- A system whose inspection breaks in a way that the code does not foresee.
abbrev broken : Runtime
broken = record obedient { inspect = λ h pid. fails (record { kind = other; message = "bug" }) }

elapsed_forward : (h : History) (c : Call) → elapsed h ≤ elapsed (c ∷ h)
elapsed_forward h (slept d) = omega arith
elapsed_forward h (Call.inspected _ _) = omega arith
elapsed_forward h _ = omega arith

obedient-Ticks : Ticks obedient
obedient-Ticks = record { forward = elapsed_forward; sleeps = λ h d. omega arith }

abbrev ended : ReconciliationResult
ended = record {
  binding = lost;
  status = terminated;
  reason = "verified process group exited after SIGTERM";
  observed = nothing;
}

abbrev trace : History
trace = (reconcile obedient 5 1 6 lost []).1

lost_known : expected_identity lost ≡ some launcher
unfolding expected_identity
lost_known = refl

ended_releases : can_release ended ≡ true
unfolding can_release
ended_releases = refl

obedient_run : reconcile obedient 5 1 6 lost [] ≡ (returns ended, trace)
unfolding reconcile reconcile_expected reconcile_verified dispatch verify_group terminate_group
    signal_quietly wait_for_group_exit wait_loop after_list wait_or contain pass_lookup pass_failure
    expected_identity by_pid inspect list_group signal_group monotonic sleep pure if◌then◌else◌
    ◌>>=◌
obedient_run = refl

broken_run :
    reconcile broken 5 1 6 lost []
    ≡ (raises (record { kind = other; message = "bug" }), (reconcile broken 5 1 6 lost []).1)
unfolding reconcile reconcile_expected reconcile_verified contain contained expected_identity
    inspect pure raise if◌then◌else◌ ◌>>=◌
broken_run = refl

reconcile-Refused_or_IsTarget_example :
    (IsQuarantine (reconcile obedient 5 1 6 lost []).0
      × ((reconcile obedient 5 1 6 lost []).1 ≡ []))
    ⊎ IsTarget obedient lost
reconcile-Refused_or_IsTarget_example = reconcile-Refused_or_IsTarget obedient 5 1 6 lost []

reconcile-IsGuarded_example : IsGuarded lost launcher (reconcile obedient 5 1 6 lost []).1
reconcile-IsGuarded_example = reconcile-IsGuarded obedient 5 1 6 lost [] lost_known tt

releasable_saw_empty_example : EndsEmpty 400 trace
releasable_saw_empty_example = releasable_saw_empty obedient 5 1 6 lost obedient_run ended_releases

reconcile_ends_example : (reconcile obedient 5 1 6 lost []).0 ≢ out_of_fuel
reconcile_ends_example =
    reconcile_ends obedient obedient-Ticks 5 1 (omega arith) 6 lost [] (omega arith)
