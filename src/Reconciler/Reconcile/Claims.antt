-- ===== src/Reconciler/Reconcile/Claims.antt =====
-- process_reconciler.py: what `reconcile` promises.
use python_ai_agent_flow.Prelude.{
  ℕ, ◌<◌, String, Option, none, some, true, false, is_some, [], ◌≡◌, ◌≢◌, ◌⊎◌, refl, nat_eq,
  string_eq, option_eq, arith, Bool-cases, Option-cases, inl, inr, subst,
}
use python_ai_agent_flow.Reconciler.Identity.{
  ProcessIdentity, Binding, is_empty, expected_identity, quarantined, ReconciliationResult,
  can_release, quarantine,
}
use python_ai_agent_flow.Reconciler.Runtime.{
  other, Failure, History, Runtime, Outcome, returns, raises, out_of_fuel, pure, if◌then◌else◌,
}
use python_ai_agent_flow.Reconciler.Runtime.Post.{Post}
use python_ai_agent_flow.Reconciler.Reconcile.{
  contained, is_protected, reconcile_expected, reconcile,
}
use python_ai_agent_flow.Reconciler.Reconcile.Safety.{
  IsGuarded, EndsEmpty, Settles, Contained, reconcile-Settles,
}

-- A binding that may be acted on: neither the supervisor nor a reserved id, of a known version,
-- with a whole identity that belongs to the supervisor's user.
pub record IsTarget (r : Runtime) (b : Binding) : Type 0 where
  pub pid_free : 1 < b.process_id
  pub group_free : 1 < b.process_group_id
  pub not_self : b.process_id ≢ r.getpid
  pub not_own_group : b.process_group_id ≢ r.getpgrp
  pub version : b.identity_version ≡ some "darwin_libproc_v1"
  pub known : is_some (expected_identity b) ≡ true
  pub has_target : is_empty b.target_executable ≡ false
  pub same_user : b.user_id ≡ some r.getuid

-- The outcome is a quarantine.
abbrev pub IsQuarantine : Outcome ReconciliationResult → Type 0
IsQuarantine (returns res) = res.status ≡ quarantined
IsQuarantine _ = ⊥

is_some_value {ℓ} : {A : Type ℓ} (o : Option A) → is_some o ≡ true → (a : A) × (o ≡ some a)
is_some_value none h = cc
is_some_value (some a) h = (a, refl)

expected_user :
    (b : Binding) {i : ProcessIdentity} → expected_identity b ≡ some i → b.user_id ≡ some i.user_id
unfolding expected_identity
expected_user b e = ground arith

module _ (r : Runtime) (grace poll fuel : ℕ) (b : Binding) (h : History) where
  abbrev pub Refused : Outcome ReconciliationResult × History → Type 0
  Refused o = IsQuarantine o.0 × (o.1 ≡ h)

  none-Refused : Refused (reconcile_expected r grace poll fuel b none h)
  unfolding reconcile_expected pure quarantine
  none-Refused = (refl, refl)

  some-Refused :
      (i : ProcessIdentity)
      → expected_identity b ≡ some i
      → is_protected r grace poll b ≡ false
      → Refused (reconcile_expected r grace poll fuel b (some i) h) ⊎ IsTarget r b
  unfolding reconcile_expected pure quarantine if◌then◌else◌
  some-Refused i e free = ground (
    arith,
    expected_user b e,
    e,
    free,
    (option_eq {A = String}).equals_iff b.identity_version (some "darwin_libproc_v1"),
  )

  -- Unless the binding may be acted on, it is quarantined and the operating system is not asked
  -- anything.
  pub reconcile-Refused_or_IsTarget : Refused (reconcile r grace poll fuel b h) ⊎ IsTarget r b
  unfolding reconcile pure quarantine if◌then◌else◌
  reconcile-Refused_or_IsTarget = elim (Bool-cases (is_protected r grace poll b)) [
    | inl y ↦ inl (rw y (refl, refl))
    | inr n ↦ rw n (elim (Option-cases (expected_identity b)) [
      | inl (i, e) ↦ rw e (some-Refused i e n)
      | inr missing ↦ rw missing (inl none-Refused)
    ])
  ]

-- Whatever the environment answers, every signal of a reconciliation goes to the process group
-- of the binding, and the call just before it read the launcher's pid and found the persisted
-- identity: pid, group, user, executable and start time.
pub reconcile-IsGuarded :
    (r : Runtime) (grace poll fuel : ℕ) (b : Binding) (h : History) {i : ProcessIdentity}
    → expected_identity b ≡ some i
    → IsGuarded b i h
    → IsGuarded b i (reconcile r grace poll fuel b h).1
reconcile-IsGuarded r grace poll fuel b h {i} e g =
    guarded_end (reconcile r grace poll fuel b h) (reconcile-Settles r grace poll b i fuel h e g)
  where
    guarded_end :
        (o : Outcome ReconciliationResult × History)
        → Post (Settles r grace poll b i) (Contained r grace poll b i) o
        → IsGuarded b i o.1
    guarded_end (returns x, h') p = p.holds.0
    guarded_end (raises f, h') p = p.holds.0
    guarded_end (out_of_fuel, h') p = p.holds

-- Either the binding was refused, or the run has the postcondition of its identity.
Decided :
    (r : Runtime) (grace poll : ℕ) (b : Binding) → Outcome ReconciliationResult × History → Type 0
Decided r grace poll b o =
    IsQuarantine o.0
    ⊎ ((i : ProcessIdentity) × Post (Settles r grace poll b i) (Contained r grace poll b i) o)

decided :
    (r : Runtime) (grace poll fuel : ℕ) (b : Binding)
    → Decided r grace poll b (reconcile r grace poll fuel b [])
unfolding Decided
decided r grace poll fuel b = elim (reconcile-Refused_or_IsTarget r grace poll fuel b []) [
  | inl q ↦ inl q.0
  | inr t ↦
      let (i, e) = is_some_value _ t.known in
      inr (i, reconcile-Settles r grace poll b i fuel [] e tt)
]

-- A result that lets the lease be released (GONE or TERMINATED) rests on proof: the last call
-- listed the process group of the binding and found it empty.
pub releasable_saw_empty :
    (r : Runtime) (grace poll fuel : ℕ) (b : Binding) {res : ReconciliationResult} {h' : History}
    → reconcile r grace poll fuel b [] ≡ (returns res, h')
    → can_release res ≡ true
    → EndsEmpty b.process_group_id h'
unfolding Decided can_release
releasable_saw_empty r grace poll fuel b ran free =
    elim (subst (Decided r grace poll b) ran (decided r grace poll fuel b)) [
      | inl q ↦ absurd (ground (arith, q, free))
      | inr (i, p) ↦ p.holds.1 free
    ]

-- The only exceptions that leave `reconcile` are those that its `except` clause does not name.
pub raises_other :
    (r : Runtime) (grace poll fuel : ℕ) (b : Binding) {f : Failure} {h' : History}
    → reconcile r grace poll fuel b [] ≡ (raises f, h')
    → f.kind ≡ other
unfolding Decided contained
raises_other r grace poll fuel b ran =
    elim (subst (Decided r grace poll b) ran (decided r grace poll fuel b)) [
      | inl q ↦ absurd q
      | inr (i, p) ↦ ground (arith, p.holds.1)
    ]
