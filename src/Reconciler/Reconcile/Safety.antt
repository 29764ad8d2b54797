-- ===== src/Reconciler/Reconcile/Safety.antt =====
-- process_reconciler.py: whom `reconcile` signals, and what a releasable result has seen.
use python_ai_agent_flow.Prelude.{
  ℕ, zero, suc, Option, none, some, Bool, true, false, not, List, [], ◌∷◌, ◌≡◌, refl, ◌==◌, nat_eq,
  string_eq, option_eq, arith, is_nonempty,
}
use python_ai_agent_flow.Reconciler.Identity.{
  ProcessIdentity, identity_eq, Binding, expected_identity, ReconciliationResult, can_release,
  quarantine,
}
use python_ai_agent_flow.Reconciler.Runtime.{
  Signal, sigterm, sigkill, FailureKind, Failure, Answer, answers, fails, inspected, listed,
  signalled, History, Runtime, Outcome, returns, raises, out_of_fuel, Action, outcome_of, pure,
  raise, inspect, list_group, signal_group, monotonic, sleep,
}
use python_ai_agent_flow.Reconciler.Runtime.Post.{
  Post, Post-bind, Post-if, Post-answer, Post-pure, Post-raise, Post-out,
}
use python_ai_agent_flow.Reconciler.Reconcile.{
  pass_failure, pass_lookup, wait_or, after_list, wait_loop, wait_for_group_exit, signal_quietly,
  kill_group, escalate, terminate_group, verify_group, launcher_gone, launcher_replaced, dispatch,
  contained, reconcile_verified, contain, reconcile_expected, reconcile,
}

-- The latest call read the launcher and found its expected identity.
abbrev pub JustVerified : Binding → ProcessIdentity → History → Type 0
JustVerified b expected (inspected pid (answers (some i)) ∷ h) =
    (pid ≡ b.process_id) × (i ≡ expected)
JustVerified b expected _ = ⊥

-- Every signal went to the group of the binding, right after the launcher was verified.
abbrev pub IsGuarded : Binding → ProcessIdentity → History → Type 0
IsGuarded b expected [] = Unit
IsGuarded b expected (signalled pgid s a ∷ h) =
    (pgid ≡ b.process_group_id) × JustVerified b expected h × IsGuarded b expected h
IsGuarded b expected (_ ∷ h) = IsGuarded b expected h

-- The latest call listed the group and found it empty.
abbrev pub EndsEmpty : ℕ → History → Type 0
EndsEmpty pgid (listed p (answers []) ∷ h) = p ≡ pgid
EndsEmpty pgid _ = ⊥

true_of_not : {c : Bool} → not c ≡ false → c ≡ true
true_of_not h = ground arith

false_of_not : {c : Bool} → not c ≡ true → c ≡ false
false_of_not h = ground arith

module _ (r : Runtime) (grace poll : ℕ) (b : Binding) (expected : ProcessIdentity) where
  abbrev Guarded {ℓ} : {A : Type ℓ} → A → History → Type 0
  Guarded a h = IsGuarded b expected h

  abbrev Fails : Option Failure → History → Type 0
  Fails f h = IsGuarded b expected h

  -- What `reconcile` lets through: no failure that its `except` clause names.
  abbrev pub Contained : Option Failure → History → Type 0
  Contained none h = IsGuarded b expected h
  Contained (some f) h = IsGuarded b expected h × (contained f.kind ≡ false)

  abbrev Exits : Bool → History → Type 0
  Exits exited h = IsGuarded b expected h × (exited ≡ true → EndsEmpty b.process_group_id h)

  abbrev pub Settles : ReconciliationResult → History → Type 0
  Settles result h =
      IsGuarded b expected h × (can_release result ≡ true → EndsEmpty b.process_group_id h)

  read-Guarded : (h : History) → IsGuarded b expected h → Post Guarded Fails (monotonic r h)
  unfolding monotonic
  read-Guarded h g = record { holds = g }

  sleep-Guarded : (d : ℕ) (h : History) → IsGuarded b expected h → Post Guarded Fails (sleep d h)
  unfolding sleep
  sleep-Guarded d h g = record { holds = g }

  wait_or-Exits :
      (deadline : ℕ) (over retry : Action Bool)
      → ((h : History) → IsGuarded b expected h → Post Exits Fails (over h))
      → ((h : History) → IsGuarded b expected h → Post Exits Fails (retry h))
      → (h : History) → IsGuarded b expected h
      → Post Exits Fails (wait_or r grace poll deadline over retry h)
  unfolding wait_or
  wait_or-Exits deadline over retry ov re h g =
      Post-bind Guarded _ _ h (read-Guarded h g) λ now h1 g1.
        Post-if _ _ _ h1 (λ _. ov h1 g1)
          (λ _. Post-bind Guarded _ _ h1 (sleep-Guarded _ h1 g1) (λ _ h2 g2. re h2 g2))

  after_list-Exits :
      (deadline : ℕ) (retry : Action Bool)
      → ((h : History) → IsGuarded b expected h → Post Exits Fails (retry h))
      → (a : Answer (List ProcessIdentity)) (h : History) → IsGuarded b expected h
      → Post Exits Fails
          (after_list r grace poll deadline retry (outcome_of a, listed b.process_group_id a ∷ h))
  unfolding after_list
  after_list-Exits deadline retry re (answers []) h g = Post-pure _ _ (g, λ _. refl)
  after_list-Exits deadline retry re (answers (i ∷ is)) h g =
      wait_or-Exits deadline (pure false) retry (λ h' g'. Post-pure _ h' (g', λ e. cc)) re _ g
  after_list-Exits deadline retry re (fails f) h g =
      Post-if _ _ _ _
        (λ _. wait_or-Exits deadline (raise f) retry (λ h' g'. Post-raise f h' g') re _ g)
        (λ _. Post-raise f _ g)

  wait_loop-Exits :
      (fuel deadline : ℕ) (h : History)
      → IsGuarded b expected h
      → Post Exits Fails (wait_loop r grace poll fuel deadline b.process_group_id h)
  unfolding wait_loop list_group
  wait_loop-Exits zero deadline h g = Post-out h g
  wait_loop-Exits (suc fuel) deadline h g =
      after_list-Exits deadline (λ h'. wait_loop r grace poll fuel deadline b.process_group_id h')
        (wait_loop-Exits fuel deadline) (r.list_group h b.process_group_id) h g

  wait_for_group_exit-Exits :
      (fuel : ℕ) (h : History)
      → IsGuarded b expected h
      → Post Exits Fails (wait_for_group_exit r grace poll fuel b.process_group_id h)
  unfolding wait_for_group_exit
  wait_for_group_exit-Exits fuel h g =
      Post-bind Guarded _ _ h (read-Guarded h g) (λ now h1 g1. wait_loop-Exits fuel _ h1 g1)

  pass_failure-Guarded :
      (k : FailureKind) (f : Failure) (h : History)
      → IsGuarded b expected h
      → Post Guarded Fails (pass_failure k f h)
  unfolding pass_failure
  pass_failure-Guarded FailureKind.process_lookup f h g = Post-pure _ h g
  pass_failure-Guarded _ f h g = Post-raise f h g

  pass_lookup-Guarded :
      (a : Answer (Unit {0})) (h : History)
      → IsGuarded b expected h
      → Post Guarded Fails (pass_lookup (outcome_of a, h))
  unfolding pass_lookup
  pass_lookup-Guarded (answers x) h g = record { holds = g }
  pass_lookup-Guarded (fails f) h g = pass_failure-Guarded f.kind f h g

  -- A signal may follow a verified launcher.
  signal_quietly-Guarded :
      (s : Signal) (h : History)
      → JustVerified b expected h
      → IsGuarded b expected h
      → Post Guarded Fails (signal_quietly r grace poll b.process_group_id s h)
  unfolding signal_quietly signal_group
  signal_quietly-Guarded s h v g =
      pass_lookup-Guarded (r.signal_group h b.process_group_id s) _ (refl, v, g)

  list_group-Guarded :
      (pgid : ℕ) (h : History) → IsGuarded b expected h → Post Guarded Fails (list_group r pgid h)
  unfolding list_group
  list_group-Guarded pgid h g = Post-answer (r.list_group h pgid) _ (λ _ _. g) (λ _ _. g)

  kill_group-Settles :
      (fuel : ℕ) (h : History)
      → JustVerified b expected h
      → IsGuarded b expected h
      → Post Settles Fails (kill_group r grace poll fuel b h)
  unfolding kill_group quarantine can_release
  kill_group-Settles fuel h v g =
      Post-bind Guarded _ _ h (signal_quietly-Guarded sigkill h v g) λ _ h1 g1.
        Post-bind Exits _ _ h1 (wait_for_group_exit-Exits fuel h1 g1) λ exited h2 (g2, empty).
          Post-if _ _ _ h2 (λ y. Post-pure _ h2 (g2, λ _. empty y))
            (λ _.
              Post-bind Guarded _ _ h2 (list_group-Guarded _ h2 g2)
                (λ left h3 g3. Post-pure _ h3 (g3, λ e. cc)))

  -- Reading the launcher: the answer that is expected verifies it.
  abbrev Reads : Option ProcessIdentity → History → Type 0
  Reads x h = IsGuarded b expected h × ((x == some expected) ≡ true → JustVerified b expected h)

  verified_now :
      (x : Option ProcessIdentity) (h : History)
      → (x == some expected) ≡ true
      → JustVerified b expected (inspected b.process_id (answers x) ∷ h)
  verified_now none h same = cc
  verified_now (some i) h same = (refl, (identity_eq.equals_iff i expected).0 same)

  inspect-Reads :
      (h : History) → IsGuarded b expected h → Post Reads Fails (inspect r b.process_id h)
  unfolding inspect
  inspect-Reads h g =
      Post-answer (r.inspect h b.process_id) _ (λ x e. (g, λ same. rw e (verified_now x h same)))
        (λ _ _. g)

  escalate-Settles :
      (fuel : ℕ) (original : List ProcessIdentity) (h : History)
      → IsGuarded b expected h
      → Post Settles Fails (escalate r grace poll fuel b expected original h)
  unfolding escalate quarantine can_release
  escalate-Settles fuel original h g =
      Post-bind Guarded _ _ h (list_group-Guarded _ h g) λ remaining h1 g1.
        Post-if _ _ _ h1 (λ _. Post-pure _ _ (g1, λ e. cc))
          (λ _. Post-bind Reads _ _ h1 (inspect-Reads h1 g1) λ seen h2 (g2, verified).
            Post-if _ _ _ h2 (λ _. Post-pure _ _ (g2, λ e. cc))
              (λ same. kill_group-Settles fuel h2 (verified (true_of_not same)) g2))

  terminate_group-Settles :
      (fuel : ℕ) (original : List ProcessIdentity) (h : History)
      → JustVerified b expected h
      → IsGuarded b expected h
      → Post Settles Fails (terminate_group r grace poll fuel b expected original h)
  unfolding terminate_group can_release
  terminate_group-Settles fuel original h v g =
      Post-bind Guarded _ _ h (signal_quietly-Guarded sigterm h v g) λ _ h1 g1.
        Post-bind Exits _ _ h1 (wait_for_group_exit-Exits fuel h1 g1) λ exited h2 (g2, empty).
          Post-if _ _ _ h2 (λ y. Post-pure _ _ (g2, λ _. empty y))
            (λ _. escalate-Settles fuel original h2 g2)

  verify_group-Settles :
      (fuel : ℕ) (h : History)
      → IsGuarded b expected h
      → Post Settles Fails (verify_group r grace poll fuel b expected h)
  unfolding verify_group quarantine can_release
  verify_group-Settles fuel h g =
      Post-bind Guarded _ _ h (list_group-Guarded _ h g) λ original h1 g1.
        Post-if _ _ _ h1 (λ _. Post-pure _ _ (g1, λ e. cc))
          (λ _. Post-bind Reads _ _ h1 (inspect-Reads h1 g1) λ seen h2 (g2, verified).
            Post-if _ _ _ h2 (λ _. Post-pure _ _ (g2, λ e. cc))
              (λ same. terminate_group-Settles fuel original h2 (verified (true_of_not same)) g2))

  abbrev Lists : List ProcessIdentity → History → Type 0
  Lists left h =
      IsGuarded b expected h × (is_nonempty left ≡ false → EndsEmpty b.process_group_id h)

  ends_empty :
      (left : List ProcessIdentity) (h : History)
      → is_nonempty left ≡ false
      → EndsEmpty b.process_group_id (listed b.process_group_id (answers left) ∷ h)
  ends_empty [] h e = refl
  ends_empty (i ∷ is) h e = cc

  list_group-Lists :
      (h : History) → IsGuarded b expected h → Post Lists Fails (list_group r b.process_group_id h)
  unfolding list_group
  list_group-Lists h g =
      Post-answer (r.list_group h b.process_group_id) _
        (λ left e. (g, λ none_left. rw e (ends_empty left h none_left))) (λ _ _. g)

  launcher_gone-Settles :
      (h : History) → IsGuarded b expected h → Post Settles Fails (launcher_gone r grace poll b h)
  unfolding launcher_gone quarantine can_release
  launcher_gone-Settles h g = Post-bind Lists _ _ h (list_group-Lists h g) λ left h1 (g1, empty).
      Post-if _ _ _ h1 (λ _. Post-pure _ _ (g1, λ e. cc)) (λ n. Post-pure _ _ (g1, λ _. empty n))

  launcher_replaced-Settles :
      (seen : ProcessIdentity) (h : History)
      → IsGuarded b expected h
      → Post Settles Fails (launcher_replaced r grace poll b expected seen h)
  unfolding launcher_replaced quarantine can_release
  launcher_replaced-Settles seen h g =
      Post-bind Lists _ _ h (list_group-Lists h g) λ left h1 (g1, empty).
        Post-if _ _ _ h1 (λ y. Post-pure _ _ (g1, λ _. empty (false_of_not y)))
          (λ _. Post-pure _ _ (g1, λ e. cc))

  dispatch-Settles :
      (fuel : ℕ) (seen : Option ProcessIdentity) (h : History)
      → IsGuarded b expected h
      → Post Settles Fails (dispatch r grace poll fuel b expected seen h)
  unfolding dispatch
  dispatch-Settles fuel none h g = launcher_gone-Settles h g
  dispatch-Settles fuel (some seen) h g =
      Post-if _ _ _ h (λ _. verify_group-Settles fuel h g) (λ _. launcher_replaced-Settles seen h g)

  reconcile_verified-Settles :
      (fuel : ℕ) (h : History)
      → IsGuarded b expected h
      → Post Settles Fails (reconcile_verified r grace poll fuel b expected h)
  unfolding reconcile_verified
  reconcile_verified-Settles fuel h g =
      Post-bind Reads _ _ h (inspect-Reads h g) λ seen h1 (g1, _). dispatch-Settles fuel seen h1 g1

  contain-Settles :
      (o : Outcome ReconciliationResult × History)
      → Post Settles Fails o
      → Post Settles Contained (contain r grace poll b o)
  unfolding contain quarantine can_release
  contain-Settles (returns x, h) p = record { holds = p.holds }
  contain-Settles (raises f, h) p =
      Post-if _ _ _ h (λ _. Post-pure _ h (p.holds, λ e. cc)) (λ n. Post-raise f h (p.holds, n))
  contain-Settles (out_of_fuel, h) p = record { holds = p.holds }

  reconcile_expected-Settles :
      (fuel : ℕ) (h : History)
      → IsGuarded b expected h
      → Post Settles Contained (reconcile_expected r grace poll fuel b (some expected) h)
  unfolding reconcile_expected quarantine can_release
  reconcile_expected-Settles fuel h g =
      Post-if _ _ _ h (λ _. Post-pure _ h (g, λ e. cc))
        (λ _.
          Post-if _ _ _ h (λ _. Post-pure _ h (g, λ e. cc))
            (λ _. contain-Settles _ (reconcile_verified-Settles fuel h g)))

  pub reconcile-Settles :
      (fuel : ℕ) (h : History)
      → expected_identity b ≡ some expected
      → IsGuarded b expected h
      → Post Settles Contained (reconcile r grace poll fuel b h)
  unfolding reconcile quarantine can_release
  reconcile-Settles fuel h e g =
      Post-if _ _ _ h (λ _. Post-pure _ h (g, λ e'. cc))
        (λ _. rw e (reconcile_expected-Settles fuel h g))
