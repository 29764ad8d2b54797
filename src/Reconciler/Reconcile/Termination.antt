-- ===== src/Reconciler/Reconcile/Termination.antt =====
-- process_reconciler.py: `reconcile` ends, since each round of its wait loop lets time pass.
use Prim.Native.Nat.{min}
use python_ai_agent_flow.Prelude.{
  ℕ, zero, suc, ◌+◌, ◌-◌, ◌<◌, leb, Option, none, some, Bool, false, List, [], ◌∷◌, ◌≡◌, ◌≢◌, refl,
  arith,
}
use python_ai_agent_flow.Reconciler.Identity.{ProcessIdentity, Binding, ReconciliationResult}
use python_ai_agent_flow.Reconciler.Runtime.{
  Signal, FailureKind, Failure, Answer, answers, fails, listed, read_clock, slept, History, Runtime,
  Ticks, Outcome, returns, raises, out_of_fuel, Action, outcome_of, pure, raise, inspect,
  list_group, signal_group, monotonic, sleep,
}
use python_ai_agent_flow.Reconciler.Runtime.Post.{
  Post, Post-bind, Post-if, Post-answer, Post-pure, Post-raise,
}
use python_ai_agent_flow.Reconciler.Reconcile.{
  pass_failure, pass_lookup, wait_or, after_list, wait_loop, wait_for_group_exit, signal_quietly,
  kill_group, escalate, terminate_group, verify_group, launcher_gone, launcher_replaced, dispatch,
  reconcile_verified, contain, reconcile_expected, reconcile,
}

abbrev Any {ℓ} : {A : Type ℓ} → A → History → Type 0
Any a h = Unit

-- Only running out of fuel is excluded.
abbrev InTime : Option Failure → History → Type 0
InTime none h = ⊥
InTime (some f) h = Unit

module _ (r : Runtime) (ticks : Ticks r) (grace poll : ℕ) (positive : 0 < poll) where
  abbrev left_at : ℕ → History → ℕ
  left_at deadline h = deadline - r.monotonic h

  -- A round that does not pass the deadline takes time off it.
  round_falls :
      (deadline : ℕ) (h : History)
      → leb deadline (r.monotonic h) ≡ false
      → left_at deadline
          (slept (min poll (deadline - r.monotonic h)) ∷ read_clock (r.monotonic h) ∷ h)
        < left_at deadline h
  round_falls deadline h early =
      let d = min poll (deadline - r.monotonic h) in
      let c = read_clock (r.monotonic h) in
      ground (arith, early, positive, ticks.forward h c, ticks.sleeps (c ∷ h) d)

  wait_or-InTime :
      (deadline : ℕ) (over retry : Action Bool) (h : History)
      → ((h' : History) → Post Any InTime (over h'))
      → ((h' : History) → left_at deadline h' < left_at deadline h → Post Any InTime (retry h'))
      → Post Any InTime (wait_or r grace poll deadline over retry h)
  unfolding wait_or monotonic sleep
  wait_or-InTime deadline over retry h ov re =
      Post-bind (λ now h'. (now ≡ r.monotonic h) × (h' ≡ read_clock (r.monotonic h) ∷ h)) _ _ h
        (record { holds = (refl, refl) })
        λ now h1 (same, e1).
          Post-if _ _ _ h1 (λ _. ov h1)
            λ early.
              Post-bind (λ _ h2. h2 ≡ slept (min poll (deadline - now)) ∷ h1) _ _ h1
                (record { holds = refl })
                λ _ h2 e2. re h2 (rw (e2, e1, same) (round_falls deadline h (rw same at early)))

  after_list-InTime :
      (deadline pgid : ℕ) (retry : Action Bool) (a : Answer (List ProcessIdentity)) (h : History)
      → ((h' : History) → left_at deadline h' < left_at deadline h → Post Any InTime (retry h'))
      → Post Any InTime (after_list r grace poll deadline retry (outcome_of a, listed pgid a ∷ h))
  unfolding after_list
  after_list-InTime deadline pgid retry (answers []) h re = Post-pure _ _ tt
  after_list-InTime deadline pgid retry (answers (i ∷ is)) h re =
      wait_or-InTime deadline (pure false) retry _ (λ h'. Post-pure _ h' tt)
        (λ h' lt. re h' (omega (arith, ticks.forward h (listed pgid (answers (i ∷ is))))))
  after_list-InTime deadline pgid retry (fails f) h re =
      Post-if _ _ _ _
        (λ _.
          wait_or-InTime deadline (raise f) retry _ (λ h'. Post-raise f h' tt)
            (λ h' lt. re h' (omega (arith, ticks.forward h (listed pgid (fails f))))))
        (λ _. Post-raise f _ tt)

  wait_loop-InTime :
      (fuel deadline pgid : ℕ) (h : History)
      → left_at deadline h < fuel
      → Post Any InTime (wait_loop r grace poll fuel deadline pgid h)
  unfolding wait_loop list_group
  wait_loop-InTime zero deadline pgid h lt = absurd (omega arith)
  wait_loop-InTime (suc fuel) deadline pgid h lt =
      after_list-InTime deadline pgid (λ h'. wait_loop r grace poll fuel deadline pgid h')
        (r.list_group h pgid) h (λ h' falls. wait_loop-InTime fuel deadline pgid h' (omega arith))

  module _ (fuel : ℕ) (enough : grace < fuel) where
    wait_for_group_exit-InTime :
        (pgid : ℕ) (h : History) → Post Any InTime (wait_for_group_exit r grace poll fuel pgid h)
    unfolding wait_for_group_exit monotonic
    wait_for_group_exit-InTime pgid h =
        Post-bind (λ now h'. (now ≡ r.monotonic h) × (h' ≡ read_clock (r.monotonic h) ∷ h)) _ _ h
          (record { holds = (refl, refl) })
          λ now h1 (same, e1).
            wait_loop-InTime fuel (now + grace) pgid h1
              (rw (same, e1) (omega (arith, ticks.forward h (read_clock (r.monotonic h)), enough)))

    inspect-InTime : (pid : ℕ) (h : History) → Post Any InTime (inspect r pid h)
    unfolding inspect
    inspect-InTime pid h = Post-answer (r.inspect h pid) _ (λ _ _. tt) (λ _ _. tt)

    list_group-InTime : (pgid : ℕ) (h : History) → Post Any InTime (list_group r pgid h)
    unfolding list_group
    list_group-InTime pgid h = Post-answer (r.list_group h pgid) _ (λ _ _. tt) (λ _ _. tt)

    pass_failure-InTime :
        (k : FailureKind) (f : Failure) (h : History) → Post Any InTime (pass_failure k f h)
    unfolding pass_failure
    pass_failure-InTime FailureKind.process_lookup f h = Post-pure _ h tt
    pass_failure-InTime _ f h = Post-raise f h tt

    pass_lookup-InTime :
        (a : Answer (Unit {0})) (h : History) → Post Any InTime (pass_lookup (outcome_of a, h))
    unfolding pass_lookup
    pass_lookup-InTime (answers x) h = record { holds = tt }
    pass_lookup-InTime (fails f) h = pass_failure-InTime f.kind f h

    signal_quietly-InTime :
        (pgid : ℕ) (s : Signal) (h : History)
        → Post Any InTime (signal_quietly r grace poll pgid s h)
    unfolding signal_quietly signal_group
    signal_quietly-InTime pgid s h = pass_lookup-InTime (r.signal_group h pgid s) _

    kill_group-InTime :
        (b : Binding) (h : History) → Post Any InTime (kill_group r grace poll fuel b h)
    unfolding kill_group
    kill_group-InTime b h = Post-bind Any _ _ h (signal_quietly-InTime _ _ h) λ _ h1 _.
        Post-bind Any _ _ h1 (wait_for_group_exit-InTime _ h1) λ exited h2 _.
          Post-if _ _ _ h2 (λ _. Post-pure _ h2 tt)
            (λ _. Post-bind Any _ _ h2 (list_group-InTime _ h2) (λ _ h3 _. Post-pure _ h3 tt))

    escalate-InTime :
        (b : Binding) (i : ProcessIdentity) (original : List ProcessIdentity) (h : History)
        → Post Any InTime (escalate r grace poll fuel b i original h)
    unfolding escalate
    escalate-InTime b i original h = Post-bind Any _ _ h (list_group-InTime _ h) λ _ h1 _.
        Post-if _ _ _ h1 (λ _. Post-pure _ h1 tt)
          (λ _.
            Post-bind Any _ _ h1 (inspect-InTime _ h1)
              λ _ h2 _. Post-if _ _ _ h2 (λ _. Post-pure _ h2 tt) (λ _. kill_group-InTime b h2))

    terminate_group-InTime :
        (b : Binding) (i : ProcessIdentity) (original : List ProcessIdentity) (h : History)
        → Post Any InTime (terminate_group r grace poll fuel b i original h)
    unfolding terminate_group
    terminate_group-InTime b i original h =
        Post-bind Any _ _ h (signal_quietly-InTime _ _ h) λ _ h1 _.
          Post-bind Any _ _ h1 (wait_for_group_exit-InTime _ h1) λ exited h2 _.
            Post-if _ _ _ h2 (λ _. Post-pure _ h2 tt) (λ _. escalate-InTime b i original h2)

    verify_group-InTime :
        (b : Binding) (i : ProcessIdentity) (h : History)
        → Post Any InTime (verify_group r grace poll fuel b i h)
    unfolding verify_group
    verify_group-InTime b i h = Post-bind Any _ _ h (list_group-InTime _ h) λ original h1 _.
        Post-if _ _ _ h1 (λ _. Post-pure _ h1 tt)
          (λ _. Post-bind Any _ _ h1 (inspect-InTime _ h1) λ _ h2 _.
            Post-if _ _ _ h2 (λ _. Post-pure _ h2 tt) (λ _. terminate_group-InTime b i original h2))

    dispatch-InTime :
        (b : Binding) (i : ProcessIdentity) (seen : Option ProcessIdentity) (h : History)
        → Post Any InTime (dispatch r grace poll fuel b i seen h)
    unfolding dispatch launcher_gone launcher_replaced
    dispatch-InTime b i none h =
        Post-bind Any _ _ h (list_group-InTime _ h)
          (λ _ h1 _. Post-if _ _ _ h1 (λ _. Post-pure _ h1 tt) (λ _. Post-pure _ h1 tt))
    dispatch-InTime b i (some seen) h =
        Post-if _ _ _ h (λ _. verify_group-InTime b i h)
          (λ _.
            Post-bind Any _ _ h (list_group-InTime _ h)
              (λ _ h1 _. Post-if _ _ _ h1 (λ _. Post-pure _ h1 tt) (λ _. Post-pure _ h1 tt)))

    contain-InTime :
        (b : Binding) (o : Outcome ReconciliationResult × History)
        → Post Any InTime o
        → Post Any InTime (contain r grace poll b o)
    unfolding contain
    contain-InTime b (returns x, h) p = record { holds = tt }
    contain-InTime b (raises f, h) p =
        Post-if _ _ _ h (λ _. Post-pure _ h tt) (λ _. Post-raise f h tt)
    contain-InTime b (out_of_fuel, h) p = record { holds = p.holds }

    reconcile_expected-InTime :
        (b : Binding) (o : Option ProcessIdentity) (h : History)
        → Post Any InTime (reconcile_expected r grace poll fuel b o h)
    unfolding reconcile_expected reconcile_verified
    reconcile_expected-InTime b none h = Post-pure _ h tt
    reconcile_expected-InTime b (some i) h =
        Post-if _ _ _ h (λ _. Post-pure _ h tt)
          (λ _.
            Post-if _ _ _ h (λ _. Post-pure _ h tt)
              (λ _. contain-InTime b _ (
                Post-bind Any _ _ h (inspect-InTime _ h)
                  (λ seen h1 _. dispatch-InTime b i seen h1))))

    reconcile-InTime :
        (b : Binding) (h : History) → Post Any InTime (reconcile r grace poll fuel b h)
    unfolding reconcile
    reconcile-InTime b h =
        Post-if _ _ _ h (λ _. Post-pure _ h tt) (λ _. reconcile_expected-InTime b _ h)

  -- On a clock that runs, with a positive poll interval, one round of fuel more than the grace
  -- period has ticks is enough: `reconcile` returns or raises, whatever the processes do.
  pub reconcile_ends :
      (fuel : ℕ) (b : Binding) (h : History)
      → grace < fuel
      → (reconcile r grace poll fuel b h).0 ≢ out_of_fuel
  reconcile_ends fuel b h enough =
      ended (reconcile r grace poll fuel b h) (reconcile-InTime fuel enough b h)
    where
      ended : (o : Outcome ReconciliationResult × History) → Post Any InTime o → o.0 ≢ out_of_fuel
      ended (returns x, h') p = λ e. cc
      ended (raises f, h') p = λ e. cc
      ended (out_of_fuel, h') p = λ e. p.holds
