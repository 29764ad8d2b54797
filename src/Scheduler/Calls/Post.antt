-- ===== src/Scheduler/Calls/Post.antt =====
-- scheduler.py: postconditions of the scheduler's work, one for the runs that return and one for
-- those that raise.
use python_ai_agent_flow.Prelude.{Bool, true, false, ◌≡◌, refl, subst, Result, ok, err, Error}
use python_ai_agent_flow.Scheduler.Calls.{
  Failure, Outcome, returned, raised, Op, Scheduler, Call, pure, raise, gets, modify, ask, lift,
  try_except, recover_with, with_store, if◌then◌else◌, continue, ◌>>=◌,
}

abbrev pub Holds {ℓ} :
    {S : Type 0} {A : Type ℓ}
    → (A → Scheduler S → Type 0)
    → (Failure → Scheduler S → Type 0)
    → Outcome A × Scheduler S
    → Type 0
Holds Q E (returned a, s) = Q a s
Holds Q E (raised f, s) = E f s

pub record Post {ℓ} {S : Type 0} {A : Type ℓ} (Q : A → Scheduler S → Type 0)
    (E : Failure → Scheduler S → Type 0) (r : Outcome A × Scheduler S) : Type 0 where
  pub holds : Holds Q E r

module _ {ℓ} {S : Type 0} {A : Type ℓ} {Q : A → Scheduler S → Type 0}
    {E : Failure → Scheduler S → Type 0} where
  pub Post-pure : (a : A) (s : Scheduler S) → Q a s → Post Q E (pure a s)
  unfolding pure
  Post-pure a s q = record { holds = q }

  pub Post-raise : (f : Failure) (s : Scheduler S) → E f s → Post Q E (raise {A = A} f s)
  unfolding raise
  Post-raise f s e = record { holds = e }

  pub Post-gets : (g : Scheduler S → A) (s : Scheduler S) → Q (g s) s → Post Q E (gets g s)
  unfolding gets
  Post-gets g s q = record { holds = q }

  pub Post-if :
      (c : Bool) (m n : Call S A) (s : Scheduler S)
      → (c ≡ true → Post Q E (m s))
      → (c ≡ false → Post Q E (n s))
      → Post Q E ((if c then m else n) s)
  unfolding if◌then◌else◌
  Post-if true m n s t f = t refl
  Post-if false m n s t f = f refl

  -- What is true of every outcome.
  pub Post-any :
      ((a : A) (s : Scheduler S) → Q a s)
      → ((f : Failure) (s : Scheduler S) → E f s)
      → (r : Outcome A × Scheduler S) → Post Q E r
  Post-any q e (returned a, s) = record { holds = q a s }
  Post-any q e (raised f, s) = record { holds = e f s }

  recovered :
      (P : Failure → Scheduler S → Type 0) (h : Failure → Call S A) (r : Outcome A × Scheduler S)
      → Post Q P r
      → ((f : Failure) (s' : Scheduler S) → P f s' → Post Q E (h f s'))
      → Post Q E (recover_with h r)
  recovered P h (returned a, s) p k = record { holds = p.holds }
  recovered P h (raised f, s) p k = k f s p.holds

  pub Post-try_except :
      (P : Failure → Scheduler S → Type 0) (m : Call S A) (h : Failure → Call S A) (s : Scheduler S)
      → Post Q P (m s)
      → ((f : Failure) (s' : Scheduler S) → P f s' → Post Q E (h f s'))
      → Post Q E (try_except m h s)
  unfolding try_except
  Post-try_except P m h s p k = recovered P h (m s) p k

  -- A weaker postcondition.
  pub Post-map :
      (P : A → Scheduler S → Type 0) (r : Outcome A × Scheduler S)
      → Post P E r
      → ((a : A) (s : Scheduler S) → P a s → Q a s)
      → Post Q E r
  Post-map P (returned a, s) p k = record { holds = k a s p.holds }
  Post-map P (raised f, s) p k = record { holds = p.holds }

  -- Weaker postconditions on both sides.
  pub Post-both :
      (P : A → Scheduler S → Type 0) (F : Failure → Scheduler S → Type 0)
      (r : Outcome A × Scheduler S)
      → Post P F r
      → ((a : A) (s : Scheduler S) → P a s → Q a s)
      → ((f : Failure) (s : Scheduler S) → F f s → E f s)
      → Post Q E r
  Post-both P F (returned a, s) p k e = record { holds = k a s p.holds }
  Post-both P F (raised f, s) p k e = record { holds = e f s p.holds }

  pub Post-lift :
      (r : Result A) (s : Scheduler S)
      → ((a : A) → r ≡ ok a → Q a s)
      → ((e : Error) → E (Failure.failed e) s)
      → Post Q E (lift r s)
  unfolding lift
  Post-lift (ok a) s q e = record { holds = q a refl }
  Post-lift (err x) s q e = record { holds = e x }

  -- What a run that returned gave.
  pub Post-returned :
      {r : Outcome A × Scheduler S} {a : A} {s : Scheduler S}
      → Post Q E r
      → r ≡ (returned a, s)
      → Q a s
  Post-returned p h = (subst (Post Q E) h p).holds

  pub Post-raised :
      {r : Outcome A × Scheduler S} {f : Failure} {s : Scheduler S}
      → Post Q E r
      → r ≡ (raised f, s)
      → E f s
  Post-raised p h = (subst (Post Q E) h p).holds

module _ {S A : Type 0} {Q : A → Scheduler S → Type 0} {E : Failure → Scheduler S → Type 0} where
  asked :
      (s : Scheduler S) (r : Outcome A × S)
      → ((a : A) (store : S) → r ≡ (returned a, store) → Q a (record s { store = store }))
      → ((f : Failure) (store : S) → E f (record s { store = store }))
      → Post Q E (with_store s r)
  asked s (returned a, store) q e = record { holds = q a store refl }
  asked s (raised f, store) q e = record { holds = e f store }

  pub Post-ask :
      (op : Op S A) (s : Scheduler S)
      → ((a : A) (store : S) → op s.store ≡ (returned a, store) → Q a (record s { store = store }))
      → ((f : Failure) (store : S) → E f (record s { store = store }))
      → Post Q E (ask op s)
  unfolding ask
  Post-ask op s q e = asked s (op s.store) q e

  asked_exactly :
      (s : Scheduler S) (r : Outcome A × S)
      → ((a : A) (store : S) → r ≡ (returned a, store) → Q a (record s { store = store }))
      → ((f : Failure) (store : S) → r ≡ (raised f, store) → E f (record s { store = store }))
      → Post Q E (with_store s r)
  asked_exactly s (returned a, store) q e = record { holds = q a store refl }
  asked_exactly s (raised f, store) q e = record { holds = e f store refl }

  -- A call of the store, with what it answered or raised.
  pub Post-ask_exactly :
      (op : Op S A) (s : Scheduler S)
      → ((a : A) (store : S) → op s.store ≡ (returned a, store) → Q a (record s { store = store }))
      → ((f : Failure) (store : S)
          → op s.store ≡ (raised f, store)
          → E f (record s { store = store }))
      → Post Q E (ask op s)
  unfolding ask
  Post-ask_exactly op s q e = asked_exactly s (op s.store) q e

  asked_of :
      (IsAnswer : Outcome A → Type 0) (s : Scheduler S) (r : Outcome A × S)
      → IsAnswer r.0
      → ((a : A) (store : S) → IsAnswer (returned a) → Q a (record s { store = store }))
      → ((f : Failure) (store : S) → IsAnswer (raised f) → E f (record s { store = store }))
      → Post Q E (with_store s r)
  asked_of IsAnswer s (returned a, store) h q e = record { holds = q a store h }
  asked_of IsAnswer s (raised f, store) h q e = record { holds = e f store h }

  -- A call of the store, of which something is known whatever it answers.
  pub Post-ask_of :
      (IsAnswer : Outcome A → Type 0) (op : Op S A) (s : Scheduler S)
      → IsAnswer (op s.store).0
      → ((a : A) (store : S) → IsAnswer (returned a) → Q a (record s { store = store }))
      → ((f : Failure) (store : S) → IsAnswer (raised f) → E f (record s { store = store }))
      → Post Q E (ask op s)
  unfolding ask
  Post-ask_of IsAnswer op s h q e = asked_of IsAnswer s (op s.store) h q e

module _ {S : Type 0} {Q : Unit {0} → Scheduler S → Type 0}
    {E : Failure → Scheduler S → Type 0} where
  pub Post-modify :
      (f : Scheduler S → Scheduler S) (s : Scheduler S) → Q tt (f s) → Post Q E (modify f s)
  unfolding modify
  Post-modify f s q = record { holds = q }

module _ {ℓ κ} {S : Type 0} {A : Type ℓ} {B : Type κ} {Q : B → Scheduler S → Type 0}
    {E : Failure → Scheduler S → Type 0} where
  continued :
      (P : A → Scheduler S → Type 0) (f : A → Call S B) (r : Outcome A × Scheduler S)
      → Post P E r
      → ((a : A) (s : Scheduler S) → P a s → Post Q E (f a s))
      → Post Q E (continue f r)
  continued P f (returned a, s) p k = k a s p.holds
  continued P f (raised e, s) p k = record { holds = p.holds }

  pub Post-bind :
      (P : A → Scheduler S → Type 0) (m : Call S A) (f : A → Call S B) (s : Scheduler S)
      → Post P E (m s)
      → ((a : A) (s' : Scheduler S) → P a s' → Post Q E (f a s'))
      → Post Q E ((m >>= f) s)
  unfolding ◌>>=◌
  Post-bind P m f s p k = continued P f (m s) p k

module _ {ℓ κ} {S : Type 0} {A : Type ℓ} {B : Type κ} {Q : B → Scheduler S → Type 0} where
  -- Where nothing is asked of the runs that raise, what comes last decides.
  pub Post-last :
      (m : Call S A) (f : A → Call S B) (s : Scheduler S)
      → ((a : A) (s' : Scheduler S) → Post Q (λ _ _. Unit) (f a s'))
      → Post Q (λ _ _. Unit) ((m >>= f) s)
  Post-last m f s k =
      Post-bind (λ _ _. Unit) m f s (Post-any (λ _ _. tt) (λ _ _. tt) (m s)) (λ a s' _. k a s')

module _ {ℓ} {S : Type 0} {A : Type ℓ} {Q : A → Scheduler S → Type 0} where
  -- Weaker postconditions, with none for the runs that raise.
  pub Post-weaken :
      {E : Failure → Scheduler S → Type 0} {P : A → Scheduler S → Type 0}
      (r : Outcome A × Scheduler S)
      → Post P E r
      → ((a : A) (s : Scheduler S) → P a s → Q a s)
      → Post Q (λ _ _. Unit) r
  Post-weaken (returned a, s) p k = record { holds = k a s p.holds }
  Post-weaken (raised f, s) p k = record { holds = tt }

  -- A run that cannot raise returns.
  pub Post-total :
      (r : Outcome A × Scheduler S)
      → Post Q (λ _ _. ⊥) r
      → (a : A) × (s : Scheduler S) × (r ≡ (returned a, s)) × Q a s
  Post-total (returned a, s) p = (a, s, refl, p.holds)
  Post-total (raised f, s) p = absurd p.holds
