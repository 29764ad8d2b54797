-- ===== src/Reconciler/Runtime/Post.antt =====
-- Postconditions of actions: `Q` where the action returns, `E` where it raises or runs out of fuel.
use python_ai_agent_flow.Prelude.{Option, none, some, Bool, true, false, ◌≡◌, refl}
use python_ai_agent_flow.Reconciler.Runtime.{
  Failure, Answer, answers, fails, History, Outcome, returns, raises, out_of_fuel, Action, pure,
  raise, if◌then◌else◌, ◌>>=◌, continue, outcome_of,
}

abbrev Holds {ℓ} :
    {A : Type ℓ}
    → (A → History → Type 0)
    → (Option Failure → History → Type 0)
    → Outcome A × History
    → Type 0
Holds Q E (returns a, h) = Q a h
Holds Q E (raises f, h) = E (some f) h
Holds Q E (out_of_fuel, h) = E none h

pub record Post {ℓ} {A : Type ℓ} (Q : A → History → Type 0) (E : Option Failure → History → Type 0)
    (o : Outcome A × History) : Type 0 where
  pub holds : Holds Q E o

module _ {ℓ} {A : Type ℓ} {Q : A → History → Type 0} {E : Option Failure → History → Type 0} where
  pub Post-pure : (a : A) (h : History) → Q a h → Post Q E (pure a h)
  unfolding pure
  Post-pure a h q = record { holds = q }

  pub Post-raise : (f : Failure) (h : History) → E (some f) h → Post Q E (raise {A = A} f h)
  unfolding raise
  Post-raise f h e = record { holds = e }

  pub Post-out : (h : History) → E none h → Post Q E (out_of_fuel, h)
  Post-out h e = record { holds = e }

  pub Post-if :
      (c : Bool) (m n : Action A) (h : History)
      → (c ≡ true → Post Q E (m h))
      → (c ≡ false → Post Q E (n h))
      → Post Q E ((if c then m else n) h)
  unfolding if◌then◌else◌
  Post-if true m n h t f = t refl
  Post-if false m n h t f = f refl

  -- An answer of the environment, as the outcome of its call.
  pub Post-answer :
      (a : Answer A) (h : History)
      → ((x : A) → a ≡ answers x → Q x h)
      → ((f : Failure) → a ≡ fails f → E (some f) h)
      → Post Q E (outcome_of a, h)
  Post-answer (answers x) h q e = record { holds = q x refl }
  Post-answer (fails f) h q e = record { holds = e f refl }

module _ {ℓ κ} {A : Type ℓ} {B : Type κ} where
  continue-Post :
      (Q : B → History → Type 0) (E : Option Failure → History → Type 0) (P : A → History → Type 0)
      (f : A → Action B) (o : Outcome A × History)
      → Post P E o
      → ((a : A) (h : History) → P a h → Post Q E (f a h))
      → Post Q E (continue f o)
  continue-Post Q E P f (returns a, h) p rest = rest a h p.holds
  continue-Post Q E P f (raises e, h) p rest = record { holds = p.holds }
  continue-Post Q E P f (out_of_fuel, h) p rest = record { holds = p.holds }

  -- The rule for a step and what follows it.
  pub Post-bind :
      {Q : B → History → Type 0} {E : Option Failure → History → Type 0} (P : A → History → Type 0)
      (m : Action A) (f : A → Action B) (h : History)
      → Post P E (m h)
      → ((a : A) (h' : History) → P a h' → Post Q E (f a h'))
      → Post Q E ((m >>= f) h)
  unfolding ◌>>=◌
  Post-bind {Q} {E} P m f h p rest = continue-Post Q E P f (m h) p rest
