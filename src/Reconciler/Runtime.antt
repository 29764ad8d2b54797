-- ===== src/Reconciler/Runtime.antt =====
-- process_reconciler.py: the OS boundary. Every call of `ProcessRuntime`, of the clock and of
-- `sleeper` is recorded in a history, newest first, and the environment answers each call as it
-- likes from the history so far, so that it ranges over every behaviour of the system.
pub mod Post
use python_ai_agent_flow.Prelude.{ℕ, ◌+◌, ◌≤◌, String, Option, Bool, true, false, List, [], ◌∷◌}
use python_ai_agent_flow.Reconciler.Identity.{ProcessIdentity}

pub data Signal : Type 0 where
  sigterm sigkill : Signal

-- The exceptions that a call may raise. `ProcessLookupError` is an `OSError`; `other` is none of
-- those that the code names.
pub data FailureKind : Type 0 where
  process_lookup os_error inspection_error value_error other : FailureKind

pub record Failure : Type 0 where
  pub kind : FailureKind
  pub message : String

pub data Answer {ℓ} (A : Type ℓ) : Type ℓ where
  answers : A → Answer A
  fails : Failure → Answer A

pub data Call : Type 0 where
  inspected : ℕ → Answer (Option ProcessIdentity) → Call
  listed : ℕ → Answer (List ProcessIdentity) → Call
  signalled : ℕ → Signal → Answer (Unit {0}) → Call
  read_clock : ℕ → Call
  slept : ℕ → Call

abbrev pub History : Type 0
History = List Call

pub record Runtime : Type 0 where
  pub getpid : ℕ
  pub getpgrp : ℕ
  pub getuid : ℕ
  pub inspect : History → ℕ → Answer (Option ProcessIdentity)
  pub list_group : History → ℕ → Answer (List ProcessIdentity)
  pub signal_group : History → ℕ → Signal → Answer (Unit {0})
  pub monotonic : History → ℕ

-- What `time.monotonic` and `time.sleep` document: the clock never goes back, and a sleep lasts at
-- least as long as it was asked to.
pub record Ticks (r : Runtime) : Type 0 where
  pub forward : (h : History) (c : Call) → r.monotonic h ≤ r.monotonic (c ∷ h)
  pub sleeps : (h : History) (d : ℕ) → r.monotonic h + d ≤ r.monotonic (slept d ∷ h)

-- A call returns, raises, or is still looping when the fuel is used up.
pub data Outcome {ℓ} (A : Type ℓ) : Type ℓ where
  returns : A → Outcome A
  raises : Failure → Outcome A
  out_of_fuel : Outcome A

abbrev pub Action {ℓ} : Type ℓ → Type ℓ
Action A = History → Outcome A × History

module _ {ℓ} {A : Type ℓ} where
  unfoldable pub pure : A → Action A
  pure a h = (returns a, h)

  unfoldable pub raise : Failure → Action A
  raise f h = (raises f, h)

  -- A branch of an action.
  infix 1 if◌then◌else◌
  unfoldable pub if◌then◌else◌ : Bool → Action A → Action A → Action A
  if true then m else n = m
  if false then m else n = n

  -- An answer as the outcome of the call.
  abbrev pub outcome_of : Answer A → Outcome A
  outcome_of (answers a) = returns a
  outcome_of (fails f) = raises f

module _ {ℓ κ} {A : Type ℓ} {B : Type κ} where
  abbrev pub continue : (A → Action B) → Outcome A × History → Outcome B × History
  continue f (returns a, h) = f a h
  continue f (raises e, h) = (raises e, h)
  continue f (out_of_fuel, h) = (out_of_fuel, h)

infixl 5 ◌>>=◌ ◌>>◌
unfoldable pub ◌>>=◌ {ℓ κ} : {A : Type ℓ} {B : Type κ} → Action A → (A → Action B) → Action B
◌>>=◌ m f h = continue f (m h)

abbrev pub ◌>>◌ {ℓ} : {B : Type ℓ} → Action (Unit {0}) → Action B → Action B
m >> k = m >>= λ _. k

module _ (r : Runtime) where
  unfoldable pub inspect : ℕ → Action (Option ProcessIdentity)
  inspect pid h = let a = r.inspect h pid in (outcome_of a, inspected pid a ∷ h)

  unfoldable pub list_group : ℕ → Action (List ProcessIdentity)
  list_group pgid h = let a = r.list_group h pgid in (outcome_of a, listed pgid a ∷ h)

  unfoldable pub signal_group : ℕ → Signal → Action (Unit {0})
  signal_group pgid s h = let a = r.signal_group h pgid s in (outcome_of a, signalled pgid s a ∷ h)

  unfoldable pub monotonic : Action ℕ
  monotonic h = (returns (r.monotonic h), read_clock (r.monotonic h) ∷ h)

unfoldable pub sleep : ℕ → Action (Unit {0})
sleep d h = (returns tt, slept d ∷ h)
