-- ===== src/Reconciler/Identity.antt =====
-- process_reconciler.py: identities of processes, the persisted binding, and the result.
use python_ai_agent_flow.Prelude.{
  ℕ, String, ◌≡◌, ◌↔◌, Option, none, some, Bool, true, false, ◌&&◌, List, [], ◌∷◌, if◌then◌else◌,
  HasEquals, ◌==◌, nat_eq, string_eq, arith,
}

-- A signed `pid_t` below 2 is refused before any use, so process ids are natural numbers.
pub record ProcessIdentity : Type 0 where
  pub process_id : ℕ
  pub process_group_id : ℕ
  pub user_id : ℕ
  pub executable : String
  pub start_seconds : ℕ
  pub start_microseconds : ℕ

-- `a.fingerprint() == b.fingerprint()`, which is also `a == b` of the frozen dataclass.
abbrev pub same_fingerprint : ProcessIdentity → ProcessIdentity → Bool
same_fingerprint a b =
    a.process_id == b.process_id
    && (a.process_group_id == b.process_group_id
        && (a.user_id == b.user_id
            && (a.executable == b.executable
                && (a.start_seconds == b.start_seconds
                    && a.start_microseconds == b.start_microseconds))))

pub same_fingerprint_iff : (a b : ProcessIdentity) → (same_fingerprint a b ≡ true) ↔ (a ≡ b)
same_fingerprint_iff a b = (
  λ h. ground (arith, string_eq.equals_iff a.executable b.executable),
  λ h. ground (arith, string_eq.equals_iff a.executable b.executable),
)

instance abbrev pub identity_eq : HasEquals ProcessIdentity
identity_eq = record { equals = same_fingerprint; equals_iff = same_fingerprint_iff }

-- ExternalProcessBinding
pub record Binding : Type 0 where
  pub job_id : String
  pub attempt_id : String
  pub process_id : ℕ
  pub process_group_id : ℕ
  pub user_id : Option ℕ
  pub executable : Option String
  pub start_seconds : Option ℕ
  pub start_microseconds : Option ℕ
  pub target_executable : Option String
  pub identity_version : Option String

-- `not text`: `None` and the empty text are false.
abbrev pub is_empty : Option String → Bool
is_empty none = true
is_empty (some s) = s == ""

abbrev identity_of :
    Binding → Option ℕ → Option String → Option ℕ → Option ℕ → Option ProcessIdentity
identity_of b (some uid) (some exe) (some seconds) (some micros) =
    if exe == ""
    then none
    else some (record {
      process_id = b.process_id;
      process_group_id = b.process_group_id;
      user_id = uid;
      executable = exe;
      start_seconds = seconds;
      start_microseconds = micros;
    })
identity_of b _ _ _ _ = none

-- ExternalProcessBinding.expected_identity
unfoldable pub expected_identity : Binding → Option ProcessIdentity
expected_identity b = identity_of b b.user_id b.executable b.start_seconds b.start_microseconds

-- ExternalProcessBinding.persistence_identity
pub record PersistedIdentity : Type 0 where
  pub process_id : ℕ
  pub process_group_id : ℕ
  pub user_id : Option ℕ
  pub executable : Option String
  pub start_seconds : Option ℕ
  pub start_microseconds : Option ℕ
  pub target_executable : Option String
  pub identity_version : Option String

abbrev pub persistence_identity : Binding → PersistedIdentity
persistence_identity b = record {
  process_id = b.process_id;
  process_group_id = b.process_group_id;
  user_id = b.user_id;
  executable = b.executable;
  start_seconds = b.start_seconds;
  start_microseconds = b.start_microseconds;
  target_executable = b.target_executable;
  identity_version = b.identity_version;
}

pub data ReconciliationStatus : Type 0 where
  gone terminated quarantined : ReconciliationStatus

-- The `observed` mapping: nothing, or one of the summaries.
pub data Observed : Type 0 where
  nothing : Observed
  members : List ProcessIdentity → Observed
  owners : (expected_user_id supervisor_user_id : ℕ) → Observed
  observed : ProcessIdentity → Observed
  mismatch : (expected observed : ProcessIdentity) → Observed

pub record ReconciliationResult : Type 0 where
  pub binding : Binding
  pub status : ReconciliationStatus
  pub reason : String
  pub observed : Observed

-- ReconciliationResult.can_release
unfoldable pub can_release : ReconciliationResult → Bool
can_release r = elim r.status [
  | ReconciliationStatus.gone ↦ true
  | ReconciliationStatus.terminated ↦ true
  | ReconciliationStatus.quarantined ↦ false
]

-- ExternalProcessReconciler._quarantine
unfoldable pub quarantine : Binding → String → Observed → ReconciliationResult
quarantine b reason seen = record {
  binding = b;
  status = ReconciliationStatus.quarantined;
  reason = reason;
  observed = seen;
}

-- `{identity.process_id: identity for identity in members}.get(pid)`: the last one is kept.
unfoldable pub by_pid : List ProcessIdentity → ℕ → Option ProcessIdentity
by_pid [] pid = none
by_pid (i ∷ is) pid = elim (by_pid is pid) [
  | some j ↦ some j
  | none ↦ if i.process_id == pid then some i else none
]
