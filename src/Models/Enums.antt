-- ===== src/Models/Enums.antt =====
-- models.py: the enumerations, with Python's `==` on their members.
use python_ai_agent_flow.Prelude.{ℕ, ◌≡◌, String, arith, HasEquals, eqb, eqb-index_iff}

pub data ItemState : Type 0 where
  backlog investigating ready_for_fix fixing ready_for_test testing verified_green blocked :
      ItemState

abbrev pub item_state_index : ItemState → ℕ
item_state_index ItemState.backlog = 0
item_state_index ItemState.investigating = 1
item_state_index ItemState.ready_for_fix = 2
item_state_index ItemState.fixing = 3
item_state_index ItemState.ready_for_test = 4
item_state_index ItemState.testing = 5
item_state_index ItemState.verified_green = 6
item_state_index ItemState.blocked = 7

pub item_state_index_injective : (a b : ItemState) → item_state_index a ≡ item_state_index b → a ≡ b
item_state_index_injective a b h = ground arith

instance abbrev pub item_state_eq : HasEquals ItemState
item_state_eq = record {
  equals = λ a b. eqb (item_state_index a) (item_state_index b);
  equals_iff = eqb-index_iff item_state_index item_state_index_injective;
}

pub data WorkerRole : Type 0 where
  investigator fixer tester : WorkerRole

abbrev pub worker_role_index : WorkerRole → ℕ
worker_role_index WorkerRole.investigator = 0
worker_role_index WorkerRole.fixer = 1
worker_role_index WorkerRole.tester = 2

pub worker_role_index_injective :
    (a b : WorkerRole) → worker_role_index a ≡ worker_role_index b → a ≡ b
worker_role_index_injective a b h = ground arith

instance abbrev pub worker_role_eq : HasEquals WorkerRole
worker_role_eq = record {
  equals = λ a b. eqb (worker_role_index a) (worker_role_index b);
  equals_iff = eqb-index_iff worker_role_index worker_role_index_injective;
}

pub data JobStatus : Type 0 where
  pending leased running completed failed cancelled : JobStatus

abbrev pub job_status_index : JobStatus → ℕ
job_status_index JobStatus.pending = 0
job_status_index JobStatus.leased = 1
job_status_index JobStatus.running = 2
job_status_index JobStatus.completed = 3
job_status_index JobStatus.failed = 4
job_status_index JobStatus.cancelled = 5

pub job_status_index_injective : (a b : JobStatus) → job_status_index a ≡ job_status_index b → a ≡ b
job_status_index_injective a b h = ground arith

instance abbrev pub job_status_eq : HasEquals JobStatus
job_status_eq = record {
  equals = λ a b. eqb (job_status_index a) (job_status_index b);
  equals_iff = eqb-index_iff job_status_index job_status_index_injective;
}

pub data AttemptStatus : Type 0 where
  running succeeded failed expired interrupted : AttemptStatus

abbrev pub attempt_status_index : AttemptStatus → ℕ
attempt_status_index AttemptStatus.running = 0
attempt_status_index AttemptStatus.succeeded = 1
attempt_status_index AttemptStatus.failed = 2
attempt_status_index AttemptStatus.expired = 3
attempt_status_index AttemptStatus.interrupted = 4

pub attempt_status_index_injective :
    (a b : AttemptStatus) → attempt_status_index a ≡ attempt_status_index b → a ≡ b
attempt_status_index_injective a b h = ground arith

instance abbrev pub attempt_status_eq : HasEquals AttemptStatus
attempt_status_eq = record {
  equals = λ a b. eqb (attempt_status_index a) (attempt_status_index b);
  equals_iff = eqb-index_iff attempt_status_index attempt_status_index_injective;
}

pub data WorkspaceKind : Type 0 where
  source_read_only managed_worktree simulated : WorkspaceKind

abbrev pub workspace_kind_index : WorkspaceKind → ℕ
workspace_kind_index WorkspaceKind.source_read_only = 0
workspace_kind_index WorkspaceKind.managed_worktree = 1
workspace_kind_index WorkspaceKind.simulated = 2

pub workspace_kind_index_injective :
    (a b : WorkspaceKind) → workspace_kind_index a ≡ workspace_kind_index b → a ≡ b
workspace_kind_index_injective a b h = ground arith

instance abbrev pub workspace_kind_eq : HasEquals WorkspaceKind
workspace_kind_eq = record {
  equals = λ a b. eqb (workspace_kind_index a) (workspace_kind_index b);
  equals_iff = eqb-index_iff workspace_kind_index workspace_kind_index_injective;
}

pub data EvidenceKind : Type 0 where
  browser screenshot database test gl api log export document other : EvidenceKind

abbrev pub evidence_kind_index : EvidenceKind → ℕ
evidence_kind_index EvidenceKind.browser = 0
evidence_kind_index EvidenceKind.screenshot = 1
evidence_kind_index EvidenceKind.database = 2
evidence_kind_index EvidenceKind.test = 3
evidence_kind_index EvidenceKind.gl = 4
evidence_kind_index EvidenceKind.api = 5
evidence_kind_index EvidenceKind.log = 6
evidence_kind_index EvidenceKind.export = 7
evidence_kind_index EvidenceKind.document = 8
evidence_kind_index EvidenceKind.other = 9

pub evidence_kind_index_injective :
    (a b : EvidenceKind) → evidence_kind_index a ≡ evidence_kind_index b → a ≡ b
evidence_kind_index_injective a b h = ground arith

instance abbrev pub evidence_kind_eq : HasEquals EvidenceKind
evidence_kind_eq = record {
  equals = λ a b. eqb (evidence_kind_index a) (evidence_kind_index b);
  equals_iff = eqb-index_iff evidence_kind_index evidence_kind_index_injective;
}

pub data GateKind : Type 0 where
  focused_tests browser database gl api export : GateKind

abbrev pub gate_kind_index : GateKind → ℕ
gate_kind_index GateKind.focused_tests = 0
gate_kind_index GateKind.browser = 1
gate_kind_index GateKind.database = 2
gate_kind_index GateKind.gl = 3
gate_kind_index GateKind.api = 4
gate_kind_index GateKind.export = 5

-- `gate.value`
abbrev pub gate_value : GateKind → String
gate_value GateKind.focused_tests = "focused_tests"
gate_value GateKind.browser = "browser"
gate_value GateKind.database = "database"
gate_value GateKind.gl = "gl"
gate_value GateKind.api = "api"
gate_value GateKind.export = "export"

pub gate_kind_index_injective : (a b : GateKind) → gate_kind_index a ≡ gate_kind_index b → a ≡ b
gate_kind_index_injective a b h = ground arith

instance abbrev pub gate_kind_eq : HasEquals GateKind
gate_kind_eq = record {
  equals = λ a b. eqb (gate_kind_index a) (gate_kind_index b);
  equals_iff = eqb-index_iff gate_kind_index gate_kind_index_injective;
}

pub data GateResult : Type 0 where
  pass fail not_applicable : GateResult

abbrev pub gate_result_index : GateResult → ℕ
gate_result_index GateResult.pass = 0
gate_result_index GateResult.fail = 1
gate_result_index GateResult.not_applicable = 2

pub gate_result_index_injective :
    (a b : GateResult) → gate_result_index a ≡ gate_result_index b → a ≡ b
gate_result_index_injective a b h = ground arith

instance abbrev pub gate_result_eq : HasEquals GateResult
gate_result_eq = record {
  equals = λ a b. eqb (gate_result_index a) (gate_result_index b);
  equals_iff = eqb-index_iff gate_result_index gate_result_index_injective;
}

pub data InvestigationOutcome : Type 0 where
  ready_for_fix blocked : InvestigationOutcome

abbrev pub investigation_outcome_index : InvestigationOutcome → ℕ
investigation_outcome_index InvestigationOutcome.ready_for_fix = 0
investigation_outcome_index InvestigationOutcome.blocked = 1

pub investigation_outcome_index_injective :
    (a b : InvestigationOutcome)
    → investigation_outcome_index a ≡ investigation_outcome_index b
    → a ≡ b
investigation_outcome_index_injective a b h = ground arith

instance abbrev pub investigation_outcome_eq : HasEquals InvestigationOutcome
investigation_outcome_eq = record {
  equals = λ a b. eqb (investigation_outcome_index a) (investigation_outcome_index b);
  equals_iff = eqb-index_iff investigation_outcome_index investigation_outcome_index_injective;
}

pub data FixOutcome : Type 0 where
  ready_for_test blocked : FixOutcome

abbrev pub fix_outcome_index : FixOutcome → ℕ
fix_outcome_index FixOutcome.ready_for_test = 0
fix_outcome_index FixOutcome.blocked = 1

pub fix_outcome_index_injective :
    (a b : FixOutcome) → fix_outcome_index a ≡ fix_outcome_index b → a ≡ b
fix_outcome_index_injective a b h = ground arith

instance abbrev pub fix_outcome_eq : HasEquals FixOutcome
fix_outcome_eq = record {
  equals = λ a b. eqb (fix_outcome_index a) (fix_outcome_index b);
  equals_iff = eqb-index_iff fix_outcome_index fix_outcome_index_injective;
}

pub data TestOutcome : Type 0 where
  pass red blocked : TestOutcome

abbrev pub test_outcome_index : TestOutcome → ℕ
test_outcome_index TestOutcome.pass = 0
test_outcome_index TestOutcome.red = 1
test_outcome_index TestOutcome.blocked = 2

pub test_outcome_index_injective :
    (a b : TestOutcome) → test_outcome_index a ≡ test_outcome_index b → a ≡ b
test_outcome_index_injective a b h = ground arith

instance abbrev pub test_outcome_eq : HasEquals TestOutcome
test_outcome_eq = record {
  equals = λ a b. eqb (test_outcome_index a) (test_outcome_index b);
  equals_iff = eqb-index_iff test_outcome_index test_outcome_index_injective;
}

pub data BlockerKind : Type 0 where
  execution product_decision : BlockerKind

abbrev pub blocker_kind_index : BlockerKind → ℕ
blocker_kind_index BlockerKind.execution = 0
blocker_kind_index BlockerKind.product_decision = 1

pub blocker_kind_index_injective :
    (a b : BlockerKind) → blocker_kind_index a ≡ blocker_kind_index b → a ≡ b
blocker_kind_index_injective a b h = ground arith

instance abbrev pub blocker_kind_eq : HasEquals BlockerKind
blocker_kind_eq = record {
  equals = λ a b. eqb (blocker_kind_index a) (blocker_kind_index b);
  equals_iff = eqb-index_iff blocker_kind_index blocker_kind_index_injective;
}

pub data GateDecision : Type 0 where
  verified_green return_to_fix blocked rejected : GateDecision

abbrev pub gate_decision_index : GateDecision → ℕ
gate_decision_index GateDecision.verified_green = 0
gate_decision_index GateDecision.return_to_fix = 1
gate_decision_index GateDecision.blocked = 2
gate_decision_index GateDecision.rejected = 3

pub gate_decision_index_injective :
    (a b : GateDecision) → gate_decision_index a ≡ gate_decision_index b → a ≡ b
gate_decision_index_injective a b h = ground arith

instance abbrev pub gate_decision_eq : HasEquals GateDecision
gate_decision_eq = record {
  equals = λ a b. eqb (gate_decision_index a) (gate_decision_index b);
  equals_iff = eqb-index_iff gate_decision_index gate_decision_index_injective;
}
