-- ===== src/Store/Statuses.antt =====
-- storage.py: the statuses that the tables keep as text, with their comparison.
use python_ai_agent_flow.Prelude.{ℕ, ◌≡◌, arith, HasEquals, eqb, eqb-index_iff}

pub data CampaignStatus : Type 0 where
  active paused completed cancelled : CampaignStatus

abbrev pub campaign_status_index : CampaignStatus → ℕ
campaign_status_index CampaignStatus.active = 0
campaign_status_index CampaignStatus.paused = 1
campaign_status_index CampaignStatus.completed = 2
campaign_status_index CampaignStatus.cancelled = 3

pub campaign_status_index_injective :
    (a b : CampaignStatus) → campaign_status_index a ≡ campaign_status_index b → a ≡ b
campaign_status_index_injective a b h = ground arith

instance abbrev pub campaign_status_eq : HasEquals CampaignStatus
campaign_status_eq = record {
  equals = λ a b. eqb (campaign_status_index a) (campaign_status_index b);
  equals_iff = eqb-index_iff campaign_status_index campaign_status_index_injective;
}

pub data ProcessState : Type 0 where
  active legacy_unverifiable quarantined stopped : ProcessState

abbrev pub process_state_index : ProcessState → ℕ
process_state_index ProcessState.active = 0
process_state_index ProcessState.legacy_unverifiable = 1
process_state_index ProcessState.quarantined = 2
process_state_index ProcessState.stopped = 3

pub process_state_index_injective :
    (a b : ProcessState) → process_state_index a ≡ process_state_index b → a ≡ b
process_state_index_injective a b h = ground arith

instance abbrev pub process_state_eq : HasEquals ProcessState
process_state_eq = record {
  equals = λ a b. eqb (process_state_index a) (process_state_index b);
  equals_iff = eqb-index_iff process_state_index process_state_index_injective;
}

pub data WorktreeState : Type 0 where
  provisioning ready cleanup_pending quarantined removed : WorktreeState

abbrev pub worktree_state_index : WorktreeState → ℕ
worktree_state_index WorktreeState.provisioning = 0
worktree_state_index WorktreeState.ready = 1
worktree_state_index WorktreeState.cleanup_pending = 2
worktree_state_index WorktreeState.quarantined = 3
worktree_state_index WorktreeState.removed = 4

pub worktree_state_index_injective :
    (a b : WorktreeState) → worktree_state_index a ≡ worktree_state_index b → a ≡ b
worktree_state_index_injective a b h = ground arith

instance abbrev pub worktree_state_eq : HasEquals WorktreeState
worktree_state_eq = record {
  equals = λ a b. eqb (worktree_state_index a) (worktree_state_index b);
  equals_iff = eqb-index_iff worktree_state_index worktree_state_index_injective;
}

pub data ControlAction : Type 0 where
  interrupt resume : ControlAction

abbrev pub control_action_index : ControlAction → ℕ
control_action_index ControlAction.interrupt = 0
control_action_index ControlAction.resume = 1

pub control_action_index_injective :
    (a b : ControlAction) → control_action_index a ≡ control_action_index b → a ≡ b
control_action_index_injective a b h = ground arith

instance abbrev pub control_action_eq : HasEquals ControlAction
control_action_eq = record {
  equals = λ a b. eqb (control_action_index a) (control_action_index b);
  equals_iff = eqb-index_iff control_action_index control_action_index_injective;
}

pub data ControlStatus : Type 0 where
  pending applied rejected : ControlStatus

abbrev pub control_status_index : ControlStatus → ℕ
control_status_index ControlStatus.pending = 0
control_status_index ControlStatus.applied = 1
control_status_index ControlStatus.rejected = 2

pub control_status_index_injective :
    (a b : ControlStatus) → control_status_index a ≡ control_status_index b → a ≡ b
control_status_index_injective a b h = ground arith

instance abbrev pub control_status_eq : HasEquals ControlStatus
control_status_eq = record {
  equals = λ a b. eqb (control_status_index a) (control_status_index b);
  equals_iff = eqb-index_iff control_status_index control_status_index_injective;
}

pub data ApprovalStatus : Type 0 where
  pending approved rejected : ApprovalStatus

abbrev pub approval_status_index : ApprovalStatus → ℕ
approval_status_index ApprovalStatus.pending = 0
approval_status_index ApprovalStatus.approved = 1
approval_status_index ApprovalStatus.rejected = 2

pub approval_status_index_injective :
    (a b : ApprovalStatus) → approval_status_index a ≡ approval_status_index b → a ≡ b
approval_status_index_injective a b h = ground arith

instance abbrev pub approval_status_eq : HasEquals ApprovalStatus
approval_status_eq = record {
  equals = λ a b. eqb (approval_status_index a) (approval_status_index b);
  equals_iff = eqb-index_iff approval_status_index approval_status_index_injective;
}

pub data ExecutionStatus : Type 0 where
  prepared finished abandoned quarantined : ExecutionStatus

abbrev pub execution_status_index : ExecutionStatus → ℕ
execution_status_index ExecutionStatus.prepared = 0
execution_status_index ExecutionStatus.finished = 1
execution_status_index ExecutionStatus.abandoned = 2
execution_status_index ExecutionStatus.quarantined = 3

pub execution_status_index_injective :
    (a b : ExecutionStatus) → execution_status_index a ≡ execution_status_index b → a ≡ b
execution_status_index_injective a b h = ground arith

instance abbrev pub execution_status_eq : HasEquals ExecutionStatus
execution_status_eq = record {
  equals = λ a b. eqb (execution_status_index a) (execution_status_index b);
  equals_iff = eqb-index_iff execution_status_index execution_status_index_injective;
}
