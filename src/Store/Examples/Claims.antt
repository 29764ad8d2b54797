-- ===== src/Store/Examples/Claims.antt =====
-- storage.py: a database with a waiting job, and the theorems on claims at it.
use python_ai_agent_flow.Prelude.{
  Option, none, some, ◌≡◌, refl, List, [], ◌∷◌, map, All, nat_eq, Result, ok, err,
}
use python_ai_agent_flow.Prelude.Texts.{
  is_space, strip_left, keep_unless_blank, strip_right, strip, starts_with, is_hex, is_hex_id,
}
use python_ai_agent_flow.Models.Enums.{WorkerRole, ItemState, JobStatus, WorkspaceKind}
use python_ai_agent_flow.Store.Rows.{Db, Job}
use python_ai_agent_flow.Store.Claim.{Claimed}
use python_ai_agent_flow.Store.Plan.{Planned}
use python_ai_agent_flow.Store.Slots.{IsFreeSlot, resource_claim_plan-IsFreeSlot}
use python_ai_agent_flow.Store.Examples.{plain, item_at, job_at, two_jobs}
use python_ai_agent_flow.Store.Plan.{
  is_padded_id, names_definition, held_slots, next_slot, plan_slot, plan_resource,
  resource_claim_plan,
}
use python_ai_agent_flow.Store.Claim.{claim_job}

-- A tester's job that waits for the browser.
abbrev waiting_job : Job
waiting_job = record (job_at "job-3" "item-3" "" ("browser:main" ∷ [])) {
  role = WorkerRole.tester;
  status = JobStatus.pending;
  queued_item_state = ItemState.ready_for_test;
  active_item_state = ItemState.testing;
  workspace_kind = WorkspaceKind.source_read_only;
  lease_owner = none;
  lease_token = none;
  lease_expires_at = none;
  heartbeat_at = none;
  current_attempt_id = none;
  attempt_count = 0;
}

-- One job waits, one runs, and nothing is leased.
abbrev one_waits : Db
one_waits = record two_jobs {
  work_items =
      item_at "item-1" ∷ record (item_at "item-3") { state = ItemState.ready_for_test } ∷ [];
  jobs = job_at "job-1" "item-1" "attempt-1" [] ∷ waiting_job ∷ [];
  resource_leases = [];
  external_processes = [];
}

abbrev claim_run : Result (Option Claimed × Db)
claim_run = claim_job plain WorkerRole.tester "worker-2" "attempt-3" "token-3" 60 50 one_waits

abbrev claimed_of : Result (Option Claimed × Db) → Claimed
claimed_of (ok (some c, db)) = c
claimed_of _ = record { row = none; resumed = none }

abbrev claimed : Claimed
claimed = claimed_of claim_run

abbrev after_claim : Db
after_claim = elim claim_run [ ok (_, db) ↦ db | err _ ↦ one_waits ]

abbrev browser_plan : List Planned
browser_plan = record { resource_key = "browser:main"; lease_slot = 1; definition = none } ∷ []

plan_runs :
    resource_claim_plan plain waiting_job ("browser:main" ∷ []) one_waits ≡ some browser_plan
unfolding is_padded_id names_definition held_slots next_slot plan_slot plan_resource
    resource_claim_plan is_space strip_left keep_unless_blank strip_right strip starts_with is_hex
    is_hex_id
plan_runs = refl

resource_claim_plan-IsFreeSlot_example :
    All (IsFreeSlot plain waiting_job one_waits) browser_plan
    × (map (λ p. p.resource_key) browser_plan ≡ "browser:main" ∷ [])
resource_claim_plan-IsFreeSlot_example =
    resource_claim_plan-IsFreeSlot plain waiting_job ("browser:main" ∷ []) one_waits browser_plan
      plan_runs

full_runs : plan_slot "browser:main" none two_jobs ≡ none
unfolding is_padded_id names_definition held_slots next_slot plan_slot plan_resource
    resource_claim_plan
full_runs = refl
