-- ===== src/Scheduler/Examples.antt =====
-- scheduler.py: a pool of two testers and a fixer over a store that has jobs for testers only.
use python_ai_agent_flow.Prelude.{
  ℕ, suc, String, Option, none, some, true, false, ◌≡◌, ◌↔◌, refl, arith, List, [], ◌∷◌, all, count,
  update, ok, some_injective, ap, sym, ◌∙◌, ◌==◌, string_eq,
}
use python_ai_agent_flow.Prelude.Texts.{
  codes, strip, strip_left, strip_right, is_space, keep_unless_blank,
}
use python_ai_agent_flow.Models.Enums.{
  WorkerRole, worker_role_eq, JobStatus, WorkspaceKind, EvidenceKind, InvestigationOutcome,
}
use python_ai_agent_flow.Models.Evidence.{Fields, Value, EvidenceRef, get}
use python_ai_agent_flow.Models.Handoffs.{InvestigationHandoff, validate_investigation}
use python_ai_agent_flow.Models.Records.{Job}
use python_ai_agent_flow.Store.Stage.{Handoff, StageEnv, item_of, is_admissible, handoff_evidence}
use python_ai_agent_flow.Store.Examples.{pilot, item_at}
use python_ai_agent_flow.Scheduler.Calls.{
  returned, Recovery, Commit, Storage, Config, Ending, WorkerSlot, Scheduler, pure, ask, modify,
  gets, ◌>>=◌ as call_bind, if◌then◌else◌ as call_if,
}
use python_ai_agent_flow.Scheduler.Pool.{
  active_count, is_named, is_occupied, claim_order, lanes, max_lanes, ordered_roles, slots_by_role,
  across, in_lane, reap_slot, cancel_recovered_jobs, record_recovered_job_ids, reap_finished_slots,
}
use python_ai_agent_flow.Store.Queries.{order_by}
use python_ai_agent_flow.Scheduler.Pool.Order.{claim_order-count}
use python_ai_agent_flow.Scheduler.Turn.{
  run_once, take_turn, fill_pool, fill_slots, offer_slot, start_task, validate_claim,
}
use python_ai_agent_flow.Scheduler.Turn.Bounds.{IsBounded}
use python_ai_agent_flow.Scheduler.Turn.Steps.{
  IsNamedApart-of_IsUnique, end_slot, Step, Reach, Reach-IsBounded,
}
use python_ai_agent_flow.Scheduler.Turn.Serves.{IsTurn, run_once_serves}
use python_ai_agent_flow.Scheduler.Output.{
  WorkerOutput, set_field, accept, validate_and_bind_output, validate_handoff,
  validate_evidence_attachments,
}
use python_ai_agent_flow.Scheduler.Output.Accepted.{
  role_of, ReadsFields, validate_and_bind_output-IsBound, validate_evidence_attachments_iff,
}
use python_ai_agent_flow.Scheduler.Finalize.{Dumps, investigation_commit, commit_of}
use python_ai_agent_flow.Scheduler.Finalize.Fits.{IsStageOf, commit_of-IsStageOf}

abbrev trace : EvidenceRef
trace = record {
  id = "e1";
  kind = EvidenceKind.log;
  location = "/var/run/trace.log";
  description = "the trace";
  metadata = Fields.end;
}

abbrev slot_of : WorkerRole → String → WorkerSlot
slot_of role name = record { role = role; worker_id = name; task = none; job_id = none; job = none }

abbrev pool : List WorkerSlot
pool =
    slot_of WorkerRole.fixer "fixer-1"
    ∷ slot_of WorkerRole.tester "tester-1"
    ∷ slot_of WorkerRole.tester "tester-2"
    ∷ []

claim_order-count_example :
    count (is_named "tester-2") (claim_order 2 pool) ≡ count (is_named "tester-2") pool
claim_order-count_example = claim_order-count (is_named "tester-2") 2 pool

abbrev given_job : WorkerRole → String → Job
given_job role worker = record {
  id = "job-1";
  campaign_id = "campaign-1";
  item_id = "item-1";
  role = role;
  status = JobStatus.running;
  attempt_number = 1;
  queued_item_state = none;
  active_item_state = none;
  required_resources = [];
  payload = Fields.end;
  workspace_kind = WorkspaceKind.simulated;
  managed_worktree_id = none;
  lease_token = some "token-1";
  lease_owner = some worker;
  lease_expires_at = some 100;
  current_attempt_id = some "attempt-1";
  resume_external_provider = none;
  resume_external_session_id = none;
}

abbrev offered : WorkerRole → String → Option Job
offered WorkerRole.tester worker = some (given_job WorkerRole.tester worker)
offered _ worker = none

-- A store that has jobs for testers only.
abbrev testers_only : Storage ℕ Handoff
testers_only = record {
  recover_expired_leases = λ s. (returned record { job_ids = []; reconciliation_count = 0 }, s);
  claim_job = λ role worker seconds s. (returned (offered role worker), suc s);
  get_campaign = λ id s. (returned pilot, s);
  get_work_item = λ id s. (returned (item_at id), s);
  heartbeat_job = λ f seconds s. (returned true, s);
  poll_operator_interrupt = λ f s. (returned none, s);
  complete_operator_interrupt = λ f request reason s. (returned true, s);
  interrupt_job = λ f reason s. (returned true, s);
  fail_job = λ f error max s. (returned true, s);
  commit_stage_result = λ f h c s. (returned true, s);
}

abbrev roomy : Config
roomy = record {
  global_concurrency_limit = 2;
  lease_seconds = 60;
  max_attempts = 3;
  heartbeat_error_retries = 1;
  allow_simulated_evidence = true;
}

abbrev idle : Scheduler ℕ
idle = record {
  store = 0;
  slots = pool;
  errors = [];
  stale_job_ids = [];
  role_cursor = 0;
  last_recovery_progressed = false;
}

abbrev served : Scheduler ℕ
served = (run_once testers_only roomy idle).1

run_returns : run_once testers_only roomy idle ≡ (returned 2, served)
unfolding run_once take_turn fill_pool fill_slots offer_slot start_task validate_claim call_bind ask
    modify gets pure call_if cancel_recovered_jobs record_recovered_job_ids order_by
    reap_finished_slots reap_slot claim_order lanes max_lanes ordered_roles slots_by_role across
    in_lane active_count is_occupied
run_returns = refl

run_once_serves_example : IsTurn testers_only roomy idle (run_once testers_only roomy idle)
run_once_serves_example = run_once_serves testers_only roomy idle

-- A turn, the end of a task, and another turn.
abbrev quiet : Recovery
quiet = record { job_ids = []; reconciliation_count = 0 }

abbrev after_turn : Scheduler ℕ
after_turn = (take_turn testers_only roomy quiet idle).1

abbrev after_end : Scheduler ℕ
after_end = record after_turn {
  slots = update (is_named "tester-1") (end_slot Ending.finished) after_turn.slots;
}

abbrev after_two : Scheduler ℕ
after_two = (take_turn testers_only roomy quiet after_end).1

two_turns : Reach testers_only roomy idle after_two
two_turns =
    Reach.next
      (Reach.next (Reach.next Reach.here (Step.turn quiet idle))
        (Step.ends "tester-1" Ending.finished after_turn))
      (Step.turn quiet after_end)

pool-IsBounded : IsBounded roomy pool
unfolding active_count
pool-IsBounded = (omega arith, IsNamedApart-of_IsUnique pool (refl, (refl, (refl, tt))))

Reach-IsBounded_example : IsBounded roomy after_two.slots
Reach-IsBounded_example = Reach-IsBounded testers_only roomy two_turns pool-IsBounded

-- A reading of fields that keeps the text of the item.
abbrev item_text : Option Value → String
item_text (some (Value.text id)) = id
item_text _ = ""

abbrev report : String → InvestigationHandoff
report id = record {
  item_id = id;
  outcome = InvestigationOutcome.ready_for_fix;
  synopsis = "a null is read";
  reproduction_steps = "open the page" ∷ [];
  root_cause = "no default";
  proposed_fix = "add one";
  acceptance_criteria = "the page opens" ∷ [];
  evidence = trace ∷ [];
  blocker = none;
}

abbrev read_report : WorkerRole → Fields → Option Handoff
read_report WorkerRole.investigator payload =
    some (Handoff.investigation (report (item_text (get "item_id" payload))))
read_report _ payload = none

read_report_role :
    (role : WorkerRole) (payload : Fields) (h : Handoff)
    → read_report role payload ≡ some h
    → role_of h ≡ role
read_report_role WorkerRole.investigator payload h e = ap role_of (sym (some_injective e))
read_report_role WorkerRole.fixer payload h e = cc
read_report_role WorkerRole.tester payload h e = cc

read_report_item :
    (role : WorkerRole) (payload : Fields) (h : Handoff) (id : String)
    → read_report role payload ≡ some h
    → get "item_id" payload ≡ some (Value.text id)
    → item_of h ≡ id
read_report_item WorkerRole.investigator payload h id e k =
    ap item_of (sym (some_injective e)) ∙ ap item_text k
read_report_item WorkerRole.fixer payload h id e k = cc
read_report_item WorkerRole.tester payload h id e k = cc

read_report-ReadsFields : ReadsFields read_report
read_report-ReadsFields = record {
  role = read_report_role;
  item = λ role payload h id e k clean. read_report_item role payload h id e k;
}

-- The worker names another item.
abbrev redirected : WorkerOutput
redirected = WorkerOutput.mapping (Fields.field "item_id" (Value.text "item-9") Fields.end)

bound_run :
    validate_and_bind_output read_report WorkerRole.investigator "item-1" redirected idle
    ≡ (returned (Handoff.investigation (report "item-1")), idle)
unfolding validate_and_bind_output accept set_field validate_handoff validate_investigation get pure
bound_run = refl

item_clean : strip (codes "item-1") ≡ codes "item-1"
unfolding strip strip_left strip_right is_space keep_unless_blank
item_clean = refl

validate_and_bind_output-IsBound_example :
    (role_of (Handoff.investigation (report "item-1")) ≡ WorkerRole.investigator)
    × (item_of (Handoff.investigation (report "item-1")) ≡ "item-1")
    × (validate_handoff (Handoff.investigation (report "item-1")) ≡ ok tt)
validate_and_bind_output-IsBound_example =
    validate_and_bind_output-IsBound read_report read_report-ReadsFields WorkerRole.investigator
      "item-1" item_clean redirected idle idle (Handoff.investigation (report "item-1")) bound_run

abbrev filed : StageEnv
filed = record {
  canonical_handoff = λ db job gates. none;
  model_dump = λ handoff. Fields.end;
  is_attached = λ location. location == "/var/run/trace.log";
}

validate_evidence_attachments_iff_example :
    (validate_evidence_attachments filed.is_attached false
        (Handoff.investigation (report "item-1"))
        idle
      ≡ (returned tt, idle))
    ↔ (all (is_admissible filed false) (handoff_evidence (Handoff.investigation (report "item-1")))
        ≡ true)
validate_evidence_attachments_iff_example =
    validate_evidence_attachments_iff filed false (Handoff.investigation (report "item-1")) idle

abbrev no_dumps : Dumps
no_dumps = record { handoff = λ h. Fields.end; evaluation = λ e. Fields.end }

abbrev asked : Commit
asked =
    investigation_commit no_dumps InvestigationOutcome.ready_for_fix
      (Handoff.investigation (report "item-1"))

asked_run :
    commit_of testers_only no_dumps
      (given_job WorkerRole.investigator "investigator-1")
      (Handoff.investigation (report "item-1"))
      idle
    ≡ (returned asked, idle)
unfolding commit_of pure
asked_run = refl

commit_of-IsStageOf_example : IsStageOf WorkerRole.investigator asked
commit_of-IsStageOf_example =
    commit_of-IsStageOf testers_only no_dumps (given_job WorkerRole.investigator "investigator-1")
      (Handoff.investigation (report "item-1")) idle idle asked asked_run
