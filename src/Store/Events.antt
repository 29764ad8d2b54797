-- ===== src/Store/Events.antt =====
-- storage.py: the events of resource leases and of executions that end with their attempt.
use python_ai_agent_flow.Prelude.{
  ℕ, String, Option, none, some, Bool, ◌&&◌, List, [], ◌∷◌, is_none, ltb, ◌==◌, string_eq,
  option_eq,
}
use Prim.Native.String.{◌++◌ as str_append}
use python_ai_agent_flow.Store.Statuses.{ExecutionStatus, execution_status_eq}
use python_ai_agent_flow.Store.Rows.{
  Job, ResourceLease, Definition, DefinitionRow, Execution, Event, Datum,
}
use python_ai_agent_flow.Store.Env.{Env}
use python_ai_agent_flow.Store.Fences.{definition_by_id}
use python_ai_agent_flow.Store.Tx.{
  Tx, pure, select_from, update_focused, update_browser, update_database, append_event, for_each,
  if◌then◌else◌, ◌>>=◌, ◌>>◌,
}

-- An event about a job.
abbrev pub job_event : String → Job → Option String → List (String × Datum) → ℕ → Event
job_event kind job actor details now = record {
  event_kind = kind;
  campaign_id = some job.campaign_id;
  work_item_id = some job.work_item_id;
  job_id = some job.id;
  actor = actor;
  event_data = details;
  created_at = now;
}

abbrev pub optional : Option String → Datum
optional none = Datum.absent
optional (some s) = Datum.text s

abbrev definition_data : Option Definition → List (String × Datum)
definition_data none = ("definition_status", Datum.text "invalid") ∷ []
definition_data (some d) =
    ("kind", Datum.text d.kind)
    ∷ ("label", Datum.text d.label)
    ∷ ("policy", Datum.number d.limit)
    ∷ []

module _ (env : Env) where
  abbrev checked : Option DefinitionRow → Option Definition
  checked none = none
  checked (some row) = env.validated row

  -- One round of _append_resource_lease_events.
  unfoldable pub append_resource_lease_event :
      String → String → String → String → Option String → ℕ → ResourceLease → Tx (Unit {0})
  append_resource_lease_event kind campaign_id item_id job_id actor now lease =
      if is_none lease.resource_definition_id then pure tt else do
        row ← select_from (definition_by_id lease.resource_definition_id)
        append_event (record {
          event_kind = kind;
          campaign_id = some campaign_id;
          work_item_id = some item_id;
          job_id = some job_id;
          actor = actor;
          event_data =
              ("resource_id", optional lease.resource_definition_id)
              ∷ ("lease_slot", Datum.number lease.lease_slot)
              ∷ definition_data (checked row);
          created_at = now;
        })

  -- _append_resource_lease_events
  unfoldable pub append_resource_lease_events :
      String → List ResourceLease → String → String → String → Option String → ℕ → Tx (Unit {0})
  append_resource_lease_events kind leases campaign_id item_id job_id actor now =
      for_each (append_resource_lease_event kind campaign_id item_id job_id actor now) leases

-- `attempt_id = ? AND status = 'prepared'`
abbrev pub is_prepared : Option String → Execution → Bool
is_prepared attempt_id x = some x.attempt_id == attempt_id && x.status == ExecutionStatus.prepared

abbrev ended : ExecutionStatus → String → ℕ → Execution → Execution
ended status reason now x = record x {
  status = status;
  error = some reason;
  finished_at = some now;
  updated_at = now;
}

abbrev status_text : ExecutionStatus → String
status_text ExecutionStatus.prepared = "prepared"
status_text ExecutionStatus.finished = "finished"
status_text ExecutionStatus.abandoned = "abandoned"
status_text ExecutionStatus.quarantined = "quarantined"

-- The event of an ended execution, if a row changed.
unfoldable pub report_end :
    String → ℕ → Job → ExecutionStatus → String → Option String → ℕ → Tx (Unit {0})
report_end prefix changed job status reason actor now =
    if ltb 0 changed
    then append_event (
        job_event (str_append prefix (str_append ".execution_" (status_text status))) job actor
          (("attempt_id", optional job.current_attempt_id) ∷ ("reason", Datum.text reason) ∷ [])
          now)
    else pure tt

-- _end_prepared_focused_execution
unfoldable pub end_prepared_focused_execution :
    Job → ExecutionStatus → String → ℕ → Option String → Tx (Unit {0})
end_prepared_focused_execution job status reason now actor = do
  changed ← update_focused (is_prepared job.current_attempt_id) (ended status reason now)
  report_end "focused_test" changed job status reason actor now

-- _end_prepared_evidence_executions
unfoldable pub end_prepared_evidence_executions :
    Job → ExecutionStatus → String → ℕ → Option String → Tx (Unit {0})
end_prepared_evidence_executions job status reason now actor = do
  browser ← update_browser (is_prepared job.current_attempt_id) (ended status reason now)
  report_end "browser_evidence" browser job status reason actor now
  database ← update_database (is_prepared job.current_attempt_id) (ended status reason now)
  report_end "database_evidence" database job status reason actor now
