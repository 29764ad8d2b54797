-- ===== src/Scheduler/Output.antt =====
-- scheduler.py: what a worker's output must be before it is submitted: a handoff of the role,
-- bound to the claimed item, with evidence that exists.
pub mod Accepted
use python_ai_agent_flow.Prelude.{
  String, Option, none, some, Bool, List, [], ◌∷◌, ◌++◌, ◌==◌, string_eq, Result, ok, err,
  if◌then◌else◌ as choose,
}
use python_ai_agent_flow.Models.Enums.{WorkerRole}
use python_ai_agent_flow.Models.Evidence.{Fields, Value, EvidenceRef, Blocker, get, is_true}
use python_ai_agent_flow.Models.Handoffs.{
  GateProof, validate_investigation, validate_fix, model_validate,
}
use python_ai_agent_flow.Store.Stage.{Handoff}
use python_ai_agent_flow.Scheduler.Calls.{Failure, Call, pure, raise, if◌then◌else◌, ◌>>◌}

-- WorkerOutput: a model or mapping, by its fields, or something else.
pub data WorkerOutput : Type 0 where
  mapping : Fields → WorkerOutput
  unusable : WorkerOutput

-- `payload[key] = value`: a key keeps its place, a new one comes last.
unfoldable pub set_field : String → Value → Fields → Fields
set_field key value Fields.end = Fields.field key value Fields.end
set_field key value (Fields.field k v rest) =
    choose (k == key) (Fields.field k value rest) (Fields.field k v (set_field key value rest))

-- `handoff_model.model_validate`, after pydantic has read the fields.
unfoldable pub validate_handoff : Handoff → Result (Unit {0})
validate_handoff (Handoff.investigation h) = validate_investigation h
validate_handoff (Handoff.fix h) = validate_fix h
validate_handoff (Handoff.test h) = model_validate h

module _ {S : Type 0} where
  -- `except ValidationError`: pydantic turns what a validator raises into one.
  abbrev unless_invalid : Handoff → Result (Unit {0}) → Call S Handoff
  unless_invalid h (ok tt) = pure h
  unless_invalid h (err e) = raise Failure.invalid_worker_output

  unfoldable pub accept : Option Handoff → Call S Handoff
  accept none = raise Failure.invalid_worker_output
  accept (some h) = unless_invalid h (validate_handoff h)

  -- _validate_and_bind_output. `read` is pydantic's reading of the fields of a role's model.
  unfoldable pub validate_and_bind_output :
      (WorkerRole → Fields → Option Handoff) → WorkerRole → String → WorkerOutput → Call S Handoff
  validate_and_bind_output read role item_id WorkerOutput.unusable =
      raise Failure.invalid_worker_output
  validate_and_bind_output read role item_id (WorkerOutput.mapping payload) =
      accept (read role (set_field "item_id" (Value.text item_id) payload))

abbrev pub walk_blocker : Option Blocker → List EvidenceRef
walk_blocker none = []
walk_blocker (some b) = b.evidence

abbrev pub walk_proofs : List GateProof → List EvidenceRef
walk_proofs [] = []
walk_proofs (p ∷ ps) = p.evidence ++ walk_proofs ps

-- _walk_evidence, in the order of the fields.
unfoldable pub walk_evidence : Handoff → List EvidenceRef
walk_evidence (Handoff.investigation h) = h.evidence ++ walk_blocker h.blocker
walk_evidence (Handoff.fix h) = h.evidence ++ walk_blocker h.blocker
walk_evidence (Handoff.test h) = walk_proofs h.gate_proofs ++ walk_blocker h.blocker

module _ {S : Type 0} (is_attached : String → Bool) (allow_simulated : Bool) where
  unfoldable pub check_evidence : EvidenceRef → Call S (Unit {0})
  check_evidence e =
      if is_true (get "simulated" e.metadata)
      then (if allow_simulated then pure tt else raise Failure.invalid_worker_output)
      else (if is_attached e.location then pure tt else raise Failure.invalid_worker_output)

  abbrev pub check_all : List EvidenceRef → Call S (Unit {0})
  check_all [] = pure tt
  check_all (e ∷ es) = do check_evidence e; check_all es

  -- _validate_evidence_attachments. `is_attached` says that the path is absolute and is a file.
  unfoldable pub validate_evidence_attachments : Handoff → Call S (Unit {0})
  validate_evidence_attachments h = check_all (walk_evidence h)
