-- ===== src/Scheduler/Turn.antt =====
-- scheduler.py: `run_once`, which fills the free slots, and `shutdown`.
pub mod Bounds
pub mod Steps
pub mod Offers
pub mod Serves
use python_ai_agent_flow.Prelude.{
  ℕ, suc, ◌+◌, ◌%◌, String, Option, none, some, Bool, true, false, not, ◌||◌, List, [], ◌∷◌, ◌++◌,
  map, is_nonempty, update, select, leb, eqb, ◌==◌, string_eq, option_eq,
}
use python_ai_agent_flow.Models.Enums.{WorkerRole, worker_role_eq, worker_role_index}
use python_ai_agent_flow.Models.Records.{Job}
use python_ai_agent_flow.Scheduler.Calls.{
  Failure, Recovery, Fence, Storage, Config, Task, WorkerSlot, Scheduler, Call, pure, raise, gets,
  modify, ask, try_except, append_error, note_stale, if◌then◌else◌, ◌>>=◌, ◌>>◌,
}
use python_ai_agent_flow.Scheduler.Pool.{
  active_count, is_busy, is_named, is_occupied, claim_order, record_recovered_job_ids,
  cancel_recovered_jobs, reap_finished_slots, cancel_task,
}

-- `not job.lease_token`, which holds of an empty token too.
abbrev pub lacks_token : Option String → Bool
lacks_token none = true
lacks_token (some t) = t == ""

-- _validate_claim
unfoldable pub validate_claim : {S : Type 0} → Job → WorkerSlot → Call S (Unit {0})
validate_claim job slot =
    if not (job.role == slot.role)
    then raise Failure.runtime_error
    else if lacks_token job.lease_token || not (job.lease_owner == some slot.worker_id)
    then raise Failure.runtime_error
    else pure tt

-- The slot of a claimed job.
abbrev pub occupy : Job → WorkerSlot → WorkerSlot
occupy job s = record s { task = some (Task.active false); job_id = some job.id; job = some job }

abbrev pub add_claim : Bool → ℕ → ℕ
add_claim true n = suc n
add_claim false n = n

abbrev last_of : Bool → WorkerRole → Option WorkerRole → Option WorkerRole
last_of true role last = some role
last_of false role last = last

-- The role after the last that claimed goes first next time.
abbrev pub advance : Option WorkerRole → ℕ → ℕ
advance none cursor = cursor
advance (some role) cursor = (worker_role_index role + 1) % 3

-- The claim starts a task; a job that does not fit raises and leaves the slot free.
unfoldable pub start_task : {S : Type 0} → WorkerSlot → Option Job → Call S Bool
start_task slot none = pure false
start_task slot (some job) = do
  validate_claim job slot
  modify (λ s. record s { slots = update (is_named slot.worker_id) (occupy job) s.slots })
  pure true

abbrev stop_slot : WorkerSlot → WorkerSlot
stop_slot t = record t { task = cancel_task t.task }

module _ {S H : Type 0} (storage : Storage S H) (config : Config) where
  -- The body of the loop after its break: a slot that is free asks for a job.
  unfoldable pub offer_slot : WorkerSlot → Call S Bool
  offer_slot slot = do
    occupied ← gets (λ s. is_occupied slot.worker_id s.slots)
    if occupied then pure false else do
      found ← ask (storage.claim_job slot.role slot.worker_id config.lease_seconds)
      start_task slot found

  abbrev pub is_full : Scheduler S → Bool
  is_full s = leb config.global_concurrency_limit (active_count s.slots)

  -- The loop over the slots: the claims made, and the role of the last.
  unfoldable pub fill_slots :
      List WorkerSlot → ℕ → Option WorkerRole → Call S (ℕ × Option WorkerRole)
  fill_slots [] claims last = pure (claims, last)
  fill_slots (slot ∷ rest) claims last = do
    full ← gets is_full
    if full then pure (claims, last) else do
      claimed ← offer_slot slot
      fill_slots rest (add_claim claimed claims) (last_of claimed slot.role last)

  -- The claims of a turn.
  unfoldable pub fill_pool : Call S ℕ
  fill_pool = do
    order ← gets (λ s. claim_order s.role_cursor s.slots)
    filled ← fill_slots order 0 none
    modify (λ s. record s { role_cursor = advance filled.1 s.role_cursor })
    pure filled.0

  abbrev progressed : Recovery → Bool
  progressed r = is_nonempty r.job_ids || not (eqb r.reconciliation_count 0)

  -- run_once, after the recovery: no other task runs before it is done.
  unfoldable pub take_turn : Recovery → Call S ℕ
  take_turn recovery = do
    modify (λ s. record s { last_recovery_progressed = progressed recovery })
    cancel_recovered_jobs recovery.job_ids
    reap_finished_slots
    fill_pool

  -- run_once
  unfoldable pub run_once : Call S ℕ
  run_once = do recovery ← ask storage.recover_expired_leases; take_turn recovery

  -- Ids that are appended unless they are there.
  abbrev note_rejected : List String → Call S (Unit {0})
  note_rejected [] = pure tt
  note_rejected (id ∷ ids) = do note_stale id; note_rejected ids

  abbrev if_rejected : String → Bool → List String
  if_rejected id true = []
  if_rejected id false = id ∷ []

  -- A claim is given back; what raises counts as rejected.
  unfoldable pub give_back : WorkerSlot → Option Job → Call S (List String)
  give_back slot none = pure []
  give_back slot (some job) = give_back_under job job.lease_token
    where
      give_back_under : Job → Option String → Call S (List String)
      give_back_under job none = pure []
      give_back_under job (some token) =
          try_except
            (do
              accepted ← ask (
                  storage.interrupt_job
                    record { job_id = job.id; worker_id = slot.worker_id; lease_token = token }
                    "scheduler shutdown interrupted active work")
              pure (if_rejected job.id accepted))
            (λ e. do append_error e; pure (job.id ∷ []))

  unfoldable pub give_back_all : List WorkerSlot → Call S (List String)
  give_back_all [] = pure []
  give_back_all (slot ∷ rest) = do
    rejected ← give_back slot slot.job
    others ← give_back_all rest
    pure (rejected ++ others)

  -- shutdown. `gather` is what the cancelled tasks do until they are done.
  unfoldable pub shutdown : Call S (Unit {0}) → Call S (Unit {0})
  shutdown gather = do
    held ← gets (λ s. select is_busy s.slots)
    modify (λ s. record s { slots = map stop_slot s.slots })
    gather
    rejected ← give_back_all held
    try_except
        (do
          recovery ← ask storage.recover_expired_leases
          record_recovered_job_ids recovery.job_ids)
        append_error
    note_rejected rejected
    reap_finished_slots
