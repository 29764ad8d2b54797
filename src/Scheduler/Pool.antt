-- ===== src/Scheduler/Pool.antt =====
-- scheduler.py: the slots of the worker pools: which are free, the order in which they are offered
-- to the store, and what becomes of them when tasks end or their jobs are recovered.
pub mod Order
use python_ai_agent_flow.Prelude.{
  ℕ, zero, suc, ◌+◌, String, Option, none, some, Bool, true, false, ◌&&◌, List, [], ◌∷◌, ◌++◌, map,
  select, any, count, length, is_some, ltb, mem, to_set, ◌==◌, string_eq, if◌then◌else◌ as choose,
}
use python_ai_agent_flow.Models.Enums.{WorkerRole, worker_role_eq}
use python_ai_agent_flow.Models.Records.{worker_roles}
use python_ai_agent_flow.Store.Queries.{order_by, text_before}
use python_ai_agent_flow.Scheduler.Calls.{
  Failure, Task, Ending, WorkerSlot, Scheduler, Call, pure, modify, note_stale, ◌>>=◌, ◌>>◌,
}

-- `not slot.is_free`
abbrev pub is_busy : WorkerSlot → Bool
is_busy s = is_some s.task

-- active_count
unfoldable pub active_count : List WorkerSlot → ℕ
active_count slots = count is_busy slots

abbrev pub is_named : String → WorkerSlot → Bool
is_named name s = s.worker_id == name

-- Whether the slot of a name has a task now.
unfoldable pub is_occupied : String → List WorkerSlot → Bool
is_occupied name slots = any (λ s. is_named name s && is_busy s) slots

-- `roles[cursor:]` and `roles[:cursor]`
abbrev pub drop : ℕ → List WorkerRole → List WorkerRole
drop n [] = []
drop zero (r ∷ rs) = r ∷ rs
drop (suc n) (r ∷ rs) = drop n rs

abbrev pub take : ℕ → List WorkerRole → List WorkerRole
take n [] = []
take zero (r ∷ rs) = []
take (suc n) (r ∷ rs) = r ∷ take n rs

-- `ordered_roles`
unfoldable pub ordered_roles : ℕ → List WorkerRole
ordered_roles cursor = drop cursor worker_roles ++ take cursor worker_roles

-- `slots_by_role[role]`
unfoldable pub slots_by_role : List WorkerSlot → WorkerRole → List WorkerSlot
slots_by_role slots role = select (λ s. s.role == role) slots

abbrev pub max : ℕ → ℕ → ℕ
max m n = choose (ltb m n) n m

-- `max_lanes`
unfoldable pub max_lanes : List WorkerSlot → List WorkerRole → ℕ
max_lanes slots [] = 0
max_lanes slots (r ∷ rs) = max (length (slots_by_role slots r)) (max_lanes slots rs)

-- `range(lo, lo + n)`
abbrev pub range_from : ℕ → ℕ → List ℕ
range_from lo zero = []
range_from lo (suc n) = lo ∷ range_from (suc lo) n

-- `[slots[lane]] if lane < len(slots) else []`
unfoldable pub in_lane : ℕ → List WorkerSlot → List WorkerSlot
in_lane lane [] = []
in_lane zero (s ∷ ss) = s ∷ []
in_lane (suc lane) (s ∷ ss) = in_lane lane ss

-- The inner loop of the comprehension.
unfoldable pub across : List WorkerSlot → ℕ → List WorkerRole → List WorkerSlot
across slots lane [] = []
across slots lane (r ∷ rs) = in_lane lane (slots_by_role slots r) ++ across slots lane rs

unfoldable pub lanes : List WorkerSlot → List WorkerRole → List ℕ → List WorkerSlot
lanes slots roles [] = []
lanes slots roles (lane ∷ rest) = across slots lane roles ++ lanes slots roles rest

-- _claim_order
unfoldable pub claim_order : ℕ → List WorkerSlot → List WorkerSlot
claim_order cursor slots =
    let roles = ordered_roles cursor in lanes slots roles (range_from 0 (max_lanes slots roles))

-- `task.cancel()`, which a task that is done ignores.
abbrev pub cancel : Task → Task
cancel (Task.active _) = Task.active true
cancel (Task.done e) = Task.done e

abbrev pub cancel_task : Option Task → Option Task
cancel_task none = none
cancel_task (some t) = some (cancel t)

abbrev pub is_recovered : List String → Option String → Bool
is_recovered ids none = false
is_recovered ids (some id) = mem id ids

-- A slot whose job was recovered.
abbrev pub cancel_slot : List String → WorkerSlot → WorkerSlot
cancel_slot ids s = record s {
  task = choose (is_recovered ids s.job_id) (cancel_task s.task) s.task;
}

-- `slot.task = slot.job_id = slot.job = None`
abbrev pub free_slot : WorkerSlot → WorkerSlot
free_slot s = record s { task = none; job_id = none; job = none }

unfoldable pub reap_slot : WorkerSlot → Option Task → WorkerSlot
reap_slot s (some (Task.done e)) = free_slot s
reap_slot s _ = s

-- What `task.result()` raises, but for a cancellation.
unfoldable pub error_of : Option Task → List Failure
error_of (some (Task.done (Ending.broken f))) = f ∷ []
error_of _ = []

abbrev pub errors_of : List WorkerSlot → List Failure
errors_of [] = []
errors_of (s ∷ ss) = error_of s.task ++ errors_of ss

module _ {S : Type 0} where
  abbrev pub note_all : List String → Call S (Unit {0})
  note_all [] = pure tt
  note_all (id ∷ ids) = do note_stale id; note_all ids

  -- _record_recovered_job_ids
  unfoldable pub record_recovered_job_ids : List String → Call S (Unit {0})
  record_recovered_job_ids ids = note_all (order_by text_before (to_set ids))

  -- _cancel_recovered_jobs
  unfoldable pub cancel_recovered_jobs : List String → Call S (Unit {0})
  cancel_recovered_jobs ids = do
    record_recovered_job_ids ids
    modify (λ s. record s { slots = map (cancel_slot ids) s.slots })

  -- _reap_finished_slots
  unfoldable pub reap_finished_slots : Call S (Unit {0})
  reap_finished_slots = modify (λ s. record s {
    slots = map (λ t. reap_slot t t.task) s.slots;
    errors = s.errors ++ errors_of s.slots;
  })
