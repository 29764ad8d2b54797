-- ===== src/Scheduler/Turn/Steps.antt =====
-- scheduler.py: the life of a pool as a step relation: turns, ends of tasks and changes of the store
-- in any order.
use python_ai_agent_flow.Prelude.{
  String, Option, some, false, List, [], ◌∷◌, update, map, mem, count, IsUnique, Bool-cases, inl,
  inr, subst, ◌==◌, ◌≡◌, refl, arith, is_some, count-update_same, string_eq,
}
use python_ai_agent_flow.Scheduler.Calls.{
  Failure, Outcome, returned, raised, Recovery, Storage, Config, Ending, Task, WorkerSlot,
  Scheduler,
}
use python_ai_agent_flow.Scheduler.Calls.Post.{Post}
use python_ai_agent_flow.Scheduler.Pool.{active_count, is_busy, is_named}
use python_ai_agent_flow.Scheduler.Turn.{take_turn}
use python_ai_agent_flow.Scheduler.Turn.Bounds.{IsNamedApart, IsBounded, IsSound, take_turn-Keeps}

-- The end of a task that runs.
abbrev pub end_task : Ending → Option Task → Option Task
end_task e (some (Task.active _)) = some (Task.done e)
end_task e t = t

abbrev pub end_slot : Ending → WorkerSlot → WorkerSlot
end_slot e s = record s { task = end_task e s.task }

-- What can happen next: a turn, on any recovery that the store reports, whether it returns or
-- raises; a change of the store and of the lists, by the tasks or by others; the end of a task.
pub data Step {S H : Type 0} (storage : Storage S H) (config : Config)
    : Scheduler S → Scheduler S → Type 0 where
  turn :
      (recovery : Recovery) (s : Scheduler S)
      → Step storage config s (take_turn storage config recovery s).1
  work :
      (store : S) (errors : List Failure) (stale : List String) (s : Scheduler S)
      → Step storage config s (record s { store = store; errors = errors; stale_job_ids = stale })
  ends :
      (name : String) (e : Ending) (s : Scheduler S)
      → Step storage config s (record s { slots = update (is_named name) (end_slot e) s.slots })

pub data Reach {S H : Type 0} (storage : Storage S H) (config : Config) (s : Scheduler S)
    : Scheduler S → Type 0 where
  here : Reach storage config s s
  next :
      {t u : Scheduler S}
      → Reach storage config s t
      → Step storage config t u
      → Reach storage config s u

module _ {S H : Type 0} (storage : Storage S H) (config : Config) where
  end_task_busy : (e : Ending) (t : Option Task) → is_some (end_task e t) ≡ is_some t
  end_task_busy e t = ground arith

  Keeps-after :
      {A : Type 0} (r : Outcome A × Scheduler S)
      → Post (λ _. IsSound config) (λ _. IsSound config) r
      → IsSound config r.1
  Keeps-after (returned a, s) p = p.holds
  Keeps-after (raised f, s) p = p.holds

  Step-IsSound : {s t : Scheduler S} → Step storage config s t → IsSound config s → IsSound config t
  unfolding active_count
  Step-IsSound (turn recovery s) h = Keeps-after _ (take_turn-Keeps storage config recovery s h)
  Step-IsSound (work store errors stale s) h = h
  Step-IsSound (ends name e s) h = (
    omega (
      arith,
      count-update_same is_busy (is_named name) (end_slot e) s.slots (λ t. end_task_busy e t.task),
      h.0,
    ),
    λ other. omega (
      arith,
      count-update_same (is_named other) (is_named name) (end_slot e) s.slots (λ _. refl),
      h.1 other,
    ),
  )

-- From a pool within its limit, with a name of its own for each slot, no sequence of turns, ends of
-- tasks and changes of the store leads to one with more tasks than the limit, or with two slots of
-- one name. This covers turns that raise in the midst of their claims.
pub Reach-IsBounded :
    {S H : Type 0} (storage : Storage S H) (config : Config) {s t : Scheduler S}
    → Reach storage config s t
    → IsBounded config s.slots
    → IsBounded config t.slots
Reach-IsBounded storage config here h = h
Reach-IsBounded storage config (next r st) h =
    Step-IsSound storage config st (Reach-IsBounded storage config r h)

-- Names that do not repeat name the slots apart.
count_absent :
    (name : String) (slots : List WorkerSlot)
    → mem name (map (λ s. s.worker_id) slots) ≡ false
    → count (is_named name) slots ≡ 0
count_absent name [] h = refl
count_absent name (s ∷ ss) h = ground (arith, count_absent name ss)

pub IsNamedApart-of_IsUnique :
    (slots : List WorkerSlot) → IsUnique (map (λ s. s.worker_id) slots) → IsNamedApart slots
IsNamedApart-of_IsUnique [] h name = omega arith
IsNamedApart-of_IsUnique (s ∷ ss) h name = elim (Bool-cases (s.worker_id == name)) [
  | inl y ↦
      let same = (string_eq.equals_iff s.worker_id name).0 y in
      let none =
        count_absent name ss (subst (λ w. mem w (map (λ s. s.worker_id) ss) ≡ false) same h.0) in
      ground (arith, y, none)
  | inr n ↦ ground (arith, n, IsNamedApart-of_IsUnique ss h.1 name)
]
