-- ===== src/Scheduler/Turn/Bounds.antt =====
-- scheduler.py: a turn keeps the pool within its limit, whatever the store answers.
use python_ai_agent_flow.Prelude.{
  ℕ, suc, ◌≤◌, String, Option, none, some, true, false, List, [], ◌∷◌, map, count, update, ◌≡◌,
  refl, arith, count-update, count-update_same, count-map_le, sym, ap, ◌∙◌, ◌==◌, string_eq,
}
use python_ai_agent_flow.Models.Enums.{WorkerRole}
use python_ai_agent_flow.Models.Records.{Job}
use python_ai_agent_flow.Scheduler.Calls.{
  Failure, Recovery, Storage, Config, Task, WorkerSlot, Scheduler, Call, note_stale,
}
use python_ai_agent_flow.Scheduler.Calls.Post.{
  Post, Post-pure, Post-raise, Post-gets, Post-if, Post-bind, Post-ask, Post-modify,
}
use python_ai_agent_flow.Scheduler.Pool.{
  active_count, is_busy, is_named, cancel_slot, reap_slot, cancel_recovered_jobs,
  record_recovered_job_ids, reap_finished_slots, note_all,
}
use python_ai_agent_flow.Scheduler.Turn.{
  occupy, validate_claim, start_task, offer_slot, fill_slots, fill_pool, take_turn, is_full,
}

-- No two slots share a worker id.
abbrev pub IsNamedApart : List WorkerSlot → Type 0
IsNamedApart slots = (name : String) → count (is_named name) slots ≤ 1

abbrev pub IsBounded : Config → List WorkerSlot → Type 0
IsBounded config slots = (active_count slots ≤ config.global_concurrency_limit) × IsNamedApart slots

-- A change of every slot that starts no task and renames none.
map-IsBounded :
    (config : Config) (f : WorkerSlot → WorkerSlot) (slots : List WorkerSlot)
    → ((s : WorkerSlot) → is_busy (f s) ≡ true → is_busy s ≡ true)
    → ((s : WorkerSlot) → (f s).worker_id ≡ s.worker_id)
    → IsBounded config slots
    → IsBounded config (map f slots)
unfolding active_count
map-IsBounded config f slots busy named h = (
  omega (arith, count-map_le is_busy f slots busy, h.0),
  λ name. omega (
    arith,
    count-map_le (is_named name) f slots (λ s e. ap (λ w. w == name) (sym (named s)) ∙ e),
    h.1 name,
  ),
)

cancel_slot_busy :
    (ids : List String) (s : WorkerSlot) → is_busy (cancel_slot ids s) ≡ true → is_busy s ≡ true
cancel_slot_busy ids s h = ground arith

reap_slot_busy : (s : WorkerSlot) → is_busy (reap_slot s s.task) ≡ true → is_busy s ≡ true
unfolding reap_slot
reap_slot_busy s h = ground arith

reap_slot_named : (s : WorkerSlot) (t : Option Task) → (reap_slot s t).worker_id ≡ s.worker_id
unfolding reap_slot
reap_slot_named s t = ground arith

-- Starting a task on a name that at most one slot has.
update-IsBounded :
    (config : Config) (name : String) (job : Job) (slots : List WorkerSlot)
    → suc (active_count slots) ≤ config.global_concurrency_limit
    → IsNamedApart slots
    → IsBounded config (update (is_named name) (occupy job) slots)
unfolding active_count
update-IsBounded config name job slots room apart = (
  omega (arith, count-update is_busy (is_named name) (occupy job) slots, apart name),
  λ other. omega (
    arith,
    count-update_same (is_named other) (is_named name) (occupy job) slots (λ _. refl),
    apart other,
  ),
)

module _ {S : Type 0} (config : Config) where
  abbrev pub IsSound : Scheduler S → Type 0
  IsSound s = IsBounded config s.slots

  -- An action that keeps the bound, also where it raises.
  abbrev pub Keeps {ℓ} : {A : Type ℓ} → Call S A → Scheduler S → Type 0
  Keeps m s = Post (λ _. IsSound) (λ _. IsSound) (m s)

  note_all-Keeps : (ids : List String) (s : Scheduler S) → IsSound s → Keeps (note_all ids) s
  unfolding note_stale
  note_all-Keeps [] s h = Post-pure tt s h
  note_all-Keeps (id ∷ ids) s h =
      Post-bind (λ _. IsSound) (note_stale id) _ s (record { holds = h }) (λ _. note_all-Keeps ids)

  cancel_recovered_jobs-Keeps :
      (ids : List String) (s : Scheduler S) → IsSound s → Keeps (cancel_recovered_jobs ids) s
  unfolding cancel_recovered_jobs record_recovered_job_ids
  cancel_recovered_jobs-Keeps ids s h =
      Post-bind (λ _. IsSound) (record_recovered_job_ids ids) _ s (note_all-Keeps _ s h)
        (λ _ s' h'.
          Post-modify _ s'
            (map-IsBounded config (cancel_slot ids) s'.slots (cancel_slot_busy ids) (λ _. refl) h'))

  reap_finished_slots-Keeps : (s : Scheduler S) → IsSound s → Keeps reap_finished_slots s
  unfolding reap_finished_slots
  reap_finished_slots-Keeps s h = Post-modify _ s (
      map-IsBounded config (λ t. reap_slot t t.task) s.slots reap_slot_busy
        (λ t. reap_slot_named t t.task) h)

  abbrev HasRoom : Scheduler S → Type 0
  HasRoom s = (suc (active_count s.slots) ≤ config.global_concurrency_limit) × IsNamedApart s.slots

  HasRoom-IsSound : (s : Scheduler S) → HasRoom s → IsSound s
  HasRoom-IsSound s h = (omega (arith, h.0), h.1)

  validate_claim-Keeps :
      (job : Job) (slot : WorkerSlot) (s : Scheduler S)
      → HasRoom s
      → Post (λ _. HasRoom) (λ _. IsSound) (validate_claim job slot s)
  unfolding validate_claim
  validate_claim-Keeps job slot s h =
      let refused = Post-raise Failure.runtime_error s (HasRoom-IsSound s h) in
      Post-if _ _ _ s (λ _. refused) (λ _. Post-if _ _ _ s (λ _. refused) (λ _. Post-pure tt s h))

  start_task-Keeps :
      (slot : WorkerSlot) (found : Option Job) (s : Scheduler S)
      → HasRoom s
      → Keeps (start_task slot found) s
  unfolding start_task
  start_task-Keeps slot none s h = Post-pure false s (HasRoom-IsSound s h)
  start_task-Keeps slot (some job) s h =
      Post-bind (λ _. HasRoom) (validate_claim job slot) _ s (validate_claim-Keeps job slot s h)
        (λ _ s₁ h₁.
          Post-bind (λ _. IsSound) _ _ s₁
            (Post-modify _ s₁ (update-IsBounded config slot.worker_id job s₁.slots h₁.0 h₁.1))
            (λ _ s₂. Post-pure true s₂))

module _ {S H : Type 0} (storage : Storage S H) (config : Config) where
  offer_slot-Keeps :
      (slot : WorkerSlot) (s : Scheduler S)
      → HasRoom config s
      → Keeps config (offer_slot storage config slot) s
  unfolding offer_slot
  offer_slot-Keeps slot s h =
      Post-bind (λ _. HasRoom config) _ _ s (Post-gets _ s h)
        (λ occupied s₁ h₁.
          Post-if occupied _ _ s₁ (λ _. Post-pure false s₁ (HasRoom-IsSound config s₁ h₁))
            (λ _.
              Post-bind (λ _. HasRoom config) _ _ s₁
                (Post-ask _ s₁ (λ _ _ _. h₁) (λ _ _. HasRoom-IsSound config s₁ h₁))
                (start_task-Keeps config slot)))

  room_of_not_full :
      (s : Scheduler S) → IsSound config s → is_full storage config s ≡ false → HasRoom config s
  room_of_not_full s h f = (ground (arith, f), h.1)

  fill_slots-Keeps :
      (order : List WorkerSlot) (claims : ℕ) (last : Option WorkerRole) (s : Scheduler S)
      → IsSound config s
      → Keeps config (fill_slots storage config order claims last) s
  unfolding fill_slots
  fill_slots-Keeps [] claims last s h = Post-pure _ s h
  fill_slots-Keeps (slot ∷ rest) claims last s h =
      Post-bind (λ full s₁. IsSound config s₁ × (full ≡ is_full storage config s₁)) _ _ s
        (Post-gets _ s (h, refl))
        (λ full s₁ h₁.
          Post-if full _ _ s₁ (λ _. Post-pure _ s₁ h₁.0)
            (λ f.
              Post-bind (λ _. IsSound config) _ _ s₁
                (offer_slot-Keeps slot s₁ (room_of_not_full s₁ h₁.0 (sym h₁.1 ∙ f)))
                (λ claimed s₂. fill_slots-Keeps rest _ _ s₂)))

  fill_pool-Keeps : (s : Scheduler S) → IsSound config s → Keeps config (fill_pool storage config) s
  unfolding fill_pool
  fill_pool-Keeps s h =
      Post-bind (λ _. IsSound config) _ _ s (Post-gets _ s h)
        (λ order s₁ h₁.
          Post-bind (λ _. IsSound config) _ _ s₁ (fill_slots-Keeps order 0 none s₁ h₁)
            (λ filled s₂ h₂.
              Post-bind (λ _. IsSound config) _ _ s₂ (Post-modify _ s₂ h₂)
                (λ _ s₃. Post-pure filled.0 s₃)))

  pub take_turn-Keeps :
      (recovery : Recovery) (s : Scheduler S)
      → IsSound config s
      → Keeps config (take_turn storage config recovery) s
  unfolding take_turn
  take_turn-Keeps recovery s h =
      Post-bind (λ _. IsSound config) _ _ s (Post-modify _ s h)
        (λ _ s₁ h₁.
          Post-bind (λ _. IsSound config) _ _ s₁
            (cancel_recovered_jobs-Keeps config recovery.job_ids s₁ h₁)
            (λ _ s₂ h₂.
              Post-bind (λ _. IsSound config) _ _ s₂ (reap_finished_slots-Keeps config s₂ h₂)
                (λ _. fill_pool-Keeps)))
