-- ===== src/Scheduler/Turn/Offers.antt =====
-- scheduler.py: what comes of a slot that is offered to the store in `run_once`.
use python_ai_agent_flow.Prelude.{
  String, Option, none, some, Bool, true, false, ◌&&◌, List, [], ◌∷◌, ◌++◌, Memᴰ, count, is_some,
  update, any, ◌≡◌, ◌⊎◌, inl, inr, refl, sym, ◌∙◌, subst, arith, string_eq, any-update_keeps,
  any-update_some, not, ◌||◌, ◌==◌, one_outcome, beq_refl, option_eq,
}
use python_ai_agent_flow.Models.Enums.{WorkerRole, worker_role_eq}
use python_ai_agent_flow.Models.Records.{Job}
use python_ai_agent_flow.Scheduler.Calls.{
  Failure, returned, raised, Storage, Config, WorkerSlot, Scheduler, ask, ◌>>=◌,
}
use python_ai_agent_flow.Scheduler.Calls.Post.{
  Post, Post-pure, Post-raise, Post-gets, Post-if, Post-bind, Post-modify, Post-both,
  Post-ask_exactly,
}
use python_ai_agent_flow.Scheduler.Pool.{is_busy, is_named, is_occupied}
use python_ai_agent_flow.Scheduler.Turn.{
  lacks_token, occupy, validate_claim, start_task, add_claim, offer_slot,
}

-- A job that the slot may run.
abbrev pub IsFit : WorkerSlot → Job → Type 0
IsFit slot job =
    (job.role ≡ slot.role)
    × (lacks_token job.lease_token ≡ false)
    × (job.lease_owner ≡ some slot.worker_id)

-- An answer that the slot may take: no job, or one that it may run.
abbrev pub IsTaken : WorkerSlot → Option Job → Type 0
IsTaken slot none = Unit
IsTaken slot (some job) = IsFit slot job

-- The claims that are asked of the store, one after the other, each for a slot: whether it was
-- answered with a job, which the slot may run, and the store that each leaves for the next.
pub data Asked {S H : Type 0} (storage : Storage S H) (config : Config)
    : S → List (WorkerSlot × Bool) → S → Type 0 where
  done : (s : S) → Asked storage config s [] s
  asks :
      (slot : WorkerSlot) (answer : Option Job) {s t u : S} {rest : List (WorkerSlot × Bool)}
      → storage.claim_job slot.role slot.worker_id config.lease_seconds s ≡ (returned answer, t)
      → IsTaken slot answer
      → Asked storage config t rest u
      → Asked storage config s ((slot, is_some answer) ∷ rest) u

pub Asked-append :
    {S H : Type 0} (storage : Storage S H) (config : Config) {s t u : S}
    {xs ys : List (WorkerSlot × Bool)}
    → Asked storage config s xs t
    → Asked storage config t ys u
    → Asked storage config s (xs ++ ys) u
Asked-append storage config (Asked.done s) k = k
Asked-append storage config (Asked.asks slot answer e taken h) k =
    Asked.asks slot answer e taken (Asked-append storage config h k)

-- Slots are named as before, and those that have a task still do.
abbrev pub IsLater : List WorkerSlot → List WorkerSlot → Type 0
IsLater slots slots' =
    (name : String)
    → (is_occupied name slots ≡ true → is_occupied name slots' ≡ true)
      × (any (is_named name) slots ≡ true → any (is_named name) slots' ≡ true)

pub IsLater-trans : (a b c : List WorkerSlot) → IsLater a b → IsLater b c → IsLater a c
IsLater-trans a b c h k name = (λ o. (k name).0 ((h name).0 o), λ n. (k name).1 ((h name).1 n))

pub and_true : (a b : Bool) → (a && b) ≡ true → (a ≡ true) × (b ≡ true)
and_true a b h = ground arith

busy_named :
    (name : String) (job : Job) (s : WorkerSlot)
    → (is_named name s && is_busy s) ≡ true
    → (is_named name (occupy job s) && is_busy (occupy job s)) ≡ true
busy_named name job s h = ground arith

module _ (name : String) (job : Job) (slots : List WorkerSlot) where
  abbrev started : List WorkerSlot
  started = update (is_named name) (occupy job) slots

  started-IsLater : IsLater slots started
  unfolding is_occupied
  started-IsLater other = (
    any-update_keeps _ (is_named name) (occupy job) slots (busy_named other job),
    any-update_keeps _ (is_named name) (occupy job) slots (λ _ h. h),
  )

  started_occupied : any (is_named name) slots ≡ true → is_occupied name started ≡ true
  unfolding is_occupied
  started_occupied h = any-update_some (is_named name) _ (occupy job) slots (λ s n. rw n refl) h

-- The store broke off the claims: after some of them, it raised on the next, or answered it with a
-- job that the slot may not run.
abbrev pub IsBroken :
    {S H : Type 0} (storage : Storage S H) (config : Config) → S → Failure → Type 0
IsBroken {S} storage config store f =
    (asked : List (WorkerSlot × Bool)) × (t : S) × (slot : WorkerSlot) × (after : S) × Asked storage
      config store asked t
    × ((storage.claim_job slot.role slot.worker_id config.lease_seconds t ≡ (raised f, after))
        ⊎ ((job : Job) × (storage.claim_job slot.role slot.worker_id config.lease_seconds t
              ≡ (returned (some job), after))
            × (f ≡ Failure.runtime_error)
            × ¬ IsFit slot job))

roles_fit : (a b : WorkerRole) → a ≡ b → not (a == b) ≡ false
roles_fit a b e = rw ((worker_role_eq.equals_iff a b).1 e) refl

fence_fit :
    (job : Job) (slot : WorkerSlot)
    → IsFit slot job
    → (lacks_token job.lease_token || not (job.lease_owner == some slot.worker_id)) ≡ false
fence_fit job slot fit = rw fit.1 (rw fit.2 (rw (beq_refl slot.worker_id) refl))

IsFit-of_tests :
    (job : Job) (slot : WorkerSlot)
    → not (job.role == slot.role) ≡ false
    → (lacks_token job.lease_token || not (job.lease_owner == some slot.worker_id)) ≡ false
    → IsFit slot job
IsFit-of_tests job slot n k = (
  (worker_role_eq.equals_iff job.role slot.role).0 (ground arith),
  ground arith,
  (option_eq.equals_iff job.lease_owner (some slot.worker_id)).0 (ground arith),
)

-- The slot has a task, or it asked for a job and was refused.
abbrev pub IsServed : WorkerSlot → List (WorkerSlot × Bool) → List WorkerSlot → Type 0
IsServed slot asked slots = (is_occupied slot.worker_id slots ≡ true) ⊎ Memᴰ (slot, false) asked

module _ {S H : Type 0} (storage : Storage S H) (config : Config) where
  validate_claim-Post :
      (job : Job) (slot : WorkerSlot) (s : Scheduler S)
      → Post
          (λ _ s'. (s' ≡ s) × IsFit slot job)
          (λ f _. (f ≡ Failure.runtime_error) × ¬ IsFit slot job)
          (validate_claim job slot s)
  unfolding validate_claim
  validate_claim-Post job slot s =
      Post-if _ _ _ s
        (λ t. Post-raise _ s (refl, λ fit. one_outcome t (roles_fit job.role slot.role fit.0)))
        (λ n.
          Post-if _ _ _ s
            (λ t. Post-raise _ s (refl, λ fit. one_outcome t (fence_fit job slot fit)))
            (λ k. Post-pure tt s (refl, IsFit-of_tests job slot n k)))

  -- What becomes of a slot that is offered.
  abbrev pub Offered : WorkerSlot → Scheduler S → Bool → Scheduler S → Type 0
  Offered slot s claimed s' =
      (asked : List (WorkerSlot × Bool)) × Asked storage config s.store asked s'.store
      × (count (λ o. o.1) asked ≡ add_claim claimed 0)
      × IsServed slot asked s'.slots
      × IsLater s.slots s'.slots

  start_task-Post :
      (slot : WorkerSlot) (found : Option Job) (s : Scheduler S) (store : S)
      → any (is_named slot.worker_id) s.slots ≡ true
      → storage.claim_job slot.role slot.worker_id config.lease_seconds s.store
        ≡ (returned found, store)
      → Post
          (Offered slot s)
          (λ f _. IsBroken storage config s.store f)
          (start_task slot found (record s { store = store }))
  unfolding start_task
  start_task-Post slot none s store there e = Post-pure false _ (
    (slot, false) ∷ [],
    Asked.asks slot none e tt (Asked.done store),
    refl,
    inr (Memᴰ.head refl),
    λ _. (λ h. h, λ h. h),
  )
  start_task-Post slot (some job) s store there e =
      Post-bind (λ _ z. (z ≡ record s { store = store }) × IsFit slot job) _ _ _
        (Post-both (λ _ z. (z ≡ record s { store = store }) × IsFit slot job) _ _
          (validate_claim-Post job slot _) (λ _ z same. same)
          (λ f _ (error, unfit).
            ([], s.store, slot, store, Asked.done s.store, inr (job, e, error, unfit))))
        (λ _ z (same, fit).
          Post-bind (λ _. Offered slot s true) _ _ z
            (Post-modify _ z (
              subst
                (λ w.
                  Offered slot s true
                    (record w { slots = update (is_named slot.worker_id) (occupy job) w.slots }))
                (sym same)
                (
                  (slot, true) ∷ [],
                  Asked.asks slot (some job) e fit (Asked.done store),
                  refl,
                  inl (started_occupied slot.worker_id job s.slots there),
                  started-IsLater slot.worker_id job s.slots,
                )))
            (λ _ w h. Post-pure true w h))

  pub offer_slot-Post :
      (slot : WorkerSlot) (s : Scheduler S)
      → any (is_named slot.worker_id) s.slots ≡ true
      → Post
          (Offered slot s)
          (λ f _. IsBroken storage config s.store f)
          (offer_slot storage config slot s)
  unfolding offer_slot
  offer_slot-Post slot s there =
      Post-bind (λ o z. (z ≡ s) × (o ≡ is_occupied slot.worker_id s.slots)) _ _ s
        (Post-gets _ s (refl, refl))
        (λ o z h.
          Post-if o _ _ z
            (λ t. Post-pure false z (
              subst (Offered slot s false) (sym h.0)
                ([], Asked.done s.store, refl, inl (sym h.1 ∙ t), λ _. (λ k. k, λ k. k))))
            (λ _.
              subst
                (λ w.
                  Post (Offered slot s) (λ f _. IsBroken storage config s.store f)
                    ((ask (storage.claim_job slot.role slot.worker_id config.lease_seconds)
                        >>= start_task slot)
                      w))
                (sym h.0)
                (Post-bind
                  (λ found w.
                    (store : S) × (w ≡ record s { store = store })
                    × (storage.claim_job slot.role slot.worker_id config.lease_seconds s.store
                        ≡ (returned found, store)))
                  _ _ s
                  (Post-ask_exactly _ s (λ found store e. (store, refl, e))
                    (λ f store e. ([], s.store, slot, store, Asked.done s.store, inl e)))
                  (λ found w (store, same, e).
                    subst
                      (λ v.
                        Post (Offered slot s) (λ f _. IsBroken storage config s.store f)
                          (start_task slot found v))
                      (sym same) (start_task-Post slot found s store there e)))))
