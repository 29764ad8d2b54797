-- ===== src/Scheduler/Turn/Serves.antt =====
-- scheduler.py: what a turn does for the slots of the pool (`run_once` and what it calls).
use python_ai_agent_flow.Prelude.{
  ℕ, ◌+◌, ◌≤◌, String, Option, none, Bool, true, false, ◌&&◌, List, [], ◌∷◌, ◌++◌, Memᴰ, map, any,
  count, count-append, leb→le, inl, inr, ◌⊎◌, ◌≡◌, refl, sym, ap, ◌∙◌, subst, arith, All, All-map,
  All-of_Memᴰ, beq_refl, ◌==◌, string_eq, option_eq, any-map, any-of_Memᴰ, All-any, any-count,
  count-any,
}
use python_ai_agent_flow.Models.Enums.{WorkerRole, worker_role_eq}
use python_ai_agent_flow.Scheduler.Calls.{
  Failure, Outcome, returned, raised, Recovery, Storage, Config, Task, WorkerSlot, Scheduler,
  note_stale,
}
use python_ai_agent_flow.Scheduler.Calls.Post.{
  Post, Post-pure, Post-gets, Post-if, Post-bind, Post-modify, Post-map, Post-both,
  Post-ask_exactly,
}
use python_ai_agent_flow.Scheduler.Pool.{
  active_count, is_named, is_occupied, cancel_slot, reap_slot, note_all, cancel_recovered_jobs,
  record_recovered_job_ids, reap_finished_slots, claim_order,
}
use python_ai_agent_flow.Scheduler.Pool.Order.{claim_order-count}
use python_ai_agent_flow.Scheduler.Turn.{
  add_claim, offer_slot, fill_slots, fill_pool, is_full, take_turn, run_once,
}
use python_ai_agent_flow.Scheduler.Turn.Offers.{
  Asked, Asked-append, IsServed, IsLater, IsLater-trans, and_true, IsBroken, Offered,
  offer_slot-Post,
}

-- A slot of the name and the role asked for a job and was refused.
abbrev pub IsRefused : WorkerSlot → List (WorkerSlot × Bool) → Type 0
IsRefused x asked =
    (y : WorkerSlot) × (y.worker_id ≡ x.worker_id) × (y.role ≡ x.role) × Memᴰ (y, false) asked

Memᴰ-left : {A : Type 0} {x : A} (xs ys : List A) → Memᴰ x xs → Memᴰ x (xs ++ ys)
Memᴰ-left [] ys m = elim m [ ]
Memᴰ-left (z ∷ zs) ys (Memᴰ.head e) = Memᴰ.head e
Memᴰ-left (z ∷ zs) ys (Memᴰ.tail m) = Memᴰ.tail (Memᴰ-left zs ys m)

Memᴰ-right : {A : Type 0} {x : A} (xs ys : List A) → Memᴰ x ys → Memᴰ x (xs ++ ys)
Memᴰ-right [] ys m = m
Memᴰ-right (z ∷ zs) ys m = Memᴰ.tail (Memᴰ-right zs ys m)

add_claim_sum : (b : Bool) (n k m : ℕ) → m ≡ add_claim b n + k → m ≡ n + (add_claim b 0 + k)
add_claim_sum true n k m h = omega (arith, h)
add_claim_sum false n k m h = omega (arith, h)

IsBroken-later :
    {S H : Type 0} (storage : Storage S H) (config : Config) {s t : S}
    {xs : List (WorkerSlot × Bool)} {f : Failure}
    → Asked storage config s xs t
    → IsBroken storage config t f
    → IsBroken storage config s f
IsBroken-later storage config path (ys, t, slot, after, more, why) =
    (_, t, slot, after, Asked-append storage config path more, why)

module _ {S H : Type 0} (storage : Storage S H) (config : Config) where
  abbrev Breaks : S → Failure → Scheduler S → Type 0
  Breaks store f _ = IsBroken storage config store f

  abbrev Present : List WorkerSlot → List WorkerSlot → Type 0
  Present order slots = All (λ x. any (is_named x.worker_id) slots ≡ true) order

  -- The pool is full, or every slot that was to be offered has a task or was refused one.
  abbrev Filled : List WorkerSlot → List (WorkerSlot × Bool) → Scheduler S → Type 0
  Filled order asked s =
      (config.global_concurrency_limit ≤ active_count s.slots)
      ⊎ All (λ x. IsServed x asked s.slots) order

  -- The claims of the loop, from `claims` on.
  abbrev Claims : List WorkerSlot → ℕ → S → ℕ → Scheduler S → Type 0
  Claims order claims store made s =
      (asked : List (WorkerSlot × Bool)) × Asked storage config store asked s.store
      × (made ≡ claims + count (λ o. o.1) asked)
      × Filled order asked s

  later-IsServed :
      (x : WorkerSlot) (xs ys : List (WorkerSlot × Bool)) (slots slots' : List WorkerSlot)
      → IsLater slots slots'
      → IsServed x xs slots
      → IsServed x (xs ++ ys) slots'
  later-IsServed x xs ys slots slots' later (inl o) = inl ((later x.worker_id).0 o)
  later-IsServed x xs ys slots slots' later (inr m) = inr (Memᴰ-left xs ys m)

  more-IsServed :
      (x : WorkerSlot) (xs ys : List (WorkerSlot × Bool)) (slots : List WorkerSlot)
      → IsServed x ys slots
      → IsServed x (xs ++ ys) slots
  more-IsServed x xs ys slots (inl o) = inl o
  more-IsServed x xs ys slots (inr m) = inr (Memᴰ-right xs ys m)

  Filled-cons :
      (slot : WorkerSlot) (rest : List WorkerSlot) (xs ys : List (WorkerSlot × Bool))
      (s : Scheduler S)
      → IsServed slot (xs ++ ys) s.slots
      → Filled rest ys s
      → Filled (slot ∷ rest) (xs ++ ys) s
  Filled-cons slot rest xs ys s h (inl full) = inl full
  Filled-cons slot rest xs ys s h (inr all) =
      inr (h, All-map (λ x. more-IsServed x xs ys s.slots) rest all)

  fill_slots-Post :
      (order : List WorkerSlot) (claims : ℕ) (last : Option WorkerRole) (s : Scheduler S)
      → Present order s.slots
      → Post
          (λ r s'. Claims order claims s.store r.0 s' × IsLater s.slots s'.slots)
          (Breaks s.store)
          (fill_slots storage config order claims last s)
  unfolding fill_slots
  fill_slots-Post [] claims last s there =
      Post-pure _ s (([], Asked.done s.store, omega arith, inr tt), λ _. (λ x. x, λ x. x))
  fill_slots-Post (slot ∷ rest) claims last s there =
      Post-bind (λ full z. (z ≡ s) × (full ≡ is_full storage config s)) _ _ s
        (Post-gets _ s (refl, refl))
        (λ full z h.
          Post-if full _ _ z
            (λ t. Post-pure _ z (
              subst (λ w. Claims (slot ∷ rest) claims s.store claims w × IsLater s.slots w.slots)
                (sym h.0)
                (
                  ([], Asked.done s.store, omega arith, inl (leb→le _ _ (sym h.1 ∙ t))),
                  λ _. (λ x. x, λ x. x),
                )))
            (λ f.
              Post-bind (Offered storage config slot s) _ _ z
                (subst
                  (λ w.
                    Post (Offered storage config slot s) (Breaks s.store)
                      (offer_slot storage config slot w))
                  (sym h.0) (offer_slot-Post storage config slot s there.0))
                (λ claimed s₂ (xs, asked, won, served, later).
                  Post-both _ _ _
                    (fill_slots-Post rest _ _ s₂
                      (All-map (λ x n. (later x.worker_id).1 n) rest there.1))
                    (λ r s₃ ((ys, more, sum, filled), later'). (
                      (
                        xs ++ ys,
                        Asked-append storage config asked more,
                        add_claim_sum claimed claims (count (λ o. o.1) ys) r.0 sum
                            ∙ ap (λ n. claims + n)
                                (ap (λ n. n + count (λ o. o.1) ys) (sym won)
                                  ∙ sym (count-append (λ o. o.1) xs ys)),
                        Filled-cons slot rest xs ys s₃
                            (later-IsServed slot xs ys s₂.slots s₃.slots later' served) filled,
                      ),
                      IsLater-trans s.slots s₂.slots s₃.slots later later',
                    ))
                    (λ f _ broken. IsBroken-later storage config asked broken))))

  -- A slot is in the order where one of its name and role is in the pool, and the other way round.
  in_order :
      (p : WorkerSlot → Bool) (cursor : ℕ) (slots : List WorkerSlot)
      → any p slots ≡ true
      → any p (claim_order cursor slots) ≡ true
  in_order p cursor slots h =
      count-any p _ (omega (arith, any-count p slots h, claim_order-count p cursor slots))

  order-Present : (cursor : ℕ) (slots : List WorkerSlot) → Present (claim_order cursor slots) slots
  order-Present cursor slots = All-of_Memᴰ _ _ (λ x m.
      let p = is_named x.worker_id in
      count-any p slots (
        omega (
          arith,
          any-count p _ (any-of_Memᴰ p _ m (beq_refl x.worker_id)),
          claim_order-count p cursor slots,
        )))

  abbrev is_like : WorkerSlot → WorkerSlot → Bool
  is_like x y = is_named x.worker_id y && y.role == x.role

  -- What the pool was before the turn, by names and roles.
  abbrev Descends : List WorkerSlot → List WorkerSlot → Type 0
  Descends slots slots' = All (λ x. any (is_like x) slots' ≡ true) slots

  -- What a turn does for the slots that the pool had.
  abbrev Turned : List WorkerSlot → S → ℕ → Scheduler S → Type 0
  Turned old store made s =
      (asked : List (WorkerSlot × Bool)) × Asked storage config store asked s.store
      × (made ≡ count (λ o. o.1) asked)
      × ((config.global_concurrency_limit ≤ active_count s.slots)
          ⊎ All (λ x. (is_occupied x.worker_id s.slots ≡ true) ⊎ IsRefused x asked) old)

  IsServed-like :
      (x y : WorkerSlot) (asked : List (WorkerSlot × Bool)) (slots : List WorkerSlot)
      → y.worker_id ≡ x.worker_id
      → y.role ≡ x.role
      → IsServed y asked slots
      → (is_occupied x.worker_id slots ≡ true) ⊎ IsRefused x asked
  IsServed-like x y asked slots name role (inl o) =
      inl (subst (λ w. is_occupied w slots ≡ true) name o)
  IsServed-like x y asked slots name role (inr m) = inr (y, name, role, m)

  Filled-back :
      (cursor : ℕ) (old slots : List WorkerSlot) (asked : List (WorkerSlot × Bool))
      (s : Scheduler S)
      → Descends old slots
      → Filled (claim_order cursor slots) asked s
      → (config.global_concurrency_limit ≤ active_count s.slots)
        ⊎ All (λ x. (is_occupied x.worker_id s.slots ≡ true) ⊎ IsRefused x asked) old
  Filled-back cursor old slots asked s d (inl full) = inl full
  Filled-back cursor old slots asked s d (inr all) = inr (
      All-map
        (λ x there.
          let (y, like, served) =
            All-any _ (is_like x) _ all (in_order (is_like x) cursor slots there) in
          let (name, alike) = and_true _ _ like in
          IsServed-like x y asked s.slots ((string_eq.equals_iff y.worker_id x.worker_id).0 name)
            ((worker_role_eq.equals_iff y.role x.role).0 alike) served)
        old d)

  fill_pool-Post :
      (old : List WorkerSlot) (s : Scheduler S)
      → Descends old s.slots
      → Post (Turned old s.store) (Breaks s.store) (fill_pool storage config s)
  unfolding fill_pool
  fill_pool-Post old s d =
      Post-bind (λ order z. (z ≡ s) × (order ≡ claim_order s.role_cursor s.slots)) _ _ s
        (Post-gets _ s (refl, refl))
        (λ order z h.
          Post-bind (λ r w. Turned old s.store r.0 w) _ _ z
            (let Goal = λ (w : Scheduler S) (o : List WorkerSlot).
                Post (λ r v. Turned old s.store r.0 v) (Breaks s.store)
                  (fill_slots storage config o 0 none w) in
              subst (λ w. Goal w order) (sym h.0)
                (subst (λ o. Goal s o) (sym h.1)
                  (Post-map _ _
                    (fill_slots-Post (claim_order s.role_cursor s.slots) 0 none s
                      (order-Present s.role_cursor s.slots))
                    (λ r w ((asked, path, sum, filled), later). (
                      asked,
                      path,
                      omega (arith, sum),
                      Filled-back s.role_cursor old s.slots asked w d filled,
                    )))))
            (λ r w k.
              Post-bind (λ _. Turned old s.store r.0) _ _ w (Post-modify _ w k)
                (λ _ v g. Post-pure r.0 v g)))

  -- Cancelling and reaping keep the names and the roles.
  map-Descends :
      (f : WorkerSlot → WorkerSlot) (old slots : List WorkerSlot)
      → ((y : WorkerSlot) → ((f y).worker_id ≡ y.worker_id) × ((f y).role ≡ y.role))
      → Descends old slots
      → Descends old (map f slots)
  map-Descends f old slots same d =
      All-map
        (λ x h.
          any-map (is_like x) (is_like x) f slots (λ y like. rw (same y).0 (rw (same y).1 like)) h)
        old d

  reap_slot_same :
      (s : WorkerSlot) (t : Option Task)
      → ((reap_slot s t).worker_id ≡ s.worker_id) × ((reap_slot s t).role ≡ s.role)
  unfolding reap_slot
  reap_slot_same s t = ground arith

  Descends-refl : (slots : List WorkerSlot) → Descends slots slots
  Descends-refl slots =
      All-of_Memᴰ _ _
        (λ x m. any-of_Memᴰ (is_like x) slots m (rw (beq_refl x.worker_id) (beq_refl x.role)))

  -- The store and the slots are as they were.
  abbrev Kept : Scheduler S → Scheduler S → Type 0
  Kept s z = (z.slots ≡ s.slots) × (z.store ≡ s.store)

  note_all-Post :
      {E : Failure → Scheduler S → Type 0} (ids : List String) (s z : Scheduler S)
      → Kept s z
      → Post (λ _. Kept s) E (note_all ids z)
  unfolding note_stale
  note_all-Post [] s z h = Post-pure tt z h
  note_all-Post (id ∷ ids) s z h =
      Post-bind (λ _. Kept s) (note_stale id) _ z (record { holds = h })
        (λ _ w. note_all-Post ids s w)

  take_turn-Post :
      (recovery : Recovery) (s : Scheduler S)
      → Post (Turned s.slots s.store) (Breaks s.store) (take_turn storage config recovery s)
  unfolding take_turn cancel_recovered_jobs record_recovered_job_ids reap_finished_slots
  take_turn-Post recovery s =
      let Ready = λ (z : Scheduler S). Descends s.slots z.slots × (z.store ≡ s.store) in
      Post-bind (λ _. Kept s) _ _ s (Post-modify _ s (refl, refl))
        (λ _ s₁ h₁.
          Post-bind (λ _. Ready) _ _ s₁
            (Post-bind (λ _. Kept s) _ _ s₁ (note_all-Post _ s s₁ h₁)
              (λ _ s₂ h₂. Post-modify _ s₂ (
                map-Descends (cancel_slot recovery.job_ids) s.slots s₂.slots (λ _. (refl, refl))
                    (subst (Descends s.slots) (sym h₂.0) (Descends-refl s.slots)),
                h₂.1,
              )))
            (λ _ s₂ h₂.
              Post-bind (λ _. Ready) _ _ s₂
                (Post-modify _ s₂ (
                  map-Descends (λ t. reap_slot t t.task) s.slots s₂.slots
                      (λ t. reap_slot_same t t.task) h₂.0,
                  h₂.1,
                ))
                (λ _ s₃ h₃.
                  subst
                    (λ store.
                      Post (Turned s.slots store) (Breaks store) (fill_pool storage config s₃))
                    h₃.1 (fill_pool-Post s.slots s₃ h₃.0))))

  -- A whole turn: what the recovery answered, and the claims that were asked after it.
  abbrev pub IsServing : Scheduler S → ℕ → Scheduler S → Type 0
  IsServing s claims s' =
      (recovery : Recovery) × (store : S) × (asked : List (WorkerSlot × Bool))
      × (storage.recover_expired_leases s.store ≡ (returned recovery, store))
      × Asked storage config store asked s'.store
      × (claims ≡ count (λ o. o.1) asked)
      × ((config.global_concurrency_limit ≤ active_count s'.slots)
          ⊎ All (λ x. (is_occupied x.worker_id s'.slots ≡ true) ⊎ IsRefused x asked) s.slots)

  -- A turn that raises: the recovery did, or the claims after it were broken off.
  abbrev pub IsCutShort : Scheduler S → Failure → Type 0
  IsCutShort s f =
      ((store : S) × (storage.recover_expired_leases s.store ≡ (raised f, store)))
      ⊎ ((recovery : Recovery) × (store : S) × (storage.recover_expired_leases s.store
            ≡ (returned recovery, store))
          × IsBroken storage config store f)

  -- What a turn of the scheduler comes to.
  abbrev pub IsTurn : Scheduler S → Outcome ℕ × Scheduler S → Type 0
  IsTurn s (returned claims, s') = IsServing s claims s'
  IsTurn s (raised f, s') = IsCutShort s f

  run_once-Post :
      (s : Scheduler S) → Post (IsServing s) (λ f _. IsCutShort s f) (run_once storage config s)
  unfolding run_once
  run_once-Post s =
      Post-bind
        (λ recovery z.
          (store : S) × (z ≡ record s { store = store })
          × (storage.recover_expired_leases s.store ≡ (returned recovery, store)))
        _ _ s
        (Post-ask_exactly _ s (λ recovery store e. (store, refl, e)) (λ f store e. inl (store, e)))
        (λ recovery z (store, same, e).
          subst
            (λ w. Post (IsServing s) (λ f _. IsCutShort s f) (take_turn storage config recovery w))
            (sym same)
            (Post-both _ _ _ (take_turn-Post recovery (record s { store = store }))
              (λ claims s' (asked, path, sum, filled).
                (recovery, store, asked, e, path, sum, filled))
              (λ f _ broken. inr (recovery, store, e, broken))))

  Post-IsTurn :
      (s : Scheduler S) (r : Outcome ℕ × Scheduler S)
      → Post (IsServing s) (λ f _. IsCutShort s f) r
      → IsTurn s r
  Post-IsTurn s (returned claims, s') p = p.holds
  Post-IsTurn s (raised f, s') p = p.holds

-- A turn recovers, and then asks the store for one job after the other, each time of the store
-- that the call before left. If it returns, each answer was no job or a job that its slot may
-- run, the turn has counted the jobs, and the pool is full, or each slot that the pool had has a
-- task or was refused one in this turn. It raises only if the recovery did, or a claim did, or a
-- claim was answered with a job that its slot may not run.
pub run_once_serves :
    {S H : Type 0} (storage : Storage S H) (config : Config) (s : Scheduler S)
    → IsTurn storage config s (run_once storage config s)
run_once_serves storage config s = Post-IsTurn storage config s _ (run_once-Post storage config s)
