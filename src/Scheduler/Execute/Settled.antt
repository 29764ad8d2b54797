-- ===== src/Scheduler/Execute/Settled.antt =====
-- scheduler.py: how a claim ends. What the scheduler relies on is `Settles`: a call that the store
-- accepts takes the claim away from the worker.
use python_ai_agent_flow.Prelude.{
  ℕ, String, Option, none, some, Bool, true, false, List, ◌++◌, [], ◌∷◌, mem, string_eq, ◌==◌,
  beq_refl, Bool-cases, ◌≡◌, refl, sym, subst, ap, ◌∙◌, to_set, ◌⊎◌, inl, inr, Memᴰ,
}
use python_ai_agent_flow.Models.Records.{Job}
use python_ai_agent_flow.Store.Stage.{Handoff}
use python_ai_agent_flow.Scheduler.Calls.{
  Failure, Outcome, returned, Fence, Commit, Storage, Config, Scheduler, Call, ask, append_stale,
  append_error, note_stale, append_new, ◌>>=◌,
}
use python_ai_agent_flow.Scheduler.Calls.Post.{
  Post, Post-pure, Post-raise, Post-bind, Post-ask, Post-try_except, Post-returned, Post-last,
  Post-weaken,
}
use python_ai_agent_flow.Store.Queries.{order_by, text_before}
use python_ai_agent_flow.Scheduler.Pool.{record_recovered_job_ids, note_all}
use python_ai_agent_flow.Scheduler.Finalize.{Dumps, commit_of, unless_accepted, finalize_handoff}
use python_ai_agent_flow.Scheduler.Execute.{
  Surroundings, Race, complete_interrupt, recover_unless, after_heartbeat_failure,
  after_refused_failure, after_failure, fail, submit, conclude, execute_fenced, execute_claim,
  fence_of, under_token,
}

-- What a store must promise: where it accepts a call that ends a claim, the claim is over.
pub record Settles {S : Type 0} (storage : Storage S Handoff) (IsOver : Fence → S → Type 0)
    : Type 0 where
  pub committed :
      (fence : Fence) (h : Handoff) (c : Commit) (s s' : S)
      → storage.commit_stage_result fence h c s ≡ (returned true, s')
      → IsOver fence s'
  pub failed :
      (fence : Fence) (error : String) (max_attempts : ℕ) (s s' : S)
      → storage.fail_job fence error max_attempts s ≡ (returned true, s')
      → IsOver fence s'
  pub interrupted :
      (fence : Fence) (reason : String) (s s' : S)
      → storage.interrupt_job fence reason s ≡ (returned true, s')
      → IsOver fence s'
  pub completed :
      (fence : Fence) (request reason : String) (s s' : S)
      → storage.complete_operator_interrupt fence request reason s ≡ (returned true, s')
      → IsOver fence s'

-- The claim is over in the store, or its job is listed as stale, or a failure of the heartbeats is
-- listed as an error.
abbrev pub IsSettled : {S : Type 0} → (Fence → S → Type 0) → Fence → Scheduler S → Type 0
IsSettled IsOver fence s =
    IsOver fence s.store
    ⊎ (mem fence.job_id s.stale_job_ids ≡ true)
    ⊎ Memᴰ Failure.heartbeat_storage_failure s.errors

Memᴰ-last {ℓ} : {A : Type ℓ} (xs : List A) (x : A) → Memᴰ x (xs ++ x ∷ [])
Memᴰ-last [] x = Memᴰ.head refl
Memᴰ-last (y ∷ ys) x = Memᴰ.tail (Memᴰ-last ys x)

mem-last : (id : String) (ids : List String) → mem id (ids ++ id ∷ []) ≡ true
mem-last id [] = rw (beq_refl id) refl
mem-last id (x ∷ ids) = elim (Bool-cases (x == id)) [
  | inl y ↦ rw y refl
  | inr n ↦ rw n (mem-last id ids)
]

mem-note :
    (id : String) (ids : List String) {b : Bool}
    → mem id ids ≡ b
    → mem id (append_new b id ids) ≡ true
mem-note id ids {b = true} h = h
mem-note id ids {b = false} h = mem-last id ids

Memᴰ-append {ℓ} : {A : Type ℓ} {x : A} (xs ys : List A) → Memᴰ x xs → Memᴰ x (xs ++ ys)
Memᴰ-append [] ys m = elim m [ ]
Memᴰ-append (z ∷ zs) ys (Memᴰ.head e) = Memᴰ.head e
Memᴰ-append (z ∷ zs) ys (Memᴰ.tail m) = Memᴰ.tail (Memᴰ-append zs ys m)

abbrev IsListed : {S : Type 0} → Scheduler S → Type 0
IsListed s = Memᴰ Failure.heartbeat_storage_failure s.errors

-- `Any` is no demand, on the runs that raise.
abbrev Any : {S : Type 0} → Failure → Scheduler S → Type 0
Any _ _ = Unit

module _ {S : Type 0} (IsOver : Fence → S → Type 0) (fence : Fence) where
  abbrev Settled : Unit {0} → Scheduler S → Type 0
  Settled _ s = IsSettled IsOver fence s

  append_stale-Post : (s : Scheduler S) → Post Settled Any (append_stale fence.job_id s)
  unfolding append_stale
  append_stale-Post s = record { holds = inr (inl (mem-last fence.job_id s.stale_job_ids)) }

  note_stale-Post : (s : Scheduler S) → Post Settled Any (note_stale fence.job_id s)
  unfolding note_stale
  note_stale-Post s = record { holds = inr (inl (mem-note fence.job_id s.stale_job_ids refl)) }

  -- A call that is accepted ends the claim; what follows a refusal settles it.
  accepted-Post :
      (op : S → Outcome Bool × S) (k : Bool → Call S (Unit {0})) (s : Scheduler S)
      → ((store : S) → op s.store ≡ (returned true, store) → IsOver fence store)
      → ((s' : Scheduler S) → IsOver fence s'.store → Post Settled Any (k true s'))
      → ((s' : Scheduler S) → Post Settled Any (k false s'))
      → Post Settled Any ((ask op >>= k) s)
  accepted-Post op k s law taken refused =
      Post-bind (λ b s'. b ≡ true → IsOver fence s'.store) (ask op) k s
        (Post-ask op s
          (λ b store h t. law store (subst (λ b. op s.store ≡ (returned b, store)) t h))
          (λ _ _. tt))
        (λ b s' h. elim (Bool-cases b) [
          | inl t ↦ subst (λ b. Post Settled Any (k b s')) (sym t) (taken s' (h t))
          | inr f ↦ subst (λ b. Post Settled Any (k b s')) (sym f) (refused s')
        ])

module _ {S : Type 0} (storage : Storage S Handoff) (IsOver : Fence → S → Type 0)
    (settles : Settles storage IsOver) (config : Config) (fence : Fence) where
  complete_interrupt-Post :
      (request reason : String) (s : Scheduler S)
      → Post (Settled IsOver fence) Any (complete_interrupt storage config fence request reason s)
  unfolding complete_interrupt
  complete_interrupt-Post request reason s =
      accepted-Post IsOver fence (storage.complete_operator_interrupt fence request reason) _ s
        (settles.completed fence request reason s.store) (λ s' over. Post-pure tt s' (inl over))
        (append_stale-Post IsOver fence)

  after_refused_failure-Post :
      (pending : Option Failure) (s : Scheduler S)
      → Post (Settled IsOver fence) Any (after_refused_failure storage config fence pending s)
  unfolding after_refused_failure
  after_refused_failure-Post (some (Failure.operator_interruption request reason)) s =
      complete_interrupt-Post request reason s
  after_refused_failure-Post none s = append_stale-Post IsOver fence s
  after_refused_failure-Post (some Failure.invalid_worker_output) s =
      append_stale-Post IsOver fence s
  after_refused_failure-Post (some Failure.lease_lost) s = append_stale-Post IsOver fence s
  after_refused_failure-Post (some Failure.heartbeat_storage_failure) s =
      append_stale-Post IsOver fence s
  after_refused_failure-Post (some Failure.runtime_error) s = append_stale-Post IsOver fence s
  after_refused_failure-Post (some Failure.cancelled) s = append_stale-Post IsOver fence s
  after_refused_failure-Post (some (Failure.failed e)) s = append_stale-Post IsOver fence s

  fail-Post :
      (error : String) (s : Scheduler S)
      → Post (Settled IsOver fence) Any (fail storage config fence error s)
  unfolding fail after_failure
  fail-Post error s =
      accepted-Post IsOver fence (storage.fail_job fence error config.max_attempts) _ s
        (settles.failed fence error config.max_attempts s.store)
        (λ s' over. Post-pure tt s' (inl over)) (λ s'. Post-last _ _ s' after_refused_failure-Post)

  -- The failure stays listed, whatever the interruption and the recovery do.
  note_stale-Listed :
      (id : String) (s : Scheduler S)
      → IsListed s
      → Post (λ _. IsListed) (λ _. IsListed) (note_stale id s)
  unfolding note_stale
  note_stale-Listed id s h = record { holds = h }

  note_all-Listed :
      (ids : List String) (s : Scheduler S)
      → IsListed s
      → Post (λ _. IsListed) (λ _. IsListed) (note_all ids s)
  note_all-Listed [] s h = Post-pure tt s h
  note_all-Listed (id ∷ ids) s h =
      Post-bind (λ _. IsListed) (note_stale id) _ s (note_stale-Listed id s h)
        (λ _ s'. note_all-Listed ids s')

  recover_unless-Listed :
      (accepted : Bool) (s : Scheduler S)
      → IsListed s
      → Post (λ _. IsListed) (λ _. IsListed) (recover_unless storage config fence accepted s)
  unfolding recover_unless record_recovered_job_ids
  recover_unless-Listed true s h = Post-pure tt s h
  recover_unless-Listed false s h =
      Post-bind (λ _. IsListed) (ask storage.recover_expired_leases) _ s
        (Post-ask storage.recover_expired_leases s (λ _ _ _. h) (λ _ _. h))
        (λ r s₁ h₁.
          Post-bind (λ _. IsListed) _ _ s₁
            (note_all-Listed (order_by text_before (to_set r.job_ids)) s₁ h₁)
            (λ _ s₂ h₂. note_stale-Listed fence.job_id s₂ h₂))

  append_error-Listed :
      (f : Failure) (s : Scheduler S)
      → IsListed s
      → Post (λ _. IsListed) (λ _. IsListed) (append_error f s)
  unfolding append_error
  append_error-Listed f s h = record { holds = Memᴰ-append s.errors (f ∷ []) h }

  after_heartbeat_failure-Listed :
      (s : Scheduler S)
      → Post
          (λ _. IsListed)
          (λ _. IsListed)
          (after_heartbeat_failure storage config fence Failure.heartbeat_storage_failure s)
  unfolding after_heartbeat_failure append_error
  after_heartbeat_failure-Listed s =
      Post-bind (λ _. IsListed) (append_error Failure.heartbeat_storage_failure) _ s
        (record { holds = Memᴰ-last s.errors Failure.heartbeat_storage_failure })
        (λ _ s₁ h₁.
          Post-try_except (λ _. IsListed) _ append_error s₁
            (Post-bind (λ _. IsListed) _ _ s₁ (Post-ask _ s₁ (λ _ _ _. h₁) (λ _ _. h₁))
              recover_unless-Listed)
            append_error-Listed)

  finalize_handoff-Post :
      (dumps : Dumps) (job : Job) (h : Handoff) (s : Scheduler S)
      → Post (Settled IsOver fence) Any (finalize_handoff storage dumps fence job h s)
  unfolding finalize_handoff unless_accepted
  finalize_handoff-Post dumps job h s = Post-last (commit_of storage dumps job h) _ s (λ c s'.
      accepted-Post IsOver fence (storage.commit_stage_result fence h c) _ s'
        (settles.committed fence h c s'.store) (λ s'' over. Post-pure tt s'' (inl over))
        (λ s''. Post-last _ _ s'' (λ _ s₁. Post-last _ _ s₁ (λ _ s₂. Post-raise _ s₂ tt))))

  submit-Post :
      (around : Surroundings) (job : Job) (race : Race S) (s : Scheduler S)
      → Post (Settled IsOver fence) Any (submit storage config fence around job race s)
  unfolding submit
  submit-Post around job race s = Post-last _ _ s (λ _ s₁. Post-last _ _ s₁ (λ _ s₂.
      Post-last _ _ s₂ (λ _ s₃. Post-last _ _ s₃ (λ _ s₄.
        Post-last _ _ s₄
          (λ h s₅. Post-last _ _ s₅ (λ _ s₆. finalize_handoff-Post around.dumps job h s₆))))))

  conclude-Post :
      (around : Surroundings) (f : Failure) (s : Scheduler S)
      → Post (Settled IsOver fence) Any (conclude storage config fence around f s)
  unfolding conclude
  conclude-Post around (Failure.operator_interruption request reason) s =
      complete_interrupt-Post request reason s
  conclude-Post around Failure.lease_lost s = append_stale-Post IsOver fence s
  conclude-Post around Failure.heartbeat_storage_failure s =
      Post-weaken _ (after_heartbeat_failure-Listed s) (λ _ _ h. inr (inr h))
  conclude-Post around Failure.cancelled s = Post-raise Failure.cancelled s tt
  conclude-Post around Failure.invalid_worker_output s = fail-Post _ s
  conclude-Post around Failure.runtime_error s = fail-Post _ s
  conclude-Post around (Failure.failed e) s = fail-Post _ s

  execute_fenced-Post :
      (around : Surroundings) (job : Job) (race : Race S) (s : Scheduler S)
      → Post (Settled IsOver fence) Any (execute_fenced storage config fence around job race s)
  unfolding execute_fenced
  execute_fenced-Post around job race s =
      Post-try_except Any _ _ s (submit-Post around job race s)
        (λ f s' _. conclude-Post around f s')

-- An execution that returns settles its claim, whatever the worker did: the store took the claim
-- away (by a commit, a failure or an interruption that it accepted), or the job is listed as stale,
-- or a failure of the heartbeats is listed as an error.
pub execute_claim-IsSettled :
    {S : Type 0} (storage : Storage S Handoff) (IsOver : Fence → S → Type 0)
    → Settles storage IsOver
    → (config : Config) (around : Surroundings) (worker token : String) (job : Job) (race : Race S)
      (s s' : Scheduler S)
    → job.lease_token ≡ some token
    → execute_claim storage config around worker job race s ≡ (returned tt, s')
    → IsSettled IsOver (fence_of worker job token) s'
unfolding execute_claim
execute_claim-IsSettled storage IsOver settles config around worker token job race s s' held h =
    Post-returned
      (execute_fenced-Post storage IsOver settles config (fence_of worker job token) around job race
        s)
      (ap (λ o. under_token storage config around worker job race o s) (sym held) ∙ h)
