-- ===== src/Store/Controls/Requested.antt =====
-- storage.py: what a new request to interrupt writes.
use python_ai_agent_flow.Prelude.{
  ℕ, String, Option, none, some, Bool, true, false, ◌&&◌, List, [], ◌∷◌, ◌++◌, find, All, select,
  any, ◌==◌, nat_eq, string_eq, option_eq, beq_refl, ◌≡◌, refl, sym, ◌∙◌, subst, arith,
  some_injective, lease_conflict,
}
use python_ai_agent_flow.Models.Enums.{attempt_status_eq}
use python_ai_agent_flow.Store.Statuses.{
  ProcessState, process_state_eq, control_action_eq, control_status_eq,
}
use python_ai_agent_flow.Store.Rows.{Db, Job, Attempt, ExternalProcess, Control, Event}
use python_ai_agent_flow.Store.Env.{Env}
use python_ai_agent_flow.Store.Fences.{is_unstopped, latest, job_by_id, is_pending_interrupt}
use python_ai_agent_flow.Store.Lifecycle.{is_running_attempt}
use python_ai_agent_flow.Store.Interrupt.{same_texts}
use python_ai_agent_flow.Store.Controls.{
  clashes, insert_control, operator_text, once_pending, interrupt_row, insert_interrupt,
  request_job_interrupt,
}
use python_ai_agent_flow.Store.Tx.Post.{Post, Post-read, Post-need, Post-guard, Post-map}
use python_ai_agent_flow.Store.Tx.{pure, if_absent, append_event, proceed, ◌>>=◌}

pub find-last :
    {A : Type 0} (p : A → Bool) (xs : List A) (x : A)
    → All (λ y. p y ≡ false) xs
    → p x ≡ true
    → find p (xs ++ x ∷ []) ≡ some x
find-last p [] x h t = rw t refl
find-last p (y ∷ ys) x h t = rw h.0 (find-last p ys x h.1 t)

pub any-false-All :
    {A : Type 0} (p : A → Bool) (xs : List A) → any p xs ≡ false → All (λ x. p x ≡ false) xs
any-false-All p [] h = tt
any-false-All p (x ∷ xs) h = (ground (arith, h), any-false-All p xs (ground (arith, h)))

pub same_texts_refl : (xs : List String) → same_texts xs xs ≡ true
same_texts_refl [] = refl
same_texts_refl (x ∷ xs) = rw (beq_refl x) (same_texts_refl xs)

-- The latest record of the ids of a process.
abbrev pub latest_of : ExternalProcess → Attempt → Db → Option ExternalProcess
latest_of p attempt db = latest (
    select
      (λ q.
        q.attempt_id == attempt.id
        && (some q.process_id == some p.process_id
            && some q.process_group_id == some p.process_group_id))
      db.external_processes)

abbrev pub unstopped_process : Attempt → Db → Option ExternalProcess
unstopped_process attempt db =
    latest (select (is_unstopped (some attempt.id)) db.external_processes)

-- The process of an attempt is known by its ids: its latest unstopped process, if it has one, is
-- active, and is the latest record of these ids.
abbrev pub IsTraced : Attempt → Db → Type 0
IsTraced attempt db =
    (p : ExternalProcess)
    → unstopped_process attempt db ≡ some p
    → (latest_of p attempt db ≡ some p) × (p.state ≡ ProcessState.active)

abbrev pub running_attempt : Job → Db → Option Attempt
running_attempt job db = find (is_running_attempt job) db.attempts

-- The database with one more request, and with other events.
abbrev pub with_request : Db → Control → List Event → Db
with_request db c es = record db { operator_controls = db.operator_controls ++ c ∷ []; events = es }

-- The request is new, and is all that was written besides the events.
abbrev IsInserted : Db → Control → Db → Type 0
IsInserted db c db' =
    (any (clashes c) db.operator_controls ≡ false)
    × ((es : List Event) × (db' ≡ with_request db c es))

IsInserted-Post :
    (c : Control) (e : Event) (db : Db) (b : Bool)
    → any (clashes c) db.operator_controls ≡ b
    → Post
        (λ c' db'. (c' ≡ c) × IsInserted db c db')
        (proceed (λ _. append_event e >>= λ _. pure c) (if_absent b (with_request db c db.events)))
unfolding append_event pure ◌>>=◌
IsInserted-Post c e db true h = record { holds = tt }
IsInserted-Post c e db false h = record { holds = (refl, (h, (_, refl))) }

insert-Post :
    (c : Control) (e : Event) (db : Db)
    → Post
        (λ c' db'. (c' ≡ c) × IsInserted db c db')
        ((insert_control c >>= λ _. append_event e >>= λ _. pure c) db)
unfolding insert_control ◌>>=◌
insert-Post c e db = IsInserted-Post c e db _ refl

module _ (env : Env) (token : String) (job : Job) (db : Db) where
  -- What a new request is, and what it leaves.
  abbrev pub Requested : String → String → String → ℕ → Control → Db → Type 0
  Requested request_id requested_by reason now c db' =
      (row : Attempt) × (running_attempt job db ≡ some row)
      × (c
          ≡ interrupt_row env request_id token requested_by reason now job row
              (unstopped_process row db))
      × IsInserted db c db'

  insert_interrupt-Post :
      (request_id requested_by reason : String) (now : ℕ)
      → Post
          (Requested request_id requested_by reason now)
          (insert_interrupt env request_id token requested_by reason now job db)
  unfolding insert_interrupt
  insert_interrupt-Post request_id requested_by reason now = Post-read _ _ db (
      Post-need _ lease_conflict _ db (λ row found. Post-read _ _ db (
        Post-map _ _ (insert-Post _ _ db)
          (λ c db' h. (row, found, h.0, subst (λ z. IsInserted db z db') (sym h.0) h.1)))))

-- A request that is made while none is pending for the job.
pub request-Post :
    (env : Env) (is_plain : String → Bool) (job_id token requested_by reason request_id : String)
    (now : ℕ) (db : Db) (job : Job)
    → job_by_id job_id db ≡ some job
    → find (is_pending_interrupt job_id) db.operator_controls ≡ none
    → Post
        (Requested env token job db request_id requested_by reason now)
        (request_job_interrupt env is_plain job_id token requested_by reason request_id now db)
unfolding request_job_interrupt operator_text once_pending
request-Post env is_plain job_id token requested_by reason request_id now db job same fresh =
    Post-guard _ _ _ db (λ _. Post-guard _ _ _ db (λ _. Post-guard _ _ _ db (λ _. Post-read _ _ db (
      Post-need _ _ _ db (λ found e. Post-guard _ _ _ db (λ _. Post-read _ _ db (
        let Q = Requested env token job db request_id requested_by reason now in
        subst (λ o. Post Q (once_pending env request_id token requested_by reason now found o db))
          (sym fresh)
          (subst (λ j. Post Q (insert_interrupt env request_id token requested_by reason now j db))
            (some_injective (sym same ∙ e))
            (insert_interrupt-Post env token job db request_id requested_by reason now)))))))))
