-- ===== src/Scheduler/Calls.antt =====
-- scheduler.py: the exceptions that it tells apart, the protocol `Storage` that it asks of a store,
-- and the work of a scheduler: it changes the store and the scheduler's own lists, and returns or
-- raises. An exception keeps what was done before it.
pub mod Post
use python_ai_agent_flow.Prelude.{
  ℕ, String, Option, none, some, Bool, true, false, List, [], ◌∷◌, ◌++◌, mem, string_eq, Error,
  Result, ok, err,
}
use python_ai_agent_flow.Models.Enums.{WorkerRole, ItemState}
use python_ai_agent_flow.Models.Evidence.{Fields}
use python_ai_agent_flow.Models.Records.{Job}
use python_ai_agent_flow.Store.Rows.{Campaign, WorkItem}

-- `runtime_error` is the scheduler's own check that failed; `failed` stands for the exceptions that no
-- except clause of the scheduler names.
pub data Failure : Type 0 where
  invalid_worker_output lease_lost heartbeat_storage_failure runtime_error cancelled : Failure
  operator_interruption : String → String → Failure
  failed : Error → Failure

pub data Outcome {ℓ} (A : Type ℓ) : Type ℓ where
  returned : A → Outcome A
  raised : Failure → Outcome A

-- A method of the store.
abbrev pub Op : Type 0 → Type 0 → Type 0
Op S A = S → Outcome A × S

-- A recovery: the jobs that were recovered, and the processes that were examined.
pub record Recovery : Type 0 where
  pub job_ids : List String
  pub reconciliation_count : ℕ

-- The fence of a claim, which the methods of the store ask for.
pub record Fence : Type 0 where
  pub job_id : String
  pub worker_id : String
  pub lease_token : String

-- What `commit_stage_result` is asked.
pub record Commit : Type 0 where
  pub next_item_state : ItemState
  pub event_type : String
  pub next_job_role : Option WorkerRole
  pub next_job_payload : Option Fields

-- Storage, the methods that the scheduler itself calls; `H` is the type of handoffs. An interrupt
-- request is its id and its reason.
pub record Storage (S H : Type 0) : Type 0 where
  pub recover_expired_leases : Op S Recovery
  pub claim_job : WorkerRole → String → ℕ → Op S (Option Job)
  pub get_campaign : String → Op S Campaign
  pub get_work_item : String → Op S WorkItem
  pub heartbeat_job : Fence → ℕ → Op S Bool
  pub poll_operator_interrupt : Fence → Op S (Option (String × String))
  pub complete_operator_interrupt : Fence → String → String → Op S Bool
  pub interrupt_job : Fence → String → Op S Bool
  pub fail_job : Fence → String → ℕ → Op S Bool
  pub commit_stage_result : Fence → H → Commit → Op S Bool

-- What `Scheduler.__init__` keeps of its arguments.
pub record Config : Type 0 where
  pub global_concurrency_limit : ℕ
  pub lease_seconds : ℕ
  pub max_attempts : ℕ
  pub heartbeat_error_retries : ℕ
  pub allow_simulated_evidence : Bool

-- How a task ended: it returned, it was cancelled, or it raised.
pub data Ending : Type 0 where
  finished was_cancelled : Ending
  broken : Failure → Ending

-- An asyncio task: it runs, with or without a request to cancel it, or it is done.
pub data Task : Type 0 where
  active : Bool → Task
  done : Ending → Task

-- _WorkerSlot. Its worker id names the slot, as `__init__` numbers the workers of a role.
pub record WorkerSlot : Type 0 where
  pub role : WorkerRole
  pub worker_id : String
  pub task : Option Task
  pub job_id : Option String
  pub job : Option Job

-- The fields of `Scheduler` that change, with the store.
pub record Scheduler (S : Type 0) : Type 0 where
  pub store : S
  pub slots : List WorkerSlot
  pub errors : List Failure
  pub stale_job_ids : List String
  pub role_cursor : ℕ
  pub last_recovery_progressed : Bool

abbrev pub Call {ℓ} : Type 0 → Type ℓ → Type ℓ
Call S A = Scheduler S → Outcome A × Scheduler S

module _ {ℓ} {S : Type 0} {A : Type ℓ} where
  unfoldable pub pure : A → Call S A
  pure a s = (returned a, s)

  unfoldable pub raise : Failure → Call S A
  raise f s = (raised f, s)

  unfoldable pub gets : (Scheduler S → A) → Call S A
  gets f s = (returned (f s), s)

  infix 1 if◌then◌else◌
  unfoldable pub if◌then◌else◌ : Bool → Call S A → Call S A → Call S A
  if true then m else n = m
  if false then m else n = n

  abbrev pub recover_with : (Failure → Call S A) → Outcome A × Scheduler S → Outcome A × Scheduler S
  recover_with handler (returned a, s) = (returned a, s)
  recover_with handler (raised f, s) = handler f s

  -- `try: m except ...: handler`
  unfoldable pub try_except : Call S A → (Failure → Call S A) → Call S A
  try_except m handler s = recover_with handler (m s)

module _ {S : Type 0} {A : Type 0} where
  abbrev pub with_store : Scheduler S → Outcome A × S → Outcome A × Scheduler S
  with_store s (o, store) = (o, record s { store = store })

  -- A call of the store.
  unfoldable pub ask : Op S A → Call S A
  ask op s = with_store s (op s.store)

module _ {ℓ κ} {S : Type 0} {A : Type ℓ} {B : Type κ} where
  abbrev pub continue : (A → Call S B) → Outcome A × Scheduler S → Outcome B × Scheduler S
  continue f (returned a, s) = f a s
  continue f (raised e, s) = (raised e, s)

infixl 5 ◌>>=◌ ◌>>◌
unfoldable pub ◌>>=◌ {ℓ κ} :
    {S : Type 0} {A : Type ℓ} {B : Type κ} → Call S A → (A → Call S B) → Call S B
◌>>=◌ m f s = continue f (m s)

abbrev pub ◌>>◌ {ℓ} : {S : Type 0} {B : Type ℓ} → Call S (Unit {0}) → Call S B → Call S B
m >> k = m >>= λ _. k

-- A call that touches neither the store nor the scheduler.
unfoldable pub lift {ℓ} : {S : Type 0} {A : Type ℓ} → Result A → Call S A
lift (err e) s = (raised (Failure.failed e), s)
lift (ok a) s = (returned a, s)

abbrev pub append_new : Bool → String → List String → List String
append_new true id ids = ids
append_new false id ids = ids ++ id ∷ []

module _ {S : Type 0} where
  unfoldable pub modify : (Scheduler S → Scheduler S) → Call S (Unit {0})
  modify f s = (returned tt, f s)

  -- `self.errors.append(error)`
  unfoldable pub append_error : Failure → Call S (Unit {0})
  append_error f s = (returned tt, record s { errors = s.errors ++ f ∷ [] })

  -- `self.stale_job_ids.append(job_id)`
  unfoldable pub append_stale : String → Call S (Unit {0})
  append_stale id s = (returned tt, record s { stale_job_ids = s.stale_job_ids ++ id ∷ [] })

  -- `if job_id not in self.stale_job_ids: self.stale_job_ids.append(job_id)`
  unfoldable pub note_stale : String → Call S (Unit {0})
  note_stale id s = (
    returned tt,
    record s { stale_job_ids = append_new (mem id s.stale_job_ids) id s.stale_job_ids },
  )
