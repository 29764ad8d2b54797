-- ===== src/Store/Tx.antt =====
-- storage.py: `_transaction`. Work on the database returns its value with the new database, or
-- raises; a raise carries no database, since the transaction is rolled back.
pub mod Post
pub mod Steps
use python_ai_agent_flow.Prelude.{
  ℕ, String, Option, none, some, Bool, true, false, List, [], ◌∷◌, ◌++◌, count, update, select, not,
  Error, Result, ok, err, any, ◌||◌, ◌&&◌, ◌==◌, string_eq, nat_eq, integrity_error,
}
use python_ai_agent_flow.Models.Enums.{JobStatus, job_status_eq, worker_role_eq}
use python_ai_agent_flow.Store.Rows.{
  Approval, Db, Event, Datum, Job, WorkItem, Attempt, ResourceLease, Control, Execution,
}

abbrev pub Tx {ℓ} : Type ℓ → Type ℓ
Tx A = Db → Result (A × Db)

module _ {ℓ} {A : Type ℓ} where
  unfoldable pub pure : A → Tx A
  pure a db = ok (a, db)

  unfoldable pub raise : Error → Tx A
  raise e db = err e

  -- A query.
  unfoldable pub select_from : (Db → A) → Tx A
  select_from f db = ok (f db, db)

  -- `if row is None: raise e`
  unfoldable pub require : Option A → Error → Tx A
  require none e db = err e
  require (some a) e db = ok (a, db)

  infix 1 if◌then◌else◌
  unfoldable pub if◌then◌else◌ : Bool → Tx A → Tx A → Tx A
  if true then m else n = m
  if false then m else n = n

-- `if b: raise e`
unfoldable pub conflict_if : Bool → Error → Tx (Unit {0})
conflict_if true e db = err e
conflict_if false e db = ok (tt, db)

module _ {ℓ κ} {A : Type ℓ} {B : Type κ} where
  abbrev pub proceed : (A → Tx B) → Result (A × Db) → Result (B × Db)
  proceed f (err e) = err e
  proceed f (ok (a, db)) = f a db

infixl 5 ◌>>=◌
unfoldable pub ◌>>=◌ {ℓ κ} : {A : Type ℓ} {B : Type κ} → Tx A → (A → Tx B) → Tx B
◌>>=◌ m f db = proceed f (m db)

infixl 5 ◌>>◌
abbrev pub ◌>>◌ {ℓ} : {B : Type ℓ} → Tx (Unit {0}) → Tx B → Tx B
m >> k = m >>= λ _. k

-- `for row in rows: ...`
unfoldable pub for_each {ℓ} : {A : Type ℓ} → (A → Tx (Unit {0})) → List A → Tx (Unit {0})
for_each f [] = pure tt
for_each f (x ∷ xs) = f x >>= λ _. for_each f xs

abbrev pub if_absent : Bool → Db → Result (Unit {0} × Db)
if_absent true db = err integrity_error
if_absent false db = ok (tt, db)

-- The update statements: the number of rows is `rowcount`.
unfoldable pub update_work_items : (WorkItem → Bool) → (WorkItem → WorkItem) → Tx ℕ
update_work_items p f db =
    ok (count p db.work_items, record db { work_items = update p f db.work_items })

unfoldable pub update_jobs : (Job → Bool) → (Job → Job) → Tx ℕ
update_jobs p f db = ok (count p db.jobs, record db { jobs = update p f db.jobs })

unfoldable pub update_attempts : (Attempt → Bool) → (Attempt → Attempt) → Tx ℕ
update_attempts p f db = ok (count p db.attempts, record db { attempts = update p f db.attempts })

unfoldable pub update_leases : (ResourceLease → Bool) → (ResourceLease → ResourceLease) → Tx ℕ
update_leases p f db =
    ok (count p db.resource_leases, record db { resource_leases = update p f db.resource_leases })

-- INSERT, which a primary key or a UNIQUE constraint refuses.
unfoldable pub insert_lease : ResourceLease → Tx (Unit {0})
insert_lease l db =
    if_absent
      (any (λ r. r.resource_key == l.resource_key && r.lease_slot == l.lease_slot)
        db.resource_leases)
      (record db { resource_leases = db.resource_leases ++ l ∷ [] })

unfoldable pub insert_attempt : Attempt → Tx (Unit {0})
insert_attempt a db =
    if_absent
      (any (λ r. r.id == a.id || (r.job_id == a.job_id && r.attempt_number == a.attempt_number))
        db.attempts)
      (record db { attempts = db.attempts ++ a ∷ [] })

-- The index `one_open_job_per_stage` refuses a second open job of a stage.
abbrev is_open : Job → Bool
is_open j = j.status == JobStatus.pending || j.status == JobStatus.running

unfoldable pub insert_job : Job → Tx (Unit {0})
insert_job j db =
    if_absent
      (any
        (λ r.
          r.id == j.id
          || (r.work_item_id == j.work_item_id
              && (r.role == j.role && (r.stage == j.stage && (is_open r && is_open j)))))
        db.jobs)
      (record db { jobs = db.jobs ++ j ∷ [] })

-- A call that is no work on the database.
unfoldable pub lift {ℓ} : {A : Type ℓ} → Result A → Tx A
lift (err e) db = err e
lift (ok a) db = ok (a, db)

unfoldable pub update_approvals : (Approval → Bool) → (Approval → Approval) → Tx ℕ
update_approvals p f db =
    ok (count p db.approvals, record db { approvals = update p f db.approvals })

unfoldable pub insert_approval : Approval → Tx (Unit {0})
insert_approval a db =
    if_absent (any (λ r. r.id == a.id) db.approvals)
      (record db { approvals = db.approvals ++ a ∷ [] })

unfoldable pub delete_leases : (ResourceLease → Bool) → Tx ℕ
delete_leases p db = ok (
  count p db.resource_leases,
  record db { resource_leases = select (λ l. not (p l)) db.resource_leases },
)

unfoldable pub update_controls : (Control → Bool) → (Control → Control) → Tx ℕ
update_controls p f db = ok (
  count p db.operator_controls,
  record db { operator_controls = update p f db.operator_controls },
)

-- `_append_event`; the sequence is the position in the list.
unfoldable pub append_event : Event → Tx (Unit {0})
append_event e db = ok (tt, record db { events = db.events ++ e ∷ [] })

unfoldable pub update_focused : (Execution → Bool) → (Execution → Execution) → Tx ℕ
update_focused p f db =
    let rows = db.focused_test_executions in
    ok (count p rows, record db { focused_test_executions = update p f rows })

unfoldable pub update_browser : (Execution → Bool) → (Execution → Execution) → Tx ℕ
update_browser p f db =
    let rows = db.browser_evidence_executions in
    ok (count p rows, record db { browser_evidence_executions = update p f rows })

unfoldable pub update_database : (Execution → Bool) → (Execution → Execution) → Tx ℕ
update_database p f db =
    let rows = db.database_query_executions in
    ok (count p rows, record db { database_query_executions = update p f rows })
