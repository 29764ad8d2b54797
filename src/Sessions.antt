-- ===== src/Sessions.antt =====
-- sqlite_scheduler.py: transactions of the scheduler's store, and what the adapter takes from the
-- code around it.
pub mod Processes
pub mod Released
mod Examples
use python_ai_agent_flow.Prelude.{ℕ, suc, String, Error, Result, ok, err}
use python_ai_agent_flow.Reconciler.Runtime as Process
use python_ai_agent_flow.Reconciler.Runtime.{Runtime}
use python_ai_agent_flow.Store.Rows.{Db}
use python_ai_agent_flow.Store.Env.{Env}
use python_ai_agent_flow.Store.Stage.{StageEnv}
use python_ai_agent_flow.Store.Tx.{Tx}
use python_ai_agent_flow.Scheduler.Calls.{Failure, Outcome, returned, raised, Op}

-- The database, and how many transactions were made, by which the clock is read and ids are drawn.
pub record Session : Type 0 where
  pub db : Db
  pub made : ℕ

-- What the adapter takes from the code around it.
pub record Adapter : Type 0 where
  pub env : Env
  pub stage : StageEnv
  -- The time of a transaction, and the n-th id that it draws.
  pub clock : ℕ → ℕ
  pub draw : ℕ → ℕ → String
  -- The operating system as the reconciliation that begins after the n-th transaction sees it.
  pub runtime : ℕ → Runtime
  pub terminate_grace : ℕ
  pub poll_interval : ℕ
  pub reconciliation_owner : String
  pub reconciliation_lease_seconds : ℕ
  -- What the scheduler sees of an exception that `reconcile` lets through.
  pub failure_of : Process.Failure → Failure

module _ {A : Type 0} where
  abbrev pub committed : Session → Result (A × Db) → Outcome A × Session
  committed s (ok (a, db)) = (returned a, record { db = db; made = suc s.made })
  committed s (err e) = (raised (Failure.failed e), record { db = s.db; made = suc s.made })

  -- One transaction, which a raise rolls back.
  unfoldable pub transact : (ℕ → Tx A) → Op Session A
  transact f s = committed s (f s.made s.db)

module _ {A B : Type 0} where
  abbrev pub answer : (A → B) → B → Outcome A × Session → Outcome B × Session
  answer f refusal (returned a, s) = (returned (f a), s)
  answer f refusal (raised (Failure.failed Error.lease_conflict), s) = (returned refusal, s)
  answer f refusal (raised e, s) = (raised e, s)

  -- `try: ... except LeaseConflict: return refusal`
  unfoldable pub unless_conflict : (A → B) → B → Op Session A → Op Session B
  unless_conflict f refusal op s = answer f refusal (op s)

  abbrev pub proceed_with : (A → Op Session B) → Outcome A × Session → Outcome B × Session
  proceed_with f (returned a, s) = f a s
  proceed_with f (raised e, s) = (raised e, s)

  -- One call after the other.
  unfoldable pub and_then : Op Session A → (A → Op Session B) → Op Session B
  and_then op f s = proceed_with f (op s)

-- A conversion, outside of the transaction.
unfoldable pub convert {ℓ} : {A : Type ℓ} → Result A → Session → Outcome A × Session
convert (ok a) s = (returned a, s)
convert (err e) s = (raised (Failure.failed e), s)
