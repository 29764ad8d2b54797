-- ===== src/Lib.antt =====
-- Agent Flow: a verification library of the supervisor in src/agent_flow.
--
-- Agent Flow moves work items through investigation, fixing and testing. Workers submit handoffs;
-- the supervisor decides from them what becomes of the item, and keeps all state in a store.
--
-- - Prelude: Booleans on numbers, lists, Python's `==` as an interface, exceptions as values.
-- - Models (src/agent_flow/models.py): the enumerations, handoffs and gate proofs with their
--   pydantic validators (`model_validator` methods are functions into `Result`), the evaluation of
--   a test handoff (`evaluate_test_handoff`), and the validators of campaigns, items and jobs.
--   What pydantic checks by field types alone (strings that are not empty, unknown keys) is the
--   library's and is not repeated.
-- - Reconciler (src/agent_flow/process_reconciler.py): `ExternalProcessReconciler.reconcile`. The
--   operating system, the clock and the sleeper are an environment that answers each call from
--   the history of the calls so far, so a theorem about every environment covers every behaviour
--   of the processes. The wait loop takes fuel: one round more than the grace period has ticks
--   is enough, since every round that goes on sleeps for at least one tick.
-- - Store (src/agent_flow/storage.py): part of `SQLiteStore`. The tables are lists of rows, and
--   work on the database (Store.Tx) is a function that returns a value with the new database or
--   raises; what raises has no database, since the transaction is rolled back. Fences are the
--   assertions that guard a mutation of a running job; Lifecycle is heartbeat, success and
--   failure; Interrupt is the interruption, with or without an operator's request; Recover is the
--   recovery of leases that have passed; Coverage, Plan, Eligible, Resume and Claim are
--   `claim_job`; Stage, Enqueue and Commit are `commit_stage_result`; Approvals and Resources are
--   approvals and standalone leases; Controls is an operator's request to interrupt a job, the
--   worker's answer to it and the request to resume, where the test for a plain text is the
--   parameter `is_plain`; External is the claim of a process that a lost worker left and the
--   completion of its reconciliation. Unchanged, Stale, Owned, Release, Retries, Retired, Recovery,
--   Limits, Slots, Verified, Moves, Committed and Exclusive hold the theorems on
--   them. The handoff that the persisted
--   executions give, pydantic's dump and the test for a file are fields of Store.Stage.StageEnv. A
--   definition's integrity check, a live admission's and the resolution of paths are fields of
--   Store.Env. A claim takes the ids that it draws as arguments. Keys are checked where rows are
--   inserted; foreign keys are not modelled. `recover_jobs`, `claim_first` and `next_slot` recurse
--   on the rows or on the limit, and need no fuel.
-- - Scheduler (src/agent_flow/scheduler.py): the turn of the bounded worker pool. A call keeps
--   the state it has reached when it raises, as a Python frame does. The store that the scheduler
--   is given is a record of operations (`Storage`), and what a property needs of it is a named
--   hypothesis or an interface (`Settles`). Calls are the scheduler's state and its calls of the
--   store, Pool the slots and the tasks, Turn `take_turn` once recovery is done, with
--   `fill_pool`, `run_once` and `shutdown`, Output the checks of what a worker returns, Finalize
--   the commit of a handoff, and Execute `execute_claim`, in which the worker races its heartbeats:
--   what others change in the store between two beats is an arbitrary function. The reading and
--   the dump of a handoff, the test for a file and the text of an error are fields of
--   `Surroundings`. Turn.Steps is the step relation of the pool.
-- - Sessions and SqliteScheduler (src/agent_flow/sqlite_scheduler.py): the adapter that gives the
--   scheduler the store of Store. Its clock and its drawn ids are in the session, which counts the
--   transactions. A `LeaseConflict` becomes a refusal. A conversion of a row to a model is made
--   outside the transaction, as in the code. Sessions.Processes is the loop over the processes that
--   lost workers left: each is claimed in the store, given to `reconcile`, and completed in the
--   store. It recurses on the number of processes that it may still examine, and gives `reconcile`
--   one round of fuel more than the grace period has ticks. The operating system that a
--   reconciliation meets, and what the scheduler sees of an exception that it lets through, are
--   fields of `Adapter`.
--
-- Not modelled: `run_until_quiescent`, the checks of the scheduler's constructor and the recorders
-- that it hands to a worker, the creation of campaigns and items, the registration of external
-- processes and the loop over them without a limit, and the worktrees, the evidence collectors and
-- the Codex worker, which run processes and read files.
--
-- Times are natural numbers, in ticks of the clock. Process ids are natural numbers.
pub mod Prelude
pub mod Models
pub mod Reconciler
pub mod Store
pub mod Scheduler
pub mod Sessions
pub mod SqliteScheduler
