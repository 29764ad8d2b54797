-- ===== src/Store/Examples/Controls.antt =====
-- storage.py: an operator's request to interrupt a job with a process, and the worker's poll.
use python_ai_agent_flow.Prelude.{some, true, ◌≡◌, refl, subst, some_injective, Result, ok}
use python_ai_agent_flow.Prelude.Texts.{strip, strip_left, strip_right, is_space, keep_unless_blank}
use python_ai_agent_flow.Store.Rows.{Db, Attempt, Control}
use python_ai_agent_flow.Store.Statuses.{ProcessState}
use python_ai_agent_flow.Store.Tx.{◌>>=◌, pure, select_from, require, conflict_if, append_event}
use python_ai_agent_flow.Store.Queries.{order_by}
use python_ai_agent_flow.Store.Fences.{is_live}
use python_ai_agent_flow.Store.Stale.{IsHeld}
use python_ai_agent_flow.Store.Controls.{
  operator_text, insert_control, insert_interrupt, once_pending, request_job_interrupt,
  poll_operator_interrupt, interrupt_row,
}
use python_ai_agent_flow.Store.Controls.Requested.{latest_of, IsTraced, running_attempt}
use python_ai_agent_flow.Store.Controls.Polled.{poll_operator_interrupt-request_job_interrupt}
use python_ai_agent_flow.Store.Examples.{plain, two_jobs, busy_job, attempt_at, guardian, db_of}

abbrev request_run : Result (Control × Db)
request_run =
    request_job_interrupt plain (λ text. true) "job-2" "token-1" "operator-1" "stop it" "request-1"
      20 two_jobs

abbrev the_request : Control
the_request =
    interrupt_row plain "request-1" "token-1" "operator-1" "stop it" 20 busy_job
      (attempt_at "attempt-2" "job-2" (some 400)) (some guardian)

abbrev after_request : Db
after_request = db_of request_run

request_runs : request_run ≡ ok (the_request, after_request)
unfolding ◌>>=◌ pure select_from require conflict_if append_event order_by operator_text
    insert_control insert_interrupt once_pending request_job_interrupt strip strip_left strip_right
    is_space keep_unless_blank
request_runs = refl

busy-IsHeld : IsHeld two_jobs "job-2" "worker-1" "token-1" 50 busy_job
unfolding is_live
busy-IsHeld = (refl, refl)

busy-IsTraced : IsTraced (attempt_at "attempt-2" "job-2" (some 400)) two_jobs
unfolding order_by
busy-IsTraced p e =
    subst
      (λ z.
        (latest_of z (attempt_at "attempt-2" "job-2" (some 400)) two_jobs ≡ some z)
        × (z.state ≡ ProcessState.active))
      (some_injective e) (refl, refl)

busy_proper :
    (row : Attempt)
    → running_attempt busy_job two_jobs ≡ some row
    → (row.managed_worktree_id ≡ busy_job.managed_worktree_id) × IsTraced row two_jobs
busy_proper row e =
    subst (λ r. (r.managed_worktree_id ≡ busy_job.managed_worktree_id) × IsTraced r two_jobs)
      (some_injective e) (refl, busy-IsTraced)

poll_operator_interrupt-request_job_interrupt_example :
    poll_operator_interrupt plain "job-2" "worker-1" "token-1" 50 after_request
    ≡ ok (some the_request, after_request)
poll_operator_interrupt-request_job_interrupt_example =
    poll_operator_interrupt-request_job_interrupt plain (λ text. true) "job-2" "worker-1" "token-1"
      "operator-1" "stop it" "request-1" 20 50 two_jobs after_request busy_job the_request
      busy-IsHeld refl busy_proper request_runs
