-- ===== src/Store/Examples/External.antt =====
-- storage.py: two processes that are left behind, claimed for reconciliation one after the other.
use python_ai_agent_flow.Prelude.{
  some, false, ◌≡◌, refl, arith, [], ◌∷◌, Option, Result, ok, ◌==◌, string_eq,
}
use python_ai_agent_flow.Prelude.Texts.{stripped_left, stripped_right, is_space}
use python_ai_agent_flow.Store.Rows.{Db, ExternalProcess}
use python_ai_agent_flow.Store.Queries.{order_by}
use python_ai_agent_flow.Store.Tx.{◌>>=◌, pure, select_from, require, conflict_if, append_event}
use python_ai_agent_flow.Store.External.{
  claimed_row, is_candidate, update_processes, claim_candidate,
  claim_external_process_reconciliation,
}
use python_ai_agent_flow.Store.External.Claimed.{claim_external_process_reconciliation-IsOnly}
use python_ai_agent_flow.Store.Examples.{two_jobs, guardian, db_of}

abbrev other_guardian : ExternalProcess
other_guardian = record guardian {
  id = "process-2";
  attempt_id = "attempt-1";
  job_id = "job-1";
  process_id = 500;
  process_group_id = 500;
}

abbrev two_processes : Db
two_processes = record two_jobs { external_processes = guardian ∷ other_guardian ∷ [] }

abbrev first_claim : Result (Option ExternalProcess × Db)
first_claim =
    claim_external_process_reconciliation "supervisor-1" 30 false [] "first" 150 two_processes

abbrev after_first_claim : Db
after_first_claim = db_of first_claim

abbrev second_claim : Result (Option ExternalProcess × Db)
second_claim =
    claim_external_process_reconciliation "supervisor-2" 30 false [] "second" 160 after_first_claim

abbrev after_second_claim : Db
after_second_claim = db_of second_claim

abbrev first_claimed : ExternalProcess
first_claimed = claimed_row "supervisor-1" "first" 180 150 guardian

abbrev second_claimed : ExternalProcess
second_claimed = claimed_row "supervisor-2" "second" 190 160 other_guardian

first_claim_runs : first_claim ≡ ok (some first_claimed, after_first_claim)
unfolding ◌>>=◌ pure select_from require conflict_if append_event order_by stripped_left
    stripped_right is_space is_candidate update_processes claim_candidate
    claim_external_process_reconciliation
first_claim_runs = refl

second_claim_runs : second_claim ≡ ok (some second_claimed, after_second_claim)
unfolding ◌>>=◌ pure select_from require conflict_if append_event order_by stripped_left
    stripped_right is_space is_candidate update_processes claim_candidate
    claim_external_process_reconciliation
second_claim_runs = refl

claim_external_process_reconciliation-IsOnly_example :
    (second_claimed.id == first_claimed.id) ≡ false
claim_external_process_reconciliation-IsOnly_example =
    claim_external_process_reconciliation-IsOnly "supervisor-1" "supervisor-2" "first" "second" 30
      30 false false [] [] 150 160 two_processes after_first_claim after_second_claim first_claimed
      second_claimed (omega arith) first_claim_runs (omega arith) second_claim_runs
