-- ===== src/Store/Examples/Leases.antt =====
-- storage.py: an approval and a standalone lease, and the theorems at them.
use python_ai_agent_flow.Prelude.{none, some, true, ◌≡◌, refl, [], ◌∷◌, ok}
use python_ai_agent_flow.Prelude.Texts.{
  is_space, strip_left, keep_unless_blank, strip_right, strip, starts_with,
}
use python_ai_agent_flow.Models.Evidence.{Fields}
use python_ai_agent_flow.Store.Statuses.{ApprovalStatus}
use python_ai_agent_flow.Store.Rows.{Db, Approval, ResourceLease}
use python_ai_agent_flow.Store.Resources.{TextScan, standalone}
use python_ai_agent_flow.Store.Examples.{two_jobs, db_of}
use python_ai_agent_flow.Store.Tx.{
  ◌>>=◌, pure, select_from, require, if◌then◌else◌, conflict_if, update_approvals, insert_lease,
  delete_leases, append_event,
}
use python_ai_agent_flow.Store.Enqueue.{is_blank}
use python_ai_agent_flow.Store.Resources.{
  is_bounded, check_texts, insert_standalone, acquire_over, acquire_resource,
}
use python_ai_agent_flow.Store.Approvals.{resolve_approval, resolve_approval-once}
use python_ai_agent_flow.Store.Exclusive.{WasFree, IsOnly, acquire_resource-IsOnly}

abbrev asked : Approval
asked = record {
  id = "approval-1";
  campaign_id = "campaign-1";
  work_item_id = none;
  action = "modify_repository";
  scope = Fields.end;
  status = ApprovalStatus.pending;
  requested_by = "supervisor";
  requested_at = 10;
  resolved_by = none;
  resolved_at = none;
}

abbrev one_asked : Db
one_asked = record two_jobs { approvals = asked ∷ [] }

abbrev after_approval : Db
after_approval =
    db_of (resolve_approval "approval-1" ApprovalStatus.approved "operator" 50 one_asked)

approval_runs :
    resolve_approval "approval-1" ApprovalStatus.approved "operator" 50 one_asked
    ≡ ok (tt, after_approval)
unfolding ◌>>=◌ pure select_from require if◌then◌else◌ conflict_if update_approvals insert_lease
    delete_leases append_event resolve_approval
approval_runs = refl

resolve_approval-once_example : ¬ (
    resolve_approval "approval-1" ApprovalStatus.rejected "other" 60 after_approval
    ≡ ok (tt, after_approval))
resolve_approval-once_example =
    resolve_approval-once "approval-1" ApprovalStatus.approved "operator" 50 one_asked
      after_approval approval_runs ApprovalStatus.rejected "other" 60 after_approval

-- No text is refused by the patterns.
abbrev permissive : TextScan
permissive = λ text. true

abbrev new_lease : ResourceLease
new_lease = standalone "printer" "operator" "token-9" 50 110

abbrev after_acquire : Db
after_acquire =
    db_of (acquire_resource permissive "printer" "operator" "token-9" 60 none 50 two_jobs)

acquire_runs :
    acquire_resource permissive "printer" "operator" "token-9" 60 none 50 two_jobs
    ≡ ok (some new_lease, after_acquire)
unfolding ◌>>=◌ pure select_from require if◌then◌else◌ conflict_if update_approvals insert_lease
    delete_leases append_event is_space strip_left keep_unless_blank strip_right strip starts_with
    is_blank is_bounded check_texts insert_standalone acquire_over acquire_resource
acquire_runs = refl

acquire_resource-IsOnly_example :
    WasFree new_lease 50 two_jobs × (new_lease ≡ new_lease) × IsOnly new_lease after_acquire
acquire_resource-IsOnly_example =
    acquire_resource-IsOnly permissive "printer" "operator" "token-9" 60 none 50 new_lease two_jobs
      after_acquire acquire_runs
