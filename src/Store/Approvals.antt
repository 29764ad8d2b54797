-- ===== src/Store/Approvals.antt =====
-- storage.py: `create_approval` and `resolve_approval`.
use python_ai_agent_flow.Prelude.{
  ℕ, String, Option, none, some, Bool, false, not, ◌&&◌, ◌≡◌, refl, arith, List, [], ◌∷◌, find,
  count, eqb, All, All-update, All-intro, ◌==◌, string_eq, ok, not_found, value_error,
  transition_conflict,
}
use python_ai_agent_flow.Models.Evidence.{Fields}
use python_ai_agent_flow.Store.Statuses.{ApprovalStatus, approval_status_eq}
use python_ai_agent_flow.Store.Rows.{Db, Approval, Event, Datum}
use python_ai_agent_flow.Store.Release.{Post-append_event}
use python_ai_agent_flow.Store.Tx.{
  Tx, select_from, require, conflict_if, insert_approval, update_approvals, append_event, ◌>>=◌,
  ◌>>◌,
}
use python_ai_agent_flow.Store.Tx.Post.{Post, Post-read, Post-need, Post-guard, Post-bind, Post-ok}

abbrev approval_event : String → Approval → String → List (String × Datum) → ℕ → Event
approval_event kind a actor details now = record {
  event_kind = kind;
  campaign_id = some a.campaign_id;
  work_item_id = a.work_item_id;
  job_id = none;
  actor = some actor;
  event_data = details;
  created_at = now;
}

-- create_approval; the id is drawn by the caller.
unfoldable pub create_approval :
    String → String → String → String → Option String → Fields → ℕ → Tx (Unit {0})
create_approval id campaign_id action requester item_id scope now =
    let a : Approval = record {
      id = id;
      campaign_id = campaign_id;
      work_item_id = item_id;
      action = action;
      scope = scope;
      status = ApprovalStatus.pending;
      requested_by = requester;
      requested_at = now;
      resolved_by = none;
      resolved_at = none;
    } in
    do
      insert_approval a
      append_event (
          approval_event "approval.requested" a requester
            (("approval_id", Datum.text id) ∷ ("action", Datum.text action) ∷ []) now)

abbrev status_text : ApprovalStatus → String
status_text ApprovalStatus.pending = "pending"
status_text ApprovalStatus.approved = "approved"
status_text ApprovalStatus.rejected = "rejected"

-- `id = ? AND status = 'pending'`
abbrev is_pending_approval : String → Approval → Bool
is_pending_approval id a = a.id == id && a.status == ApprovalStatus.pending

-- resolve_approval
unfoldable pub resolve_approval : String → ApprovalStatus → String → ℕ → Tx (Unit {0})
resolve_approval id status resolver now = do
  conflict_if (status == ApprovalStatus.pending) value_error
  found ← select_from (λ db. find (λ a. a.id == id) db.approvals)
  approval ← require found not_found
  changed ←
      update_approvals (is_pending_approval id)
        (λ a. record a { status = status; resolved_by = some resolver; resolved_at = some now })
  conflict_if (not (eqb changed 1)) transition_conflict
  append_event (
      approval_event "approval.resolved" approval resolver
        (("approval_id", Datum.text id)
          ∷ ("status", Datum.text (status_text status))
          ∷ ("action", Datum.text approval.action)
          ∷ [])
        now)

-- No approval with the id is pending.
abbrev pub IsResolved : String → Db → Type 0
IsResolved id db = All (λ a. is_pending_approval id a ≡ false) db.approvals

count-resolved :
    (id : String) (rows : List Approval)
    → All (λ a. is_pending_approval id a ≡ false) rows
    → count (is_pending_approval id) rows ≡ 0
count-resolved id [] h = refl
count-resolved id (a ∷ rows) h = rw h.0 (count-resolved id rows h.1)

module _ (id : String) (status : ApprovalStatus) (resolver : String) (now : ℕ) (db : Db) where
  resolve-Resolved : Post (λ _. IsResolved id) (resolve_approval id status resolver now db)
  unfolding resolve_approval update_approvals
  resolve-Resolved = Post-guard (status == ApprovalStatus.pending) value_error _ db (λ settled.
      Post-read _ _ db (
        Post-need _ not_found _ db (λ approval _.
          Post-bind (λ _. IsResolved id) (update_approvals (is_pending_approval id) _) _ db
            record {
              holds =
                  All-update (λ a. is_pending_approval id a ≡ false) (is_pending_approval id) _
                    db.approvals (λ a _. ground (arith, settled))
                    (All-intro
                      (λ a. is_pending_approval id a ≡ false → is_pending_approval id a ≡ false)
                      (λ a e. e) db.approvals);
            }
            (λ n db1 h1.
              Post-guard _ transition_conflict _ db1 (λ _. Post-append_event _ db1 (λ es. h1))))))

  -- An approval that is not pending is not resolved.
  resolved-refused : IsResolved id db → Post (λ _ _. ⊥) (resolve_approval id status resolver now db)
  unfolding resolve_approval update_approvals
  resolved-refused done = Post-guard (status == ApprovalStatus.pending) value_error _ db (λ _.
      Post-read _ _ db (
        Post-need _ not_found _ db (λ approval _.
          Post-bind (λ n _. n ≡ 0) (update_approvals (is_pending_approval id) _) _ db
            record { holds = count-resolved id db.approvals done }
            (λ n db1 e.
              Post-guard _ transition_conflict _ db1 (λ one. absurd (ground (arith, e, one)))))))

-- An approval is resolved at most once: after a decision is recorded, no other is.
pub resolve_approval-once :
    (id : String) (status : ApprovalStatus) (resolver : String) (now : ℕ) (db db' : Db)
    → resolve_approval id status resolver now db ≡ ok (tt, db')
    → (status' : ApprovalStatus) (resolver' : String) (later : ℕ) (db'' : Db)
    → ¬ (resolve_approval id status' resolver' later db' ≡ ok (tt, db''))
resolve_approval-once id status resolver now db db' h status' resolver' later db'' again =
    Post-ok
      (resolved-refused id status' resolver' later db'
        (Post-ok (resolve-Resolved id status resolver now db) h))
      again
