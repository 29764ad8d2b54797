-- ===== src/Store/Unchanged.antt =====
-- storage.py: the fences that guard a mutation read the database and leave it as it is.
use python_ai_agent_flow.Prelude.{ℕ, String, Option, none, some, ◌≡◌, refl, lease_conflict}
use python_ai_agent_flow.Store.Rows.{Db, Campaign, Job, Control, ResourceLease}
use python_ai_agent_flow.Store.Env.{Env}
use python_ai_agent_flow.Store.Fences.{
  assert_attempt_focused_test_admission, assert_pinned_admission, assert_resumed_as,
  assert_authorized, assert_resume_authorization_fulfilled, assert_managed_worktree_binding,
  assert_registered_fence, assert_registered_resource_fences,
}
use python_ai_agent_flow.Store.Lifecycle.{assert_resource_fences}
use python_ai_agent_flow.Store.Tx.{Tx}
use python_ai_agent_flow.Store.Tx.Post.{
  Post, Post-pure, Post-read, Post-need, Post-guard, Post-conflict_if, Post-if, Post-for_each,
  Post-map,
}

-- A transaction that returns with the database that it had.
abbrev pub Reads : Tx (Unit {0}) → Db → Type 0
Reads m db = Post (λ _ d. (d ≡ db) × Unit {0}) (m db)

pinned-Post :
    (env : Env) (job : Job) (c : Campaign) (o : Option String) (db : Db)
    → Post (λ _ d. (d ≡ db) × Unit {0}) (assert_pinned_admission env job c o db)
pinned-Post env job c none db = Post-conflict_if _ lease_conflict db (λ _. (refl, tt))
pinned-Post env job c (some id) db = Post-guard _ lease_conflict _ db (λ _. Post-read _ _ db (
    Post-need _ lease_conflict _ db
      (λ a _. Post-read _ _ db (Post-conflict_if _ lease_conflict db (λ _. (refl, tt))))))

pub admission-Post :
    (env : Env) (job : Job) (db : Db)
    → Post (λ _ d. (d ≡ db) × Unit {0}) (assert_attempt_focused_test_admission env job db)
unfolding assert_attempt_focused_test_admission
admission-Post env job db = Post-read _ _ db (
    Post-need _ lease_conflict _ db (λ attempt _. Post-read _ _ db (
      Post-need _ lease_conflict _ db
        (λ c _. pinned-Post env job c attempt.focused_test_admission_id db))))

resumed-Post : (job : Job) (c : Control) (db : Db) → Reads (assert_resumed_as job c) db
unfolding assert_resumed_as
resumed-Post job c db = Post-read _ _ db (
    Post-need _ lease_conflict _ db (λ attempt _.
      Post-guard _ lease_conflict _ db
        (λ _. Post-read _ _ db (Post-conflict_if _ lease_conflict db (λ _. (refl, tt))))))

pub resume-Post : (job : Job) (db : Db) → Reads (assert_resume_authorization_fulfilled job) db
unfolding assert_resume_authorization_fulfilled
resume-Post job db = Post-read _ _ db (authorized _)
  where
    authorized : (o : Option Control) → Reads (assert_authorized job o) db
    authorized none = Post-pure tt db (refl, tt)
    authorized (some c) = resumed-Post job c db

pub binding-Post : (job : Job) (db : Db) → Reads (assert_managed_worktree_binding job) db
unfolding assert_managed_worktree_binding
binding-Post job db =
    Post-if _ _ _ db (λ _. Post-pure tt db (refl, tt))
      (λ _. Post-guard _ lease_conflict _ db (λ _. Post-read _ _ db (
        Post-read _ _ db (
          Post-need _ lease_conflict _ db (λ w _.
            Post-need _ lease_conflict _ db
              (λ a _. Post-conflict_if _ lease_conflict db (λ _. (refl, tt))))))))

module _ (env : Env) (job : Job) (now : ℕ) (db : Db) where
  registered_fence-Post :
      (l : ResourceLease) (d : Db)
      → d ≡ db
      → Post (λ _ e. e ≡ db) (assert_registered_fence env job now l d)
  unfolding assert_registered_fence
  registered_fence-Post l d h = Post-read _ _ d (
      Post-need _ lease_conflict _ d (λ row _.
        Post-need _ lease_conflict _ d (λ def _. Post-conflict_if _ lease_conflict d (λ _. h))))

  pub registered-Post : Reads (assert_registered_resource_fences env job now) db
  unfolding assert_registered_resource_fences
  registered-Post = Post-read _ _ db (
      Post-map (λ _ d. d ≡ db) _
        (Post-for_each (λ d. d ≡ db) (assert_registered_fence env job now) _ db
          registered_fence-Post refl)
        (λ _ d h. (h, tt)))

pub resources-Post :
    (job : Job) (worker token : String) (now : ℕ) (db : Db)
    → Reads (assert_resource_fences job worker token now) db
unfolding assert_resource_fences
resources-Post job worker token now db =
    Post-read _ _ db (Post-conflict_if _ lease_conflict db (λ _. (refl, tt)))
