-- ===== src/Store/Exclusive.antt =====
-- storage.py: a standalone lease is held by one owner.
use python_ai_agent_flow.Prelude.{
  ℕ, ◌+◌, ◌≤◌, ◌⊎◌, inl, inr, Bool, ◌||◌, arith, All-Memᴰ, find-some, String, Option, none, some,
  true, false, ◌≡◌, refl, leb, find, is_some, All, All-append, All-map, All-select-not,
  find-none-All, one_outcome, ok, value_error,
}
use python_ai_agent_flow.Store.Rows.{Db, ResourceLease}
use python_ai_agent_flow.Store.Resources.{
  TextScan, check_texts, is_first_slot, standalone, insert_standalone, acquire_over,
  acquire_resource,
}
use python_ai_agent_flow.Store.Release.{Post-append_event, Post-delete_leases}
use python_ai_agent_flow.Store.Limits.Steps.{if_absent-Post}
use python_ai_agent_flow.Store.Tx.{insert_lease, delete_leases, append_event}
use python_ai_agent_flow.Store.Tx.Post.{
  Post, Post-pure, Post-read, Post-select_from, Post-guard, Post-bind, Post-same, Post-conflict_if,
  Post-if, Post-ok,
}

-- Every lease on the first slot of the resource is this one.
abbrev pub IsOnly : ResourceLease → Db → Type 0
IsOnly l db = All (λ r. is_first_slot l.resource_key r ≡ true → r ≡ l) db.resource_leases

-- The slot was free, or its lease was a standalone one that had run out.
abbrev pub WasFree : ResourceLease → ℕ → Db → Type 0
WasFree l now db =
    (find (is_first_slot l.resource_key) db.resource_leases ≡ none)
    ⊎ ((x : ResourceLease) × (find (is_first_slot l.resource_key) db.resource_leases ≡ some x)
        × (x.job_id ≡ none)
        × (x.expires_at ≤ now))

-- If a lease is answered, it is the only one.
abbrev IsTaken : ResourceLease → ℕ → Db → Option ResourceLease → Db → Type 0
IsTaken l now db0 o db =
    (r : ResourceLease) → o ≡ some r → WasFree l now db0 × (r ≡ l) × IsOnly l db

only_found :
    (l r : ResourceLease) (db : Db)
    → IsOnly l db
    → find (is_first_slot l.resource_key) db.resource_leases ≡ some r
    → r ≡ l
only_found l r db only h =
    let (m, first) = find-some (is_first_slot l.resource_key) db.resource_leases h in
    All-Memᴰ (λ x. is_first_slot l.resource_key x ≡ true → x ≡ l) only m first

vacant : (o : Option String) (b : Bool) → (is_some o || b) ≡ false → o ≡ none
vacant none b h = refl
vacant (some id) b h = cc

module _ (l : ResourceLease) (now : ℕ) (db0 : Db) where
  insert-Only :
      (db : Db)
      → WasFree l now db0
      → All (λ r. is_first_slot l.resource_key r ≡ false) db.resource_leases
      → Post (IsTaken l now db0) (insert_standalone l now db)
  unfolding insert_standalone insert_lease
  insert-Only db was free =
      Post-bind (λ _. IsOnly l) (insert_lease l) _ db
        (if_absent-Post _ _ (
          All-append _ db.resource_leases _
            (All-map (λ r f t. one_outcome t f) db.resource_leases free) ((λ _. refl), tt)))
        (λ _ db1 h1.
          Post-bind (λ _. IsOnly l) (append_event _) _ db1 (Post-append_event _ db1 (λ es. h1))
            (λ _ db2 h2. Post-select_from _ db2 (λ r e. (was, only_found l r db2 h2 e, h2))))

  acquire_over-Only :
      (o : Option ResourceLease)
      → find (is_first_slot l.resource_key) db0.resource_leases ≡ o
      → Post (IsTaken l now db0) (acquire_over l now o db0)
  unfolding acquire_over
  acquire_over-Only none e = insert-Only db0 (inl e) (find-none-All _ db0.resource_leases e)
  acquire_over-Only (some x) e =
      Post-if _ _ _ db0 (λ _. Post-pure _ db0 (λ r t. cc))
        (λ free.
          Post-bind (λ _ d. All (λ r. is_first_slot l.resource_key r ≡ false) d.resource_leases)
            (delete_leases (is_first_slot l.resource_key)) _ db0
            (Post-delete_leases _ db0
              (λ _. All-select-not (is_first_slot l.resource_key) db0.resource_leases))
            (λ _ db1 h1.
              Post-bind (λ _ d. All (λ r. is_first_slot l.resource_key r ≡ false) d.resource_leases)
                (append_event _) _ db1 (Post-append_event _ db1 (λ es. h1))
                (λ _ db2 h2.
                  insert-Only db2 (inr (x, e, vacant x.job_id _ free, ground (arith, free))) h2)))

check_texts-Post :
    (scan : TextScan) (key owner : String) (db : Db)
    → Post (λ _ d. (d ≡ db) × Unit {0}) (check_texts scan key owner db)
unfolding check_texts
check_texts-Post scan key owner db =
    Post-guard _ value_error _ db (λ _.
      Post-guard _ value_error _ db (λ _. Post-conflict_if _ value_error db (λ _. (refl, tt))))

-- A standalone lease is acquired only where the first slot of the resource was free, or its lease
-- was bound to no job and had run out; the answer is then the lease for the owner that asked, from
-- now for the seconds asked for, and no other lease is left on the slot.
pub acquire_resource-IsOnly :
    (scan : TextScan) (key owner token : String) (lease_seconds : ℕ) (job_id : Option String)
    (now : ℕ) (r : ResourceLease) (db db' : Db)
    → acquire_resource scan key owner token lease_seconds job_id now db ≡ ok (some r, db')
    → WasFree (standalone key owner token now (now + lease_seconds)) now db
      × (r ≡ standalone key owner token now (now + lease_seconds))
      × IsOnly (standalone key owner token now (now + lease_seconds)) db'
unfolding acquire_resource
acquire_resource-IsOnly scan key owner token lease_seconds job_id now r db db' h =
    let l = standalone key owner token now (now + lease_seconds) in
    Post-ok
      (Post-guard (leb lease_seconds 0) value_error _ db (λ _.
        Post-guard (is_some job_id) value_error _ db (λ _.
          Post-same (λ _. Unit {0}) (check_texts scan key owner) _ db
            (check_texts-Post scan key owner db)
            (λ _ _. Post-read _ _ db (acquire_over-Only l now db _ refl)))))
      h r refl
