-- ===== src/Store/External/Claimed.antt =====
-- storage.py: a process that is claimed for reconciliation is not claimed again while the claim
-- lasts.
use python_ai_agent_flow.Prelude.{
  ℕ, ◌+◌, ◌<◌, ◌≤◌, String, Option, none, some, Bool, true, false, ◌&&◌, Bool-cases, inl, inr, List,
  [], ◌∷◌, Memᴰ, All, All-Memᴰ, All-map, All-update, count, update, select-Memᴰ, find-some, ◌==◌,
  nat_eq, string_eq, option_eq, ◌≡◌, refl, sym, ap, ◌∙◌, subst, arith, ok, lease_conflict,
  not_found, value_error, one_outcome,
}
use python_ai_agent_flow.Prelude.Texts.{stripped}
use python_ai_agent_flow.Store.Statuses.{process_state_eq}
use python_ai_agent_flow.Store.Rows.{Db, ExternalProcess}
use python_ai_agent_flow.Store.Release.{Post-append_event}
use python_ai_agent_flow.Store.External.{
  is_candidate, is_unclaimed, next_candidate, claimed_row, update_processes, claim_candidate,
  claim_external_process_reconciliation,
}
use python_ai_agent_flow.Store.External.Released.{first-from}
use python_ai_agent_flow.Store.Tx.Post.{
  Post, Post-pure, Post-select_from, Post-read, Post-need, Post-guard, Post-bind, Post-ok,
}

module _ {A : Type 0} (p q : A → Bool) where
  count-narrow : (xs : List A) → count (λ x. p x && q x) xs ≤ count p xs
  count-narrow [] = omega arith
  count-narrow (x ∷ xs) = ground (arith, count-narrow xs)

  -- Where a narrower test counts as many, it takes them all.
  narrow-All :
      (xs : List A)
      → count p xs ≤ count (λ x. p x && q x) xs
      → All (λ x. p x ≡ true → q x ≡ true) xs
  narrow-All [] h = tt
  narrow-All (x ∷ xs) h =
      (λ t. ground (arith, count-narrow xs, t), narrow-All xs (ground (arith, count-narrow xs)))

-- The update of a claim takes the row of the candidate.
abbrev takes : ExternalProcess → ℕ → ExternalProcess → Bool
takes c now q = q.id == c.id && (q.state == c.state && is_unclaimed now q)

-- A claim that is answered with a process.
abbrev IsClaimed : String → String → ℕ → Bool → List String → ℕ → Db → ExternalProcess → Db → Type 0
IsClaimed owner token lease include excluded now db p db' =
    (c : ExternalProcess) × (((p.id == c.id) ≡ true)
      × ((Memᴰ c db.external_processes × (is_candidate include excluded now db c ≡ true))
          × ((count (takes c now) db.external_processes ≡ 1)
              × (db'.external_processes
                  ≡ update (takes c now) (claimed_row owner token (now + lease) now)
                      db.external_processes))))

module _ (owner token : String) (lease : ℕ) (include : Bool) (excluded : List String) (now : ℕ)
    (db0 : Db) where
  abbrev Answer : Option ExternalProcess → Db → Type 0
  Answer o db' =
      (p : ExternalProcess)
      → o ≡ some p
      → IsClaimed owner token lease include excluded now db0 p db'

  claim_candidate-Post :
      (o : Option ExternalProcess)
      → next_candidate include excluded now db0 ≡ o
      → Post Answer (claim_candidate owner token lease now o db0)
  unfolding claim_candidate update_processes
  claim_candidate-Post none e = Post-pure none db0 (λ p h. cc)
  claim_candidate-Post (some c) e =
      let known =
        select-Memᴰ (is_candidate include excluded now db0) db0.external_processes
          (first-from _ _ e) in
      let written =
        update (takes c now) (claimed_row owner token (now + lease) now) db0.external_processes in
      Post-read _ _ db0 (
        Post-need _ not_found _ db0 (λ job _.
          Post-bind
            (λ n d.
              (n ≡ count (takes c now) db0.external_processes) × (d.external_processes ≡ written))
            (update_processes _ _) _ db0 record { holds = (refl, refl) }
            (λ n db1 h1. Post-guard _ lease_conflict _ db1 (λ one.
              Post-bind (λ _ d. d.external_processes ≡ written) _ _ db1
                (Post-append_event _ db1 (λ es. h1.1))
                (λ _ db2 h2. Post-select_from _ db2 (λ p found. (
                  c,
                  (
                    (find-some (λ q. q.id == c.id) db2.external_processes found).1,
                    (known, (ground (arith, one, h1.0), h2)),
                  ),
                )))))))

claim-Post :
    (name token : String) (lease : ℕ) (include : Bool) (excluded : List String) (now : ℕ) (db : Db)
    → Post
        (Answer (stripped name) token lease include excluded now db)
        (claim_external_process_reconciliation name lease include excluded token now db)
unfolding claim_external_process_reconciliation
claim-Post name token lease include excluded now db = Post-guard _ value_error _ db (λ _.
    Post-guard _ value_error _ db (λ _.
      Post-read _ _ db
        (claim_candidate-Post (stripped name) token lease include excluded now db _ refl)))

-- The claim keeps others off until it expires.
claimed_row-kept :
    (owner token : String) (expires_at now later : ℕ) (p : ExternalProcess)
    → later < expires_at
    → is_unclaimed later (claimed_row owner token expires_at now p) ≡ false
claimed_row-kept owner token expires_at now later p h = ground arith

claimed-AllKept :
    (owner token : String) (lease now later : ℕ) (c : ExternalProcess) (ps : List ExternalProcess)
    → later < now + lease
    → count (λ q. q.id == c.id) ps ≤ 1
    → count (takes c now) ps ≡ 1
    → All
        (λ q. (q.id == c.id) ≡ true → is_unclaimed later q ≡ false)
        (update (takes c now) (claimed_row owner token (now + lease) now) ps)
claimed-AllKept owner token lease now later c ps soon unique one =
    All-update (λ q. (q.id == c.id) ≡ true → is_unclaimed later q ≡ false) (takes c now)
      (claimed_row owner token (now + lease) now) ps
      (λ q _ _. claimed_row-kept owner token (now + lease) now later q soon)
      (All-map (λ q narrow f t. one_outcome (narrow t) (ground (arith, f, t))) ps
        (narrow-All (λ q. q.id == c.id) (λ q. q.state == c.state && is_unclaimed now q) ps
          (ground (arith, unique, one))))

candidate-unclaimed :
    (include : Bool) (excluded : List String) (now : ℕ) (db : Db) (c : ExternalProcess)
    → is_candidate include excluded now db c ≡ true
    → is_unclaimed now c ≡ true
unfolding is_candidate
candidate-unclaimed include excluded now db c h = ground arith

-- A process whose id is that of one row, once it is claimed, is not given to another claim before
-- the first one expires, whoever makes it and whatever it leaves out or takes in.
pub claim_external_process_reconciliation-IsOnly :
    (first_owner other_owner first_token other_token : String) (lease other_lease : ℕ)
    (include other_include : Bool) (excluded other_excluded : List String) (now later : ℕ)
    (db db' db'' : Db) (p p' : ExternalProcess)
    → count (λ q. q.id == p.id) db.external_processes ≤ 1
    → claim_external_process_reconciliation first_owner lease include excluded first_token now db
      ≡ ok (some p, db')
    → later < now + lease
    → claim_external_process_reconciliation other_owner other_lease other_include other_excluded
        other_token later db'
      ≡ ok (some p', db'')
    → (p'.id == p.id) ≡ false
claim_external_process_reconciliation-IsOnly first_owner other_owner first_token other_token lease
      other_lease include other_include excluded other_excluded now later db db' db'' p p' unique h
      soon h' =
    let (c, (same, (_, (one, written)))) =
      Post-ok (claim-Post first_owner first_token lease include excluded now db) h p refl in
    let (c', (same', ((m', due'), _))) =
      Post-ok
        (claim-Post other_owner other_token other_lease other_include other_excluded later db') h'
        p' refl in
    let id = (string_eq.equals_iff p.id c.id).0 same in
    let kept =
      claimed-AllKept (stripped first_owner) first_token lease now later c db.external_processes
        soon (subst (λ z. count (λ q. q.id == z) db.external_processes ≤ 1) id unique) one in
    let busy = λ (t : (c'.id == c.id) ≡ true).
      All-Memᴰ (λ q. (q.id == c.id) ≡ true → is_unclaimed later q ≡ false) kept
        (subst (λ qs. Memᴰ c' qs) written m') t in
    elim (Bool-cases (p'.id == p.id)) [
      | inr n ↦ n
      | inl y ↦ one_outcome (candidate-unclaimed other_include other_excluded later db' c' due') (
          busy (
            ap (λ z. z == c.id) (sym ((string_eq.equals_iff p'.id c'.id).0 same'))
            ∙ (ap (λ z. p'.id == z) (sym id) ∙ y)))
    ]
