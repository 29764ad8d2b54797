-- ===== src/Store/Recovery/Jobs.antt =====
-- storage.py: the outcome of `recover_expired_leases` for the jobs.
use python_ai_agent_flow.Prelude.{
  ℕ, String, Option, none, some, Bool, true, false, ◌&&◌, ◌≡◌, ◌⊎◌, refl, sym, ap, ◌∙◌, subst,
  arith, List, [], ◌∷◌, Memᴰ, Memᴰ-select, Memᴰ-update, beq_refl, find, select, update, All,
  All-update, All-map, All-of_Memᴰ, is_some, Bool-cases, one_outcome, inl, inr, if◌then◌else◌, ◌==◌,
  string_eq, option_eq, ok,
}
use python_ai_agent_flow.Models.Enums.{JobStatus, job_status_eq}
use python_ai_agent_flow.Store.Rows.{Db, Job, ExternalProcess}
use python_ai_agent_flow.Store.Env.{Env}
use python_ai_agent_flow.Store.Queries.{insert_row, order_by, text_before}
use python_ai_agent_flow.Store.Fences.{is_unstopped}
use python_ai_agent_flow.Store.Recover.{
  Recovered, is_running_job, expired_row, is_expired, process_of, recover_job, recover_jobs,
  recover_expired, expire_job_after_lease, drop_orphan,
}
use python_ai_agent_flow.Store.Recovery.Steps.{Kept, expire-Post, drop_orphan-Kept}
use python_ai_agent_flow.Store.Tx.{for_each}
use python_ai_agent_flow.Store.Tx.Post.{
  Post, Post-pure, Post-read, Post-bind, Post-for_each, Post-ok,
}

-- The unstopped process of an attempt.
abbrev process_in : Option String → List ExternalProcess → Option ExternalProcess
process_in attempt_id ps = find (is_unstopped attempt_id) ps

-- What a round keeps, for the jobs that are still to be looked at.
module _ (F : List Job → List Job → List ExternalProcess → Type 0) (now : ℕ)
    (held : (x : Job) (rest js : List Job) (ps : List ExternalProcess) (p : ExternalProcess)
      → process_in x.current_attempt_id ps ≡ some p
      → F (x ∷ rest) js ps
      → F rest js ps)
    (expired : (x : Job) (rest js : List Job) (ps : List ExternalProcess)
      → process_in x.current_attempt_id ps ≡ none
      → is_some x.current_attempt_id ≡ true
      → F (x ∷ rest) js ps
      → F rest (update (is_running_job x) (expired_row "lease expired" now) js) ps)
    (env : Env) where
  round-Kept :
      (x : Job) (rest : List Job) (o : Option ExternalProcess) (done : Recovered) (db : Db)
      → process_in x.current_attempt_id db.external_processes ≡ o
      → Kept (F (x ∷ rest)) db
      → Post (λ _. Kept (F rest)) (recover_job env now x o done db)
  unfolding recover_job
  round-Kept x rest (some p) done db e h =
      Post-pure _ db (held x rest db.jobs db.external_processes p e h)
  round-Kept x rest none done db e h =
      Post-bind (λ _. Kept (F rest)) (expire_job_after_lease env x "lease expired" [] now) _ db
        (expire-Post (λ js ps. (process_in x.current_attempt_id ps ≡ none) × F (x ∷ rest) js ps)
          (F rest) x "lease expired" now (λ js ps s g. expired x rest js ps g.0 s g.1) env [] db
          (e, h))
        (λ _ db1 h1. Post-pure _ db1 h1)

  recover_jobs-Kept :
      (jobs : List Job) (done : Recovered) (db : Db)
      → Kept (F jobs) db
      → Post (λ _. Kept (F [])) (recover_jobs env now jobs done db)
  unfolding recover_jobs process_of
  recover_jobs-Kept [] done db h = Post-pure done db h
  recover_jobs-Kept (x ∷ rest) done db h = Post-read (process_of x) _ db (
      Post-bind (λ _. Kept (F rest))
        (recover_job env now x (process_in x.current_attempt_id db.external_processes) done) _ db
        (round-Kept x rest _ done db refl h) (λ more db1 h1. recover_jobs-Kept rest more db1 h1))

  recover_expired-Kept :
      (db : Db)
      → Kept (F (order_by (λ a b. text_before a.id b.id) (select (is_expired now) db.jobs))) db
      → Post (λ _. Kept (F [])) (recover_expired env now db)
  unfolding recover_expired
  recover_expired-Kept db h = Post-read _ _ db (
      Post-bind (λ _. Kept (F [])) (recover_jobs env now _ _) _ db (recover_jobs-Kept _ _ db h)
        (λ recovered db1 h1. Post-read _ _ db1 (
          Post-bind (λ _. Kept (F [])) (for_each (drop_orphan env now) _) _ db1
            (Post-for_each (Kept (F [])) _ _ db1 (λ l d g. drop_orphan-Kept (F []) env now l d g)
              h1)
            (λ _ db2 h2. Post-pure _ db2 h2))))

last_test : (a b c d : Bool) → (a && (b && (c && d))) ≡ true → d ≡ true
last_test true true true d h = h
last_test true true false d h = cc
last_test true false c d h = cc
last_test false b c d h = cc

-- A process of the same attempt is the same.
process-same :
    (j x : Job) (ps : List ExternalProcess)
    → is_running_job x j ≡ true
    → process_in x.current_attempt_id ps ≡ process_in j.current_attempt_id ps
process-same j x ps h =
    ap (λ o. process_in o ps)
      (sym (
        (option_eq.equals_iff j.current_attempt_id x.current_attempt_id).0 (
          last_test (j.id == x.id) (j.status == JobStatus.running) (is_some j.current_attempt_id) _
            h)))

-- The job is there, and its attempt has an unstopped process.
abbrev IsLeft : Job → ExternalProcess → List Job → List Job → List ExternalProcess → Type 0
IsLeft j p rest js ps = Memᴰ j js × (process_in j.current_attempt_id ps ≡ some p)

some_ne_none {ℓ} : {A : Type ℓ} {a : A} {o : Option A} → o ≡ some a → ¬ (o ≡ none)
some_ne_none h k = cc

expire-Left :
    (j : Job) (p : ExternalProcess) (now : ℕ) (x : Job) (rest js : List Job)
    (ps : List ExternalProcess)
    → process_in x.current_attempt_id ps ≡ none
    → IsLeft j p (x ∷ rest) js ps
    → IsLeft j p rest (update (is_running_job x) (expired_row "lease expired" now) js) ps
expire-Left j p now x rest js ps none_left h = elim (Bool-cases (is_running_job x j)) [
  | inl t ↦ absurd (some_ne_none h.1 (sym (process-same j x ps t) ∙ none_left))
  | inr f ↦ (Memᴰ-update (is_running_job x) (expired_row "lease expired" now) js h.0 f, h.1)
]

-- Every expired job has an unstopped process, or is still to be looked at.
abbrev IsWaiting : ℕ → List Job → List ExternalProcess → Job → Type 0
IsWaiting now rest ps j =
    is_expired now j ≡ true → (is_some (process_in j.current_attempt_id ps) ≡ true) ⊎ Memᴰ j rest

abbrev AllWaiting : ℕ → List Job → List Job → List ExternalProcess → Type 0
AllWaiting now rest js ps = All (IsWaiting now rest ps) js

hold-Waiting :
    (now : ℕ) (x : Job) (rest : List Job) (ps : List ExternalProcess) (p : ExternalProcess)
    → process_in x.current_attempt_id ps ≡ some p
    → (j : Job) → IsWaiting now (x ∷ rest) ps j
    → IsWaiting now rest ps j
hold-Waiting now x rest ps p h j w e = elim (w e) [
  | inl s ↦ inl s
  | inr (Memᴰ.head q) ↦
      inl (ap (λ y. is_some (process_in y.current_attempt_id ps)) q ∙ ap is_some h)
  | inr (Memᴰ.tail m) ↦ inr m
]

-- The job that is looked at is written.
writes-itself :
    (now : ℕ) (x : Job)
    → is_expired now x ≡ true
    → is_some x.current_attempt_id ≡ true
    → is_running_job x x ≡ true
writes-itself now x e s = ground (arith, beq_refl x.id, beq_refl x.current_attempt_id, e, s)

expire-Waiting :
    (now : ℕ) (x : Job) (rest js : List Job) (ps : List ExternalProcess)
    → is_some x.current_attempt_id ≡ true
    → AllWaiting now (x ∷ rest) js ps
    → AllWaiting now rest (update (is_running_job x) (expired_row "lease expired" now) js) ps
expire-Waiting now x rest js ps s all =
    All-update (IsWaiting now rest ps) (is_running_job x) (expired_row "lease expired" now) js
      (λ j t e. one_outcome e refl)
      (All-map
        (λ j w n e. elim (w e) [
          | inl s' ↦ inl s'
          | inr (Memᴰ.head q) ↦
              one_outcome (writes-itself now x (sym (ap (is_expired now) q) ∙ e) s)
                (sym (ap (is_running_job x) q) ∙ n)
          | inr (Memᴰ.tail m) ↦ inr m
        ])
        js all)

behind {ℓ} :
    {A : Type ℓ} {x a y : A} {ys zs : List A}
    → (Memᴰ x (a ∷ ys) → Memᴰ x zs)
    → Memᴰ x (a ∷ y ∷ ys)
    → Memᴰ x (y ∷ zs)
behind rest (Memᴰ.head e) = Memᴰ.tail (rest (Memᴰ.head e))
behind rest (Memᴰ.tail (Memᴰ.head e)) = Memᴰ.head e
behind rest (Memᴰ.tail (Memᴰ.tail m)) = Memᴰ.tail (rest (Memᴰ.tail m))

-- Sorting keeps every row.
insert_row-Memᴰ {ℓ} :
    {A : Type ℓ} (before : A → A → Bool) (a : A) (xs : List A) {x : A}
    → Memᴰ x (a ∷ xs)
    → Memᴰ x (insert_row before a xs)
insert_row-Memᴰ before a [] m = m
insert_row-Memᴰ before a (y ∷ ys) {x} m =
    let placed = λ (b : Bool). if b then a ∷ y ∷ ys else y ∷ insert_row before a ys in
    elim (Bool-cases (before a y)) [
      | inl t ↦ subst (λ b. Memᴰ x (placed b)) (sym t) m
      | inr f ↦ subst (λ b. Memᴰ x (placed b)) (sym f) (behind (insert_row-Memᴰ before a ys) m)
    ]

order_by-Memᴰ {ℓ} :
    {A : Type ℓ} (before : A → A → Bool) (xs : List A) {x : A}
    → Memᴰ x xs
    → Memᴰ x (order_by before xs)
unfolding order_by
order_by-Memᴰ before [] m = m
order_by-Memᴰ before (y ∷ ys) (Memᴰ.head e) =
    insert_row-Memᴰ before y (order_by before ys) (Memᴰ.head e)
order_by-Memᴰ before (y ∷ ys) (Memᴰ.tail m) =
    insert_row-Memᴰ before y (order_by before ys) (Memᴰ.tail (order_by-Memᴰ before ys m))

-- After a recovery, every running job whose lease has passed has an unstopped process.
pub recover_expired_complete :
    (env : Env) (now n : ℕ) (r : Recovered) (db db' : Db)
    → recover_expired env now db ≡ ok ((r, n), db')
    → All (λ j. is_expired now j ≡ true → is_some (process_of j db') ≡ true) db'.jobs
unfolding process_of
recover_expired_complete env now n r db db' h =
    All-map (λ j w e. elim (w e) [ inl s ↦ s | inr m ↦ elim m [ ] ]) db'.jobs
      (Post-ok
        (recover_expired-Kept (AllWaiting now) now
          (λ x rest js ps p e all. All-map (hold-Waiting now x rest ps p e) js all)
          (λ x rest js ps _ s all. expire-Waiting now x rest js ps s all) env db
          (All-of_Memᴰ _ db.jobs (λ j m e. inr (
            order_by-Memᴰ _ (select (is_expired now) db.jobs)
              (Memᴰ-select (is_expired now) db.jobs e m)))))
        h)

-- A recovery leaves the row of a job whose attempt has an unstopped process as it is.
pub recover_expired-leaves :
    (env : Env) (now n : ℕ) (r : Recovered) (j : Job) (p : ExternalProcess) (db db' : Db)
    → Memᴰ j db.jobs
    → process_of j db ≡ some p
    → recover_expired env now db ≡ ok ((r, n), db')
    → Memᴰ j db'.jobs
unfolding process_of
recover_expired-leaves env now n r j p db db' m e h =
    (Post-ok
      (recover_expired-Kept (IsLeft j p) now (λ x rest js ps _ _ g. g)
        (λ x rest js ps none_left _ g. expire-Left j p now x rest js ps none_left g) env db (m, e))
      h).0
