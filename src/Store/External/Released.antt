-- ===== src/Store/External/Released.antt =====
-- storage.py: what a job that a reconciliation gives back rests on, and what becomes of it.
use python_ai_agent_flow.Prelude.{
  ℕ, String, Option, none, some, Bool, true, false, not, ◌&&◌, ◌||◌, Bool-cases, inl, inr, List, [],
  ◌∷◌, Memᴰ, All, All-intro, All-update, select-Memᴰ, update, find-some, some_injective, is_some,
  if◌then◌else◌, ◌==◌, nat_eq, string_eq, option_eq, ◌≡◌, refl, sym, ap, ◌∙◌, subst, arith,
  lease_conflict, not_found, value_error, ok,
}
use python_ai_agent_flow.Prelude.Texts.{stripped}
use python_ai_agent_flow.Models.Enums.{JobStatus, job_status_eq}
use python_ai_agent_flow.Reconciler.Identity.{PersistedIdentity, ReconciliationStatus, Observed}
use python_ai_agent_flow.Store.Statuses.{ProcessState, process_state_eq}
use python_ai_agent_flow.Store.Rows.{Db, Job, ExternalProcess}
use python_ai_agent_flow.Store.Env.{Env}
use python_ai_agent_flow.Store.Queries.{insert_row, order_by, first}
use python_ai_agent_flow.Store.Fences.{recorded_later, job_by_id}
use python_ai_agent_flow.Store.Recover.{is_running_job, expired_row, expire_job_after_lease}
use python_ai_agent_flow.Store.Release.{Post-append_event}
use python_ai_agent_flow.Store.Recovery.Steps.{expire-Post}
use python_ai_agent_flow.Store.External.{
  is_claim, is_listed, is_not_expired, same_identity, persisted_identity, status_is_quarantined,
  stopped_row, Completion, claim_or_refusal, keep_quarantined, update_processes, release_stopped,
  complete_external_process_reconciliation,
}
use python_ai_agent_flow.Store.Tx.{if◌then◌else◌ as when}
use python_ai_agent_flow.Store.Tx.Post.{
  Post, Post-pure, Post-raise, Post-read, Post-need, Post-guard, Post-if, Post-bind, Post-then,
  Post-same, Post-ok,
}

-- The first of ordered rows is one of the rows.
behind {ℓ} :
    {A : Type ℓ} {x y z : A} {xs ys : List A}
    → (Memᴰ y xs → Memᴰ y (x ∷ ys))
    → Memᴰ y (z ∷ xs)
    → Memᴰ y (x ∷ z ∷ ys)
behind rest (Memᴰ.head e) = Memᴰ.tail (Memᴰ.head e)
behind rest (Memᴰ.tail n) = elim (rest n) [
  | Memᴰ.head e ↦ Memᴰ.head e
  | Memᴰ.tail k ↦ Memᴰ.tail (Memᴰ.tail k)
]

insert_row-from {ℓ} :
    {A : Type ℓ} (before : A → A → Bool) (x : A) (xs : List A) {y : A}
    → Memᴰ y (insert_row before x xs)
    → Memᴰ y (x ∷ xs)
insert_row-from before x [] m = m
insert_row-from before x (z ∷ zs) {y} m =
    let front = λ (b : Bool). if b then x ∷ z ∷ zs else z ∷ insert_row before x zs in
    elim (Bool-cases (before x z)) [
      | inl t ↦ subst (λ b. Memᴰ y (front b)) t m
      | inr f ↦ behind (insert_row-from before x zs) (subst (λ b. Memᴰ y (front b)) f m)
    ]

order_by-from {ℓ} :
    {A : Type ℓ} (before : A → A → Bool) (xs : List A) {y : A}
    → Memᴰ y (order_by before xs)
    → Memᴰ y xs
unfolding order_by
order_by-from before [] m = m
order_by-from before (x ∷ xs) m = elim (insert_row-from before x (order_by before xs) m) [
  | Memᴰ.head e ↦ Memᴰ.head e
  | Memᴰ.tail k ↦ Memᴰ.tail (order_by-from before xs k)
]

pub first-from {ℓ} :
    {A : Type ℓ} (before : A → A → Bool) (xs : List A) {y : A}
    → first (order_by before xs) ≡ some y
    → Memᴰ y xs
first-from before xs {y} h = order_by-from before xs (head_of (order_by before xs) h)
  where
    head_of : (ys : List _) → first ys ≡ some y → Memᴰ y ys
    head_of [] e = cc
    head_of (z ∷ zs) e = Memᴰ.head (sym (some_injective e))

-- A job runs the attempt of a process.
abbrev pub runs_attempt_of : ExternalProcess → Job → Bool
runs_attempt_of p j =
    j.id == p.job_id && (j.status == JobStatus.running && j.current_attempt_id == some p.attempt_id)

-- The rows with the id of a process are stopped.
abbrev pub AllStopped : ExternalProcess → List ExternalProcess → Type 0
AllStopped p ps = All (λ q. (q.id == p.id) ≡ true → q.state ≡ ProcessState.stopped) ps

abbrev pub AllReleased : ExternalProcess → List Job → List ExternalProcess → Type 0
AllReleased p js ps = AllStopped p ps × All (λ j. runs_attempt_of p j ≡ false) js

is_listed-stopped :
    (id : Bool) (p : ExternalProcess)
    → (id && is_listed true p) ≡ false
    → id ≡ true
    → p.state ≡ ProcessState.stopped
is_listed-stopped id p h t = listed p.state (ground arith)
  where
    listed :
        (s : ProcessState)
        → ((s == ProcessState.active)
            || ((s == ProcessState.legacy_unverifiable) || (s == ProcessState.quarantined)))
          ≡ false
        → s ≡ ProcessState.stopped
    listed ProcessState.active e = cc
    listed ProcessState.legacy_unverifiable e = cc
    listed ProcessState.quarantined e = cc
    listed ProcessState.stopped e = refl

stop-AllStopped :
    (p : ExternalProcess) (status : ReconciliationStatus) (now : ℕ) (ps : List ExternalProcess)
    → AllStopped p (update (λ q. q.id == p.id && is_listed true q) (stopped_row status now) ps)
stop-AllStopped p status now ps =
    All-update (λ q. (q.id == p.id) ≡ true → q.state ≡ ProcessState.stopped) _ _ ps (λ q _ _. refl)
      (All-intro _ (λ q f t. is_listed-stopped (q.id == p.id) q f t) ps)

same_attempt :
    (o c : Option String) (a : String) → c ≡ some a → (is_some o && o == c) ≡ (o == some a)
same_attempt none c a e = refl
same_attempt (some b) c a e = rw e refl

left_alone :
    (p : ExternalProcess) (job x : Job)
    → job.id ≡ p.job_id
    → job.current_attempt_id ≡ some p.attempt_id
    → is_running_job job x ≡ false
    → runs_attempt_of p x ≡ false
left_alone p job x same current h =
    let e = same_attempt x.current_attempt_id job.current_attempt_id p.attempt_id current in cc

expire-AllReleased :
    (p : ExternalProcess) (job : Job) (error : String) (now : ℕ)
    → job.id ≡ p.job_id
    → job.current_attempt_id ≡ some p.attempt_id
    → (js : List Job) (ps : List ExternalProcess) → AllStopped p ps
    → AllReleased p (update (is_running_job job) (expired_row error now) js) ps
expire-AllReleased p job error now same current js ps stopped = (
  stopped,
  All-update (λ j. runs_attempt_of p j ≡ false) (is_running_job job) (expired_row error now) js
      (λ x _. ground arith) (All-intro _ (λ x n. left_alone p job x same current n) js),
)

-- What the completion of a claim demands of the process and its job.
abbrev pub IsReleasable :
    String
    → String
    → String
    → PersistedIdentity
    → ReconciliationStatus
    → ℕ
    → Db
    → ExternalProcess
    → Type 0
IsReleasable attempt_id owner token expected status now db p =
    Memᴰ p db.external_processes
    × ((is_claim attempt_id owner token p ≡ true)
        × ((same_identity expected (persisted_identity p) ≡ true)
            × (status_is_quarantined status ≡ false)))

-- The job was given back.
abbrev pub IsReleased :
    String
    → String
    → String
    → PersistedIdentity
    → ReconciliationStatus
    → ℕ
    → Db
    → Completion
    → Db
    → Type 0
IsReleased attempt_id owner token expected status now db c db' =
    c.recovered ≡ true
    → (p : ExternalProcess) × ((c.job_id ≡ p.job_id)
        × (IsReleasable attempt_id owner token expected status now db p
            × AllReleased p db'.jobs db'.external_processes))

module _ (env : Env) (attempt_id owner token : String) (expected : PersistedIdentity)
    (status : ReconciliationStatus) (seen : Observed) (now : ℕ) (db0 : Db) where
  abbrev Outcome : Completion → Db → Type 0
  Outcome = IsReleased attempt_id owner token expected status now db0

  keep_quarantined-Post :
      (reason : String) (job : Job) (p : ExternalProcess) (db : Db)
      → Post Outcome (keep_quarantined job p attempt_id owner reason seen now db)
  unfolding keep_quarantined
  keep_quarantined-Post reason job p db = Post-then _ _ db (λ _ db1. Post-then _ _ db1 (λ _ db2.
      Post-then _ _ db2 (λ _ db3. Post-then _ _ db3 (λ _ db4. Post-pure _ db4 (λ e. cc)))))

  release_stopped-Post :
      (reason : String) (job : Job) (p : ExternalProcess)
      → IsReleasable attempt_id owner token expected status now db0 p
      → job.id ≡ p.job_id
      → job.current_attempt_id ≡ some p.attempt_id
      → (db : Db)
      → Post Outcome (release_stopped env job p attempt_id owner status reason seen now db)
  unfolding release_stopped update_processes
  release_stopped-Post reason job p known same current db = Post-guard _ lease_conflict _ db (λ _.
      Post-bind (λ _ d. AllStopped p d.external_processes) (update_processes _ _) _ db
        record { holds = stop-AllStopped p status now db.external_processes }
        (λ _ db1 h1. Post-guard _ lease_conflict _ db1 (λ _.
          Post-bind (λ _ d. AllStopped p d.external_processes) _ _ db1
            (Post-append_event _ db1 (λ es. h1))
            (λ _ db2 h2.
              Post-bind (λ _ d. AllReleased p d.jobs d.external_processes)
                (expire_job_after_lease env job _ _ now) _ db2
                (expire-Post (λ _ ps. AllStopped p ps) (AllReleased p) job _ now
                  (λ js ps _ h. expire-AllReleased p job _ now same current js ps h) env _ db2 h2)
                (λ _ db3 h3. Post-pure _ db3 (λ _. (p, (same, (known, h3)))))))))

  judged-Post :
      (reason : String) (job : Job) (p : ExternalProcess)
      → Memᴰ p db0.external_processes
      → is_claim attempt_id owner token p ≡ true
      → same_identity expected (persisted_identity p) ≡ true
      → job.id ≡ p.job_id
      → job.current_attempt_id ≡ some p.attempt_id
      → (db : Db)
      → Post Outcome (
          when
            (status_is_quarantined status)
            (keep_quarantined job p attempt_id owner reason seen now)
            (release_stopped env job p attempt_id owner status reason seen now)
            db)
  judged-Post reason job p m claim identity same current db =
      Post-if _ _ _ db (λ _. keep_quarantined-Post reason job p db)
        (λ q. release_stopped-Post reason job p (m, (claim, (identity, q))) same current db)

  claim_or_refusal-Post :
      (o : Option ExternalProcess) (db : Db)
      → Post (λ p d. (d ≡ db) × (o ≡ some p)) (claim_or_refusal attempt_id o db)
  unfolding claim_or_refusal
  claim_or_refusal-Post none db =
      Post-read _ _ db (Post-guard _ not_found _ db (λ _. Post-raise lease_conflict db))
  claim_or_refusal-Post (some p) db = Post-pure p db (refl, refl)

  known_claim :
      (p : ExternalProcess) (passed : Bool)
      → (not (is_claim attempt_id owner token p) || passed) ≡ false
      → is_claim attempt_id owner token p ≡ true
  known_claim p passed h = ground arith

  attempt_of :
      (p : ExternalProcess) (job : Job)
      → is_claim attempt_id owner token p ≡ true
      → is_not_expired attempt_id now job ≡ false
      → job.current_attempt_id ≡ some p.attempt_id
  attempt_of p job claim expired =
      (option_eq.equals_iff job.current_attempt_id (some attempt_id)).0 (ground arith)
      ∙ ap some (sym ((string_eq.equals_iff p.attempt_id attempt_id).0 (ground arith)))

  job_of :
      (p : ExternalProcess) (job : Job) (db : Db)
      → job_by_id p.job_id db ≡ some job
      → job.id ≡ p.job_id
  job_of p job db h =
      (string_eq.equals_iff job.id p.job_id).0 (find-some (λ j. j.id == p.job_id) db.jobs h).1

  same_identity_of : (b : Bool) → not b ≡ false → b ≡ true
  same_identity_of b h = ground arith

  complete-Post :
      (reason : String)
      → Post Outcome (
          complete_external_process_reconciliation env attempt_id owner token expected status reason
            seen now db0)
  unfolding complete_external_process_reconciliation
  complete-Post reason = Post-guard _ value_error _ db0 (λ _. Post-read _ _ db0 (
      Post-same _ (claim_or_refusal attempt_id _) _ db0 (claim_or_refusal-Post _ db0) (λ p found.
        let (m, _) =
          select-Memᴰ (is_claim attempt_id owner token) db0.external_processes
            (first-from recorded_later _ found) in
        Post-read _ _ db0 (
          Post-need _ not_found _ db0 (λ job at_id. Post-guard _ lease_conflict _ db0 (λ fence.
            Post-guard _ lease_conflict _ db0 (λ expired.
              Post-guard _ lease_conflict _ db0 (λ identity.
                let claim = known_claim p _ fence in
                judged-Post (stripped reason) job p m claim (same_identity_of _ identity)
                  (job_of p job db0 at_id) (attempt_of p job claim expired) db0))))))))

-- A job that a completion gives back had a process under the claim, still as it was when it was
-- examined, and the result was no quarantine; the process is stopped, and no row runs its attempt.
pub complete_external_process_reconciliation-IsReleased :
    (env : Env) (attempt_id owner token : String) (expected : PersistedIdentity)
    (status : ReconciliationStatus) (reason : String) (seen : Observed) (now : ℕ) (db db' : Db)
    (c : Completion)
    → complete_external_process_reconciliation env attempt_id owner token expected status reason
        seen now db
      ≡ ok (c, db')
    → IsReleased attempt_id owner token expected status now db c db'
complete_external_process_reconciliation-IsReleased env attempt_id owner token expected status
      reason seen now db db' c h =
    Post-ok (complete-Post env attempt_id owner token expected status seen now db reason) h
