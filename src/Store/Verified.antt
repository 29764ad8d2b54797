-- ===== src/Store/Verified.antt =====
-- storage.py: what it takes for `commit_stage_result` to make an item VERIFIED_GREEN.
use python_ai_agent_flow.Prelude.{
  ℕ, String, Option, some, some_injective, Bool, true, false, not, ◌⊎◌, inl, inr, ◌≡◌, ◌≢◌, refl,
  sym, ap, ◌∙◌, arith, List, All, find, mem, ◌==◌, string_eq, ok, not_found, value_error,
  transition_conflict,
}
use python_ai_agent_flow.Models.Enums.{
  WorkerRole, ItemState, item_state_eq, GateKind, GateDecision, InvestigationOutcome, FixOutcome,
}
use python_ai_agent_flow.Models.Evidence.{get, is_true}
use python_ai_agent_flow.Models.Handoffs.{
  TestHandoff, validate_investigation, validate_fix, model_validate,
}
use python_ai_agent_flow.Models.Gates.{GateEvaluation, evaluate_test_handoff}
use python_ai_agent_flow.Models.Gates.Green.{IsProven, green-IsProven}
use python_ai_agent_flow.Models.Gates.Decisions.{state_of, evaluation_consistent}
use python_ai_agent_flow.Store.Rows.{Db, Campaign, WorkItem, Job, Datum}
use python_ai_agent_flow.Store.Env.{Env}
use python_ai_agent_flow.Store.Fences.{
  assert_live_lease, assert_no_pending_operator_interrupt, assert_attempt_focused_test_admission,
}
use python_ai_agent_flow.Store.Stage.{
  Handoff, StageEnv, after_investigation, after_fix, counted_handoff, judge_test, judge,
  validate_stage_result, as_test,
}
use python_ai_agent_flow.Store.Enqueue.{NewJob}
use python_ai_agent_flow.Store.Commit.{stage_next_states, commit_stage_result}
use python_ai_agent_flow.Store.Stale.{IsHeld, assert_live_lease-Post, assert_no_interrupt-Post}
use python_ai_agent_flow.Store.Unchanged.{admission-Post}
use python_ai_agent_flow.Store.Tx.Post.{
  Post, Post-pure, Post-raise, Post-require, Post-any, Post-read, Post-need, Post-guard, Post-lift,
  Post-same, Post-if, Post-ok,
}

-- The test handoff that counts: what the worker submitted, where the campaign allows simulation,
-- else what the persisted executions of the job's attempt give.
abbrev pub IsCounted : StageEnv → Job → Db → Bool → List GateKind → Handoff → TestHandoff → Type 0
IsCounted env job db allow gates submitted t =
    ((allow ≡ true) × (submitted ≡ Handoff.test t))
    ⊎ ((allow ≡ false) × (env.canonical_handoff db job gates ≡ some t))

-- The handoff that counts for the job's campaign and item proves every gate that the item requires.
abbrev pub IsProvenFor : StageEnv → Job → Db → Handoff → Handoff → Type 0
IsProvenFor env job db submitted r =
    (campaign : Campaign) × (item : WorkItem) × (t : TestHandoff) × (r ≡ Handoff.test t)
    × (find (λ c. c.id == job.campaign_id) db.campaigns ≡ some campaign)
    × (find (λ i. i.id == job.work_item_id) db.work_items ≡ some item)
    × IsCounted env job db (is_true (get "allow_simulated_evidence" campaign.config))
        item.required_gates submitted t
    × All (IsProven t) item.required_gates

submitted_test : (h : Handoff) {t : TestHandoff} → as_test h ≡ some t → h ≡ Handoff.test t
submitted_test (Handoff.investigation h) e = cc
submitted_test (Handoff.fix h) e = cc
submitted_test (Handoff.test h) e = ap Handoff.test (some_injective e)

green_state :
    (d : GateDecision)
    → some ItemState.verified_green ≡ state_of d
    → d ≡ GateDecision.verified_green
green_state d h = ground arith

-- An evaluation that names VERIFIED_GREEN rests on the proofs.
evaluation-Proven :
    (gates : List GateKind) (h : TestHandoff) (e : GateEvaluation) (next : ItemState)
    → model_validate h ≡ ok tt
    → evaluate_test_handoff gates h ≡ ok e
    → e.next_state ≡ some next
    → next ≡ ItemState.verified_green
    → All (IsProven h) gates
evaluation-Proven gates h e next valid ran found green = green-IsProven gates h valid ran (
    green_state e.decision
      (sym (ap some green) ∙ sym found ∙ (evaluation_consistent gates h ran).0))

module _ (env : StageEnv) (job : Job) (db : Db) where
  IsCounted-Post :
      (allow : Bool) (gates : List GateKind) (h : Handoff)
      → Post
          (λ t d. (d ≡ db) × IsCounted env job db allow gates h t)
          (counted_handoff env allow job gates h db)
  unfolding counted_handoff
  IsCounted-Post allow gates h =
      Post-if _ _ _ db
        (λ y. Post-require _ value_error db (λ t e. (refl, inl (y, submitted_test h e))))
        (λ n.
          Post-guard _ value_error _ db
            (λ _. Post-read _ _ db (Post-require _ value_error db (λ t e. (refl, inr (n, e))))))

  -- What a judgement that names VERIFIED_GREEN rests on, for the leave to simulate that is given.
  abbrev IsJudgedGreen : Bool → Handoff → Handoff → Type 0
  IsJudgedGreen allow h r =
      (item : WorkItem) × (t : TestHandoff) × (r ≡ Handoff.test t)
      × (find (λ i. i.id == job.work_item_id) db.work_items ≡ some item)
      × IsCounted env job db allow item.required_gates h t
      × All (IsProven t) item.required_gates

  abbrev IsJudged : Bool → Handoff → Handoff × ItemState → Db → Type 0
  IsJudged allow h r d = (d ≡ db) × (r.1 ≡ ItemState.verified_green → IsJudgedGreen allow h r.0)

  judge_test-Post :
      (allow : Bool) (h : Handoff) → Post (IsJudged allow h) (judge_test env allow job h db)
  unfolding judge_test
  judge_test-Post allow h = Post-read _ _ db (
      Post-need _ not_found _ db (λ item found.
        Post-same _ (counted_handoff env allow job item.required_gates h) _ db
          (IsCounted-Post allow item.required_gates h)
          (λ t counts. Post-lift (model_validate t) _ db (λ u valid.
            Post-lift (evaluate_test_handoff item.required_gates t) _ db (λ e ran.
              Post-need e.next_state value_error _ db (λ next named. Post-pure _ db (
                refl,
                λ green. (
                  item,
                  t,
                  refl,
                  found,
                  counts,
                  evaluation-Proven item.required_gates t e next valid ran named green,
                ),
              )))))))

  judge-Post :
      (allow : Bool) (role : WorkerRole) (h : Handoff)
      → Post (IsJudged allow h) (judge env allow job role h db)
  unfolding judge
  judge-Post allow WorkerRole.investigator (Handoff.investigation h) =
      Post-lift (validate_investigation h) _ db
        (λ _ _. Post-pure _ db (refl, λ green. absurd (investigated h.outcome green)))
    where
      investigated : (o : InvestigationOutcome) → after_investigation o ≢ ItemState.verified_green
      investigated InvestigationOutcome.blocked e = cc
      investigated InvestigationOutcome.ready_for_fix e = cc
  judge-Post allow WorkerRole.fixer (Handoff.fix h) =
      Post-lift (validate_fix h) _ db
        (λ _ _. Post-pure _ db (refl, λ green. absurd (fixed h.outcome green)))
    where
      fixed : (o : FixOutcome) → after_fix o ≢ ItemState.verified_green
      fixed FixOutcome.blocked e = cc
      fixed FixOutcome.ready_for_test e = cc
  judge-Post allow WorkerRole.tester h = judge_test-Post allow h
  judge-Post allow WorkerRole.investigator (Handoff.fix h) = Post-raise value_error db
  judge-Post allow WorkerRole.investigator (Handoff.test h) = Post-raise value_error db
  judge-Post allow WorkerRole.fixer (Handoff.investigation h) = Post-raise value_error db
  judge-Post allow WorkerRole.fixer (Handoff.test h) = Post-raise value_error db

  pub validated-Post :
      (h : Handoff) (next : ItemState)
      → Post
          (λ r d. (d ≡ db) × (next ≡ ItemState.verified_green → IsProvenFor env job db h r))
          (validate_stage_result env job h next db)
  unfolding validate_stage_result
  validated-Post h next = Post-read _ _ db (
      Post-need _ not_found _ db (λ campaign at_campaign.
        let allow = is_true (get "allow_simulated_evidence" campaign.config) in
        Post-same (λ r. r.1 ≡ ItemState.verified_green → IsJudgedGreen allow h r.0)
          (judge env _ job job.role h) _ db (judge-Post allow job.role h)
          (λ r proven. Post-guard _ value_error _ db (λ _.
            Post-guard (not (r.1 == next)) transition_conflict _ db (λ same.
              Post-guard _ value_error _ db (λ _. Post-pure _ db (
                refl,
                λ green.
                    let (item, t, e, at_item, counts, proofs) =
                      proven
                        ((item_state_eq.equals_iff r.1 next).0 (ground (arith, same)) ∙ green) in
                    (campaign, item, t, e, at_campaign, at_item, counts, proofs),
              )))))))

module _ (env : Env) (stage : StageEnv) (job_id worker token : String) (result : Handoff)
    (expected : ItemState) (kind : String) (details : List (String × Datum))
    (next_job : Option NewJob) (now : ℕ) (db : Db) where
  -- What the commit requires of the job and of its handoff, if it goes to this state.
  abbrev IsBacked : ItemState → Job → Type 0
  IsBacked next job =
      IsHeld db job_id worker token now job × (mem next (stage_next_states job.role) ≡ true)

  commit-Backed :
      (next : ItemState)
      → Post
          (λ _ _. (job : Job) × IsBacked next job)
          (commit_stage_result env stage job_id worker token result expected next kind details
            next_job now db)
  unfolding commit_stage_result
  commit-Backed next =
      Post-same _ (assert_live_lease job_id worker token now) _ db
        (assert_live_lease-Post job_id worker token now db)
        (λ job held.
          Post-same _ (assert_no_pending_operator_interrupt job_id) _ db
            (assert_no_interrupt-Post job_id db)
            (λ _ _.
              Post-same (λ _. Unit {0}) (assert_attempt_focused_test_admission env job) _ db
                (admission-Post env job db)
                (λ _ _. Post-guard _ transition_conflict _ db (λ _.
                  Post-guard (not (mem next (stage_next_states job.role))) transition_conflict _ db
                    (λ allowed. Post-any (λ _ _. (job, (held, ground (arith, allowed)))) _)))))

  -- A stage that is committed goes to a state that the role of its job may set.
  pub commit_stage_result-stage :
      (next : ItemState) (db' : Db)
      → commit_stage_result env stage job_id worker token result expected next kind details next_job
          now db
        ≡ ok (tt, db')
      → (job : Job) × IsHeld db job_id worker token now job
        × (mem next (stage_next_states job.role) ≡ true)
  commit_stage_result-stage next db' h =
      let (job, backed) = Post-ok (commit-Backed next) h in (job, backed.0, backed.1)
