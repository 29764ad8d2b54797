-- ===== src/Scheduler/Output/Accepted.antt =====
-- scheduler.py: what an accepted output is, and that the store admits its evidence.
use python_ai_agent_flow.Prelude.{
  String, Option, none, some, Bool, true, false, ◌&&◌, List, [], ◌∷◌, ◌++◌, all, ◌==◌, string_eq,
  ◌≡◌, ◌↔◌, refl, sym, ap, ◌∙◌, subst, arith, Bool-cases, inl, inr, ok, Result-cases, beq_refl,
}
use python_ai_agent_flow.Prelude.Texts.{codes, strip}
use python_ai_agent_flow.Models.Enums.{WorkerRole}
use python_ai_agent_flow.Models.Evidence.{Fields, Value, EvidenceRef, get}
use python_ai_agent_flow.Store.Stage.{Handoff, StageEnv, item_of, is_admissible, handoff_evidence}
use python_ai_agent_flow.Scheduler.Calls.{
  Failure, Outcome, returned, raised, Scheduler, pure, raise, if◌then◌else◌, continue, ◌>>=◌,
}
use python_ai_agent_flow.Scheduler.Calls.Post.{Post, Post-pure, Post-raise, Post-returned}
use python_ai_agent_flow.Scheduler.Output.{
  WorkerOutput, set_field, validate_handoff, unless_invalid, accept, validate_and_bind_output,
  walk_evidence, walk_proofs, walk_blocker, check_evidence, check_all,
  validate_evidence_attachments,
}

abbrev pub role_of : Handoff → WorkerRole
role_of (Handoff.investigation h) = WorkerRole.investigator
role_of (Handoff.fix h) = WorkerRole.fixer
role_of (Handoff.test h) = WorkerRole.tester

-- What `get` reads after an assignment.
get-set_field :
    (key : String) (v : Value) (fields : Fields) → get key (set_field key v fields) ≡ some v
unfolding get set_field
get-set_field key v Fields.end = rw (beq_refl key) refl
get-set_field key v (Fields.field k w rest) = elim (Bool-cases (k == key)) [
  | inl y ↦ rw y (rw y refl)
  | inr n ↦ rw n (rw n (get-set_field key v rest))
]

-- What pydantic documents of `model_validate`: the result is of the model, and a text without
-- spaces about it is the field of its name as it stands.
pub record ReadsFields (read : WorkerRole → Fields → Option Handoff) : Type 0 where
  pub role :
      (role : WorkerRole) (payload : Fields) (h : Handoff)
      → read role payload ≡ some h
      → role_of h ≡ role
  pub item :
      (role : WorkerRole) (payload : Fields) (h : Handoff) (id : String)
      → read role payload ≡ some h
      → get "item_id" payload ≡ some (Value.text id)
      → strip (codes id) ≡ codes id
      → item_of h ≡ id

abbrev IsBound : WorkerRole → String → Handoff → Type 0
IsBound role id h = (role_of h ≡ role) × (item_of h ≡ id) × (validate_handoff h ≡ ok tt)

module _ {S : Type 0} where
  abbrev Rejected : Failure → Scheduler S → Type 0
  Rejected f _ = f ≡ Failure.invalid_worker_output

  accepted-Post :
      (Q : Handoff → Type 0) (o : Option Handoff) (s : Scheduler S)
      → ((h : Handoff) → o ≡ some h → validate_handoff h ≡ ok tt → Q h)
      → Post (λ h _. Q h) Rejected (accept o s)
  unfolding accept
  accepted-Post Q none s k = Post-raise _ s refl
  accepted-Post Q (some h) s k = elim (Result-cases (validate_handoff h)) [
    | inl valid ↦
        subst (λ r. Post (λ h _. Q h) Rejected (unless_invalid h r s)) (sym valid.1)
          (Post-pure h s (k h refl valid.1))
    | inr invalid ↦
        subst (λ r. Post (λ h _. Q h) Rejected (unless_invalid h r s)) (sym invalid.1)
          (Post-raise _ s refl)
  ]

  bind-Post :
      (read : WorkerRole → Fields → Option Handoff)
      → ReadsFields read
      → (role : WorkerRole) (id : String) → strip (codes id) ≡ codes id
      → (output : WorkerOutput) (s : Scheduler S)
      → Post (λ h _. IsBound role id h) Rejected (validate_and_bind_output read role id output s)
  unfolding validate_and_bind_output
  bind-Post read reads role id clean WorkerOutput.unusable s = Post-raise _ s refl
  bind-Post read reads role id clean (WorkerOutput.mapping payload) s =
      let bound = set_field "item_id" (Value.text id) payload in
      accepted-Post (IsBound role id) (read role bound) s (λ h e valid. (
        reads.role role bound h e,
        reads.item role bound h id e (get-set_field "item_id" (Value.text id) payload) clean,
        valid,
      ))

-- An output that is accepted is a handoff of the claimed role that its validators pass, and it is
-- bound to the claimed item, whatever item the worker wrote in it.
pub validate_and_bind_output-IsBound :
    {S : Type 0} (read : WorkerRole → Fields → Option Handoff)
    → ReadsFields read
    → (role : WorkerRole) (id : String) → strip (codes id) ≡ codes id
    → (output : WorkerOutput) (s s' : Scheduler S) (h : Handoff)
    → validate_and_bind_output read role id output s ≡ (returned h, s')
    → (role_of h ≡ role) × (item_of h ≡ id) × (validate_handoff h ≡ ok tt)
validate_and_bind_output-IsBound read reads role id clean output s s' h =
    Post-returned (bind-Post read reads role id clean output s)

all-append :
    (p : EvidenceRef → Bool) (xs ys : List EvidenceRef) → all p (xs ++ ys) ≡ (all p xs && all p ys)
all-append p [] ys = refl
all-append p (x ∷ xs) ys = ground (arith, all-append p xs ys)

-- Both walks of a handoff find the same evidence.
same_walk :
    (p : EvidenceRef → Bool) (h : Handoff) → all p (walk_evidence h) ≡ all p (handoff_evidence h)
unfolding walk_evidence handoff_evidence
same_walk p (Handoff.investigation h) = refl
same_walk p (Handoff.fix h) = refl
same_walk p (Handoff.test h) = ground (
  arith,
  all-append p (walk_proofs h.gate_proofs) (walk_blocker h.blocker),
  all-append p (walk_blocker h.blocker) (walk_proofs h.gate_proofs),
)

module _ {S : Type 0} (env : StageEnv) (allow : Bool) where
  abbrev verdict : Bool → Scheduler S → Outcome (Unit {0}) × Scheduler S
  verdict true s = (returned tt, s)
  verdict false s = (raised Failure.invalid_worker_output, s)

  check_evidence-verdict :
      (e : EvidenceRef) (s : Scheduler S)
      → check_evidence env.is_attached allow e s ≡ verdict (is_admissible env allow e) s
  unfolding check_evidence if◌then◌else◌ pure raise
  check_evidence-verdict e s = ground arith

  check_all-verdict :
      (es : List EvidenceRef) (s : Scheduler S)
      → check_all env.is_attached allow es s ≡ verdict (all (is_admissible env allow) es) s
  unfolding ◌>>=◌ pure
  check_all-verdict [] s = refl
  check_all-verdict (e ∷ es) s =
      let rest = all (is_admissible env allow) es in
      ap (continue (λ _. check_all env.is_attached allow es)) (check_evidence-verdict e s)
      ∙ elim (Bool-cases (is_admissible env allow e)) [
        | inl y ↦
            ap (λ b. continue (λ _. check_all env.is_attached allow es) (verdict b s)) y
            ∙ check_all-verdict es s
            ∙ sym (ap (λ b. verdict (b && rest) s) y)
        | inr n ↦
            ap (λ b. continue (λ _. check_all env.is_attached allow es) (verdict b s)) n
            ∙ sym (ap (λ b. verdict (b && rest) s) n)
      ]

  -- A verdict that returns was a pass.
  verdict_passes : (b : Bool) (s s' : Scheduler S) → verdict b s ≡ (returned tt, s') → b ≡ true
  verdict_passes true s s' h = refl
  verdict_passes false s s' h = cc

-- The scheduler lets the evidence of a handoff through exactly where the store admits all of it,
-- with the same file system and the same leave for simulation; and it changes nothing.
pub validate_evidence_attachments_iff :
    {S : Type 0} (env : StageEnv) (allow : Bool) (h : Handoff) (s : Scheduler S)
    → (validate_evidence_attachments env.is_attached allow h s ≡ (returned tt, s))
      ↔ (all (is_admissible env allow) (handoff_evidence h) ≡ true)
unfolding validate_evidence_attachments
validate_evidence_attachments_iff env allow h s =
    let same = check_all-verdict env allow (walk_evidence h) s in
    let walk = same_walk (is_admissible env allow) h in
    (
      λ e. sym walk ∙ verdict_passes env allow _ s s (sym same ∙ e),
      λ e. same ∙ ap (λ b. verdict env allow b s) (walk ∙ e),
    )
