-- ===== src/Models/Gates/Green.antt =====
-- models.py: when evaluate_test_handoff answers VERIFIED_GREEN.
use python_ai_agent_flow.Prelude.{
  ◌≡◌, refl, ◌↔◌, Option, none, some, true, false, not, List, [], ◌∷◌, Memᴰ, All, All-select_none,
  select_none-All, All-map, All-zip, All-Memᴰ, is_nonempty, not_nonempty, is_some, Option-cases, ap,
  ◌∙◌, inl, inr, mem, has_repeats, has_repeats-false, has_repeats-of_IsUnique, IsUnique, ok, arith,
}
use python_ai_agent_flow.Models.Enums.{
  GateKind, GateResult, TestOutcome, GateDecision, gate_kind_eq, evidence_kind_eq, gate_result_eq,
}
use python_ai_agent_flow.Models.Evidence.{EvidenceRef}
use python_ai_agent_flow.Models.Handoffs.{
  GateProof, TestHandoff, gate_evidence_kinds, incompatible, validate_proof, validate_proofs,
  model_validate,
}
use python_ai_agent_flow.Models.Gates.{
  GateEvaluation, proof_by_gate, has_result, missing_gates, gates_with, evaluate_test_handoff,
}

-- The proof that counts for the gate is a passing one.
abbrev pub Passes : List GateProof → GateKind → Type 0
Passes proofs g = (p : GateProof) × (proof_by_gate proofs g ≡ some p) × (p.result ≡ GateResult.pass)

-- What the three lists of the passing branch say of one gate.
IsClear-Passes :
    (o : Option GateProof)
    → not (is_some o) ≡ false
    → has_result GateResult.not_applicable o ≡ false
    → has_result GateResult.fail o ≡ false
    → (p : GateProof) × (o ≡ some p) × (p.result ≡ GateResult.pass)
IsClear-Passes none a b c = cc
IsClear-Passes (some p) a b c = (p, refl, ground arith)

Passes-IsClear :
    (o : Option GateProof)
    → (p : GateProof) × (o ≡ some p) × (p.result ≡ GateResult.pass)
    → (not (is_some o) ≡ false)
      × (has_result GateResult.not_applicable o ≡ false)
      × (has_result GateResult.fail o ≡ false)
Passes-IsClear o h = ground arith

module _ (required : List GateKind) (proofs : List GateProof) where
  clear-Passes :
      missing_gates required proofs ≡ []
      → gates_with GateResult.not_applicable required proofs ≡ []
      → gates_with GateResult.fail required proofs ≡ []
      → All (Passes proofs) required
  unfolding missing_gates gates_with
  clear-Passes a b c =
      All-map (λ g h. IsClear-Passes (proof_by_gate proofs g) h.0 h.1.0 h.1.1) required
        (All-zip _ _ required (All-select_none _ required a)
          (All-zip _ _ required (All-select_none _ required b) (All-select_none _ required c)))

  Passes-clear :
      All (Passes proofs) required
      → (missing_gates required proofs ≡ [])
        × (gates_with GateResult.not_applicable required proofs ≡ [])
        × (gates_with GateResult.fail required proofs ≡ [])
  unfolding missing_gates gates_with
  Passes-clear h = (
    select_none-All _ required (All-map (λ g k. (Passes-IsClear _ k).0) required h),
    select_none-All _ required (All-map (λ g k. (Passes-IsClear _ k).1) required h),
    select_none-All _ required (All-map (λ g k. (Passes-IsClear _ k).2) required h),
  )

-- An independent description of a green decision.
pub record IsGreen (required : List GateKind) (h : TestHandoff) : Type 0 where
  pub nonempty : is_nonempty required ≡ true
  pub unique : IsUnique required
  pub outcome : h.outcome ≡ TestOutcome.pass
  pub passes : All (Passes h.gate_proofs) required

module _ (required : List GateKind) (h : TestHandoff) {e : GateEvaluation} where
  green-parts :
      evaluate_test_handoff required h ≡ ok e
      → e.decision ≡ GateDecision.verified_green
      → (is_nonempty required ≡ true)
        × (has_repeats required ≡ false)
        × (h.outcome ≡ TestOutcome.pass)
        × (missing_gates required h.gate_proofs ≡ [])
        × (gates_with GateResult.not_applicable required h.gate_proofs ≡ [])
        × (gates_with GateResult.fail required h.gate_proofs ≡ [])
  unfolding evaluate_test_handoff
  green-parts ran green = ground (
    arith,
    not_nonempty (missing_gates required h.gate_proofs),
    not_nonempty (gates_with GateResult.not_applicable required h.gate_proofs),
    not_nonempty (gates_with GateResult.fail required h.gate_proofs),
  )

  decision-IsGreen :
      evaluate_test_handoff required h ≡ ok e
      → e.decision ≡ GateDecision.verified_green
      → IsGreen required h
  decision-IsGreen ran green =
      let (some_gate, once, passing, missing, skipped, failed) = green-parts ran green in
      record {
        nonempty = some_gate;
        unique = has_repeats-false required once;
        outcome = passing;
        passes = clear-Passes required h.gate_proofs missing skipped failed;
      }

  IsGreen-decision :
      evaluate_test_handoff required h ≡ ok e
      → IsGreen required h
      → e.decision ≡ GateDecision.verified_green
  unfolding evaluate_test_handoff
  IsGreen-decision ran g = ground (
    arith,
    has_repeats-of_IsUnique required g.unique,
    Passes-clear required h.gate_proofs g.passes,
    ran,
    g.nonempty,
    g.outcome,
  )

  -- An evaluation answers VERIFIED_GREEN exactly when the item requires at least one gate, no
  -- gate twice, the tester reports PASS, and the last proof of every required gate passes.
  pub verified_green_iff :
      evaluate_test_handoff required h ≡ ok e
      → (e.decision ≡ GateDecision.verified_green) ↔ IsGreen required h
  verified_green_iff ran = (decision-IsGreen ran, IsGreen-decision ran)

-- What a proof carries that its validator let through.
abbrev pub IsBacked : GateProof → Type 0
IsBacked p =
    (is_nonempty p.evidence ≡ true)
    × All (λ (r : EvidenceRef). mem r.kind (gate_evidence_kinds p.gate) ≡ true) p.evidence

compatible-All :
    (p : GateProof)
    → incompatible p ≡ []
    → All (λ (r : EvidenceRef). mem r.kind (gate_evidence_kinds p.gate) ≡ true) p.evidence
unfolding incompatible
compatible-All p h = All-map (λ r k. ground (arith, k)) p.evidence (All-select_none _ p.evidence h)

passing-IsBacked :
    (p : GateProof) → validate_proof p ≡ ok tt → p.result ≡ GateResult.pass → IsBacked p
unfolding validate_proof
passing-IsBacked p v r =
    (ground arith, compatible-All p (not_nonempty (incompatible p) (ground arith)))

-- The last proof of a gate is one of the proofs, and is a proof of that gate.
pub proof_by_gate-Memᴰ :
    (proofs : List GateProof) (g : GateKind) {p : GateProof}
    → proof_by_gate proofs g ≡ some p
    → Memᴰ p proofs × (p.gate ≡ g)
unfolding proof_by_gate
proof_by_gate-Memᴰ [] g h = cc
proof_by_gate-Memᴰ (q ∷ qs) g {p} h = elim (Option-cases (proof_by_gate qs g)) [
  | inl (r, found) ↦
      let later : proof_by_gate qs g ≡ some p = ground (arith, found) in
      let (m, e) = proof_by_gate-Memᴰ qs g later in (Memᴰ.tail m, e)
  | inr absent ↦
      let here : (q.gate ≡ g) × (p ≡ q) =
        ((gate_kind_eq.equals_iff q.gate g).0 (ground (arith, absent)), ground (arith, absent)) in
      (Memᴰ.head here.1, ap (λ (x : GateProof). x.gate) here.1 ∙ here.0)
]

validate_proofs-All :
    (proofs : List GateProof)
    → validate_proofs proofs ≡ ok tt
    → All (λ p. validate_proof p ≡ ok tt) proofs
unfolding validate_proofs
validate_proofs-All [] v = tt
validate_proofs-All (p ∷ ps) v = (ground arith, validate_proofs-All ps (ground arith))

module _ (h : TestHandoff) (valid : model_validate h ≡ ok tt) where
  nested_valid : validate_proofs h.gate_proofs ≡ ok tt
  unfolding model_validate
  nested_valid = ground (arith, valid)

-- The proofs that a handoff needs to carry for a gate of a green item.
abbrev pub IsProven : TestHandoff → GateKind → Type 0
IsProven h g =
    (p : GateProof) × Memᴰ p h.gate_proofs
    × (p.gate ≡ g)
    × (p.result ≡ GateResult.pass)
    × IsBacked p

-- If a handoff that pydantic accepts makes the item VERIFIED_GREEN, then it holds, for every
-- required gate, a passing proof of that gate with evidence attached, each piece of a kind that
-- the gate allows.
pub green-IsProven :
    (required : List GateKind) (h : TestHandoff) {e : GateEvaluation}
    → model_validate h ≡ ok tt
    → evaluate_test_handoff required h ≡ ok e
    → e.decision ≡ GateDecision.verified_green
    → All (IsProven h) required
green-IsProven required h valid ran green =
    All-map
      (λ g passing.
        let (p, found, result) = passing in
        let (m, at_gate) = proof_by_gate-Memᴰ h.gate_proofs g found in
        (
          p,
          m,
          at_gate,
          result,
          passing-IsBacked p
              (All-Memᴰ _ (validate_proofs-All h.gate_proofs (nested_valid h valid)) m) result,
        ))
      required (decision-IsGreen required h ran green).passes
