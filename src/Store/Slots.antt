-- ===== src/Store/Slots.antt =====
-- storage.py: the slots that `_resource_claim_plan` picks.
use python_ai_agent_flow.Prelude.{
  ℕ, zero, suc, ◌+◌, ◌≤◌, ◌<◌, String, Option, none, some, Bool, true, false, ◌≡◌, refl, sym, ap,
  ◌∙◌, subst, arith, List, [], ◌∷◌, map, All, mem, Bool-cases, Option-cases, some_injective, eqb,
  eqb_iff, inl, inr, ◌⊎◌, ◌==◌, option_eq, nat_eq, string_eq,
}
use python_ai_agent_flow.Prelude.Texts.{codes, is_hex_id, starts_with}
use python_ai_agent_flow.Store.Rows.{Db, Job, DefinitionRow, Definition}
use python_ai_agent_flow.Store.Env.{Env}
use python_ai_agent_flow.Store.Fences.{definition_by_id, is_in_scope}
use python_ai_agent_flow.Store.Lifecycle.{cond}
use python_ai_agent_flow.Store.Plan.{
  Planned, limit_of, held_slots, next_slot, plan_at, plan_slot, plan_definition, plan_row,
  plan_resource, is_padded_id, names_definition, add_planned, resource_claim_plan, res_prefix,
}

-- The slot that is picked is in the range, and not held.
next_slot-some :
    (n slot : ℕ) (held : List ℕ) (k : ℕ)
    → next_slot n slot held ≡ some k
    → (slot ≤ k) × (k < slot + n) × (mem k held ≡ false)
unfolding next_slot
next_slot-some zero slot held k h = cc
next_slot-some (suc n) slot held k h =
    let picked = λ (b : Bool). cond b (next_slot n (suc slot) held) (some slot) ≡ some k in
    elim (Bool-cases (mem slot held)) [
      | inl t ↦
          let (a, b, c) = next_slot-some n (suc slot) held k (subst picked t h) in
          (omega arith, omega arith, c)
      | inr f ↦
          let e = some_injective (subst picked f h) in
          (omega arith, omega arith, subst (λ s. mem s held ≡ false) e f)
    ]

some_is_not_none {ℓ} : {A : Type ℓ} {a : A} → ¬ (some a ≡ none)
some_is_not_none h = cc

none_is_not_some {ℓ} : {A : Type ℓ} {a : A} → ¬ (none ≡ some a)
none_is_not_some h = cc

-- No slot is picked only where every slot of the range is held.
next_slot-none :
    (n slot : ℕ) (held : List ℕ)
    → next_slot n slot held ≡ none
    → (k : ℕ) → slot ≤ k
    → k < slot + n
    → mem k held ≡ true
unfolding next_slot
next_slot-none zero slot held h k lo hi = ground arith
next_slot-none (suc n) slot held h k lo hi =
    let picked = λ (b : Bool). cond b (next_slot n (suc slot) held) (some slot) ≡ none in
    elim (Bool-cases (mem slot held)) [
      | inl t ↦ elim (Bool-cases (eqb slot k)) [
        | inl e ↦ subst (λ s. mem s held ≡ true) ((eqb_iff slot k).0 e) t
        | inr ne ↦
            next_slot-none n (suc slot) held (subst picked t h) k (ground (arith, ne, lo))
              (omega arith)
      ]
      | inr f ↦ absurd (some_is_not_none (subst picked f h))
    ]

-- The slot is free, and within the limit of the definition that is given.
abbrev IsPicked : Db → Option Definition → Planned → Type 0
IsPicked db d p =
    (1 ≤ p.lease_slot)
    × (p.lease_slot ≤ limit_of d)
    × (mem p.lease_slot (held_slots p.resource_key db) ≡ false)
    × (p.definition ≡ d)

-- The registered row of the resource is enabled and valid, its definition is for the job's campaign
-- or for all, and the slot is within the limit that the definition has.
abbrev pub IsRegistered : Env → Job → Db → Planned → Type 0
IsRegistered env job db p =
    (row : DefinitionRow) × (d : Definition) × (definition_by_id (some p.resource_key) db
      ≡ some row)
    × (row.enabled ≡ true)
    × (env.validated row ≡ some d)
    × ((d.campaign_id ≡ none) ⊎ (d.campaign_id ≡ some job.campaign_id))
    × (p.lease_slot ≤ d.limit)
    × (p.definition ≡ some d)

-- A key that names no definition has the one slot.
abbrev pub IsUnregistered : Planned → Type 0
IsUnregistered p =
    (starts_with (codes p.resource_key) (codes "res_") ≡ false)
    × (p.lease_slot ≤ 1)
    × (p.definition ≡ none)

abbrev pub IsFreeSlot : Env → Job → Db → Planned → Type 0
IsFreeSlot env job db p =
    (1 ≤ p.lease_slot)
    × (mem p.lease_slot (held_slots p.resource_key db) ≡ false)
    × (IsUnregistered p ⊎ IsRegistered env job db p)

module _ (db : Db) where
  plan_at-Picked :
      (key : String) (d : Option Definition) (o : Option ℕ) (p : Planned)
      → next_slot (limit_of d) 1 (held_slots key db) ≡ o
      → plan_at key d o ≡ some p
      → IsPicked db d p × (p.resource_key ≡ key)
  plan_at-Picked key d none p e h = cc
  plan_at-Picked key d (some k) p e h =
      let (a, b, c) = next_slot-some (limit_of d) 1 (held_slots key db) k e in
      subst (λ q. IsPicked db d q × (q.resource_key ≡ key)) (some_injective h)
        ((a, omega arith, c, refl), refl)

  plan_slot-Picked :
      (key : String) (d : Option Definition) (p : Planned)
      → plan_slot key d db ≡ some p
      → IsPicked db d p × (p.resource_key ≡ key)
  unfolding plan_slot
  plan_slot-Picked key d p h = plan_at-Picked key d _ p refl h

  -- A resource is refused a slot only where all its slots are held.
  pub plan_slot-full :
      (key : String) (d : Option Definition)
      → plan_slot key d db ≡ none
      → (k : ℕ) → 1 ≤ k
      → k ≤ limit_of d
      → mem k (held_slots key db) ≡ true
  unfolding plan_slot
  plan_slot-full key d h k lo hi =
      elim (Option-cases (next_slot (limit_of d) 1 (held_slots key db))) [
        | inr n ↦ next_slot-none (limit_of d) 1 (held_slots key db) n k lo (omega arith)
        | inl (s, e) ↦ absurd (some_is_not_none (ap (plan_at key d) (sym e) ∙ h))
      ]

  module _ (env : Env) (job : Job) where
    in_scope :
        (d : Definition)
        → is_in_scope d job ≡ true
        → (d.campaign_id ≡ none) ⊎ (d.campaign_id ≡ some job.campaign_id)
    in_scope d h = elim (Bool-cases (d.campaign_id == none)) [
      | inl t ↦ inl ((option_eq.equals_iff d.campaign_id none).0 t)
      | inr f ↦
          inr ((option_eq.equals_iff d.campaign_id (some job.campaign_id)).0 (ground (arith, f, h)))
    ]

    cond-some :
        {A : Type 0} (b : Bool) (o : Option A) {a : A}
        → cond b o none ≡ some a
        → (b ≡ true) × (o ≡ some a)
    cond-some true o h = (refl, h)
    cond-some false o h = cc

    plan_definition-Free :
        (key : String) (row : DefinitionRow) (o : Option Definition) (p : Planned)
        → definition_by_id (some key) db ≡ some row
        → row.enabled ≡ true
        → env.validated row ≡ o
        → plan_definition env job key db o ≡ some p
        → IsFreeSlot env job db p × (p.resource_key ≡ key)
    plan_definition-Free key row none p at_key enabled valid h = cc
    plan_definition-Free key row (some d) p at_key enabled valid h =
        let (scope, slot) = cond-some (is_in_scope d job) (plan_slot key (some d) db) h in
        let ((a, b, c, e), same) = plan_slot-Picked key (some d) p slot in
        (
          (
            a,
            c,
            inr (
              row,
              d,
              ap (λ k. definition_by_id (some k) db) same ∙ at_key,
              enabled,
              valid,
              in_scope d scope,
              b,
              e,
            ),
          ),
          same,
        )

    plan_row-Free :
        (key : String) (o : Option DefinitionRow) (p : Planned)
        → definition_by_id (some key) db ≡ o
        → plan_row env job key db o ≡ some p
        → IsFreeSlot env job db p × (p.resource_key ≡ key)
    plan_row-Free key none p e h = cc
    plan_row-Free key (some row) p e h =
        let (enabled, rest) =
          cond-some row.enabled (plan_definition env job key db (env.validated row)) h in
        plan_definition-Free key row (env.validated row) p e enabled refl rest

    unregistered :
        (key : String) (p : Planned)
        → starts_with (codes key) (codes "res_") ≡ false
        → plan_slot key none db ≡ some p
        → IsFreeSlot env job db p × (p.resource_key ≡ key)
    unregistered key p plain h =
        let ((a, b, c, e), same) = plan_slot-Picked key none p h in
        ((a, c, inl (ap (λ k. starts_with (codes k) (codes "res_")) same ∙ plain, b, e)), same)

    known_or :
        (key : String) (a b c : Bool) (o o' : Option Planned) (p : Planned)
        → ((o ≡ some p) → IsFreeSlot env job db p × (p.resource_key ≡ key))
        → (b ≡ false → o' ≡ some p → IsFreeSlot env job db p × (p.resource_key ≡ key))
        → cond a none (cond b (cond c o none) o') ≡ some p
        → IsFreeSlot env job db p × (p.resource_key ≡ key)
    known_or key true b c o o' p f g h = cc
    known_or key false true true o o' p f g h = f h
    known_or key false true false o o' p f g h = cc
    known_or key false false c o o' p f g h = g refl h

    plan_resource-Free :
        (key : String) (p : Planned)
        → plan_resource env job key db ≡ some p
        → IsFreeSlot env job db p × (p.resource_key ≡ key)
    unfolding plan_resource names_definition
    plan_resource-Free key p h =
        known_or key (is_padded_id key) (names_definition key) (is_hex_id res_prefix (codes key)) _
          _ p (plan_row-Free key _ p refl) (unregistered key p) h

    added :
        (key : String) (keys : List String) (o : Option Planned) (rest : Option (List Planned))
        (plan : List Planned)
        → ((p : Planned) → o ≡ some p → IsFreeSlot env job db p × (p.resource_key ≡ key))
        → ((ps : List Planned)
            → rest ≡ some ps
            → All (IsFreeSlot env job db) ps × (map (λ p. p.resource_key) ps ≡ keys))
        → add_planned o rest ≡ some plan
        → All (IsFreeSlot env job db) plan × (map (λ p. p.resource_key) plan ≡ key ∷ keys)
    added key keys none rest plan f g h = cc
    added key keys (some p) none plan f g h = cc
    added key keys (some p) (some ps) plan f g h =
        let (a, e) = f p refl in
        let (b, e') = g ps refl in
        subst (λ q. All (IsFreeSlot env job db) q × (map (λ p. p.resource_key) q ≡ key ∷ keys))
          (some_injective h) ((a, b), rw e (ap (◌∷◌ key) e'))

-- A plan gives each required resource, in order, a slot from 1 on that no lease holds. Where the key
-- names a definition, its registered row is enabled and valid, the definition is for the job's
-- campaign or for all, and the slot is within the definition's limit; else the slot is the first.
pub resource_claim_plan-IsFreeSlot :
    (env : Env) (job : Job) (keys : List String) (db : Db) (plan : List Planned)
    → resource_claim_plan env job keys db ≡ some plan
    → All (IsFreeSlot env job db) plan × (map (λ p. p.resource_key) plan ≡ keys)
unfolding resource_claim_plan
resource_claim_plan-IsFreeSlot env job [] db plan h =
    subst (λ q. All (IsFreeSlot env job db) q × (map (λ p. p.resource_key) q ≡ []))
      (some_injective h) (tt, refl)
resource_claim_plan-IsFreeSlot env job (key ∷ keys) db plan h =
    added db env job key keys (plan_resource env job key db) (resource_claim_plan env job keys db)
      plan (plan_resource-Free db env job key) (resource_claim_plan-IsFreeSlot env job keys db) h
