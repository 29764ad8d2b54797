-- ===== src/Store/Plan.antt =====
-- storage.py: `_resource_claim_plan`, which picks the slots of the resources that a job requires.
use python_ai_agent_flow.Prelude.{
  ℕ, zero, suc, String, Option, none, some, Bool, true, false, not, ◌&&◌, List, [], ◌∷◌, select,
  mem, ◌==◌, nat_eq, string_eq, option_eq,
}
use python_ai_agent_flow.Prelude.Texts.{codes, strip, starts_with, is_hex_id}
use python_ai_agent_flow.Store.Rows.{Db, Job, ResourceLease, DefinitionRow, Definition}
use python_ai_agent_flow.Store.Env.{Env}
use python_ai_agent_flow.Store.Fences.{definition_by_id, is_in_scope}
use python_ai_agent_flow.Store.Lifecycle.{cond}

-- A resource with the slot that it is leased at.
pub record Planned : Type 0 where
  pub resource_key : String
  pub lease_slot : ℕ
  pub definition : Option Definition

abbrev pub res_prefix : List ℕ
res_prefix = codes "res_"

abbrev pub same_codes : List ℕ → List ℕ → Bool
same_codes [] [] = true
same_codes (a ∷ xs) (b ∷ ys) = a == b && same_codes xs ys
same_codes _ _ = false

-- A definition's id with space around it.
unfoldable pub is_padded_id : String → Bool
is_padded_id key =
    starts_with (strip (codes key)) res_prefix && not (same_codes (strip (codes key)) (codes key))

-- `key.startswith(RESOURCE_DEFINITION_PREFIX)`
unfoldable pub names_definition : String → Bool
names_definition key = starts_with (codes key) res_prefix

abbrev pub limit_of : Option Definition → ℕ
limit_of none = 1
limit_of (some d) = d.limit

abbrev slots_of : List ResourceLease → List ℕ
slots_of [] = []
slots_of (l ∷ ls) = l.lease_slot ∷ slots_of ls

-- `held_slots`
unfoldable pub held_slots : String → Db → List ℕ
held_slots key db = slots_of (select (λ l. l.resource_key == key) db.resource_leases)

-- The first slot that is not held, of `n` slots from `slot` on.
unfoldable pub next_slot : ℕ → ℕ → List ℕ → Option ℕ
next_slot zero slot held = none
next_slot (suc n) slot held = cond (mem slot held) (next_slot n (suc slot) held) (some slot)

abbrev pub plan_at : String → Option Definition → Option ℕ → Option Planned
plan_at key d none = none
plan_at key d (some slot) = some record { resource_key = key; lease_slot = slot; definition = d }

-- The first free slot within the limit.
unfoldable pub plan_slot : String → Option Definition → Db → Option Planned
plan_slot key d db = plan_at key d (next_slot (limit_of d) 1 (held_slots key db))

abbrev pub add_planned : Option Planned → Option (List Planned) → Option (List Planned)
add_planned (some p) (some ps) = some (p ∷ ps)
add_planned _ _ = none

module _ (env : Env) (job : Job) where
  abbrev pub plan_definition : String → Db → Option Definition → Option Planned
  plan_definition key db none = none
  plan_definition key db (some d) = cond (is_in_scope d job) (plan_slot key (some d) db) none

  abbrev pub plan_row : String → Db → Option DefinitionRow → Option Planned
  plan_row key db none = none
  plan_row key db (some row) = cond row.enabled (plan_definition key db (env.validated row)) none

  -- One round of _resource_claim_plan.
  unfoldable pub plan_resource : String → Db → Option Planned
  plan_resource key db = cond (is_padded_id key) none (
      cond (names_definition key)
        (cond (is_hex_id res_prefix (codes key)) (plan_row key db (definition_by_id (some key) db))
          none)
        (plan_slot key none db))

  -- _resource_claim_plan
  unfoldable pub resource_claim_plan : List String → Db → Option (List Planned)
  resource_claim_plan [] db = some []
  resource_claim_plan (key ∷ keys) db =
      add_planned (plan_resource key db) (resource_claim_plan keys db)
