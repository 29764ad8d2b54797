-- ===== src/Store/Resources.antt =====
-- storage.py: leases of standalone resources, `acquire_resource`, `heartbeat_resource` and
-- `release_resource`.
use python_ai_agent_flow.Prelude.{
  ℕ, ◌+◌, String, Option, none, some, Bool, true, false, not, ◌&&◌, ◌||◌, List, [], ◌∷◌, find,
  length, is_some, ltb, leb, eqb, ◌==◌, nat_eq, string_eq, value_error, lease_conflict,
}
use python_ai_agent_flow.Prelude.Texts.{codes, strip, starts_with}
use python_ai_agent_flow.Store.Rows.{ResourceLease, Event, Datum}
use python_ai_agent_flow.Store.Plan.{same_codes}
use python_ai_agent_flow.Store.Enqueue.{is_blank}
use python_ai_agent_flow.Store.Tx.{
  Tx, pure, select_from, conflict_if, insert_lease, update_leases, delete_leases, append_event,
  if◌then◌else◌, ◌>>=◌, ◌>>◌,
}

-- Whether a text has no control character (`unicodedata.category`) and matches no pattern of a
-- credential (`re`).
abbrev pub TextScan : Type 0
TextScan = String → Bool

-- The length and the white space that the checks of texts allow.
unfoldable pub is_bounded : ℕ → String → Bool
is_bounded limit s =
    not (is_blank s) && (same_codes (strip (codes s)) (codes s) && leb (length (codes s)) limit)

module _ (scan : TextScan) where
  -- _reject_registered_resource_alias, _reject_unsafe_collector_text and _operator_text
  unfoldable pub check_texts : String → String → Tx (Unit {0})
  check_texts key owner = do
    conflict_if (starts_with (strip (codes key)) (codes "res_")) value_error
    conflict_if (not (is_bounded 16384 key && scan key)) value_error
    conflict_if (not (is_bounded 256 owner && scan owner)) value_error

-- `resource_key = ? AND lease_slot = 1`
abbrev pub is_first_slot : String → ResourceLease → Bool
is_first_slot key l = l.resource_key == key && l.lease_slot == 1

abbrev resource_event : String → String → List (String × Datum) → ℕ → Event
resource_event kind owner details now = record {
  event_kind = kind;
  campaign_id = none;
  work_item_id = none;
  job_id = none;
  actor = some owner;
  event_data = details;
  created_at = now;
}

abbrev slot_data : String → List (String × Datum)
slot_data key = ("resource_key", Datum.text key) ∷ ("lease_slot", Datum.number 1) ∷ []

-- The row of a standalone lease.
abbrev pub standalone : String → String → String → ℕ → ℕ → ResourceLease
standalone key owner token now expires = record {
  resource_key = key;
  lease_slot = 1;
  resource_definition_id = none;
  resource_identity_hash = none;
  owner_id = owner;
  job_id = none;
  lease_token = token;
  acquired_at = now;
  heartbeat_at = now;
  expires_at = expires;
}

unfoldable pub insert_standalone : ResourceLease → ℕ → Tx (Option ResourceLease)
insert_standalone l now = do
  insert_lease l
  append_event (
      resource_event "resource.acquired" l.owner_id
        (("resource_key", Datum.text l.resource_key)
          ∷ ("lease_slot", Datum.number 1)
          ∷ ("expires_at", Datum.number l.expires_at)
          ∷ [])
        now)
  select_from (λ db. find (is_first_slot l.resource_key) db.resource_leases)

-- The lease is taken if it is free, or if a standalone one has expired.
unfoldable pub acquire_over : ResourceLease → ℕ → Option ResourceLease → Tx (Option ResourceLease)
acquire_over l now none = insert_standalone l now
acquire_over l now (some existing) =
    if is_some existing.job_id || ltb now existing.expires_at then pure none else do
      _ ← delete_leases (is_first_slot l.resource_key)
      append_event
          (resource_event "resource.lease_expired" l.owner_id (slot_data l.resource_key) now)
      insert_standalone l now

-- acquire_resource; the token is drawn by the caller.
unfoldable pub acquire_resource :
    TextScan → String → String → String → ℕ → Option String → ℕ → Tx (Option ResourceLease)
acquire_resource scan key owner token lease_seconds job_id now = do
  conflict_if (leb lease_seconds 0) value_error
  conflict_if (is_some job_id) value_error
  check_texts scan key owner
  existing ← select_from (λ db. find (is_first_slot key) db.resource_leases)
  acquire_over (standalone key owner token now (now + lease_seconds)) now existing

abbrev is_job_bound : Option ResourceLease → Bool
is_job_bound none = false
is_job_bound (some l) = is_some l.job_id

-- `owner_id = ? AND lease_token = ?` of the first slot.
abbrev pub is_held_slot : String → String → String → ResourceLease → Bool
is_held_slot key owner token l =
    is_first_slot key l && (l.owner_id == owner && l.lease_token == token)

-- The event of a lease, if a row changed; answers whether one did.
unfoldable pub report_change : ℕ → Event → Tx Bool
report_change changed event =
    if not (eqb changed 1) then pure false else do append_event event; pure true

-- heartbeat_resource
unfoldable pub heartbeat_resource : TextScan → String → String → String → ℕ → ℕ → Tx Bool
heartbeat_resource scan key owner token lease_seconds now = do
  conflict_if (leb lease_seconds 0) value_error
  check_texts scan key owner
  existing ← select_from (λ db. find (is_first_slot key) db.resource_leases)
  conflict_if (is_job_bound existing) lease_conflict
  changed ←
      update_leases (λ l. is_held_slot key owner token l && ltb now l.expires_at)
        (λ l. record l { heartbeat_at = now; expires_at = now + lease_seconds })
  report_change changed (
      resource_event "resource.heartbeat" owner
        (("resource_key", Datum.text key)
          ∷ ("lease_slot", Datum.number 1)
          ∷ ("expires_at", Datum.number (now + lease_seconds))
          ∷ [])
        now)

-- release_resource
unfoldable pub release_resource : TextScan → String → String → String → ℕ → Tx Bool
release_resource scan key owner token now = do
  check_texts scan key owner
  existing ← select_from (λ db. find (is_first_slot key) db.resource_leases)
  conflict_if (is_job_bound existing) lease_conflict
  changed ← delete_leases (is_held_slot key owner token)
  report_change changed (resource_event "resource.released" owner (slot_data key) now)
