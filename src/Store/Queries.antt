-- ===== src/Store/Queries.antt =====
-- storage.py: `ORDER BY`, `LIMIT 1`, and the comparisons of SQL and Python with NULL and None.
use Prim.Native.String.{compare}
use Prim.Native.Nat.{Ordering}
use python_ai_agent_flow.Prelude.{
  ℕ, String, Option, none, some, Bool, true, false, List, [], ◌∷◌, ltb, leb, ◌&&◌, ◌||◌, ◌==◌,
  nat_eq, string_eq, if◌then◌else◌,
}

module _ {ℓ} {A : Type ℓ} (before : A → A → Bool) where
  -- The row goes in front of the first row that it comes before.
  abbrev pub insert_row : A → List A → List A
  insert_row a [] = a ∷ []
  insert_row a (x ∷ xs) = if before a x then a ∷ x ∷ xs else x ∷ insert_row a xs

  unfoldable pub order_by : List A → List A
  order_by [] = []
  order_by (x ∷ xs) = insert_row x (order_by xs)

-- `LIMIT 1`
abbrev pub first {ℓ} : {A : Type ℓ} → List A → Option A
first [] = none
first (x ∷ xs) = some x

-- `a < b` of two texts, as SQLite's BINARY collation compares them.
abbrev pub text_before : String → String → Bool
text_before a b = elim (compare a b) [ Ordering.lt ↦ true | _ ↦ false ]

-- `ORDER BY key, id`, and `ORDER BY key DESC, id DESC`.
abbrev pub ascending : ℕ → String → ℕ → String → Bool
ascending k a l b = ltb k l || (k == l && text_before a b)

abbrev pub descending : ℕ → String → ℕ → String → Bool
descending k a l b = ltb l k || (k == l && text_before b a)

-- `ORDER BY resource_key, lease_slot`
abbrev pub ascending_key : String → ℕ → String → ℕ → Bool
ascending_key a k b l = text_before a b || (a == b && ltb k l)

-- `column <= now` in SQL: NULL is not.
abbrev pub at_most : Option ℕ → ℕ → Bool
at_most none now = false
at_most (some t) now = leb t now

-- `row["lease_expires_at"] <= now` in Python, where a running row has an expiry.
abbrev pub has_passed : Option ℕ → ℕ → Bool
has_passed none now = true
has_passed (some t) now = leb t now
