-- ===== src/Store/Tx/Post.antt =====
-- storage.py: postconditions of work on the database, for the runs that commit.
use python_ai_agent_flow.Prelude.{
  Option, none, some, Bool, true, false, List, [], ◌∷◌, ◌≡◌, refl, sym, subst, Error, Result, ok,
  err,
}
use python_ai_agent_flow.Store.Rows.{Db}
use python_ai_agent_flow.Store.Tx.{
  Tx, pure, raise, select_from, require, if◌then◌else◌, conflict_if, lift, proceed, ◌>>=◌, for_each,
}

abbrev Holds {ℓ} : {A : Type ℓ} → (A → Db → Type 0) → Result (A × Db) → Type 0
Holds Q (err e) = Unit
Holds Q (ok (a, db)) = Q a db

pub record Post {ℓ} {A : Type ℓ} (Q : A → Db → Type 0) (r : Result (A × Db)) : Type 0 where
  pub holds : Holds Q r

module _ {ℓ} {A : Type ℓ} {Q : A → Db → Type 0} where
  pub Post-pure : (a : A) (db : Db) → Q a db → Post Q (pure a db)
  unfolding pure
  Post-pure a db q = record { holds = q }

  pub Post-raise : (e : Error) (db : Db) → Post Q (raise {A = A} e db)
  unfolding raise
  Post-raise e db = record { holds = tt }

  pub Post-select_from : (f : Db → A) (db : Db) → Q (f db) db → Post Q (select_from f db)
  unfolding select_from
  Post-select_from f db q = record { holds = q }

  pub Post-require :
      (o : Option A) (e : Error) (db : Db)
      → ((a : A) → o ≡ some a → Q a db)
      → Post Q (require o e db)
  unfolding require
  Post-require none e db q = record { holds = tt }
  Post-require (some a) e db q = record { holds = q a refl }

  pub Post-if :
      (c : Bool) (m n : Tx A) (db : Db)
      → (c ≡ true → Post Q (m db))
      → (c ≡ false → Post Q (n db))
      → Post Q ((if c then m else n) db)
  unfolding if◌then◌else◌
  Post-if true m n db t f = t refl
  Post-if false m n db t f = f refl

  -- What is true of every outcome.
  pub Post-any : ((a : A) (db : Db) → Q a db) → (r : Result (A × Db)) → Post Q r
  Post-any q (err e) = record { holds = tt }
  Post-any q (ok (a, db)) = record { holds = q a db }

  -- A weaker postcondition.
  pub Post-map :
      (P : A → Db → Type 0) (r : Result (A × Db))
      → Post P r
      → ((a : A) (db : Db) → P a db → Q a db)
      → Post Q r
  Post-map P (err e) p f = record { holds = tt }
  Post-map P (ok (a, db)) p f = record { holds = f a db p.holds }

  pub Post-ok : {a : A} {db : Db} {r : Result (A × Db)} → Post Q r → r ≡ ok (a, db) → Q a db
  Post-ok p h = subst (Holds Q) h p.holds

pub Post-conflict_if :
    {Q : Unit {0} → Db → Type 0} (c : Bool) (e : Error) (db : Db)
    → (c ≡ false → Q tt db)
    → Post Q (conflict_if c e db)
unfolding conflict_if
Post-conflict_if true e db q = record { holds = tt }
Post-conflict_if false e db q = record { holds = q refl }

module _ {ℓ κ} {A : Type ℓ} {B : Type κ} where
  proceed-Post :
      (Q : B → Db → Type 0) (P : A → Db → Type 0) (f : A → Tx B) (r : Result (A × Db))
      → Post P r
      → ((a : A) (db : Db) → P a db → Post Q (f a db))
      → Post Q (proceed f r)
  proceed-Post Q P f (err e) p rest = record { holds = tt }
  proceed-Post Q P f (ok (a, db)) p rest = rest a db p.holds

  -- The rule for a step and what follows it.
  pub Post-bind :
      {Q : B → Db → Type 0} (P : A → Db → Type 0) (m : Tx A) (f : A → Tx B) (db : Db)
      → Post P (m db)
      → ((a : A) (db' : Db) → P a db' → Post Q (f a db'))
      → Post Q ((m >>= f) db)
  unfolding ◌>>=◌
  Post-bind {Q} P m f db p rest = proceed-Post Q P f (m db) p rest

-- A loop keeps what each round keeps.
pub Post-for_each {ℓ} :
    {A : Type ℓ} (I : Db → Type 0) (f : A → Tx (Unit {0})) (xs : List A) (db : Db)
    → ((x : A) (db' : Db) → I db' → Post (λ _. I) (f x db'))
    → I db
    → Post (λ _. I) (for_each f xs db)
unfolding for_each
Post-for_each I f [] db step h = Post-pure tt db h
Post-for_each I f (x ∷ xs) db step h =
    Post-bind (λ _. I) (f x) _ db (step x db h) (λ _ db' h'. Post-for_each I f xs db' step h')

module _ {ℓ κ} {A : Type ℓ} {B : Type κ} where
  -- A fact that the first step establishes does not depend on what follows.
  pub Post-first :
      (P : Type 0) (m : Tx A) (f : A → Tx B) (db : Db)
      → Post (λ _ _. P) (m db)
      → Post (λ _ _. P) ((m >>= f) db)
  Post-first P m f db p = Post-bind (λ _ _. P) m f db p (λ a db' h. Post-any (λ _ _. h) (f a db'))

  -- A fact that does not depend on the first step.
  pub Post-then :
      {Q : B → Db → Type 0} (m : Tx A) (f : A → Tx B) (db : Db)
      → ((a : A) (db' : Db) → Post Q (f a db'))
      → Post Q ((m >>= f) db)
  Post-then m f db rest =
      Post-bind (λ _ _. Unit) m f db (Post-any (λ _ _. tt) (m db)) (λ a db' _. rest a db')

  -- The rule for a step that leaves the database alone.
  pub Post-same :
      {Q : B → Db → Type 0} (P : A → Type 0) (m : Tx A) (f : A → Tx B) (db : Db)
      → Post (λ a db'. (db' ≡ db) × P a) (m db)
      → ((a : A) → P a → Post Q (f a db))
      → Post Q ((m >>= f) db)
  Post-same {Q} P m f db p rest =
      Post-bind _ m f db p (λ a db' h. subst (λ d. Post Q (f a d)) (sym h.0) (rest a h.1))

  -- The rules for a query, a demand and a guard, which leave the database alone.
  pub Post-read :
      {Q : B → Db → Type 0} (g : Db → A) (f : A → Tx B) (db : Db)
      → Post Q (f (g db) db)
      → Post Q ((select_from g >>= f) db)
  unfolding ◌>>=◌ select_from
  Post-read g f db p = p

  pub Post-need :
      {Q : B → Db → Type 0} (o : Option A) (e : Error) (f : A → Tx B) (db : Db)
      → ((a : A) → o ≡ some a → Post Q (f a db))
      → Post Q ((require o e >>= f) db)
  unfolding ◌>>=◌ require
  Post-need none e f db p = record { holds = tt }
  Post-need (some a) e f db p = p a refl

pub Post-guard {ℓ} :
    {B : Type ℓ} {Q : B → Db → Type 0} (c : Bool) (e : Error) (f : Unit {0} → Tx B) (db : Db)
    → (c ≡ false → Post Q (f tt db))
    → Post Q ((conflict_if c e >>= f) db)
unfolding ◌>>=◌ conflict_if
Post-guard true e f db p = record { holds = tt }
Post-guard false e f db p = p refl

module _ {ℓ κ} {A : Type ℓ} {B : Type κ} where
  pub Post-lift :
      {Q : B → Db → Type 0} (r : Result A) (f : A → Tx B) (db : Db)
      → ((a : A) → r ≡ ok a → Post Q (f a db))
      → Post Q ((lift r >>= f) db)
  unfolding ◌>>=◌ lift
  Post-lift (err e) f db p = record { holds = tt }
  Post-lift (ok a) f db p = p a refl
