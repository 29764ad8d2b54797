-- ===== src/Prelude/Lists.antt =====
-- Lists measured by native numbers, and Boolean quantifiers that run.
use Prim.Native.Nat.{ℕ, suc, ◌+◌, ◌≤◌}
use mathlib.Core.Path.{◌≡◌, refl, sym, subst, ap, ◌∙◌}
use mathlib.Core.Bool.{Bool, true, false, not, ◌&&◌, ◌||◌}
use mathlib.Core.Logic.{inl, inr}
use mathlib.Core.List.{List, [], ◌∷◌, ◌++◌, map, Memᴰ}
use mathlib.Core.Option.{Option, none, some}
use native.Mathlib.Omega.{arith}
use python_ai_agent_flow.Prelude.Tests.{if◌then◌else◌, Bool-cases, one_outcome}

module _ {ℓ} {A : Type ℓ} where
  abbrev pub length : List A → ℕ
  length [] = 0
  length (x ∷ xs) = suc (length xs)

  -- `if xs`, the truth of a sequence
  abbrev pub is_nonempty : List A → Bool
  is_nonempty [] = false
  is_nonempty (x ∷ xs) = true

  -- `[x for x in xs if p(x)]`
  abbrev pub select : (A → Bool) → List A → List A
  select p [] = []
  select p (x ∷ xs) = if p x then x ∷ select p xs else select p xs

  abbrev pub all : (A → Bool) → List A → Bool
  all p [] = true
  all p (x ∷ xs) = p x && all p xs

  abbrev pub any : (A → Bool) → List A → Bool
  any p [] = false
  any p (x ∷ xs) = p x || any p xs

  -- `COUNT(*) ... WHERE p`
  abbrev pub count : (A → Bool) → List A → ℕ
  count p [] = 0
  count p (x ∷ xs) = if p x then suc (count p xs) else count p xs

  -- The first row that a query returns.
  abbrev pub find : (A → Bool) → List A → Option A
  find p [] = none
  find p (x ∷ xs) = if p x then some x else find p xs

  -- `UPDATE ... SET f WHERE p`
  abbrev pub update : (A → Bool) → (A → A) → List A → List A
  update p f [] = []
  update p f (x ∷ xs) = (if p x then f x else x) ∷ update p f xs

  -- A property of every element, by recursion.
  abbrev pub All {κ} : (A → Type κ) → List A → Type κ
  All P [] = Unit
  All P (x ∷ xs) = P x × All P xs

  pub count-append : (p : A → Bool) (xs ys : List A) → count p (xs ++ ys) ≡ count p xs + count p ys
  count-append p [] ys = omega arith
  count-append p (x ∷ xs) ys = ground (arith, count-append p xs ys)

some_ne_none {ℓ} : {A : Type ℓ} {x : A} → ¬ (some x ≡ none)
some_ne_none h = cc

pub some_injective {ℓ} : {A : Type ℓ} {x y : A} → some x ≡ some y → x ≡ y
some_injective {x} h = ap (λ o. elim o [ none ↦ x | some z ↦ z ]) h

module _ {ℓ} {A : Type ℓ} where
  pub All-select_none : (p : A → Bool) (xs : List A) → select p xs ≡ [] → All (λ x. p x ≡ false) xs
  All-select_none p [] h = tt
  All-select_none p (x ∷ xs) h = elim (Bool-cases (p x)) [
    | inl y ↦ ground (arith, y)
    | inr n ↦ (n, All-select_none p xs (ground (arith, n)))
  ]

  pub select_none-All : (p : A → Bool) (xs : List A) → All (λ x. p x ≡ false) xs → select p xs ≡ []
  select_none-All p [] h = refl
  select_none-All p (x ∷ xs) h = rw h.0 (select_none-All p xs h.1)

  pub not_nonempty : (xs : List A) → is_nonempty xs ≡ false → xs ≡ []
  not_nonempty [] h = refl
  not_nonempty (x ∷ xs) h = cc

  pub All-map {κ μ} :
      {P : A → Type κ} {Q : A → Type μ} (f : (x : A) → P x → Q x) (xs : List A)
      → All P xs
      → All Q xs
  All-map f [] h = tt
  All-map f (x ∷ xs) h = (f x h.0, All-map f xs h.1)

  pub All-zip {κ μ} :
      (P : A → Type κ) (Q : A → Type μ) (xs : List A)
      → All P xs
      → All Q xs
      → All (λ x. P x × Q x) xs
  All-zip P Q [] h k = tt
  All-zip P Q (x ∷ xs) h k = ((h.0, k.0), All-zip P Q xs h.1 k.1)

  pub All-Memᴰ {κ} : (P : A → Type κ) {a : A} {xs : List A} → All P xs → Memᴰ a xs → P a
  All-Memᴰ P h (Memᴰ.head e) = subst P (sym e) h.0
  All-Memᴰ P h (Memᴰ.tail m) = All-Memᴰ P h.1 m

  -- An update establishes what its assignment does on the rows it takes and the others have.
  pub All-update {κ} :
      (P : A → Type κ) (p : A → Bool) (f : A → A) (xs : List A)
      → ((x : A) → p x ≡ true → P (f x))
      → All (λ x. p x ≡ false → P x) xs
      → All P (update p f xs)
  All-update P p f [] taken left = tt
  All-update P p f (x ∷ xs) taken left = elim (Bool-cases (p x)) [
    | inl y ↦ rw y (taken x y, All-update P p f xs taken left.1)
    | inr n ↦ rw n (left.0 n, All-update P p f xs taken left.1)
  ]

  -- What an update that takes a row makes of it is there.
  pub any-update :
      (p q : A → Bool) (f : A → A) (xs : List A)
      → ((x : A) → p x ≡ true → q (f x) ≡ true)
      → count p xs ≡ 1
      → any q (update p f xs) ≡ true
  any-update p q f [] taken h = ground arith
  any-update p q f (x ∷ xs) taken h = elim (Bool-cases (p x)) [
    | inl y ↦ rw y (rw (taken x y) refl)
    | inr n ↦ ground (arith, n, any-update p q f xs taken)
  ]

  -- An update adds at most one to a count for each row it takes.
  pub count-update :
      (q p : A → Bool) (f : A → A) (xs : List A) → count q (update p f xs) ≤ count q xs + count p xs
  count-update q p f [] = omega arith
  count-update q p f (x ∷ xs) = elim (Bool-cases (p x)) [
    | inl y ↦ ground (arith, y, count-update q p f xs)
    | inr n ↦ ground (arith, n, count-update q p f xs)
  ]

  -- An update that changes no test changes no count, and a map that makes no row pass adds to none.
  pub count-update_same :
      (q p : A → Bool) (f : A → A) (xs : List A)
      → ((x : A) → q (f x) ≡ q x)
      → count q (update p f xs) ≡ count q xs
  count-update_same q p f [] h = refl
  count-update_same q p f (x ∷ xs) h = elim (Bool-cases (p x)) [
    | inl y ↦ ground (arith, y, h x, count-update_same q p f xs)
    | inr n ↦ ground (arith, n, count-update_same q p f xs)
  ]

  pub count-map_le :
      (q : A → Bool) (f : A → A) (xs : List A)
      → ((x : A) → q (f x) ≡ true → q x ≡ true)
      → count q (map f xs) ≤ count q xs
  count-map_le q f [] h = omega arith
  count-map_le q f (x ∷ xs) h = ground (arith, h x, count-map_le q f xs h)

  pub any-update_keeps :
      (q p : A → Bool) (f : A → A) (xs : List A)
      → ((x : A) → q x ≡ true → q (f x) ≡ true)
      → any q xs ≡ true
      → any q (update p f xs) ≡ true
  any-update_keeps q p f [] keeps h = h
  any-update_keeps q p f (x ∷ xs) keeps h = ground (arith, keeps x, any-update_keeps q p f xs keeps)

  pub any-update_some :
      (p q : A → Bool) (f : A → A) (xs : List A)
      → ((x : A) → p x ≡ true → q (f x) ≡ true)
      → any p xs ≡ true
      → any q (update p f xs) ≡ true
  any-update_some p q f [] taken h = cc
  any-update_some p q f (x ∷ xs) taken h = ground (arith, taken x, any-update_some p q f xs taken)

  pub any-map :
      (p q : A → Bool) (f : A → A) (xs : List A)
      → ((x : A) → p x ≡ true → q (f x) ≡ true)
      → any p xs ≡ true
      → any q (map f xs) ≡ true
  any-map p q f [] taken h = cc
  any-map p q f (x ∷ xs) taken h = ground (arith, taken x, any-map p q f xs taken)

  pub any-count : (p : A → Bool) (xs : List A) → any p xs ≡ true → suc 0 ≤ count p xs
  any-count p [] h = cc
  any-count p (x ∷ xs) h = ground (arith, any-count p xs)

  pub count-any : (p : A → Bool) (xs : List A) → suc 0 ≤ count p xs → any p xs ≡ true
  count-any p [] h = absurd (omega (arith, h))
  count-any p (x ∷ xs) h = ground (arith, count-any p xs)

  pub find-none-All : (p : A → Bool) (xs : List A) → find p xs ≡ none → All (λ x. p x ≡ false) xs
  find-none-All p [] h = tt
  find-none-All p (x ∷ xs) h =
      let found = λ (b : Bool). (if b then some x else find p xs) ≡ none in
      elim (Bool-cases (p x)) [
        | inl y ↦ absurd (some_ne_none (subst found y h))
        | inr n ↦ (n, find-none-All p xs (subst found n h))
      ]

  pub All-append {κ} : (P : A → Type κ) (xs ys : List A) → All P xs → All P ys → All P (xs ++ ys)
  All-append P [] ys h k = k
  All-append P (x ∷ xs) ys h k = (h.0, All-append P xs ys h.1 k)

  pub All-intro {κ} : (P : A → Type κ) → ((x : A) → P x) → (xs : List A) → All P xs
  All-intro P h [] = tt
  All-intro P h (x ∷ xs) = (h x, All-intro P h xs)

  -- The row that a query finds passes, and is there.
  pub find-some :
      (p : A → Bool) (xs : List A) {x : A} → find p xs ≡ some x → Memᴰ x xs × (p x ≡ true)
  find-some p [] h = cc
  find-some p (y ∷ ys) {x} h =
      let found = λ (b : Bool). (if b then some y else find p ys) ≡ some x in
      elim (Bool-cases (p y)) [
        | inl t ↦ let e = some_injective (subst found t h) in (Memᴰ.head (sym e), ap p (sym e) ∙ t)
        | inr f ↦ let (m, q) = find-some p ys (subst found f h) in (Memᴰ.tail m, q)
      ]

  pub All-select : (p : A → Bool) (xs : List A) → All (λ x. p x ≡ true) (select p xs)
  All-select p [] = tt
  All-select p (x ∷ xs) = elim (Bool-cases (p x)) [
    | inl y ↦ rw y (y, All-select p xs)
    | inr n ↦ rw n (All-select p xs)
  ]

  pub All-select-not :
      (p : A → Bool) (xs : List A) → All (λ x. p x ≡ false) (select (λ x. not (p x)) xs)
  All-select-not p [] = tt
  All-select-not p (x ∷ xs) = elim (Bool-cases (p x)) [
    | inl y ↦ rw y (All-select-not p xs)
    | inr n ↦ rw n (n, All-select-not p xs)
  ]

  -- What `select` keeps was there, and passes.
  select_head :
      (p : A → Bool) {x y : A} {ys zs : List A}
      → p y ≡ true
      → (Memᴰ x zs → Memᴰ x ys × (p x ≡ true))
      → Memᴰ x (y ∷ zs)
      → Memᴰ x (y ∷ ys) × (p x ≡ true)
  select_head p t rest (Memᴰ.head e) = (Memᴰ.head e, ap p e ∙ t)
  select_head p t rest (Memᴰ.tail m) = let (n, q) = rest m in (Memᴰ.tail n, q)

  pub select-Memᴰ :
      (p : A → Bool) (xs : List A) {x : A} → Memᴰ x (select p xs) → Memᴰ x xs × (p x ≡ true)
  select-Memᴰ p [] m = elim m [ ]
  select-Memᴰ p (y ∷ ys) {x} m =
      let kept = λ (b : Bool). if b then y ∷ select p ys else select p ys in
      elim (Bool-cases (p y)) [
        | inl t ↦ select_head p t (select-Memᴰ p ys) (subst (λ b. Memᴰ x (kept b)) t m)
        | inr f ↦
            let (n, q) = select-Memᴰ p ys (subst (λ b. Memᴰ x (kept b)) f m) in (Memᴰ.tail n, q)
      ]

  kept_head :
      {x y : A} {ys zs : List A} → (Memᴰ x ys → Memᴰ x zs) → Memᴰ x (y ∷ ys) → Memᴰ x (y ∷ zs)
  kept_head rest (Memᴰ.head e) = Memᴰ.head e
  kept_head rest (Memᴰ.tail m) = Memᴰ.tail (rest m)

  kept_tail :
      (p : A → Bool) {x y : A} {ys zs : List A}
      → p x ≡ true
      → p y ≡ false
      → (Memᴰ x ys → Memᴰ x zs)
      → Memᴰ x (y ∷ ys)
      → Memᴰ x zs
  kept_tail p t f rest (Memᴰ.head e) = one_outcome (sym (ap p e) ∙ t) f
  kept_tail p t f rest (Memᴰ.tail m) = rest m

  -- What passes is kept.
  pub Memᴰ-select :
      (p : A → Bool) (xs : List A) {x : A} → p x ≡ true → Memᴰ x xs → Memᴰ x (select p xs)
  Memᴰ-select p [] h m = elim m [ ]
  Memᴰ-select p (y ∷ ys) {x} h m =
      let kept = λ (b : Bool). if b then y ∷ select p ys else select p ys in
      elim (Bool-cases (p y)) [
        | inl t ↦ subst (λ b. Memᴰ x (kept b)) (sym t) (kept_head (Memᴰ-select p ys h) m)
        | inr f ↦ subst (λ b. Memᴰ x (kept b)) (sym f) (kept_tail p h f (Memᴰ-select p ys h) m)
      ]

  -- An update leaves the rows it does not take.
  pub Memᴰ-update :
      (p : A → Bool) (f : A → A) (xs : List A) {x : A}
      → Memᴰ x xs
      → p x ≡ false
      → Memᴰ x (update p f xs)
  Memᴰ-update p f [] m h = elim m [ ]
  Memᴰ-update p f (y ∷ ys) (Memᴰ.head e) h = Memᴰ.head (rw (sym (ap p e) ∙ h) e)
  Memᴰ-update p f (y ∷ ys) (Memᴰ.tail m) h = Memᴰ.tail (Memᴰ-update p f ys m h)

  pub any-of_Memᴰ : (p : A → Bool) (xs : List A) {x : A} → Memᴰ x xs → p x ≡ true → any p xs ≡ true
  any-of_Memᴰ p [] m h = elim m [ ]
  any-of_Memᴰ p (y ∷ ys) (Memᴰ.head e) h = rw (ap p (sym e) ∙ h) refl
  any-of_Memᴰ p (y ∷ ys) (Memᴰ.tail m) h = ground (arith, any-of_Memᴰ p ys m h)

  -- Something that passes has what all have.
  pub All-any {κ} :
      (P : A → Type κ) (p : A → Bool) (xs : List A)
      → All P xs
      → any p xs ≡ true
      → (x : A) × (p x ≡ true) × P x
  All-any P p [] h a = cc
  All-any P p (x ∷ xs) h a = elim (Bool-cases (p x)) [
    | inl y ↦ (x, y, h.0)
    | inr n ↦ All-any P p xs h.1 (ground (arith, n))
  ]

  pub All-of_Memᴰ {κ} : (P : A → Type κ) (xs : List A) → ((x : A) → Memᴰ x xs → P x) → All P xs
  All-of_Memᴰ P [] h = tt
  All-of_Memᴰ P (x ∷ xs) h = (h x (Memᴰ.head refl), All-of_Memᴰ P xs (λ y m. h y (Memᴰ.tail m)))

module _ {ℓ κ} {A : Type ℓ} {B : Type κ} where
  pub map-Memᴰ :
      (f : A → B) (xs : List A) {b : B} → Memᴰ b (map f xs) → (a : A) × Memᴰ a xs × (f a ≡ b)
  map-Memᴰ f [] m = elim m [ ]
  map-Memᴰ f (x ∷ xs) (Memᴰ.head e) = (x, Memᴰ.head refl, sym e)
  map-Memᴰ f (x ∷ xs) (Memᴰ.tail m) = let (a, n, q) = map-Memᴰ f xs m in (a, Memᴰ.tail n, q)
