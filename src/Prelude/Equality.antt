-- ===== src/Prelude/Equality.antt =====
-- Python's `==` as an interface, with the membership and set operations that need only it.
use Prim.Native.Nat.{ℕ, ◌≤◌}
use Prim.Native.String.{String}
use mathlib.Core.Path.{◌≡◌, refl, sym, ap}
use mathlib.Core.Logic.{◌≢◌, ◌↔◌, inl, inr}
use mathlib.Core.Bool.{Bool, true, false, ◌||◌}
use mathlib.Core.Option.{Option, none, some}
use mathlib.Core.List.{List, [], ◌∷◌, Memᴰ}
use native.Mathlib.Omega.{arith}
use text.Mathlib.Text.{◌==◌ as str_eq}
use text.Mathlib.TextEquality.{eq_iff}
use python_ai_agent_flow.Prelude.Tests.{eqb, eqb_iff, if◌then◌else◌, Bool-cases}
use python_ai_agent_flow.Prelude.Lists.{length}

-- A type that Python's `==` decides.
pub record HasEquals {ℓ} (A : Type ℓ) : Type ℓ where
  pub equals : A → A → Bool
  pub equals_iff : (x y : A) → (equals x y ≡ true) ↔ (x ≡ y)

instance abbrev pub string_eq : HasEquals String
string_eq = record { equals_iff = eq_iff; equals = str_eq }

instance abbrev pub nat_eq : HasEquals ℕ
nat_eq = record { equals_iff = eqb_iff; equals = eqb }

infix 50 ◌==◌
abbrev pub ◌==◌ {ℓ} : {A : Type ℓ} ⦃q : HasEquals A⦄ → A → A → Bool
◌==◌ ⦃q⦄ x y = q.equals x y

-- An enumeration is compared by the position of its members.
module _ {ℓ} {A : Type ℓ} (index : A → ℕ) where
  pub eqb-index_iff :
      ((a b : A) → index a ≡ index b → a ≡ b)
      → (a b : A) → (eqb (index a) (index b) ≡ true) ↔ (a ≡ b)
  eqb-index_iff inj a b = (λ h. inj a b ((eqb_iff _ _).0 h), λ h. (eqb_iff _ _).1 (ap index h))

module _ {ℓ} {A : Type ℓ} (e : HasEquals A) where
  abbrev pub option_beq : Option A → Option A → Bool
  option_beq none none = true
  option_beq (some a) (some b) = e.equals a b
  option_beq _ _ = false

  pub option_beq_iff : (a b : Option A) → (option_beq a b ≡ true) ↔ (a ≡ b)
  option_beq_iff none none = (λ _. refl, λ _. refl)
  option_beq_iff none (some b) = (λ h. cc, λ h. cc)
  option_beq_iff (some a) none = (λ h. cc, λ h. cc)
  option_beq_iff (some a) (some b) =
      (λ h. ap some ((e.equals_iff a b).0 h), λ h. (e.equals_iff a b).1 (ground arith))

instance abbrev pub option_eq {ℓ} : {A : Type ℓ} ⦃e : HasEquals A⦄ → HasEquals (Option A)
option_eq ⦃e⦄ = record { equals = option_beq e; equals_iff = option_beq_iff e }

module _ {ℓ} {A : Type ℓ} ⦃e : HasEquals A⦄ where
  pub beq_refl : (a : A) → (a == a) ≡ true
  beq_refl a = (e.equals_iff a a).1 refl

  pub beq_ne : (a b : A) → a ≢ b → (a == b) ≡ false
  beq_ne a b n = elim (Bool-cases (a == b)) [
    | inl y ↦ absurd (n ((e.equals_iff a b).0 y))
    | inr f ↦ f
  ]

  -- `a in xs`
  abbrev pub mem : A → List A → Bool
  mem a [] = false
  mem a (x ∷ xs) = x == a || mem a xs

  -- `set(xs)`, as the list of its elements
  abbrev pub to_set : List A → List A
  to_set [] = []
  to_set (x ∷ xs) = if mem x xs then to_set xs else x ∷ to_set xs

  -- `len(set(xs)) != len(xs)`
  abbrev pub has_repeats : List A → Bool
  has_repeats xs = if eqb (length (to_set xs)) (length xs) then false else true

  -- No element occurs twice.
  abbrev pub IsUnique : List A → Type 0
  IsUnique [] = Unit
  IsUnique (x ∷ xs) = (mem x xs ≡ false) × IsUnique xs

  length-to_set-le : (xs : List A) → length (to_set xs) ≤ length xs
  length-to_set-le [] = omega arith
  length-to_set-le (x ∷ xs) = ground (arith, length-to_set-le xs)

  pub has_repeats-false : (xs : List A) → has_repeats xs ≡ false → IsUnique xs
  has_repeats-false [] h = tt
  has_repeats-false (x ∷ xs) h = elim (Bool-cases (mem x xs)) [
    | inl m ↦ absurd (ground (arith, length-to_set-le xs))
    | inr m ↦ (m, has_repeats-false xs (ground (arith, length-to_set-le xs)))
  ]

  pub has_repeats-of_IsUnique : (xs : List A) → IsUnique xs → has_repeats xs ≡ false
  has_repeats-of_IsUnique [] h = refl
  has_repeats-of_IsUnique (x ∷ xs) h = ground (arith, has_repeats-of_IsUnique xs h.1)

  pub mem-Memᴰ : (a : A) (xs : List A) → mem a xs ≡ true → Memᴰ a xs
  mem-Memᴰ a [] h = cc
  mem-Memᴰ a (x ∷ xs) h = elim (Bool-cases (x == a)) [
    | inl y ↦ Memᴰ.head (sym ((e.equals_iff x a).0 y))
    | inr n ↦ Memᴰ.tail (mem-Memᴰ a xs (ground (arith, n)))
  ]

  pub Memᴰ-mem : (a : A) (xs : List A) → Memᴰ a xs → mem a xs ≡ true
  Memᴰ-mem a [] m = elim m [ ]
  Memᴰ-mem a (x ∷ xs) (Memᴰ.head p) = rw ((e.equals_iff x a).1 (sym p))
  Memᴰ-mem a (x ∷ xs) (Memᴰ.tail m) = ground (arith, Memᴰ-mem a xs m)
