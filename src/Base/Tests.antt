-- ===== src/Base/Tests.antt =====
-- Boolean tests on the native numbers, the conditional, and case splits that keep the equation.
use Prim.Native.Nat.{ℕ, compare, Ordering}
use mathlib.Core.Path.{◌≡◌, refl}
use mathlib.Core.Logic.{◌↔◌, ◌⊎◌, inl, inr}
use mathlib.Core.Bool.{Bool, true, false}
use mathlib.Core.Option.{Option, none, some}
use native.Mathlib.Omega.{arith}

-- C's `<`, `<=` and `==` on unsigned numbers.
abbrev pub ltb : ℕ → ℕ → Bool
ltb a b = elim (compare a b) [ Ordering.lt ↦ true | _ ↦ false ]

abbrev pub leb : ℕ → ℕ → Bool
leb a b = elim (compare a b) [ Ordering.gt ↦ false | _ ↦ true ]

infix 50 ◌==◌
abbrev pub ◌==◌ : ℕ → ℕ → Bool
a == b = elim (compare a b) [ Ordering.eq ↦ true | _ ↦ false ]

infix 1 if◌then◌else◌
abbrev pub if◌then◌else◌ {ℓ} : {A : Type ℓ} → Bool → A → A → A
if true then x else y = x
if false then x else y = y

pub ==_iff : (a b : ℕ) → ((a == b) ≡ true) ↔ (a ≡ b)
==_iff a b = ground arith

pub Bool-cases : (b : Bool) → (b ≡ true) ⊎ (b ≡ false)
Bool-cases true = inl refl
Bool-cases false = inr refl

pub Option-cases {ℓ} : {A : Type ℓ} (o : Option A) → (o ≡ none) ⊎ ((a : A) × (o ≡ some a))
Option-cases none = inl refl
Option-cases (some a) = inr (a, refl)

-- What holds of both branches holds of the choice.
pub if-each {ℓ ℓ'} :
    {A : Type ℓ} (P : A → Type ℓ') (x y : A) (b : Bool) → P x → P y → P (if b then x else y)
if-each P x y true p q = p
if-each P x y false p q = q

-- The same where each branch holds under its test.
pub if-when {ℓ ℓ'} :
    {A : Type ℓ} (P : A → Type ℓ') (x y : A) (b : Bool)
    → (b ≡ true → P x)
    → (b ≡ false → P y)
    → P (if b then x else y)
if-when P x y true p q = p refl
if-when P x y false p q = q refl

-- The same for a property that the test itself indexes.
pub if-along {ℓ ℓ'} :
    {A : Type ℓ} (P : Bool → A → Type ℓ') (x y : A) (b : Bool)
    → (b ≡ true → P true x)
    → (b ≡ false → P false y)
    → P b (if b then x else y)
if-along P x y true p q = p refl
if-along P x y false p q = q refl
