-- ===== src/Prelude/Tests.antt =====
-- Boolean tests on the native numbers, `if`, and case lemmas.
use Prim.Native.Nat.{ℕ, compare, Ordering}
use Prim.Native.String.{String}
use mathlib.Core.Path.{◌≡◌, refl}
use mathlib.Core.Logic.{◌≢◌, ◌⊎◌, ◌↔◌, inl, inr}
use mathlib.Core.Bool.{Bool, true, false}
use mathlib.Core.Option.{Option, none, some}
use native.Mathlib.Omega.{arith}
use text.Mathlib.Text.{◌==◌}
use text.Mathlib.TextEquality.{eq_iff}

abbrev pub ltb : ℕ → ℕ → Bool
ltb a b = elim (compare a b) [ Ordering.lt ↦ true | _ ↦ false ]

abbrev pub leb : ℕ → ℕ → Bool
leb a b = elim (compare a b) [ Ordering.gt ↦ false | _ ↦ true ]

-- Python's `is` on the identities of objects, and `==` on numbers.
infix 50 ◌is◌
abbrev pub ◌is◌ : ℕ → ℕ → Bool
a is b = elim (compare a b) [ Ordering.eq ↦ true | _ ↦ false ]

infix 1 if◌then◌else◌
abbrev pub if◌then◌else◌ {ℓ} : {A : Type ℓ} → Bool → A → A → A
if true then x else y = x
if false then x else y = y

pub is_refl : (a : ℕ) → (a is a) ≡ true
is_refl a = ground arith

pub is_iff : (a b : ℕ) → ((a is b) ≡ true) ↔ (a ≡ b)
is_iff a b = ((λ h. ground arith), λ h. ground arith)

pub Bool-cases : (b : Bool) → (b ≡ true) ⊎ (b ≡ false)
Bool-cases true = inl refl
Bool-cases false = inr refl

pub Option-cases {ℓ} : {A : Type ℓ} (o : Option A) → (o ≡ none) ⊎ ((a : A) × (o ≡ some a))
Option-cases none = inl refl
Option-cases (some a) = inr (a, refl)

pub some-injective {ℓ} : {A : Type ℓ} {a b : A} → some a ≡ some b → a ≡ b
some-injective e = cc

-- A comparison of texts that came out false.
pub ne-of-== : (s t : String) → (s == t) ≡ false → s ≢ t
ne-of-== s t h = ground (arith, eq_iff s t)

pub ==-of-ne : (s t : String) → s ≢ t → (s == t) ≡ false
==-of-ne s t h = ground (arith, eq_iff s t)
