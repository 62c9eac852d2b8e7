-- ===== src/Prelude.antt =====
-- Names that the other modules share: the libraries', passed on, and those of the children, which
-- are Python's lists and dicts, the exceptions, and the Boolean tests on numbers.
mod Tests
mod Lists
mod Dicts
mod Errors
mod Loops
mod Tables
pub use Tests.*
pub use Lists.*
pub use Dicts.*
pub use Errors.*
pub use Loops.*
pub use Tables.*
unfoldable pub use Lists.{next, filter, contains}
unfoldable pub use Loops.{for_each}
unfoldable pub use Tables.{get_at, put_at, pop_at, has_ident}
unfoldable pub use Dicts.{get, put, pop, has}
pub use Prim.Native.Nat.{ℕ, zero, suc, ◌+◌, ◌-◌, ◌*◌, ◌≤◌, ◌<◌}
pub use Prim.Native.String.{String}
pub use mathlib.Core.Path.{◌≡◌, refl, sym, ap, ap₂, ◌∙◌, subst, fun_ext}
pub use mathlib.Core.Logic.{◌≢◌, ◌↔◌, ◌⊎◌, inl, inr}
pub use mathlib.Core.Bool.{Bool, true, false, not, ◌&&◌, ◌||◌}
pub use mathlib.Core.Option.{Option, none, some}
pub use mathlib.Core.List.{List, [], ◌∷◌, ◌++◌, map}
pub use native.Mathlib.Omega.{arith}
pub use text.Mathlib.Text.{◌==◌}
pub use text.Mathlib.TextEquality.{eq_iff}
pub use text.Mathlib.TextPositions.{eq_refl}

-- `x in xs` for texts
abbrev pub contains_text : String → List String → Bool
contains_text k ks = contains (λ x. x == k) ks

pub contains_text_iff : (k : String) (ks : List String) → (contains_text k ks ≡ true) ↔ In k ks
contains_text_iff k ks = (
  λ h.
      let (x, m, e) = contains-true (λ y. y == k) ks h in subst (λ z. In z ks) ((eq_iff x k).0 e) m,
  λ m. contains_of (λ y. y == k) ks k m (eq_refl k),
)

pub contains_text-false : (k : String) (ks : List String) → ¬ In k ks → contains_text k ks ≡ false
contains_text-false k ks n = elim (Bool-cases (contains_text k ks)) [
  | inl t ↦ absurd (n ((contains_text_iff k ks).0 t))
  | inr f ↦ f
]
