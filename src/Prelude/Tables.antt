-- ===== src/Prelude/Tables.antt =====
-- Python's `dict` and `set` over objects that hash by identity: keys are numbers.
use Prim.Native.Nat.{ℕ}
use mathlib.Core.Path.{◌≡◌, refl}
use mathlib.Core.Bool.{Bool, false, ◌&&◌, ◌||◌}
use mathlib.Core.Option.{Option, none, some}
use mathlib.Core.List.{List, [], ◌∷◌}
use native.Mathlib.Omega.{arith}
use wot_py.Prelude.Tests.{if◌then◌else◌, ◌is◌}
use wot_py.Prelude.Lists.{filter}

abbrev pub Table {ℓ} : Type ℓ → Type ℓ
Table V = List (ℕ × V)

module _ {ℓ} {V : Type ℓ} where
  unfoldable pub get_at : ℕ → Table V → Option V
  get_at k [] = none
  get_at k ((j, v) ∷ d) = if j is k then some v else get_at k d

  unfoldable pub put_at : ℕ → V → Table V → Table V
  put_at k v [] = (k, v) ∷ []
  put_at k v ((j, w) ∷ d) = if j is k then (j, v) ∷ d else (j, w) ∷ put_at k v d

  unfoldable pub pop_at : ℕ → Table V → Table V
  pop_at k [] = []
  pop_at k ((j, v) ∷ d) = let rest = pop_at k d in if j is k then rest else (j, v) ∷ rest

  abbrev pub idents : Table V → List ℕ
  idents [] = []
  idents ((k, v) ∷ d) = k ∷ idents d

  pub get_at-put_at :
      (k j : ℕ) (v : V) (d : Table V)
      → get_at j (put_at k v d) ≡ (if k is j then some v else get_at j d)
  unfolding get_at put_at
  get_at-put_at k j v [] = refl
  get_at-put_at k j v ((i, w) ∷ d) = ground (arith, get_at-put_at k j v d)

  pub get_at-pop_at :
      (k j : ℕ) (d : Table V) → get_at j (pop_at k d) ≡ (if k is j then none else get_at j d)
  unfolding get_at pop_at
  get_at-pop_at k j [] = ground arith
  get_at-pop_at k j ((i, w) ∷ d) = ground (arith, get_at-pop_at k j d)

-- `x in xs` for numbers
unfoldable pub has_ident : ℕ → List ℕ → Bool
has_ident x [] = false
has_ident x (y ∷ ys) = y is x || has_ident x ys

pub has_ident-filter :
    (p : ℕ → Bool) (x : ℕ) (xs : List ℕ) → has_ident x (filter p xs) ≡ has_ident x xs && p x
unfolding has_ident filter
has_ident-filter p x [] = refl
has_ident-filter p x (y ∷ ys) = ground (arith, has_ident-filter p x ys)

module _ {ℓ} {V : Type ℓ} where
  -- A key that is not among the keys is looked up in vain.
  pub get_at-absent : (k : ℕ) (d : Table V) → has_ident k (idents d) ≡ false → get_at k d ≡ none
  unfolding get_at has_ident
  get_at-absent k [] h = refl
  get_at-absent k ((j, v) ∷ d) h = ground (arith, get_at-absent k d)
