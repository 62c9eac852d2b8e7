-- ===== src/Prelude/Dicts.antt =====
-- Python's `dict` with string keys, in the order of insertion. A put of a key that is there writes
-- in place, and any other put appends.
use Prim.Native.String.{String}
use mathlib.Core.Path.{◌≡◌, refl, ap, sym, ◌∙◌}
use mathlib.Core.Logic.{◌≢◌, ◌⊎◌, inl, inr}
use mathlib.Core.Bool.{Bool, true, false}
use mathlib.Core.Option.{Option, none, some}
use mathlib.Core.List.{List, [], ◌∷◌}
use native.Mathlib.Omega.{arith}
use text.Mathlib.Text.{◌==◌}
use text.Mathlib.TextEquality.{eq_iff}
use text.Mathlib.TextPositions.{eq_refl}
use wot_py.Prelude.Tests.{if◌then◌else◌, Bool-cases, ==-of-ne, ne-of-==}
use wot_py.Prelude.Lists.{In}

abbrev pub Dict {ℓ} : Type ℓ → Type ℓ
Dict V = List (String × V)

module _ {ℓ} {V : Type ℓ} where
  -- `d.get(k)`
  unfoldable pub get : String → Dict V → Option V
  get k [] = none
  get k ((j, v) ∷ d) = if j == k then some v else get k d

  -- `d[k] = v`
  unfoldable pub put : String → V → Dict V → Dict V
  put k v [] = (k, v) ∷ []
  put k v ((j, w) ∷ d) = if j == k then (j, v) ∷ d else (j, w) ∷ put k v d

  -- `d.pop(k, None)`
  unfoldable pub pop : String → Dict V → Dict V
  pop k [] = []
  pop k ((j, v) ∷ d) = let rest = pop k d in if j == k then rest else (j, v) ∷ rest

  -- `k in d`
  unfoldable pub has : String → Dict V → Bool
  unfolding get
  has k d = elim (get k d) [ none ↦ false | some _ ↦ true ]

  abbrev pub values : Dict V → List V
  values [] = []
  values ((k, v) ∷ d) = v ∷ values d

  abbrev pub keys : Dict V → List String
  keys [] = []
  keys ((k, v) ∷ d) = k ∷ keys d

  pub get-put :
      (k j : String) (v : V) (d : Dict V) → get j (put k v d) ≡ (if k == j then some v else get j d)
  unfolding get put
  get-put k j v [] = refl
  get-put k j v ((i, w) ∷ d) = ground (arith, eq_iff k j, eq_iff i k, eq_iff i j, get-put k j v d)

  pub get-pop : (k j : String) (d : Dict V) → get j (pop k d) ≡ (if k == j then none else get j d)
  unfolding get pop
  get-pop k j [] = ground arith
  get-pop k j ((i, w) ∷ d) = ground (arith, eq_iff k j, eq_iff i k, eq_iff i j, get-pop k j d)

module _ {V : Type 0} where
  pub In-values-pop : (k : String) (x : V) (d : Dict V) → In x (values (pop k d)) → In x (values d)
  unfolding pop
  In-values-pop k x [] m = absurd m
  In-values-pop k x ((j, v) ∷ d) m = elim (Bool-cases (j == k)) [
    | inl t ↦ inr (In-values-pop k x d (rw t at m))
    | inr f ↦ elim (rw f at m) [ inl e ↦ inl e | inr r ↦ inr (In-values-pop k x d r) ]
  ]

  pub In-values-put :
      (k : String) (v x : V) (d : Dict V) → In x (values (put k v d)) → (x ≡ v) ⊎ In x (values d)
  unfolding put
  In-values-put k v x [] m = elim m [ inl e ↦ inl e | inr b ↦ absurd b ]
  In-values-put k v x ((j, w) ∷ d) m = elim (Bool-cases (j == k)) [
    | inl t ↦ elim (rw t at m) [ inl e ↦ inl e | inr r ↦ inr (inr r) ]
    | inr f ↦ elim (rw f at m) [
      | inl e ↦ inr (inl e)
      | inr r ↦ elim (In-values-put k v x d r) [ inl e ↦ inl e | inr s ↦ inr (inr s) ]
    ]
  ]

  pub In-values-put_self : (k : String) (v : V) (d : Dict V) → In v (values (put k v d))
  unfolding put
  In-values-put_self k v [] = inl refl
  In-values-put_self k v ((j, w) ∷ d) = elim (Bool-cases (j == k)) [
    | inl t ↦ rw t (inl refl)
    | inr f ↦ rw f (inr (In-values-put_self k v d))
  ]

  pub get-In : (k : String) (v : V) (d : Dict V) → get k d ≡ some v → In v (values d)
  unfolding get
  get-In k v [] h = cc
  get-In k v ((j, w) ∷ d) h = ground (arith, get-In k v d)

-- Each value stands under its own key, as `key` reads it off the value.
module _ {V : Type 0} (key : V → String) where
  abbrev pub IsKeyed : Dict V → Type 0
  IsKeyed [] = Unit
  IsKeyed ((k, v) ∷ d) = (k ≡ key v) × IsKeyed d

  pub put-IsKeyed : (v : V) (d : Dict V) → IsKeyed d → IsKeyed (put (key v) v d)
  unfolding put
  put-IsKeyed v [] h = (refl, tt)
  put-IsKeyed v ((j, w) ∷ d) (e, h) = elim (Bool-cases (j == key v)) [
    | inl t ↦ rw t ((eq_iff j (key v)).0 t, h)
    | inr f ↦ rw f (e, put-IsKeyed v d h)
  ]

  pub pop-IsKeyed : (k : String) (d : Dict V) → IsKeyed d → IsKeyed (pop k d)
  unfolding pop
  pop-IsKeyed k [] h = tt
  pop-IsKeyed k ((j, w) ∷ d) (e, h) = elim (Bool-cases (j == k)) [
    | inl t ↦ rw t (pop-IsKeyed k d h)
    | inr f ↦ rw f (e, pop-IsKeyed k d h)
  ]

  -- What another key holds is not touched.
  pub In-values-pop_of :
      (k : String) (x : V) (d : Dict V)
      → IsKeyed d
      → key x ≢ k
      → In x (values d)
      → In x (values (pop k d))
  unfolding pop
  In-values-pop_of k x [] h n m = absurd m
  In-values-pop_of k x ((j, w) ∷ d) (e, h) n (inl s) =
      let f : (j == k) ≡ false = ==-of-ne j k (λ p. n (ap key s ∙ (sym e ∙ p))) in rw f (inl s)
  In-values-pop_of k x ((j, w) ∷ d) (e, h) n (inr m) = elim (Bool-cases (j == k)) [
    | inl t ↦ rw t (In-values-pop_of k x d h n m)
    | inr f ↦ rw f (inr (In-values-pop_of k x d h n m))
  ]

  pub In-values-put_of :
      (v x : V) (d : Dict V)
      → IsKeyed d
      → key x ≢ key v
      → In x (values d)
      → In x (values (put (key v) v d))
  unfolding put
  In-values-put_of v x [] h n m = absurd m
  In-values-put_of v x ((j, w) ∷ d) (e, h) n (inl s) =
      let f : (j == key v) ≡ false = ==-of-ne j (key v) (λ p. n (ap key s ∙ (sym e ∙ p))) in
      rw f (inl s)
  In-values-put_of v x ((j, w) ∷ d) (e, h) n (inr m) = elim (Bool-cases (j == key v)) [
    | inl t ↦ rw t (inr m)
    | inr f ↦ rw f (inr (In-values-put_of v x d h n m))
  ]

  -- No value under the key is left after a pop.
  pub In-values-pop_ne :
      (k : String) (x : V) (d : Dict V) → IsKeyed d → In x (values (pop k d)) → key x ≢ k
  unfolding pop
  In-values-pop_ne k x [] h m = absurd m
  In-values-pop_ne k x ((j, w) ∷ d) (e, h) m = elim (Bool-cases (j == k)) [
    | inl t ↦ In-values-pop_ne k x d h (rw t at m)
    | inr f ↦ elim (rw f at m) [
      | inl s ↦ λ p. ground (arith, eq_iff j k, ap key s)
      | inr r ↦ In-values-pop_ne k x d h r
    ]
  ]

  pub get-key : (k : String) (v : V) (d : Dict V) → IsKeyed d → get k d ≡ some v → key v ≡ k
  unfolding get
  get-key k v [] h g = cc
  get-key k v ((j, w) ∷ d) (e, h) g = ground (arith, eq_iff j k, get-key k v d h)

  -- A pop of a key that no value stands under changes nothing.
  pub pop-absent :
      (k : String) (d : Dict V) → IsKeyed d → ((x : V) → In x (values d) → key x ≢ k) → pop k d ≡ d
  unfolding pop
  pop-absent k [] h n = refl
  pop-absent k ((j, w) ∷ d) (e, h) n =
      let f : (j == k) ≡ false = ==-of-ne j k (λ p. n w (inl refl) (sym e ∙ p)) in
      rw f (ap (λ r. (j, w) ∷ r) (pop-absent k d h (λ x m. n x (inr m))))

  pub pop-put_absent :
      (v : V) (d : Dict V)
      → IsKeyed d
      → ((x : V) → In x (values d) → key x ≢ key v)
      → pop (key v) (put (key v) v d) ≡ d
  unfolding pop put
  pop-put_absent v [] h n = ground (arith, eq_refl (key v))
  pop-put_absent v ((j, w) ∷ d) (e, h) n =
      let f : (j == key v) ≡ false = ==-of-ne j (key v) (λ p. n w (inl refl) (sym e ∙ p)) in
      rw f (rw f (ap (λ r. (j, w) ∷ r) (pop-put_absent v d h (λ x m. n x (inr m)))))

  get-some_of_In :
      (v : V) (d : Dict V) → IsKeyed d → In v (values d) → (w : V) × (get (key v) d ≡ some w)
  unfolding get
  get-some_of_In v [] h m = absurd m
  get-some_of_In v ((j, w) ∷ d) (e, h) m = elim (Bool-cases (j == key v)) [
    | inl t ↦ (w, rw t)
    | inr f ↦ rw f (elim m [
      | inl s ↦ absurd (ne-of-== j (key v) f (e ∙ ap key (sym s)))
      | inr r ↦ get-some_of_In v d h r
    ])
  ]

  pub has-In : (v : V) (d : Dict V) → IsKeyed d → In v (values d) → has (key v) d ≡ true
  unfolding has
  has-In v d h m = let (w, e) = get-some_of_In v d h m in rw (e, has)

  pub get-absent :
      (k : String) (d : Dict V)
      → IsKeyed d
      → ((x : V) → In x (values d) → key x ≢ k)
      → get k d ≡ none
  unfolding get
  get-absent k [] h n = refl
  get-absent k ((j, w) ∷ d) (e, h) n =
      let f : (j == k) ≡ false = ==-of-ne j k (λ p. n w (inl refl) (sym e ∙ p)) in
      rw f (get-absent k d h (λ x m. n x (inr m)))

  -- A key that no value stands under is absent.
  pub has-absent :
      (k : String) (d : Dict V)
      → IsKeyed d
      → ((x : V) → In x (values d) → key x ≢ k)
      → has k d ≡ false
  unfolding has
  has-absent k d h n = rw (get-absent k d h n, has)
