-- ===== src/Prelude/Lists.antt =====
-- Python's lists: `next` over a generator, filtering, membership, and predicates on all items.
use Prim.Native.Nat.{ℕ, suc}
use mathlib.Core.Path.{◌≡◌, refl, ap}
use mathlib.Core.Logic.{◌⊎◌, inl, inr}
use mathlib.Core.Bool.{Bool, true, false}
use mathlib.Core.Option.{Option, none, some}
use mathlib.Core.List.{List, [], ◌∷◌, ◌++◌, map}
use native.Mathlib.Omega.{arith}
use wot_py.Prelude.Tests.{if◌then◌else◌, Bool-cases}

module _ {ℓ} {A : Type ℓ} where
  abbrev pub length : List A → ℕ
  length [] = 0
  length (_ ∷ xs) = suc (length xs)

  -- `next((x for x in xs if p(x)), None)`
  unfoldable pub next : (A → Bool) → List A → Option A
  next p [] = none
  next p (x ∷ xs) = if p x then some x else next p xs

  -- `[x for x in xs if p(x)]`
  unfoldable pub filter : (A → Bool) → List A → List A
  filter p [] = []
  filter p (x ∷ xs) = let rest = filter p xs in if p x then x ∷ rest else rest

  -- `any(p(x) for x in xs)`
  unfoldable pub contains : (A → Bool) → List A → Bool
  contains p [] = false
  contains p (x ∷ xs) = if p x then true else contains p xs

module _ {A : Type 0} where
  -- `x` is an item of the list.
  abbrev pub In : A → List A → Type 0
  In x [] = ⊥
  In x (y ∷ ys) = (x ≡ y) ⊎ In x ys

  pub contains-true :
      (p : A → Bool) (xs : List A) → contains p xs ≡ true → (x : A) × In x xs × (p x ≡ true)
  unfolding contains
  contains-true p [] h = cc
  contains-true p (y ∷ xs) h = elim (Bool-cases (p y)) [
    | inl t ↦ (y, inl refl, t)
    | inr f ↦ let (x, m, e) = contains-true p xs (ground arith) in (x, inr m, e)
  ]

  pub contains_of :
      (p : A → Bool) (xs : List A) (x : A) → In x xs → p x ≡ true → contains p xs ≡ true
  unfolding contains
  contains_of p [] x m h = absurd m
  contains_of p (y ∷ xs) x (inl e) h = ground (arith, ap p e)
  contains_of p (y ∷ xs) x (inr m) h = ground (arith, contains_of p xs x m h)

  pub In-append-left : (x : A) (xs ys : List A) → In x xs → In x (xs ++ ys)
  In-append-left x (y ∷ xs) ys (inl e) = inl e
  In-append-left x (y ∷ xs) ys (inr h) = inr (In-append-left x xs ys h)
  In-append-left x [] ys h = absurd h

  pub In-append-right : (x : A) (xs ys : List A) → In x ys → In x (xs ++ ys)
  In-append-right x [] ys h = h
  In-append-right x (y ∷ xs) ys h = inr (In-append-right x xs ys h)

  pub In-append : (x : A) (xs ys : List A) → In x (xs ++ ys) → In x xs ⊎ In x ys
  In-append x [] ys h = inr h
  In-append x (y ∷ xs) ys (inl e) = inl (inl e)
  In-append x (y ∷ xs) ys (inr h) = elim (In-append x xs ys h) [
    | inl l ↦ inl (inr l)
    | inr r ↦ inr r
  ]

  pub next-In : (p : A → Bool) (xs : List A) (x : A) → next p xs ≡ some x → In x xs
  unfolding next
  next-In p [] x h = cc
  next-In p (y ∷ xs) x h = ground (arith, next-In p xs x)

  pub next-true : (p : A → Bool) (xs : List A) (x : A) → next p xs ≡ some x → p x ≡ true
  unfolding next
  next-true p [] x h = cc
  next-true p (y ∷ xs) x h = ground (arith, next-true p xs x)

  pub next-none : (p : A → Bool) (xs : List A) (x : A) → next p xs ≡ none → In x xs → p x ≡ false
  unfolding next
  next-none p [] x h m = absurd m
  next-none p (y ∷ xs) x h (inl e) = ground (arith, ap p e)
  next-none p (y ∷ xs) x h (inr m) = ground (arith, next-none p xs x)

  -- If one item passes, `next` finds an item.
  pub next-some :
      (p : A → Bool) (xs : List A) (x : A) → In x xs → p x ≡ true → (y : A) × (next p xs ≡ some y)
  unfolding next
  next-some p [] x m h = absurd m
  next-some p (y ∷ xs) x (inl e) h = (y, ground (arith, ap p e))
  next-some p (y ∷ xs) x (inr m) h = elim (Bool-cases (p y)) [
    | inl t ↦ (y, rw t)
    | inr f ↦ rw f (next-some p xs x m h)
  ]

  pub next-none_of_all :
      (p : A → Bool) (xs : List A) → ((x : A) → In x xs → p x ≡ false) → next p xs ≡ none
  unfolding next
  next-none_of_all p [] h = refl
  next-none_of_all p (y ∷ xs) h = rw (h y (inl refl)) (next-none_of_all p xs (λ x m. h x (inr m)))

  pub In-filter : (p : A → Bool) (xs : List A) (x : A) → In x (filter p xs) → In x xs × (p x ≡ true)
  unfolding filter
  In-filter p [] x m = absurd m
  In-filter p (y ∷ xs) x m = elim (Bool-cases (p y)) [
    | inl t ↦ elim (rw t at m) [
      | inl e ↦ (inl e, rw e t)
      | inr r ↦ let (a, b) = In-filter p xs x r in (inr a, b)
    ]
    | inr f ↦ let (a, b) = In-filter p xs x (rw f at m) in (inr a, b)
  ]

  pub In-filter_of :
      (p : A → Bool) (xs : List A) (x : A) → In x xs → p x ≡ true → In x (filter p xs)
  unfolding filter
  In-filter_of p [] x m h = absurd m
  In-filter_of p (y ∷ xs) x (inl e) h = let t : p y ≡ true = rw (← e) h in rw t (inl e)
  In-filter_of p (y ∷ xs) x (inr m) h = elim (Bool-cases (p y)) [
    | inl t ↦ rw t (inr (In-filter_of p xs x m h))
    | inr f ↦ rw f (In-filter_of p xs x m h)
  ]

module _ {A B : Type 0} where
  pub In-map : (f : A → B) (xs : List A) (x : A) → In x xs → In (f x) (map f xs)
  In-map f [] x m = absurd m
  In-map f (y ∷ xs) x (inl e) = inl (ap f e)
  In-map f (y ∷ xs) x (inr m) = inr (In-map f xs x m)

  pub In-map_back :
      (f : A → B) (xs : List A) (y : B) → In y (map f xs) → (x : A) × In x xs × (y ≡ f x)
  In-map_back f [] y m = absurd m
  In-map_back f (x ∷ xs) y (inl e) = (x, inl refl, e)
  In-map_back f (x ∷ xs) y (inr m) = let (z, n, e) = In-map_back f xs y m in (z, inr n, e)

module _ {A : Type 0} (P : A → Type 0) where
  abbrev pub All : List A → Type 0
  All [] = Unit
  All (x ∷ xs) = P x × All xs

  pub All-In : (xs : List A) (x : A) → All xs → In x xs → P x
  All-In [] x h m = absurd m
  All-In (y ∷ xs) x (p, h) (inl e) = rw e p
  All-In (y ∷ xs) x (p, h) (inr m) = All-In xs x h m

  pub All-append : (xs ys : List A) → All xs → All ys → All (xs ++ ys)
  All-append [] ys h k = k
  All-append (x ∷ xs) ys (p, h) k = (p, All-append xs ys h k)

  pub All-filter : (q : A → Bool) (xs : List A) → All xs → All (filter q xs)
  unfolding filter
  All-filter q [] h = tt
  All-filter q (x ∷ xs) (p, h) = elim (Bool-cases (q x)) [
    | inl t ↦ rw t (p, All-filter q xs h)
    | inr f ↦ rw f (All-filter q xs h)
  ]
