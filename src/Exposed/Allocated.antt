-- ===== src/Exposed/Allocated.antt =====
-- wotpy/wot/thing.py: the identities that the interactions of a Thing have.
use wot_py.Prelude.{
  ℕ, suc, String, [], ◌∷◌, ◌≡◌, refl, sym, ap, ◌∙◌, ◌<◌, ◌⊎◌, inl, inr, ok, In, values, Dict,
  >>=-eq-ok, arith, ◌>>=◌, Option, Option-cases, In-values-put, In-values-pop,
}
use wot_py.Platform.{Platform}
use wot_py.Interaction.{
  Kind, property, action, event, Fragment, Interaction, interaction_type, new_interaction,
}
use wot_py.Thing.{
  Thing, interactions, store, store_as, discard, add_interaction, remove_interaction, add_fragment,
  add_fragments, new_thing, find_interaction,
}
use wot_py.Thing.Members.{In-store, In-discard}
use wot_py.Thing.Unique.{IsFormed}
use wot_py.Thing.Changes.{add_interaction_iff, remove_interaction-found, remove_interaction-missing}

-- The interactions are distinct objects, older than the next one, and the properties are of the
-- class Property.
pub record IsAllocated (t : Thing) : Type 0 where
  pub below : (i : Interaction) → In i (interactions t) → i.ident < t.next_ident
  pub apart :
      (i j : Interaction)
      → In i (interactions t)
      → In j (interactions t)
      → i.ident ≡ j.ident
      → i ≡ j
  pub typed : (p : Interaction) → In p (values t.properties) → interaction_type p ≡ property

abbrev ident_of : Interaction → ℕ
ident_of i = i.ident

abbrev next_of : Thing → ℕ
next_of t = t.next_ident

pub next_ident-store : (i : Interaction) (t : Thing) → (store i t).next_ident ≡ t.next_ident
unfolding store
next_ident-store i t = ground arith

pub next_ident-discard : (k : String) (t : Thing) → (discard k t).next_ident ≡ t.next_ident
unfolding discard
next_ident-discard k t = refl

-- The object that a fragment makes, and its way into the Thing.
pub add_fragment_lem :
    (env : Platform) (name : String) (fragment : Fragment) (t u : Thing)
    → add_fragment env name fragment t ≡ ok u
    → (i : Interaction) × (i.ident ≡ t.next_ident)
      × (i.name ≡ name)
      × (i.fragment ≡ fragment)
      × (add_interaction env i (record t { next_ident = suc t.next_ident }) ≡ ok u)
unfolding add_fragment new_interaction
add_fragment_lem env name fragment t u e =
    let (i, made, added) =
      >>=-eq-ok (new_interaction t.next_ident t.ident name fragment)
        (λ i. add_interaction env i (record t { next_ident = suc t.next_ident })) e in
    (i, ground arith, ground arith, ground arith, added)

In-properties-store :
    (i p : Interaction) (t : Thing)
    → In p (values (store i t).properties)
    → ((p ≡ i) × (interaction_type i ≡ property)) ⊎ In p (values t.properties)
unfolding store
In-properties-store i p t m = go (interaction_type i) refl m
  where
    go :
        (k : Kind)
        → interaction_type i ≡ k
        → In p (values (store_as k i t).properties)
        → ((p ≡ i) × (interaction_type i ≡ property)) ⊎ In p (values t.properties)
    go property e n = elim (In-values-put i.name i p t.properties n) [
      | inl q ↦ inl (q, e)
      | inr r ↦ inr r
    ]
    go action e n = inr n
    go event e n = inr n

store-IsAllocated :
    (i : Interaction) (t : Thing)
    → IsAllocated t
    → ((x : Interaction) → In x (interactions t) → x.ident < i.ident)
    → i.ident < t.next_ident
    → IsAllocated (store i t)
store-IsAllocated i t h older lt = record {
  below = λ x m.
      rw (next_ident-store i t) (elim (In-store i x t m) [ inl p ↦ rw p lt | inr o ↦ h.below x o ]);
  apart = λ x y m n e. elim (In-store i x t m) [
    | inl p ↦ elim (In-store i y t n) [
      | inl q ↦ p ∙ sym q
      | inr o ↦
          let l = older y o in
          let f : x.ident ≡ i.ident = ap ident_of p in absurd (omega (arith, l, f, e))
    ]
    | inr o ↦ elim (In-store i y t n) [
      | inl q ↦
          let l = older x o in
          let f : y.ident ≡ i.ident = ap ident_of q in absurd (omega (arith, l, f, e))
      | inr r ↦ h.apart x y o r e
    ]
  ];
  typed = λ p m. elim (In-properties-store i p t m) [
    | inl q ↦ ap interaction_type q.0 ∙ q.1
    | inr o ↦ h.typed p o
  ];
}

allocate-IsAllocated :
    (t : Thing) → IsAllocated t → IsAllocated (record t { next_ident = suc t.next_ident })
unfolding interactions
allocate-IsAllocated t h = record {
  below = λ x m. let l = h.below x m in omega (arith, l);
  apart = h.apart;
  typed = h.typed;
}

-- Adding an object of the next identity.
pub add_fragment-IsAllocated :
    (env : Platform) (name : String) (fragment : Fragment) (t u : Thing)
    → IsAllocated t
    → add_fragment env name fragment t ≡ ok u
    → IsAllocated u × (u.next_ident ≡ suc t.next_ident)
unfolding interactions
add_fragment-IsAllocated env name fragment t u h e =
    let (i, id, nm, fr, added) = add_fragment_lem env name fragment t u e in
    let v : Thing = record t { next_ident = suc t.next_ident } in
    let (own, new, s) = (add_interaction_iff env i v u).0 added in
    (
      rw s (
          store-IsAllocated i v (allocate-IsAllocated t h)
            (λ x m. let l = h.below x m in omega (arith, l, id)) (omega (arith, id))),
      ap next_of s ∙ next_ident-store i v,
    )

pub add_fragments-IsAllocated :
    (env : Platform) (fs : Dict Fragment) (t u : Thing)
    → IsAllocated t
    → add_fragments env fs t ≡ ok u
    → IsAllocated u
unfolding add_fragments
add_fragments-IsAllocated env [] t u h e = let same : t ≡ u = cc in rw (← same) h
add_fragments-IsAllocated env ((name, fragment) ∷ fs) t u h e =
    let (v, added, rest) =
      >>=-eq-ok (add_fragment env name fragment t) (λ w. add_fragments env fs w) e in
    add_fragments-IsAllocated env fs v u (add_fragment-IsAllocated env name fragment t v h added).0
      rest

discard-typed :
    (k : String) (t : Thing)
    → IsAllocated t
    → (p : Interaction) → In p (values (discard k t).properties)
    → interaction_type p ≡ property
unfolding discard
discard-typed k t h p m = h.typed p (In-values-pop k p t.properties m)

-- What is left after a removal are the old objects.
pub discard-IsAllocated :
    (env : Platform) (k : String) (t : Thing)
    → IsFormed env t
    → IsAllocated t
    → IsAllocated (discard k t)
discard-IsAllocated env k t f h = record {
  below = λ x m. rw (next_ident-discard k t) (h.below x (In-discard k x t f.keyed m).0);
  apart = λ x y m n. h.apart x y (In-discard k x t f.keyed m).0 (In-discard k y t f.keyed n).0;
  typed = discard-typed k t h;
}

pub remove_interaction-IsAllocated :
    (env : Platform) (name : String) (t : Thing)
    → IsFormed env t
    → IsAllocated t
    → IsAllocated (remove_interaction env name t)
      × ((remove_interaction env name t).next_ident ≡ t.next_ident)
remove_interaction-IsAllocated env name t f h = elim (Option-cases (find_interaction env name t)) [
  | inl e ↦ let same = remove_interaction-missing env name t e in (rw same h, ap next_of same)
  | inr (i, e) ↦
      let same = remove_interaction-found env name i t e in
      (
        rw same (discard-IsAllocated env i.name t f h),
        ap next_of same ∙ next_ident-discard i.name t,
      )
]

-- The constructor allocates from the first identity on.
pub new_thing-IsAllocated :
    (env : Platform) (ident : ℕ) (id title : String) (base : Option String)
    (ps qs rs : Dict Fragment) (n : ℕ) (t : Thing)
    → new_thing env ident id title base ps qs rs n ≡ ok t
    → IsAllocated t
unfolding new_thing interactions
new_thing-IsAllocated env ident id title base ps qs rs n t e =
    let (v, first, rest) =
      >>=-eq-ok (add_fragments env ps _)
        (λ a. add_fragments env qs a >>= λ b. add_fragments env rs b) e in
    let (w, second, third) =
      >>=-eq-ok (add_fragments env qs v) (λ b. add_fragments env rs b) rest in
    add_fragments-IsAllocated env rs w t
      (add_fragments-IsAllocated env qs v w
        (add_fragments-IsAllocated env ps _ v
          (record {
            below = λ x m. absurd m;
            apart = λ x y m k q. absurd m;
            typed = λ p m. absurd m;
          })
          first)
        second)
      third
