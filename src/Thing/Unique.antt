-- ===== src/Thing/Unique.antt =====
-- The interactions of a Thing are told apart by their names and URL names: the invariant of
-- wotpy/wot/thing.py, and what it gives `find_interaction`.
use wot_py.Prelude.{
  String, none, some, true, false, ◌==◌, ◌≡◌, ◌⊎◌, inl, inr, ap, ◌∙◌, arith, eq_iff, eq_refl, In,
  next-In, next-true, next-some, next-none, next-none_of_all, Bool-cases,
}
use wot_py.Platform.{Platform}
use wot_py.Interaction.{Interaction, url_name}
use wot_py.Thing.{Thing, interactions, is_match, find_interaction}
use wot_py.Thing.Members.{AreKeyed}

module _ (env : Platform) where
  -- At most one interaction answers to a name, be it by its name or by its URL name.
  abbrev pub AreUnique : Thing → Type 0
  AreUnique t =
      (q : String) (i j : Interaction)
      → In i (interactions t)
      → In j (interactions t)
      → is_match env q i ≡ true
      → is_match env q j ≡ true
      → i ≡ j

  pub record IsFormed (t : Thing) : Type 0 where
    pub keyed : AreKeyed t
    pub linked : (i : Interaction) → In i (interactions t) → i.thing ≡ t.ident
    pub unique : AreUnique t

  pub is_match-name : (i : Interaction) → is_match env i.name i ≡ true
  unfolding is_match
  is_match-name i = ground (arith, eq_refl i.name)

  pub is_match-url_name : (i : Interaction) → is_match env (url_name env i) i ≡ true
  unfolding is_match
  is_match-url_name i = ground (arith, eq_refl (env.slugify i.name))

  -- What matches an interaction is its name or its URL name.
  pub is_match-cases :
      (q : String) (i : Interaction) → is_match env q i ≡ true → (i.name ≡ q) ⊎ (url_name env i ≡ q)
  unfolding is_match
  is_match-cases q i h = elim (Bool-cases (i.name == q)) [
    | inl t ↦ inl ((eq_iff i.name q).0 t)
    | inr f ↦ inr ((eq_iff (url_name env i) q).0 (ground arith))
  ]

  -- An interaction of the Thing that answers to a name is the one that is found.
  pub find_interaction-eq :
      (t : Thing) (q : String) (i : Interaction)
      → AreUnique t
      → In i (interactions t)
      → is_match env q i ≡ true
      → find_interaction env q t ≡ some i
  unfolding find_interaction
  find_interaction-eq t q i u m h =
      let (j, e) = next-some (is_match env q) (interactions t) i m h in
      e
      ∙ ap some (
          u q j i (next-In (is_match env q) (interactions t) j e) m
            (next-true (is_match env q) (interactions t) j e) h)

  pub find_interaction-In :
      (t : Thing) (q : String) (i : Interaction)
      → find_interaction env q t ≡ some i
      → In i (interactions t) × (is_match env q i ≡ true)
  unfolding find_interaction
  find_interaction-In t q i e = (
    next-In (is_match env q) (interactions t) i e,
    next-true (is_match env q) (interactions t) i e,
  )

  pub find_interaction-none :
      (t : Thing) (q : String) (i : Interaction)
      → find_interaction env q t ≡ none
      → In i (interactions t)
      → is_match env q i ≡ false
  unfolding find_interaction
  find_interaction-none t q i e m = next-none (is_match env q) (interactions t) i e m

  pub find_interaction-none_of :
      (t : Thing) (q : String)
      → ((x : Interaction) → In x (interactions t) → is_match env q x ≡ false)
      → find_interaction env q t ≡ none
  unfolding find_interaction
  find_interaction-none_of t q a = next-none_of_all (is_match env q) (interactions t) a
