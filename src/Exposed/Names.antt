-- ===== src/Exposed/Names.antt =====
-- wotpy/wot/exposed/interaction_map.py: the names that the proxies of the interactions go by.
use wot_py.Prelude.{
  String, Bool, true, [], ◌∷◌, ◌≡◌, refl, sym, ap, ◌∙◌, ◌==◌, inl, inr, some, In, Dict, keys,
  values, IsKeyed, eq_iff, next-In, next-true, next-some, subst,
}
use wot_py.Platform.{Platform}
use wot_py.Interaction.{Interaction, url_name}
use wot_py.Thing.{Thing, interactions}
use wot_py.Thing.Members.{In-three_of, name_of}
use wot_py.Thing.Unique.{IsFormed, is_match-url_name}
use wot_py.Exposed.{find_normalized_name}

key-In :
    (k : String) (d : Dict Interaction)
    → IsKeyed name_of d
    → In k (keys d)
    → (j : Interaction) × In j (values d) × (j.name ≡ k)
key-In k [] h m = absurd m
key-In k ((l, j) ∷ d) (e, h) (inl s) = (j, inl refl, sym (s ∙ e))
key-In k ((l, j) ∷ d) (e, h) (inr m) = let (i, n, s) = key-In k d h m in (i, inr n, s)

In-key :
    (j : Interaction) (d : Dict Interaction)
    → IsKeyed name_of d
    → In j (values d)
    → In j.name (keys d)
In-key j [] h m = absurd m
In-key j ((l, i) ∷ d) (e, h) (inl s) = inl (ap name_of s ∙ sym e)
In-key j ((l, i) ∷ d) (e, h) (inr m) = inr (In-key j d h m)

module _ (env : Platform) where
  -- In a dictionary of a well-formed Thing, every text with the slug of an interaction's name
  -- normalizes to the name of that interaction.
  normalized :
      (q : String) (i : Interaction) (t : Thing) (d : Dict Interaction)
      → IsFormed env t
      → IsKeyed name_of d
      → ((j : Interaction) → In j (values d) → In j (interactions t))
      → In i (values d)
      → env.slugify q ≡ url_name env i
      → find_normalized_name env q d ≡ some i.name
  unfolding find_normalized_name url_name
  normalized q i t d h k sub m e =
      let test : String → Bool = λ n. env.slugify n == env.slugify q in
      let hit : test i.name ≡ true = (eq_iff (env.slugify i.name) (env.slugify q)).1 (sym e) in
      let (n, f) = next-some test (keys d) i.name (In-key i d k m) hit in
      let (j, mj, s) = key-In n d k (next-In test (keys d) n f) in
      let slugs : env.slugify j.name ≡ env.slugify i.name =
        ap env.slugify s
        ∙ ((eq_iff (env.slugify n) (env.slugify q)).0 (next-true test (keys d) n f) ∙ e) in
      let same : j ≡ i =
        h.unique (env.slugify i.name) j i (sub j mj) (sub i m)
          (subst (λ z. wot_py.Thing.is_match env z j ≡ true) slugs (is_match-url_name env j))
          (is_match-url_name env i) in
      f ∙ ap some (sym s ∙ ap name_of same)

  -- On a well-formed Thing, the dictionary of properties that clients of the application see finds
  -- the name of a property for every text that has the slug of its name.
  pub find_normalized_name-property :
      (q : String) (p : Interaction) (t : Thing)
      → IsFormed env t
      → In p (values t.properties)
      → env.slugify q ≡ url_name env p
      → find_normalized_name env q t.properties ≡ some p.name
  find_normalized_name-property q p t h m e =
      normalized q p t t.properties h h.keyed.properties (λ j n. In-three_of j t (inl n)) m e

  -- The same for the dictionary of events.
  pub find_normalized_name-event :
      (q : String) (i : Interaction) (t : Thing)
      → IsFormed env t
      → In i (values t.events)
      → env.slugify q ≡ url_name env i
      → find_normalized_name env q t.events ≡ some i.name
  find_normalized_name-event q i t h m e =
      normalized q i t t.events h h.keyed.events (λ j n. In-three_of j t (inr (inr n))) m e
