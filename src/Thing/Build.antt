-- ===== src/Thing/Build.antt =====
-- Building a Thing from a fragment (`Thing.__init__` of wotpy/wot/thing.py), and undoing an
-- addition.
use wot_py.Prelude.{
  ℕ, suc, String, [], ◌∷◌, Option, ◌≡◌, ◌≢◌, inl, inr, ap, ◌∙◌, Dict, In, Result, ok, err, ◌>>=◌,
  values, pop-absent, pop-put_absent, >>=-eq-ok,
}
use wot_py.Platform.{Platform}
use wot_py.Interaction.{
  Kind, property, action, event, Fragment, Interaction, interaction_type, new_interaction,
}
use wot_py.Thing.{
  Thing, interactions, store_as, store, discard, add_interaction, remove_interaction, add_fragment,
  add_fragments, new_thing,
}
use wot_py.Thing.Members.{AreKeyed, name_of, In-store_self, In-three_of}
use wot_py.Thing.Unique.{IsFormed, is_match-name, find_interaction-eq}
use wot_py.Thing.Changes.{
  IsNew-ne, add_interaction_iff, add_interaction-IsFormed, remove_interaction-found,
}

discard-store_as :
    (k : Kind) (i : Interaction) (t : Thing)
    → AreKeyed t
    → ((x : Interaction) → In x (interactions t) → x.name ≢ i.name)
    → discard i.name (store_as k i t) ≡ t
unfolding store_as discard
discard-store_as k i t h n = by_kind k
  where
    no_property : (x : Interaction) → In x (values t.properties) → x.name ≢ i.name
    no_property x m = n x (In-three_of x t (inl m))

    no_action : (x : Interaction) → In x (values t.actions) → x.name ≢ i.name
    no_action x m = n x (In-three_of x t (inr (inl m)))

    no_event : (x : Interaction) → In x (values t.events) → x.name ≢ i.name
    no_event x m = n x (In-three_of x t (inr (inr m)))

    by_kind : (c : Kind) → discard i.name (store_as c i t) ≡ t
    by_kind property = cc (
      pop-put_absent name_of i t.properties h.properties no_property,
      pop-absent name_of i.name t.actions h.actions no_action,
      pop-absent name_of i.name t.events h.events no_event,
    )
    by_kind action = cc (
      pop-absent name_of i.name t.properties h.properties no_property,
      pop-put_absent name_of i t.actions h.actions no_action,
      pop-absent name_of i.name t.events h.events no_event,
    )
    by_kind event = cc (
      pop-absent name_of i.name t.properties h.properties no_property,
      pop-absent name_of i.name t.actions h.actions no_action,
      pop-put_absent name_of i t.events h.events no_event,
    )

module _ (env : Platform) where
  -- Adding an interaction to a well-formed Thing and removing it by its name gives the Thing back,
  -- its dictionaries in their old order.
  remove_interaction-add_interaction :
      (i : Interaction) (t u : Thing)
      → IsFormed env t
      → add_interaction env i t ≡ ok u
      → remove_interaction env i.name u ≡ t
  unfolding store
  remove_interaction-add_interaction i t u h e =
      let (own, new, s) = (add_interaction_iff env i t u).0 e in
      let formed = add_interaction-IsFormed env i t u h e in
      let here : In i (interactions u) = rw s (In-store_self i t) in
      remove_interaction-found env i.name i u
        (find_interaction-eq env u i.name i formed.unique here (is_match-name env i))
      ∙ ap (discard i.name) s
      ∙ discard-store_as (interaction_type i) i t h.keyed (λ x m. IsNew-ne env i x t new m)

  -- Allocating an object does not touch the interactions.
  pub IsFormed-allocated :
      (t : Thing) (n : ℕ) → IsFormed env t → IsFormed env (record t { next_ident = n })
  unfolding interactions
  IsFormed-allocated t n h = record {
    keyed = record {
      properties = h.keyed.properties;
      actions = h.keyed.actions;
      events = h.keyed.events;
    };
    linked = h.linked;
    unique = h.unique;
  }

  pub add_fragment-IsFormed :
      (name : String) (fragment : Fragment) (t u : Thing)
      → IsFormed env t
      → add_fragment env name fragment t ≡ ok u
      → IsFormed env u
  unfolding add_fragment
  add_fragment-IsFormed name fragment t u h e =
      go (new_interaction t.next_ident t.ident name fragment) e
    where
      go :
          (r : Result Interaction)
          → (r >>= λ i. add_interaction env i (record t { next_ident = suc t.next_ident })) ≡ ok u
          → IsFormed env u
      go (ok i) p =
          add_interaction-IsFormed env i (record t { next_ident = suc t.next_ident }) u
            (IsFormed-allocated t (suc t.next_ident) h) p
      go (err x) p = cc

  add_fragments-IsFormed :
      (fs : Dict Fragment) (t u : Thing)
      → IsFormed env t
      → add_fragments env fs t ≡ ok u
      → IsFormed env u
  unfolding add_fragments
  add_fragments-IsFormed [] t u h e = let same : t ≡ u = cc in rw (← same) h
  add_fragments-IsFormed ((name, fragment) ∷ fs) t u h e =
      let (v, added, rest) =
        >>=-eq-ok (add_fragment env name fragment t) (λ w. add_fragments env fs w) e in
      add_fragments-IsFormed fs v u (add_fragment-IsFormed name fragment t v h added) rest

  -- A Thing before the constructor's loops.
  abbrev bare : ℕ → String → String → Option String → ℕ → Thing
  bare ident id title base n = record {
    ident = ident;
    id = id;
    title = title;
    base = base;
    properties = [];
    actions = [];
    events = [];
    next_ident = n;
  }

  bare-IsFormed :
      (ident : ℕ) (id title : String) (base : Option String) (n : ℕ)
      → IsFormed env (bare ident id title base n)
  unfolding interactions
  bare-IsFormed ident id title base n = record {
    keyed = record { properties = tt; actions = tt; events = tt };
    linked = λ x m. absurd m;
    unique = λ q i j mi mj hi hj. absurd mi;
  }

  -- A Thing that the constructor returns is well formed, whatever the fragment: its dictionaries
  -- are keyed by name, its interactions are its own, and at most one answers to any name.
  pub new_thing-IsFormed :
      (ident : ℕ) (id title : String) (base : Option String) (ps qs rs : Dict Fragment) (n : ℕ)
      (t : Thing)
      → new_thing env ident id title base ps qs rs n ≡ ok t
      → IsFormed env t
  unfolding new_thing
  new_thing-IsFormed ident id title base ps qs rs n t e =
      let start : Thing = bare ident id title base n in
      let (v, first, rest) =
        >>=-eq-ok (add_fragments env ps start)
          (λ a. add_fragments env qs a >>= λ b. add_fragments env rs b) e in
      let (w, second, third) =
        >>=-eq-ok (add_fragments env qs v) (λ b. add_fragments env rs b) rest in
      add_fragments-IsFormed rs w t
        (add_fragments-IsFormed qs v w
          (add_fragments-IsFormed ps start v (bare-IsFormed ident id title base n) first) second)
        third
