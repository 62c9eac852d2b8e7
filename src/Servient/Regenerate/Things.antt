-- ===== src/Servient/Regenerate/Things.antt =====
-- The forms of all interactions of one Thing: `_regenerate_server_forms` of
-- wotpy/wot/servient.py for one ExposedThing.
use wot_py.Prelude.{
  ℕ, List, [], ◌∷◌, ◌++◌, true, false, not, ◌≡◌, ◌≢◌, inl, inr, refl, ◌∙◌, All, All-append,
  All-filter, In, filter, Dict, values, Outcome, Bool-cases,
}
use wot_py.Platform.{Platform, Protocol}
use wot_py.Interaction.{Form, Interaction, form_id, same_op}
use wot_py.Interaction.Forms.{of_protocol, same_op_refl, same_protocol_refl, AreApart}
use wot_py.Thing.{Thing, interactions}
use wot_py.Thing.Members.{In-three_of}
use wot_py.Server.Forms.{built_ops, HaveOtherOps, IsBuilt, AreBuilt}
use wot_py.Servient.{clean_protocol, add_forms, over_dict, over_interactions, no_error}
use wot_py.Servient.Regenerate.{others, clean_protocol_lem, Separates, IsReady, add_forms_lem}

abbrev pub map_values : (Interaction → Interaction) → Dict Interaction → Dict Interaction
map_values g [] = []
map_values g ((k, i) ∷ d) = (k, g i) ∷ map_values g d

-- A Thing with each interaction changed.
abbrev pub map_thing : (Interaction → Interaction) → Thing → Thing
map_thing g t = record t {
  properties = map_values g t.properties;
  actions = map_values g t.actions;
  events = map_values g t.events;
}

over_dict_lem :
    (body : Interaction → Outcome Interaction) (g : Interaction → Interaction)
    (d : Dict Interaction)
    → ((i : Interaction) → In i (values d) → body i ≡ no_error (g i))
    → over_dict body d ≡ no_error (map_values g d)
unfolding over_dict
over_dict_lem body g [] h = refl
over_dict_lem body g ((k, i) ∷ d) h =
    rw (h i (inl refl)) (rw (over_dict_lem body g d (λ j m. h j (inr m))))

-- A loop whose rounds do not raise changes each interaction and does not raise.
pub over_interactions_lem :
    (body : Interaction → Outcome Interaction) (g : Interaction → Interaction) (t : Thing)
    → ((i : Interaction) → In i (interactions t) → body i ≡ no_error (g i))
    → over_interactions body t ≡ no_error (map_thing g t)
unfolding over_interactions
over_interactions_lem body g t h =
    rw (over_dict_lem body g t.properties (λ i m. h i (In-three_of i t (inl m)))) (
      rw (over_dict_lem body g t.actions (λ i m. h i (In-three_of i t (inr (inl m)))))
        (rw (over_dict_lem body g t.events (λ i m. h i (In-three_of i t (inr (inr m)))))))

over_dict_map :
    (body : Interaction → Outcome Interaction) (f g : Interaction → Interaction)
    (d : Dict Interaction)
    → ((i : Interaction) → In i (values d) → body (f i) ≡ no_error (g i))
    → over_dict body (map_values f d) ≡ no_error (map_values g d)
unfolding over_dict
over_dict_map body f g [] h = refl
over_dict_map body f g ((k, i) ∷ d) h =
    rw (h i (inl refl)) (rw (over_dict_map body f g d (λ j m. h j (inr m))))

-- The same for a loop over a Thing that an earlier loop has changed.
pub over_interactions_map :
    (body : Interaction → Outcome Interaction) (f g : Interaction → Interaction) (t : Thing)
    → ((i : Interaction) → In i (interactions t) → body (f i) ≡ no_error (g i))
    → over_interactions body (map_thing f t) ≡ no_error (map_thing g t)
unfolding over_interactions
over_interactions_map body f g t h =
    rw (over_dict_map body f g t.properties (λ i m. h i (In-three_of i t (inl m)))) (
      rw (over_dict_map body f g t.actions (λ i m. h i (In-three_of i t (inr (inl m)))))
        (rw (over_dict_map body f g t.events (λ i m. h i (In-three_of i t (inr (inr m)))))))

module _ (env : Platform) where
  kept_apart :
      (p : Protocol) (f : Form) (gs : List Form) (owner : ℕ)
      → Separates env
      → f.protocol ≡ p
      → In f.op built_ops
      → All (λ g. (g.interaction ≡ owner) × In g.op built_ops) gs
      → All (λ g. form_id env g ≢ form_id env f) (others p gs)
  unfolding filter of_protocol
  kept_apart p f [] owner sep fp fo all = tt
  kept_apart p f (g ∷ gs) owner sep fp fo (b, bs) = elim (Bool-cases (of_protocol p g)) [
    | inl t ↦ rw t (kept_apart p f gs owner sep fp fo bs)
    | inr n ↦ rw n (
      λ e.
          let same : g.protocol ≡ p = (sep g f b.1 fo e).0 ∙ fp in
          let own : of_protocol p g ≡ true = rw same (same_protocol_refl p) in cc,
      kept_apart p f gs owner sep fp fo bs,
    )
  ]

  apart_of_ops :
      (p : Protocol) (owner : ℕ) (fs : List Form)
      → Separates env
      → All (IsBuilt p owner) fs
      → HaveOtherOps fs
      → AreApart env fs
  apart_of_ops p owner [] sep b o = tt
  apart_of_ops p owner (f ∷ fs) sep (b, bs) (o, os) =
      (each fs bs o, apart_of_ops p owner fs sep bs os)
    where
      each :
          (gs : List Form)
          → All (IsBuilt p owner) gs
          → All (λ g. same_op f.op g.op ≡ false) gs
          → All (λ g. form_id env f ≢ form_id env g) gs
      each [] x y = tt
      each (g ∷ gs) (x, xs) (y, ys) = (
        λ e.
            let same : same_op f.op g.op ≡ true =
              rw (← (sep f g b.2 x.2 e).1) (same_op_refl f.op) in
            cc,
        each gs xs ys,
      )

  disjoint_forms :
      (p : Protocol) (fs gs : List Form) (owner : ℕ)
      → Separates env
      → All (IsBuilt p owner) fs
      → All (λ g. (g.interaction ≡ owner) × In g.op built_ops) gs
      → All (λ f. All (λ g. form_id env g ≢ form_id env f) (others p gs)) fs
  disjoint_forms p [] gs owner sep b all = tt
  disjoint_forms p (f ∷ fs) gs owner sep (b, bs) all =
      (kept_apart p f gs owner sep b.1 b.2 all, disjoint_forms p fs gs owner sep bs all)

  owned :
      (p : Protocol) (owner : ℕ) (fs : List Form)
      → All (IsBuilt p owner) fs
      → All (λ f. f.interaction ≡ owner) fs
  owned p owner [] b = tt
  owned p owner (f ∷ fs) (b, bs) = (b.0, owned p owner fs bs)

  ready :
      (p : Protocol) (owner : ℕ) (fs : List Form)
      → All (IsBuilt p owner) fs
      → All (λ f. (f.interaction ≡ owner) × In f.op built_ops) fs
  ready p owner [] b = tt
  ready p owner (f ∷ fs) (b, bs) = ((b.0, b.2), ready p owner fs bs)

  -- Replacing the forms of one protocol by those that a server builds: no addition raises, and the
  -- forms of the other protocols stay in front, in their order.
  pub replace_forms :
      (p : Protocol) (i : Interaction) (fs : List Form)
      → Separates env
      → IsReady env i
      → AreBuilt p i fs
      → add_forms env fs (clean_protocol p i)
        ≡ no_error (record i { forms = others p i.forms ++ fs })
  replace_forms p i fs sep r (b, o) = rw (clean_protocol_lem p i) (
      add_forms_lem env fs (record i { forms = others p i.forms }) (owned p i.ident fs b)
        (disjoint_forms p fs i.forms i.ident sep b r) (apart_of_ops p i.ident fs sep b o))

  pub replace-IsReady :
      (p : Protocol) (i : Interaction) (fs : List Form)
      → IsReady env i
      → AreBuilt p i fs
      → IsReady env (record i { forms = others p i.forms ++ fs })
  replace-IsReady p i fs r (b, o) =
      All-append (λ f. (f.interaction ≡ i.ident) × In f.op built_ops) (others p i.forms) fs
        (All-filter (λ f. (f.interaction ≡ i.ident) × In f.op built_ops)
          (λ f. not (of_protocol p f)) i.forms r)
        (ready p i.ident fs b)
