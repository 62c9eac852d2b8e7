-- ===== src/Servient/Regenerate/Server.antt =====
-- `_regenerate_server_forms` of wotpy/wot/servient.py, for one ExposedThing and for all.
use mathlib.Core.List.{append-nil}
use wot_py.Prelude.{
  ℕ, String, List, [], ◌∷◌, ◌++◌, true, false, ◌≡◌, inl, inr, refl, sym, ap, ◌∙◌, In, Dict, values,
  attempt, Result, ok, err, Bool-cases, if◌then◌else◌, is_iff, ◌is◌, fun_ext,
}
use wot_py.Platform.{Platform}
use wot_py.Interaction.{Form, Interaction}
use wot_py.Thing.{Thing, interactions}
use wot_py.Thing.Members.{In-three_of, In-three}
use wot_py.ThingSet.{Heap, contains_thing}
use wot_py.ThingSet.Lookup.{contains_thing_iff}
use wot_py.Server.{Server, build_forms}
use wot_py.Server.Forms.{AreBuilt, build_forms-AreBuilt, build_forms_ok}
use wot_py.Servient.{clean_protocol, add_forms, no_error, update, regenerate_thing}
use wot_py.Servient.Regenerate.{others, clean_protocol_lem, Separates, IsReady}
use wot_py.Servient.Regenerate.Things.{
  map_values, map_thing, over_interactions_lem, over_interactions_map, replace_forms,
}

In-map_values :
    (g : Interaction → Interaction) (d : Dict Interaction) (j : Interaction)
    → In j (values (map_values g d))
    → (i : Interaction) × In i (values d) × (j ≡ g i)
In-map_values g [] j m = absurd m
In-map_values g ((k, i) ∷ d) j (inl e) = (i, inl refl, e)
In-map_values g ((k, i) ∷ d) j (inr m) = let (x, n, e) = In-map_values g d j m in (x, inr n, e)

-- What stands in the changed Thing is a changed interaction.
pub In-map_thing :
    (g : Interaction → Interaction) (t : Thing) (j : Interaction)
    → In j (interactions (map_thing g t))
    → (i : Interaction) × In i (interactions t) × (j ≡ g i)
In-map_thing g t j m = elim (In-three j (map_thing g t) m) [
  | inl p ↦ let (i, n, e) = In-map_values g t.properties j p in (i, In-three_of i t (inl n), e)
  | inr (inl p) ↦
      let (i, n, e) = In-map_values g t.actions j p in (i, In-three_of i t (inr (inl n)), e)
  | inr (inr p) ↦
      let (i, n, e) = In-map_values g t.events j p in (i, In-three_of i t (inr (inr n)), e)
]

abbrev pub or_nothing : Result (List Form) → List Form
or_nothing (ok fs) = fs
or_nothing (err e) = []

module _ (env : Platform) where
  -- A Thing that is at its place: its interactions refer to it and have forms that servers built.
  pub record IsPlacedAt (t : Thing) (r : ℕ) : Type 0 where
    pub ident : t.ident ≡ r
    pub linked : (i : Interaction) → In i (interactions t) → i.thing ≡ r
    pub ready : (i : Interaction) → In i (interactions t) → IsReady env i

  abbrev pub IsPlaced : Heap → ℕ → Type 0
  IsPlaced heap r = IsPlacedAt (heap r) r

  -- The heap in which the forms of a Thing have been cleaned.
  abbrev pub cleaned : Server → ℕ → Heap → Heap
  cleaned s r heap = update heap r (map_thing (clean_protocol s.protocol) (heap r))

  -- An interaction as `_regenerate_server_forms` leaves it.
  abbrev pub regenerated : Server → String → ℕ → Heap → Interaction → Interaction
  regenerated s hostname r heap i = record i {
    forms =
        others s.protocol i.forms
        ++ (if contains_thing r s.things
            then or_nothing
                (build_forms env (cleaned s r heap) s hostname (clean_protocol s.protocol i))
            else []);
  }

  ident-cleaned :
      (s : Server) (r : ℕ) (heap : Heap) (x : ℕ) → (cleaned s r heap x).ident ≡ (heap x).ident
  unfolding update
  ident-cleaned s r heap x = elim (Bool-cases (x is r)) [
    | inl t ↦ rw t (ap (λ y. (heap y).ident) (sym ((is_iff x r).0 t)))
    | inr f ↦ rw f
  ]

  add_round :
      (s : Server) (hostname : String) (r : ℕ) (heap : Heap) (i : Interaction)
      → Separates env
      → IsPlaced heap r
      → ((x : ℕ) → In x (values s.things) → (heap x).ident ≡ x)
      → contains_thing r s.things ≡ true
      → In i (interactions (heap r))
      → attempt
          (build_forms env (cleaned s r heap) s hostname (clean_protocol s.protocol i))
          (clean_protocol s.protocol i)
          (λ fs. add_forms env fs (clean_protocol s.protocol i))
        ≡ no_error (regenerated s hostname r heap i)
  add_round s hostname r heap i sep placed ids has m =
      let j : Interaction = clean_protocol s.protocol i in
      let shape = clean_protocol_lem s.protocol i in
      let thing : j.thing ≡ i.thing = ap (λ (x : Interaction). x.thing) shape in
      let here : In j.thing (values s.things) =
        rw (thing, placed.linked i m) ((contains_thing_iff r s.things).0 has) in
      let (fs, built) =
        build_forms_ok env (cleaned s r heap) s hostname j here
          (λ x n. ident-cleaned s r heap x ∙ ids x n) in
      let good : AreBuilt s.protocol j fs =
        build_forms-AreBuilt env (cleaned s r heap) s hostname j fs built in
      let same : AreBuilt s.protocol i fs = rw shape at good in
      rw built (rw has (replace_forms env s.protocol i fs sep (placed.ready i m) same))

  -- With a hash that tells the forms of servers apart, regenerating the forms of a placed Thing for
  -- a server whose ExposedThings are at their places does not raise: in each interaction the forms
  -- of the other protocols stay, in their order, and behind them come the forms that the server
  -- builds, or none if the server does not have the ExposedThing.
  pub regenerate_thing_lem :
      (s : Server) (hostname : String) (r : ℕ) (heap : Heap)
      → Separates env
      → IsPlaced heap r
      → ((x : ℕ) → In x (values s.things) → (heap x).ident ≡ x)
      → regenerate_thing env s hostname r heap
        ≡ no_error (map_thing (regenerated s hostname r heap) (heap r))
  unfolding regenerate_thing
  regenerate_thing_lem s hostname r heap sep placed ids =
      rw
        (over_interactions_lem (λ i. no_error (clean_protocol s.protocol i))
          (clean_protocol s.protocol) (heap r) (λ i m. refl))
        (elim (Bool-cases (contains_thing r s.things)) [
          | inl t ↦ rw t (
              over_interactions_map
                (λ i.
                  attempt (build_forms env (cleaned s r heap) s hostname i) i
                    (λ fs. add_forms env fs i))
                (clean_protocol s.protocol) (regenerated s hostname r heap) (heap r)
                (λ i m. add_round s hostname r heap i sep placed ids t m))
          | inr f ↦ rw f (
              ap (λ g. no_error (map_thing g (heap r)))
                (fun_ext (λ i. clean_protocol_lem s.protocol i ∙ no_forms i f)))
        ])
    where
      no_forms :
          (i : Interaction)
          → contains_thing r s.things ≡ false
          → record i { forms = others s.protocol i.forms } ≡ regenerated s hostname r heap i
      no_forms i f =
          rw f (ap (λ l. record i { forms = l }) (sym (append-nil (others s.protocol i.forms))))
