-- ===== src/Servient/Consistent/Removal.antt =====
-- Removing ExposedThings (`remove_exposed_thing` of wotpy/wot/servient.py), by ID and by URL name.
use wot_py.Prelude.{
  ℕ, String, List, true, false, not, ◌≡◌, ◌≢◌, inl, inr, ◌↔◌, ◌==◌, refl, sym, ◌∙◌, subst, In,
  In-filter, filter, values, ok, contains_text, contains_text-false, contains_text_iff, eq_refl,
  Bool-cases, some,
}
use wot_py.Platform.{Platform}
use wot_py.Thing.{thing_url_name}
use wot_py.ThingSet.{ThingSet, is_thing_match, find_by_thing_id, remove_thing}
use wot_py.ThingSet.Lookup.{
  is_thing_match-id, is_thing_match-url_name, find_by_thing_id_iff, remove_thing_lem,
}
use wot_py.Server.{Server}
use wot_py.Servient.{Servient, no_error, get_exposed_thing, remove_exposed_thing}
use wot_py.Servient.Regenerate.{Separates}
use wot_py.Servient.Consistent.{IsConsistent}
use wot_py.Servient.Consistent.Changes.{disable_exposed_thing_lem}

module _ (env : Platform) where
  -- The last statement of `remove_exposed_thing`, for an ExposedThing that is not enabled.
  drop_exposed :
      (thing_id : String) (sv : Servient) (r : ℕ)
      → IsConsistent env sv
      → In r (values sv.exposed)
      → is_thing_match env sv.heap thing_id r ≡ true
      → ¬ In (sv.heap r).id sv.enabled
      → (set : ThingSet) × (remove_thing env sv.heap thing_id sv.exposed ≡ ok set)
        × IsConsistent env (record sv { exposed = set })
        × ((x : ℕ) → In x (values set) ↔ (In x (values sv.exposed) × (x ≢ r)))
  drop_exposed thing_id sv r c mr match off =
      let (set, e, keyed, members) =
        remove_thing_lem env sv.heap thing_id r sv.exposed c.exposed_set c.unambiguous mr match in
      (
        set,
        e,
        record {
          exposed_set = keyed;
          unambiguous =
              λ q x y mx my. c.unambiguous q x y ((members x).0 mx).0 ((members y).0 my).0;
          placed = λ x m. c.placed x ((members x).0 m).0;
          server_sets = c.server_sets;
          served = λ s m x. (
            λ n.
                let (there, on) = (c.served s m x).0 n in
                (
                  (members x).1
                      (there, λ same. off (subst (λ y. In (sv.heap y).id sv.enabled) same on)),
                  on,
                ),
            λ (there, on). (c.served s m x).1 (((members x).0 there).0, on),
          );
        },
        members,
      )

  not_enabled : (id : String) (ks : List String) → ¬ In id (filter (λ x. not (x == id)) ks)
  not_enabled id ks m =
      let (there, n) = In-filter (λ x. not (x == id)) ks id m in
      let f : not true ≡ true = rw (eq_refl id) at n in cc

  found_by_id :
      (sv : Servient) (r : ℕ)
      → IsConsistent env sv
      → In r (values sv.exposed)
      → get_exposed_thing env (sv.heap r).id sv ≡ ok r
  unfolding get_exposed_thing
  found_by_id sv r c mr =
      let e : find_by_thing_id env sv.heap (sv.heap r).id sv.exposed ≡ some r =
        (find_by_thing_id_iff env sv.heap (sv.heap r).id r sv.exposed c.unambiguous).1
          (mr, is_thing_match-id env sv.heap r) in
      rw e

  -- With a hash that tells the forms of servers apart, removing an ExposedThing of a consistent
  -- servient by its ID, enabled or not, does not raise. Then it is gone, the other ExposedThings of
  -- the servient are as before, and the servient is consistent, so that no server serves it.
  pub remove_exposed_thing_lem :
      (sv : Servient) (r : ℕ)
      → Separates env
      → IsConsistent env sv
      → In r (values sv.exposed)
      → (u : Servient) × (remove_exposed_thing env (sv.heap r).id sv ≡ no_error u)
        × IsConsistent env u
        × ((x : ℕ) → In x (values u.exposed) ↔ (In x (values sv.exposed) × (x ≢ r)))
  unfolding remove_exposed_thing
  remove_exposed_thing_lem sv r sep c mr =
      elim (Bool-cases (contains_text (sv.heap r).id sv.enabled)) [
        | inr off ↦
            let no : ¬ In (sv.heap r).id sv.enabled = λ on.
              let f : true ≡ false =
                sym ((contains_text_iff (sv.heap r).id sv.enabled).1 on) ∙ off in
              cc in
            let (set, e, c', members) =
              drop_exposed (sv.heap r).id sv r c mr (is_thing_match-id env sv.heap r) no in
            (record sv { exposed = set }, rw off (rw e), c', members)
        | inl on ↦
            let (u, run, c1, now, same, sim) =
              disable_exposed_thing_lem env (sv.heap r).id sv r sep c (found_by_id sv r c mr)
                ((contains_text_iff (sv.heap r).id sv.enabled).0 on) in
            let mu : In r (values u.exposed) = rw same mr in
            let match : is_thing_match env u.heap (sv.heap r).id r ≡ true =
              subst (λ k. is_thing_match env u.heap k r ≡ true) (sim.ids r)
                (is_thing_match-id env u.heap r) in
            let no : ¬ In (u.heap r).id u.enabled =
              subst (λ ks. ¬ In (u.heap r).id ks) (sym now)
                (subst (λ k. ¬ In k (filter (λ x. not (x == (sv.heap r).id)) sv.enabled))
                  (sym (sim.ids r)) (not_enabled (sv.heap r).id sv.enabled)) in
            let (set, e, c', members) = drop_exposed (sv.heap r).id u r c1 mu match no in
            (
              record u { exposed = set },
              rw on (rw run (rw e)),
              c',
              subst (λ d. (x : ℕ) → In x (values set) ↔ (In x (values d) × (x ≢ r))) same members,
            )
      ]

  -- Removing an enabled ExposedThing of a consistent servient with a server by its URL name, where
  -- that is the ID of no enabled one, does not raise; it takes the ExposedThing out of the servient
  -- and does not disable it: its ID stays enabled, the server keeps serving it, and the servient is
  -- no longer consistent.
  pub remove_exposed_thing-url_name :
      (sv : Servient) (r : ℕ) (s : Server)
      → IsConsistent env sv
      → In r (values sv.exposed)
      → In (sv.heap r).id sv.enabled
      → ¬ In (thing_url_name env (sv.heap r)) sv.enabled
      → In s sv.servers
      → (u : Servient) × (remove_exposed_thing env (thing_url_name env (sv.heap r)) sv ≡ no_error u)
        × (¬ In r (values u.exposed))
        × In (u.heap r).id u.enabled
        × In s u.servers
        × In r (values s.things)
        × (¬ IsConsistent env u)
  unfolding remove_exposed_thing
  remove_exposed_thing-url_name sv r s c mr on other ms =
      let (set, e, keyed, members) =
        remove_thing_lem env sv.heap (thing_url_name env (sv.heap r)) r sv.exposed c.exposed_set
          c.unambiguous mr (is_thing_match-url_name env sv.heap r) in
      let gone : ¬ In r (values set) = λ m. ((members r).0 m).1 refl in
      let serving : In r (values s.things) = (c.served s ms r).1 (mr, on) in
      (
        record sv { exposed = set },
        rw (contains_text-false (thing_url_name env (sv.heap r)) sv.enabled other) (rw e),
        gone,
        on,
        ms,
        serving,
        λ bad. gone ((bad.served s ms r).0 serving).0,
      )
