-- ===== src/Servient/Consistent/Changes.antt =====
-- Disabling and removing ExposedThings (`disable_exposed_thing` and `remove_exposed_thing` of
-- wotpy/wot/servient.py).
use wot_py.Prelude.{
  ℕ, String, List, map, some, true, not, ◌≡◌, ◌≢◌, ◌↔◌, ◌==◌, refl, sym, ap, ◌∙◌, subst, In,
  In-map_back, In-filter, In-filter_of, filter, values, pop, has, has-In, pop-IsKeyed, ok,
  contains_text, contains_text_iff, In-values-pop, In-values-pop_ne, In-values-pop_of, ==-of-ne,
  eq_refl,
}
use wot_py.Platform.{Platform}
use wot_py.ThingSet.{Heap, ThingSet, find_by_thing_id, remove_thing}
use wot_py.ThingSet.Lookup.{IsUnambiguous, id_of, is_thing_match-id, find_by_thing_id_iff}
use wot_py.Server.{Server, remove_exposed_thing as server_remove}
use wot_py.Servient.{Servient, no_error, get_exposed_thing, disable_exposed_thing}
use wot_py.Servient.Regenerate.{Separates}
use wot_py.Servient.Regenerate.Heap.{
  AreSimilar, AreSimilar-refl, IsIndexed-similar, IsUnambiguous-similar, over_servers_lem,
}
use wot_py.Servient.Consistent.{IsConsistent, get_exposed_thing-In}

module _ (env : Platform) where
  abbrev without_thing : String → Server → Server
  without_thing id s = record s { things = pop id s.things }

  abbrev without_text : String → List String → List String
  without_text id ks = filter (λ x. not (x == id)) ks

  server_remove_ok :
      (sv : Servient) (s : Server) (r : ℕ) (h : Heap)
      → IsConsistent env sv
      → In (sv.heap r).id sv.enabled
      → In r (values sv.exposed)
      → In s sv.servers
      → AreSimilar sv.heap h
      → server_remove env h (sv.heap r).id s ≡ ok (without_thing (sv.heap r).id s)
  unfolding server_remove remove_thing
  server_remove_ok sv s r h c on mr m sim =
      let here : In r (values s.things) = (c.served s m r).1 (mr, on) in
      let apart : IsUnambiguous env h s.things =
        IsUnambiguous-similar env sv.heap h s.things sim (λ q x y mx my.
          c.unambiguous q x y ((c.served s m x).0 mx).0 ((c.served s m y).0 my).0) in
      let find : find_by_thing_id env h (sv.heap r).id s.things ≡ some r =
        (find_by_thing_id_iff env h (sv.heap r).id r s.things apart).1
          (here, subst (λ k. is_match k) (sim.ids r) (is_thing_match-id env h r)) in
      let there : has (h r).id s.things ≡ true =
        has-In (id_of h) r s.things
          (IsIndexed-similar env sv.heap h s.things sim (c.server_sets s m)) here in
      rw find (rw there (ap (λ k. ok (without_thing k s)) (sim.ids r)))
    where
      is_match : String → Type 0
      is_match k = wot_py.ThingSet.is_thing_match env h k r ≡ true

  without_thing-IsServed :
      (sv : Servient) (s : Server) (r : ℕ) (h : Heap)
      → IsConsistent env sv
      → In r (values sv.exposed)
      → In s sv.servers
      → AreSimilar sv.heap h
      → (x : ℕ)
      → In x (values (without_thing (sv.heap r).id s).things)
        ↔ (In x (values sv.exposed) × In (h x).id (without_text (h r).id sv.enabled))
  without_thing-IsServed sv s r h c mr m sim x = (
    λ n.
        let (there, on) = (c.served s m x).0 (In-values-pop (sv.heap r).id x s.things n) in
        let other : (sv.heap x).id ≢ (sv.heap r).id =
          In-values-pop_ne (id_of sv.heap) (sv.heap r).id x s.things (c.server_sets s m) n in
        (
          there,
          In-filter_of (λ k. not (k == (h r).id)) sv.enabled (h x).id
              (subst (λ k. In k sv.enabled) (sym (sim.ids x)) on)
              (ap not
                (==-of-ne (h x).id (h r).id (λ e. other (sym (sim.ids x) ∙ (e ∙ sim.ids r))))),
        ),
    λ (there, left).
        let (on, ne) = In-filter (λ k. not (k == (h r).id)) sv.enabled (h x).id left in
        In-values-pop_of (id_of sv.heap) (sv.heap r).id x s.things (c.server_sets s m)
          (λ e. not_same (h x).id (h r).id ne (sim.ids x ∙ (e ∙ sym (sim.ids r))))
          ((c.served s m x).1 (there, subst (λ k. In k sv.enabled) (sim.ids x) on)),
  )
    where
      not_same : (a b : String) → not (a == b) ≡ true → a ≢ b
      not_same a b n e =
          let y : (a == b) ≡ true = rw e (eq_refl b) in let f : not true ≡ true = rw y at n in cc

  -- With a hash that tells the forms of servers apart, disabling an enabled ExposedThing of a
  -- consistent servient, by its ID or its URL name, does not raise. Then its ID is no longer
  -- enabled, the other IDs and the ExposedThings of the servient are as before, and the servient is
  -- consistent again: each server serves what is enabled and nothing else. The Things keep their
  -- identities, IDs and titles.
  pub disable_exposed_thing_lem :
      (thing_id : String) (sv : Servient) (r : ℕ)
      → Separates env
      → IsConsistent env sv
      → get_exposed_thing env thing_id sv ≡ ok r
      → In (sv.heap r).id sv.enabled
      → (u : Servient) × (disable_exposed_thing env thing_id sv ≡ no_error u)
        × IsConsistent env u
        × (u.enabled ≡ filter (λ x. not (x == (sv.heap r).id)) sv.enabled)
        × (u.exposed ≡ sv.exposed)
        × AreSimilar sv.heap u.heap
  unfolding disable_exposed_thing
  disable_exposed_thing_lem thing_id sv r sep c e on =
      let mr = get_exposed_thing-In env thing_id sv r c e in
      let shrink : Server → Server = without_thing (sv.heap r).id in
      let (h, run, sim, placed) =
        over_servers_lem env (λ g s. server_remove env g (sv.heap r).id s) shrink sv.hostname
          sv.exposed sv.servers sv.heap sv.heap sep (AreSimilar-refl sv.heap) c.placed
          (λ s m. (
            λ g k. server_remove_ok sv s r g c on mr m k,
            λ x n.
                (c.placed x
                  ((c.served s m x).0 (In-values-pop (sv.heap r).id x s.things n)).0).ident,
          )) in
      let known : contains_text (sv.heap r).id sv.enabled ≡ true =
        (contains_text_iff (sv.heap r).id sv.enabled).1 on in
      (
        record sv {
          servers = map shrink sv.servers;
          heap = h;
          enabled = without_text (h r).id sv.enabled;
        },
        rw e (rw known (rw run)),
        record {
          exposed_set = IsIndexed-similar env sv.heap h sv.exposed sim c.exposed_set;
          unambiguous = IsUnambiguous-similar env sv.heap h sv.exposed sim c.unambiguous;
          placed = placed;
          server_sets = λ s m.
              let (t, n, same) = In-map_back shrink sv.servers s m in
              rw same (
                IsIndexed-similar env sv.heap h (shrink t).things sim
                  (pop-IsKeyed (id_of sv.heap) (sv.heap r).id t.things (c.server_sets t n)));
          served = λ s m.
              let (t, n, same) = In-map_back shrink sv.servers s m in
              rw same (without_thing-IsServed sv t r h c mr n sim);
        },
        ap (λ k. without_text k sv.enabled) (sim.ids r),
        refl,
        sim,
      )
