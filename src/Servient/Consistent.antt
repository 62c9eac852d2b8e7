-- ===== src/Servient/Consistent.antt =====
-- Enabling, disabling, adding and removing ExposedThings: what the servers serve is what the
-- servient has enabled (wotpy/wot/servient.py).
pub mod Changes
pub mod Removal
pub mod Refresh
use wot_py.Prelude.{
  ℕ, String, List, [], ◌∷◌, map, Option, none, some, Bool, true, false, not, ◌≡◌, ◌≢◌, ◌⊎◌, inl,
  inr, ◌↔◌, refl, sym, ap, ◌∙◌, subst, In, In-map_back, values, put, pop, has, has-absent,
  put-IsKeyed, Outcome, and_then, attempt, Result, ok, err, or_raise, value_error, contains_text,
  contains_text-false, contains_text_iff, In-values-put, In-values-put_self, In-values-put_of,
}
use wot_py.Platform.{Platform}
use wot_py.ThingSet.{Heap, ThingSet, add_thing, find_by_thing_id}
use wot_py.ThingSet.Lookup.{
  IsIndexed, IsUnambiguous, id_of, is_thing_match-id, find_by_thing_id_iff,
}
use wot_py.Server.{Server, add_exposed_thing as server_add}
use wot_py.Servient.{Servient, no_error, get_exposed_thing, over_servers, enable_exposed_thing}
use wot_py.Servient.Regenerate.{Separates}
use wot_py.Servient.Regenerate.Server.{IsPlaced}
use wot_py.Servient.Regenerate.Heap.{
  AreSimilar, AreSimilar-refl, IsIndexed-similar, IsUnambiguous-similar, over_servers_lem,
}

module _ (env : Platform) where
  -- Each server has the ExposedThings that are enabled, and no other.
  abbrev pub IsServed : Servient → Server → Type 0
  IsServed sv s =
      (x : ℕ) → In x (values s.things) ↔ (In x (values sv.exposed) × In (sv.heap x).id sv.enabled)

  pub record IsConsistent (sv : Servient) : Type 0 where
    pub exposed_set : IsIndexed sv.heap sv.exposed
    pub unambiguous : IsUnambiguous env sv.heap sv.exposed
    pub placed : (x : ℕ) → In x (values sv.exposed) → IsPlaced env sv.heap x
    pub server_sets : (s : Server) → In s sv.servers → IsIndexed sv.heap s.things
    pub served : (s : Server) → In s sv.servers → IsServed sv s

  -- Two exposed Things with one ID are one.
  pub same_id :
      (sv : Servient) (x r : ℕ)
      → IsConsistent sv
      → In x (values sv.exposed)
      → In r (values sv.exposed)
      → (sv.heap x).id ≡ (sv.heap r).id
      → x ≡ r
  same_id sv x r c mx mr e =
      c.unambiguous (sv.heap r).id x r mx mr (rw (← e) (is_thing_match-id env sv.heap x))
        (is_thing_match-id env sv.heap r)

  -- A server with one more ExposedThing.
  abbrev with_thing : String → ℕ → Server → Server
  with_thing id r s = record s { things = put id r s.things }

  server_add_ok :
      (sv : Servient) (s : Server) (r : ℕ) (h : Heap)
      → IsConsistent sv
      → ¬ In (sv.heap r).id sv.enabled
      → In s sv.servers
      → AreSimilar sv.heap h
      → server_add h r s ≡ ok (with_thing (sv.heap r).id r s)
  unfolding server_add add_thing
  server_add_ok sv s r h c off m sim =
      let absent : has (sv.heap r).id s.things ≡ false =
        has-absent (id_of sv.heap) (sv.heap r).id s.things (c.server_sets s m)
          (λ x n e. off (subst (λ k. In k sv.enabled) e ((c.served s m x).0 n).1)) in
      rw (sim.ids r) (rw absent)

  with_thing-IsServed :
      (sv : Servient) (s : Server) (r : ℕ) (h : Heap)
      → IsConsistent sv
      → ¬ In (sv.heap r).id sv.enabled
      → In r (values sv.exposed)
      → In s sv.servers
      → AreSimilar sv.heap h
      → (x : ℕ)
      → In x (values (with_thing (sv.heap r).id r s).things)
        ↔ (In x (values sv.exposed) × In (h x).id ((h r).id ∷ sv.enabled))
  with_thing-IsServed sv s r h c off mr m sim x = (
    λ n. elim (In-values-put (sv.heap r).id r x s.things n) [
      | inl e ↦ (rw e mr, inl (ap (id_of h) e))
      | inr old ↦
          let (there, on) = (c.served s m x).0 old in
          (there, inr (subst (λ k. In k sv.enabled) (sym (sim.ids x)) on))
    ],
    λ (there, on). elim on [
      | inl e ↦
          let one : x ≡ r = same_id sv x r c there mr (sym (sim.ids x) ∙ (e ∙ sim.ids r)) in
          rw one (In-values-put_self (sv.heap r).id r s.things)
      | inr old ↦
          let was : In (sv.heap x).id sv.enabled = subst (λ k. In k sv.enabled) (sim.ids x) old in
          In-values-put_of (id_of sv.heap) r x s.things (c.server_sets s m)
            (λ e. off (subst (λ k. In k sv.enabled) e was)) ((c.served s m x).1 (there, was))
    ],
  )

  get_exposed_thing-In :
      (thing_id : String) (sv : Servient) (r : ℕ)
      → IsConsistent sv
      → get_exposed_thing env thing_id sv ≡ ok r
      → In r (values sv.exposed)
  unfolding get_exposed_thing
  get_exposed_thing-In thing_id sv r c e =
      go (find_by_thing_id env sv.heap thing_id sv.exposed) refl e
    where
      go :
          (o : Option ℕ)
          → find_by_thing_id env sv.heap thing_id sv.exposed ≡ o
          → or_raise o value_error ≡ ok r
          → In r (values sv.exposed)
      go none p q = cc
      go (some x) p q =
          ((find_by_thing_id_iff env sv.heap thing_id r sv.exposed c.unambiguous).0 (cc)).0

  -- With a hash that tells the forms of servers apart, enabling an ExposedThing of a consistent
  -- servient that is not enabled, by its ID or its URL name, does not raise. Then its ID is enabled
  -- too, the ExposedThings of the servient are the same, and the servient is consistent again: each
  -- server serves what is enabled and nothing else. The Things keep their identities, IDs and
  -- titles.
  pub enable_exposed_thing_lem :
      (thing_id : String) (sv : Servient) (r : ℕ)
      → Separates env
      → IsConsistent sv
      → get_exposed_thing env thing_id sv ≡ ok r
      → ¬ In (sv.heap r).id sv.enabled
      → (u : Servient) × (enable_exposed_thing env thing_id sv ≡ no_error u)
        × IsConsistent u
        × (u.enabled ≡ (sv.heap r).id ∷ sv.enabled)
        × (u.exposed ≡ sv.exposed)
        × AreSimilar sv.heap u.heap
  unfolding enable_exposed_thing
  enable_exposed_thing_lem thing_id sv r sep c e off =
      let mr = get_exposed_thing-In thing_id sv r c e in
      let grow : Server → Server = with_thing (sv.heap r).id r in
      let (h, run, sim, placed) =
        over_servers_lem env (λ g s. server_add g r s) grow sv.hostname sv.exposed sv.servers
          sv.heap sv.heap sep (AreSimilar-refl sv.heap) c.placed
          (λ s m.
            (λ g k. server_add_ok sv s r g c off m k, λ x n. (c.placed x (still s m x n)).ident)) in
      let fresh : contains_text (h r).id sv.enabled ≡ false =
        contains_text-false (h r).id sv.enabled
          (λ on. off (subst (λ k. In k sv.enabled) (sim.ids r) on)) in
      (
        record sv { servers = map grow sv.servers; heap = h; enabled = (h r).id ∷ sv.enabled },
        rw e (rw run (rw fresh)),
        record {
          exposed_set = IsIndexed-similar env sv.heap h sv.exposed sim c.exposed_set;
          unambiguous = IsUnambiguous-similar env sv.heap h sv.exposed sim c.unambiguous;
          placed = placed;
          server_sets = λ s m.
              let (t, n, same) = In-map_back grow sv.servers s m in
              rw same (
                IsIndexed-similar env sv.heap h (grow t).things sim
                  (put-IsKeyed (id_of sv.heap) r t.things (c.server_sets t n)));
          served = λ s m.
              let (t, n, same) = In-map_back grow sv.servers s m in
              rw same (with_thing-IsServed sv t r h c off mr n sim);
        },
        ap (λ k. k ∷ sv.enabled) (sim.ids r),
        refl,
        sim,
      )
    where
      still :
          (s : Server)
          → In s sv.servers
          → (x : ℕ) → In x (values (with_thing (sv.heap r).id r s).things)
          → In x (values sv.exposed)
      still s m x n =
          ((with_thing-IsServed sv s r sv.heap c off (get_exposed_thing-In thing_id sv r c e) m
              (AreSimilar-refl sv.heap) x).0
            n).0
