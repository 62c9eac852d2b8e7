-- ===== src/Servient/Regenerate/Heap.antt =====
-- What the form loops of wotpy/wot/servient.py keep of the heap: every Thing's identity, ID and URL
-- name, and that the exposed Things are placed.
use wot_py.Prelude.{
  ℕ, String, List, [], ◌∷◌, map, ◌≡◌, ◌⊎◌, inl, inr, refl, sym, ap, ◌∙◌, In, values, Outcome,
  for_each, Result, ok, err, Bool-cases, if◌then◌else◌, is_iff, ◌is◌,
}
use wot_py.Platform.{Platform}
use wot_py.Interaction.{Form, Interaction}
use wot_py.Thing.{Thing, thing_url_name}
use wot_py.ThingSet.{Heap, ThingSet, contains_thing, is_thing_match}
use wot_py.ThingSet.Lookup.{IsIndexed, IsUnambiguous}
use wot_py.Server.{Server, build_forms}
use wot_py.Server.Forms.{AreBuilt, build_forms-AreBuilt}
use wot_py.Servient.{
  clean_protocol, no_error, update, regenerate_thing, regenerate_server_forms, over_servers,
}
use wot_py.Servient.Regenerate.{clean_protocol_lem, Separates, IsReady}
use wot_py.Servient.Regenerate.Things.{map_thing, replace-IsReady}
use wot_py.Servient.Regenerate.Server.{
  IsPlaced, IsPlacedAt, cleaned, regenerated, or_nothing, In-map_thing, regenerate_thing_lem,
}

-- The Things differ in their forms at most, as far as names go.
pub record AreSimilar (heap heap' : Heap) : Type 0 where
  pub idents : (x : ℕ) → (heap' x).ident ≡ (heap x).ident
  pub ids : (x : ℕ) → (heap' x).id ≡ (heap x).id
  pub titles : (x : ℕ) → (heap' x).title ≡ (heap x).title

pub AreSimilar-refl : (heap : Heap) → AreSimilar heap heap
AreSimilar-refl heap = record { idents = λ x. refl; ids = λ x. refl; titles = λ x. refl }

pub AreSimilar-trans : (h g k : Heap) → AreSimilar h g → AreSimilar g k → AreSimilar h k
AreSimilar-trans h g k s t = record {
  idents = λ x. t.idents x ∙ s.idents x;
  ids = λ x. t.ids x ∙ s.ids x;
  titles = λ x. t.titles x ∙ s.titles x;
}

pub AreSimilar-update :
    (heap : Heap) (r : ℕ) (g : Interaction → Interaction)
    → AreSimilar heap (update heap r (map_thing g (heap r)))
unfolding update
AreSimilar-update heap r g = record {
  idents = λ x. at x (λ t. t.ident) refl;
  ids = λ x. at x (λ t. t.id) refl;
  titles = λ x. at x (λ t. t.title) refl;
}
  where
    at :
        {B : Type 0} (x : ℕ) (f : Thing → B)
        → f (map_thing g (heap r)) ≡ f (heap r)
        → f (if x is r then map_thing g (heap r) else heap x) ≡ f (heap x)
    at x f e = elim (Bool-cases (x is r)) [
      | inl t ↦ rw t (e ∙ ap (λ y. f (heap y)) (sym ((is_iff x r).0 t)))
      | inr n ↦ rw n
    ]

module _ (env : Platform) where
  is_thing_match-similar :
      (h g : Heap) (q : String) (x : ℕ)
      → AreSimilar h g
      → is_thing_match env g q x ≡ is_thing_match env h q x
  unfolding is_thing_match thing_url_name
  is_thing_match-similar h g q x s = rw (s.ids x, s.titles x)

  pub IsIndexed-similar :
      (h g : Heap) (set : ThingSet) → AreSimilar h g → IsIndexed h set → IsIndexed g set
  IsIndexed-similar h g [] s k = tt
  IsIndexed-similar h g ((i, r) ∷ set) s (e, k) = (e ∙ sym (s.ids r), IsIndexed-similar h g set s k)

  pub IsUnambiguous-similar :
      (h g : Heap) (set : ThingSet)
      → AreSimilar h g
      → IsUnambiguous env h set
      → IsUnambiguous env g set
  IsUnambiguous-similar h g set s u q x y mx my ex ey =
      u q x y mx my (sym (is_thing_match-similar h g q x s) ∙ ex)
        (sym (is_thing_match-similar h g q y s) ∙ ey)

  regenerated-IsReady :
      (s : Server) (hostname : String) (r : ℕ) (heap : Heap) (i : Interaction)
      → IsReady env i
      → IsReady env (regenerated env s hostname r heap i)
  regenerated-IsReady s hostname r heap i h =
      replace-IsReady env s.protocol i _ h (elim (Bool-cases (contains_thing r s.things)) [
        | inl t ↦ rw t (built (build_forms env (cleaned env s r heap) s hostname j) refl)
        | inr n ↦ rw n (tt, tt)
      ])
    where
      j : Interaction
      j = clean_protocol s.protocol i

      built :
          (o : Result (List Form))
          → build_forms env (cleaned env s r heap) s hostname j ≡ o
          → AreBuilt s.protocol i (or_nothing o)
      built (err e) p = (tt, tt)
      built (ok fs) p =
          rw (clean_protocol_lem s.protocol i) at
            (build_forms-AreBuilt env (cleaned env s r heap) s hostname j fs p)

  IsPlacedAt-regenerated :
      (s : Server) (hostname : String) (r : ℕ) (heap : Heap)
      → IsPlaced env heap r
      → IsPlacedAt env (map_thing (regenerated env s hostname r heap) (heap r)) r
  IsPlacedAt-regenerated s hostname r heap p = record {
    ident = p.ident;
    linked = λ j m.
        let (i, n, e) = In-map_thing (regenerated env s hostname r heap) (heap r) j m in
        ap (λ (y : Interaction). y.thing) e ∙ p.linked i n;
    ready = λ j m.
        let (i, n, e) = In-map_thing (regenerated env s hostname r heap) (heap r) j m in
        rw e (regenerated-IsReady s hostname r heap i (p.ready i n));
  }

  IsPlaced-update :
      (s : Server) (hostname : String) (r x : ℕ) (heap : Heap)
      → IsPlaced env heap x
      → IsPlaced env (update heap r (map_thing (regenerated env s hostname r heap) (heap r))) x
  unfolding update
  IsPlaced-update s hostname r x heap p = elim (Bool-cases (x is r)) [
    | inl t ↦
        let e : x ≡ r = (is_iff x r).0 t in
        rw t (rw e (IsPlacedAt-regenerated s hostname r heap (rw e at p)))
    | inr n ↦ rw n p
  ]

  -- What a loop over the exposed Things needs, and what it leaves behind.
  pub record IsGrounded (things exposed : ThingSet) (heap : Heap) : Type 0 where
    pub placed : (x : ℕ) → In x (values exposed) → IsPlaced env heap x
    pub idents : (x : ℕ) → In x (values things) → (heap x).ident ≡ x

  pub IsGrounded-things :
      (things things' exposed : ThingSet) (heap : Heap)
      → IsGrounded things exposed heap
      → ((x : ℕ) → In x (values things') → In x (values things) ⊎ In x (values exposed))
      → IsGrounded things' exposed heap
  IsGrounded-things things things' exposed heap g sub = record {
    placed = g.placed;
    idents = λ x m. elim (sub x m) [ inl a ↦ g.idents x a | inr b ↦ (g.placed x b).ident ];
  }

  abbrev round : Server → String → ℕ → Heap → Outcome Heap
  round s hostname r h = let (t, e) = regenerate_thing env s hostname r h in (update h r t, e)

  round_lem :
      (s : Server) (hostname : String) (r : ℕ) (exposed : ThingSet) (heap : Heap)
      → Separates env
      → IsGrounded s.things exposed heap
      → In r (values exposed)
      → (heap' : Heap) × (round s hostname r heap ≡ no_error heap')
        × AreSimilar heap heap'
        × IsGrounded s.things exposed heap'
  round_lem s hostname r exposed heap sep g m =
      let sim = AreSimilar-update heap r (regenerated env s hostname r heap) in
      (
        update heap r (map_thing (regenerated env s hostname r heap) (heap r)),
        rw (regenerate_thing_lem env s hostname r heap sep (g.placed r m) g.idents),
        sim,
        record {
          placed = λ x n. IsPlaced-update s hostname r x heap (g.placed x n);
          idents = λ x n. sim.idents x ∙ g.idents x n;
        },
      )

  rounds_lem :
      (s : Server) (hostname : String) (exposed : ThingSet) (xs : List ℕ) (heap : Heap)
      → Separates env
      → IsGrounded s.things exposed heap
      → ((x : ℕ) → In x xs → In x (values exposed))
      → (heap' : Heap) × (for_each (round s hostname) xs heap ≡ no_error heap')
        × AreSimilar heap heap'
        × IsGrounded s.things exposed heap'
  unfolding for_each
  rounds_lem s hostname exposed [] heap sep g sub = (heap, refl, AreSimilar-refl heap, g)
  rounds_lem s hostname exposed (r ∷ xs) heap sep g sub =
      let (h, e, sim, g') = round_lem s hostname r exposed heap sep g (sub r (inl refl)) in
      let (k, f, sim', g'') = rounds_lem s hostname exposed xs h sep g' (λ x m. sub x (inr m)) in
      (k, rw e f, AreSimilar-trans heap h k sim sim', g'')

  -- Regenerating the forms of a server for all exposed Things does not raise, keeps the Things'
  -- identities, IDs and titles, and leaves them placed.
  pub regenerate_server_forms_lem :
      (s : Server) (hostname : String) (exposed : ThingSet) (heap : Heap)
      → Separates env
      → IsGrounded s.things exposed heap
      → (heap' : Heap) × (regenerate_server_forms env s hostname exposed heap ≡ no_error heap')
        × AreSimilar heap heap'
        × IsGrounded s.things exposed heap'
  unfolding regenerate_server_forms
  regenerate_server_forms_lem s hostname exposed heap sep g =
      rounds_lem s hostname exposed (values exposed) heap sep g (λ x m. m)

  -- A loop over servers whose change succeeds does not raise, changes each server, and leaves the
  -- Things as `regenerate_server_forms` does.
  pub over_servers_lem :
      (change : Heap → Server → Result Server) (c : Server → Server) (hostname : String)
      (exposed : ThingSet) (ss : List Server) (start heap : Heap)
      → Separates env
      → AreSimilar start heap
      → ((x : ℕ) → In x (values exposed) → IsPlaced env heap x)
      → ((s : Server)
          → In s ss
          → ((h : Heap) → AreSimilar start h → change h s ≡ ok (c s))
            × ((x : ℕ) → In x (values (c s).things) → (start x).ident ≡ x))
      → (heap' : Heap) × (over_servers env change hostname exposed ss heap
          ≡ no_error (map c ss, heap'))
        × AreSimilar start heap'
        × ((x : ℕ) → In x (values exposed) → IsPlaced env heap' x)
  unfolding over_servers
  over_servers_lem change c hostname exposed [] start heap sep sim placed ch =
      (heap, refl, sim, placed)
  over_servers_lem change c hostname exposed (s ∷ ss) start heap sep sim placed ch =
      let (changed, idents) = ch s (inl refl) in
      let (h, e, sim', g) =
        regenerate_server_forms_lem (c s) hostname exposed heap sep
          (record { placed = placed; idents = λ x m. sim.idents x ∙ idents x m }) in
      let (k, f, simk, placedk) =
        over_servers_lem change c hostname exposed ss start h sep
          (AreSimilar-trans start heap h sim sim') g.placed (λ t m. ch t (inr m)) in
      (k, rw (changed heap sim) (rw e (rw f)), simk, placedk)
