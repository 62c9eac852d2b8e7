-- ===== src/Exposed/Reading.antt =====
-- wotpy/wot/exposed/thing.py: what a read gives after a write.
use wot_py.Prelude.{
  true, ℕ, String, false, ◌≡◌, ◌≢◌, refl, sym, ap, ◌∙◌, ◌==◌, inl, inr, Option, none, some, ok, get,
  arith, if◌then◌else◌, Bool-cases, subst, get-In, get-key, is_refl, ne-of-==, eq_iff,
}
use wot_py.Platform.{Platform}
use wot_py.Json.{Json}
use wot_py.Interaction.{writable, Interaction}
use wot_py.Thing.Members.{In-three_of, name_of}
use wot_py.Exposed.{
  ExposedThing, set_at, emit, read_property, write_property, set_property_value, property_change,
}
use wot_py.Exposed.WellFormed.{IsWellFormed}
use wot_py.Exposed.Steps.{write_property-IsWellFormed}
use wot_py.Exposed.Values.{read_outcome, read_property_lem, write-writable}

set_at-same : {A : Type 0} (k : ℕ) (a : A) (d : ℕ → A) → set_at k a d k ≡ a
unfolding set_at
set_at-same k a d = rw (is_refl k) refl

set_at-apart : {A : Type 0} (k n : ℕ) (a : A) (d : ℕ → A) → n ≢ k → set_at k a d n ≡ d n
unfolding set_at
set_at-apart k n a d l = ground arith

module _ (env : Platform) where
  -- Two properties under different names are different objects.
  property-apart :
      (q name : String) (j p : Interaction) (x : ExposedThing)
      → IsWellFormed env x
      → get q x.thing.properties ≡ some j
      → get name x.thing.properties ≡ some p
      → (q == name) ≡ false
      → j.ident ≢ p.ident
  property-apart q name j p x h a b f e =
      let m = In-three_of j x.thing (inl (get-In q j x.thing.properties a)) in
      let n = In-three_of p x.thing (inl (get-In name p x.thing.properties b)) in
      let same : j ≡ p = h.allocated.apart j p m n e in
      let k = get-key name_of q j x.thing.properties h.formed.keyed.properties a in
      let l = get-key name_of name p x.thing.properties h.formed.keyed.properties b in
      ne-of-== q name f (sym k ∙ (ap name_of same ∙ l))

  read_outcome-set :
      (name q : String) (v : Json) (p : Interaction) (x : ExposedThing)
      → IsWellFormed env x
      → get name x.thing.properties ≡ some p
      → x.retrieve_property p.ident ≡ none
      → read_outcome env
          (emit (property_change name v) (set_property_value p v x))
          (get q x.thing.properties)
        ≡ (if q == name then ok v else read_outcome env x (get q x.thing.properties))
  unfolding emit set_property_value
  read_outcome-set name q v p x h e r = elim (Bool-cases (q == name)) [
    | inl t ↦
        let same : get q x.thing.properties ≡ some p =
          subst (λ n. get n x.thing.properties ≡ some p) (sym ((eq_iff q name).0 t)) e in
        rw (t, same, r, set_at-same p.ident v x.property_values) refl
    | inr f ↦ go (get q x.thing.properties) refl f
  ]
    where
      go :
          (o : Option Interaction)
          → get q x.thing.properties ≡ o
          → (q == name) ≡ false
          → read_outcome env (emit (property_change name v) (set_property_value p v x)) o
            ≡ (if q == name then ok v else read_outcome env x o)
      go none a f = rw f refl
      go (some j) a f =
          let n = property-apart q name j p x h a e f in
          let kept = set_at-apart p.ident j.ident v x.property_values n in rw (f, kept) refl

  -- On a well-formed ExposedThing, a write of a writable property without handlers of its own does
  -- not raise; after it a read of the property gives the written value, and a read under any other
  -- name gives what it gave before.
  pub read_property-write_property :
      (name : String) (v : Json) (p : Interaction) (x : ExposedThing)
      → IsWellFormed env x
      → get name x.thing.properties ≡ some p
      → writable p ≡ ok true
      → x.retrieve_property p.ident ≡ none
      → x.update_property p.ident ≡ none
      → (y : ExposedThing) × (write_property env name v x ≡ (y, none))
        × ((q : String)
            → read_property env q y ≡ (if q == name then ok v else read_property env q x))
  unfolding emit set_property_value
  read_property-write_property name v p x h e w r u =
      let y = emit (property_change name v) (set_property_value p v x) in
      let k : write_property env name v x ≡ (y, none) =
        write-writable env name v p x none h e w u in
      let wf : IsWellFormed env y =
        subst (λ o. IsWellFormed env o.0) k (write_property-IsWellFormed env name v x h) in
      (
        y,
        k,
        λ q.
            read_property_lem env q y wf
            ∙ (read_outcome-set name q v p x h e r
                ∙ ap (λ o. if q == name then ok v else o) (sym (read_property_lem env q x h))),
      )
