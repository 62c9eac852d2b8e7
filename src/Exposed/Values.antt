-- ===== src/Exposed/Values.antt =====
-- wotpy/wot/exposed/thing.py: reads and writes of properties, on every branch.
use wot_py.Prelude.{
  String, Bool, true, false, not, ◌≡◌, refl, sym, ap, ◌∙◌, inl, inr, ◌⊎◌, Option, none, some,
  Result, ok, err, In, get, ◌>>=◌, Outcome, attempt, and_then, or_raise, Error, key_error,
  type_error, if◌then◌else◌, Option-cases, subst, get-In, get-key,
}
use wot_py.Platform.{Platform}
use wot_py.Json.{Json}
use wot_py.Interaction.{
  property, Fragment, property_fragment, action_fragment, event_fragment, Interaction, writable,
  interaction_type,
}
use wot_py.Thing.{interactions, find_interaction}
use wot_py.Thing.Members.{In-three_of, name_of}
use wot_py.Thing.Unique.{find_interaction-eq, is_match-name}
use wot_py.Exposed.{
  ExposedThing, Reader, Writer, emit, read_property, write_property, default_retrieve,
  default_update, update_with, read_with, find_or_raise, set_property_value, property_change,
}
use wot_py.Exposed.WellFormed.{IsWellFormed}

abbrev pub read_value : Option Reader → Json → Result Json
read_value none v = ok v
read_value (some h) v = h

module _ (env : Platform) where
  writable-property_type :
      (p : Interaction) → interaction_type p ≡ property → (w : Bool) × (writable p ≡ ok w)
  unfolding writable interaction_type
  writable-property_type p t = go p.fragment t
    where
      go :
          (f : Fragment)
          → interaction_type (record p { fragment = f }) ≡ property
          → (w : Bool) × (writable (record p { fragment = f }) ≡ ok w)
      go (property_fragment r s) e = (not r, refl)
      go action_fragment e = cc
      go event_fragment e = cc

  -- A property of a well-formed Thing is what its name finds.
  pub find_property :
      (name : String) (p : Interaction) (x : ExposedThing)
      → IsWellFormed env x
      → get name x.thing.properties ≡ some p
      → find_interaction env name x.thing ≡ some p
  find_property name p x h e =
      let m : In p (interactions x.thing) =
        In-three_of p x.thing (inl (get-In name p x.thing.properties e)) in
      let k : p.name ≡ name =
        get-key name_of name p x.thing.properties h.formed.keyed.properties e in
      subst (λ q. find_interaction env q x.thing ≡ some p) k
        (find_interaction-eq env x.thing p.name p h.formed.unique m (is_match-name env p))

  read_with_lem :
      (name : String) (p : Interaction) (x : ExposedThing)
      → IsWellFormed env x
      → get name x.thing.properties ≡ some p
      → (o : Option Reader) → read_with env o name x ≡ read_value o (x.property_values p.ident)
  unfolding read_with default_retrieve find_or_raise
  read_with_lem name p x h e none = rw (find_property name p x h e) refl
  read_with_lem name p x h e (some f) = refl

  -- What is expected of a read.
  abbrev pub read_outcome : ExposedThing → Option Interaction → Result Json
  read_outcome x none = err key_error
  read_outcome x (some p) = read_value (x.retrieve_property p.ident) (x.property_values p.ident)

  -- On a well-formed ExposedThing a read gives KeyError for a name that is no property's, what the
  -- property's own handler gives, and otherwise the value stored for the property.
  pub read_property_lem :
      (name : String) (x : ExposedThing)
      → IsWellFormed env x
      → read_property env name x ≡ read_outcome x (get name x.thing.properties)
  unfolding read_property
  read_property_lem name x h = go (get name x.thing.properties) refl
    where
      go :
          (o : Option Interaction)
          → get name x.thing.properties ≡ o
          → (or_raise o key_error >>= λ p. read_with env (x.retrieve_property p.ident) name x)
            ≡ read_outcome x o
      go none e = refl
      go (some p) e = read_with_lem name p x h e (x.retrieve_property p.ident)

  -- A property of a well-formed Thing knows whether it is writable.
  pub writable-property :
      (name : String) (p : Interaction) (x : ExposedThing)
      → IsWellFormed env x
      → get name x.thing.properties ≡ some p
      → (w : Bool) × (writable p ≡ ok w)
  writable-property name p x h e =
      writable-property_type p (h.allocated.typed p (get-In name p x.thing.properties e))

  write-missing :
      (name : String) (v : Json) (x : ExposedThing)
      → get name x.thing.properties ≡ none
      → write_property env name v x ≡ (x, some key_error)
  unfolding write_property
  write-missing name v x e = rw e refl

  -- what runs for a property whose writability is known
  write-known :
      (name : String) (v : Json) (p : Interaction) (w : Bool) (x : ExposedThing)
      → get name x.thing.properties ≡ some p
      → writable p ≡ ok w
      → write_property env name v x ≡ (
          if not w
          then (x, some type_error)
          else and_then
              (update_with env (x.update_property p.ident) name v x)
              (λ y. (emit (property_change name v) y, none)))
  unfolding write_property
  write-known name v p w x e f = rw (e, f) refl

  update_with-none :
      (name : String) (v : Json) (p : Interaction) (x : ExposedThing)
      → IsWellFormed env x
      → get name x.thing.properties ≡ some p
      → update_with env none name v x ≡ (set_property_value p v x, none)
  unfolding update_with default_update find_or_raise
  update_with-none name v p x h e = rw (find_property name p x h e) refl

  abbrev pub handled_end : String → Json → ExposedThing → Result (Unit {0}) → Outcome ExposedThing
  handled_end name v x (ok _) = (emit (property_change name v) x, none)
  handled_end name v x (err e) = (x, some e)

  -- The end of a write, by what the handler did.
  abbrev pub update_end :
      String → Json → Interaction → ExposedThing → Option Writer → Outcome ExposedThing
  update_end name v p x none = (emit (property_change name v) (set_property_value p v x), none)
  update_end name v p x (some f) = handled_end name v x (f v)

  pub write-writable :
      (name : String) (v : Json) (p : Interaction) (x : ExposedThing) (o : Option Writer)
      → IsWellFormed env x
      → get name x.thing.properties ≡ some p
      → writable p ≡ ok true
      → x.update_property p.ident ≡ o
      → write_property env name v x ≡ update_end name v p x o
  unfolding update_with
  write-writable name v p x none h e w u =
      write-known name v p true x e w ∙ rw (u, update_with-none name v p x h e) refl
  write-writable name v p x (some f) h e w u =
      write-known name v p true x e w ∙ (rw u (handled (f v)))
    where
      handled :
          (r : Result (Unit {0}))
          → and_then (attempt r x (λ _. (x, none))) (λ y. (emit (property_change name v) y, none))
            ≡ handled_end name v x r
      handled (ok _) = refl
      handled (err _) = refl

  -- Why a write is refused.
  abbrev pub IsRefused : String → Json → ExposedThing → Error → Type 0
  IsRefused name v x e =
      ((get name x.thing.properties ≡ none) × (e ≡ key_error))
      ⊎ ((p : Interaction) × (get name x.thing.properties ≡ some p)
          × (((writable p ≡ ok false) × (e ≡ type_error))
              ⊎ ((f : Writer) × (x.update_property p.ident ≡ some f) × (f v ≡ err e))))

  -- What a write did to the property `p`.
  abbrev pub IsWritten : String → Json → Interaction → ExposedThing → ExposedThing → Type 0
  IsWritten name v p x y =
      ((x.update_property p.ident ≡ none)
        × (y ≡ emit (property_change name v) (set_property_value p v x)))
      ⊎ ((f : Writer) × (x.update_property p.ident ≡ some f)
          × (f v ≡ ok tt)
          × (y ≡ emit (property_change name v) x))

  update_end-err :
      (name : String) (v : Json) (p : Interaction) (x y : ExposedThing) (o : Option Writer)
      (e : Error)
      → update_end name v p x o ≡ (y, some e)
      → (y ≡ x) × ((f : Writer) × (o ≡ some f) × (f v ≡ err e))
  update_end-err name v p x y none e h = cc
  update_end-err name v p x y (some f) e h = go (f v) refl h
    where
      go :
          (r : Result (Unit {0}))
          → f v ≡ r
          → handled_end name v x r ≡ (y, some e)
          → (y ≡ x) × ((g : Writer) × (some f ≡ some g) × (g v ≡ err e))
      go (ok u) q h = cc
      go (err d) q h = let s : d ≡ e = cc in (sym (ap (λ o. o.0) h), (f, refl, q ∙ ap err s))

  update_end-ok :
      (name : String) (v : Json) (p : Interaction) (x y : ExposedThing) (o : Option Writer)
      → x.update_property p.ident ≡ o
      → update_end name v p x o ≡ (y, none)
      → IsWritten name v p x y
  update_end-ok name v p x y none q h = inl (q, sym (ap (λ o. o.0) h))
  update_end-ok name v p x y (some f) q h = go (f v) refl h
    where
      go :
          (r : Result (Unit {0}))
          → f v ≡ r
          → handled_end name v x r ≡ (y, none)
          → IsWritten name v p x y
      go (ok u) s h = inr (f, q, s, sym (ap (λ o. o.0) h))
      go (err d) s h = cc

  -- On a well-formed ExposedThing, a write that raised changed nothing and emitted nothing. It
  -- raises KeyError for a name that is no property's, TypeError for a read-only property, and what
  -- the property's own handler raises; nothing else.
  pub write_property-err :
      (name : String) (v : Json) (x y : ExposedThing) (e : Error)
      → IsWellFormed env x
      → write_property env name v x ≡ (y, some e)
      → (y ≡ x) × IsRefused name v x e
  write_property-err name v x y e h k = elim (Option-cases (get name x.thing.properties)) [
    | inl n ↦ let q = sym (write-missing name v x n) ∙ k in (sym (ap (λ o. o.0) q), inl (n, cc))
    | inr (p, n) ↦ let (w, f) = writable-property name p x h n in go p w n f
  ]
    where
      go :
          (p : Interaction) (w : Bool)
          → get name x.thing.properties ≡ some p
          → writable p ≡ ok w
          → (y ≡ x) × IsRefused name v x e
      go p false n f =
          let q = sym (write-known name v p false x n f) ∙ k in
          (sym (ap (λ o. o.0) q), inr (p, n, inl (f, cc)))
      go p true n f =
          let q = sym (write-writable name v p x (x.update_property p.ident) h n f refl) ∙ k in
          let (same, own) = update_end-err name v p x y (x.update_property p.ident) e q in
          (same, inr (p, n, inr own))

  -- On a well-formed ExposedThing, a write that did not raise was of an existing, writable property.
  -- It stored the value, or the property's own handler accepted it, and it emitted one event at the
  -- end of the stream; nothing else changed.
  pub write_property-ok :
      (name : String) (v : Json) (x y : ExposedThing)
      → IsWellFormed env x
      → write_property env name v x ≡ (y, none)
      → (p : Interaction) × (get name x.thing.properties ≡ some p)
        × (writable p ≡ ok true)
        × IsWritten name v p x y
  write_property-ok name v x y h k = elim (Option-cases (get name x.thing.properties)) [
    | inl n ↦ let q = sym (write-missing name v x n) ∙ k in cc
    | inr (p, n) ↦ let (w, f) = writable-property name p x h n in go p w n f
  ]
    where
      go :
          (p : Interaction) (w : Bool)
          → get name x.thing.properties ≡ some p
          → writable p ≡ ok w
          → (p : Interaction) × (get name x.thing.properties ≡ some p)
            × (writable p ≡ ok true)
            × IsWritten name v p x y
      go p false n f = let q = sym (write-known name v p false x n f) ∙ k in cc
      go p true n f =
          let q = sym (write-writable name v p x (x.update_property p.ident) h n f refl) ∙ k in
          (p, n, f, update_end-ok name v p x y (x.update_property p.ident) refl q)
