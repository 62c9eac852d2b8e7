-- ===== src/Exposed/WellFormed.antt =====
-- wotpy/wot/exposed/thing.py: the well-formedness of an ExposedThing, and the changes that keep it.
use wot_py.Prelude.{
  ℕ, suc, String, ◌≡◌, refl, ◌∙◌, ◌<◌, ◌≤◌, inl, inr, Option, none, some, Result, ok, err, Dict,
  get, arith, Outcome, attempt, and_then, get-In,
}
use wot_py.Platform.{Platform}
use wot_py.Json.{Json, null}
use wot_py.Interaction.{Fragment, Interaction}
use wot_py.Thing.{Thing, add_fragment, new_thing, find_interaction}
use wot_py.Thing.Members.{In-three_of}
use wot_py.Thing.Unique.{IsFormed, find_interaction-In}
use wot_py.Thing.Build.{add_fragment-IsFormed, new_thing-IsFormed}
use wot_py.Exposed.{ExposedThing, new_exposed_thing, set_at, emit, Emitted}
use wot_py.Exposed.Allocated.{IsAllocated, add_fragment-IsAllocated, new_thing-IsAllocated}

-- No value and no handler is stored for an object that does not exist yet.
abbrev pub IsFresh : ℕ → ExposedThing → Type 0
IsFresh first x =
    (n : ℕ)
    → first ≤ n
    → (x.property_values n ≡ null)
      × (x.retrieve_property n ≡ none)
      × (x.update_property n ≡ none)
      × (x.invoke_action n ≡ none)

pub record IsWellFormed (env : Platform) (x : ExposedThing) : Type 0 where
  pub formed : IsFormed env x.thing
  pub allocated : IsAllocated x.thing
  pub fresh : IsFresh x.thing.next_ident x

-- A Thing that was just made, under a new ExposedThing.
pub new_exposed_thing-IsWellFormed :
    (env : Platform) (ident : ℕ) (id title : String) (base : Option String)
    (ps qs rs : Dict Fragment) (n : ℕ) (t : Thing)
    → new_thing env ident id title base ps qs rs n ≡ ok t
    → IsWellFormed env (new_exposed_thing t)
unfolding new_exposed_thing
new_exposed_thing-IsWellFormed env ident id title base ps qs rs n t e = record {
  formed = new_thing-IsFormed env ident id title base ps qs rs n t e;
  allocated = new_thing-IsAllocated env ident id title base ps qs rs n t e;
  fresh = λ m l. (refl, refl, refl, refl);
}

pub set_at-other : {A : Type 0} (k n : ℕ) (a : A) (d : ℕ → A) → k < n → set_at k a d n ≡ d n
unfolding set_at
set_at-other k n a d l = ground arith

module _ (env : Platform) where
  pub emit-IsWellFormed :
      (e : Emitted) (x : ExposedThing) → IsWellFormed env x → IsWellFormed env (emit e x)
  unfolding emit
  emit-IsWellFormed e x h = record { formed = h.formed; allocated = h.allocated; fresh = h.fresh }

  -- A value of an object that exists.
  pub value-IsWellFormed :
      (k : ℕ) (v : Json) (x : ExposedThing)
      → IsWellFormed env x
      → k < x.thing.next_ident
      → IsWellFormed env (record x { property_values = set_at k v x.property_values })
  value-IsWellFormed k v x h l = record {
    formed = h.formed;
    allocated = h.allocated;
    fresh = λ n m.
        let (a, b, c, d) = h.fresh n m in
        (set_at-other k n v x.property_values (omega (arith, l, m)) ∙ a, b, c, d);
  }

  -- Another Thing with a later next identity.
  pub thing-IsWellFormed :
      (t : Thing) (x : ExposedThing)
      → IsWellFormed env x
      → IsFormed env t
      → IsAllocated t
      → x.thing.next_ident ≤ t.next_ident
      → IsWellFormed env (record x { thing = t })
  thing-IsWellFormed t x h f a l = record {
    formed = f;
    allocated = a;
    fresh = λ n m. h.fresh n (omega (arith, l, m));
  }

  pub found-below :
      (name : String) (i : Interaction) (x : ExposedThing)
      → IsWellFormed env x
      → find_interaction env name x.thing ≡ some i
      → i.ident < x.thing.next_ident
  found-below name i x h e = h.allocated.below i (find_interaction-In env x.thing name i e).0

  pub property-below :
      (name : String) (p : Interaction) (x : ExposedThing)
      → IsWellFormed env x
      → get name x.thing.properties ≡ some p
      → p.ident < x.thing.next_ident
  property-below name p x h e =
      h.allocated.below p (In-three_of p x.thing (inl (get-In name p x.thing.properties e)))

  pub action-below :
      (name : String) (a : Interaction) (x : ExposedThing)
      → IsWellFormed env x
      → get name x.thing.actions ≡ some a
      → a.ident < x.thing.next_ident
  action-below name a x h e =
      h.allocated.below a (In-three_of a x.thing (inr (inl (get-In name a x.thing.actions e))))

  -- What runs first keeps well-formedness, so an event after it does.
  pub emit_after :
      (e : Emitted) (o : Outcome ExposedThing)
      → IsWellFormed env o.0
      → IsWellFormed env (and_then o (λ y. (emit e y, none))).0
  emit_after e (y, none) h = emit-IsWellFormed e y h
  emit_after e (y, some x) h = h

  pub attempt-IsWellFormed :
      {A : Type 0} (r : Result A) (x : ExposedThing) (k : A → Outcome ExposedThing)
      → IsWellFormed env x
      → ((a : A) → r ≡ ok a → IsWellFormed env (k a).0)
      → IsWellFormed env (attempt r x k).0
  attempt-IsWellFormed (ok a) x k h g = g a refl
  attempt-IsWellFormed (err e) x k h g = h

  -- A new Thing with one more interaction.
  pub added-IsWellFormed :
      (name : String) (fragment : Fragment) (t : Thing) (x : ExposedThing)
      → IsWellFormed env x
      → add_fragment env name fragment x.thing ≡ ok t
      → IsWellFormed env (record x { thing = t }) × (t.next_ident ≡ suc x.thing.next_ident)
  added-IsWellFormed name fragment t x h e =
      let (a, n) = add_fragment-IsAllocated env name fragment x.thing t h.allocated e in
      (
        thing-IsWellFormed t x h (add_fragment-IsFormed env name fragment x.thing t h.formed e) a
            (omega (arith, n)),
        n,
      )
