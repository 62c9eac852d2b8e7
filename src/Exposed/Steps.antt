-- ===== src/Exposed/Steps.antt =====
-- wotpy/wot/exposed/thing.py: each operation keeps an ExposedThing well formed.
use wot_py.Prelude.{
  String, Bool, true, false, not, ◌∙◌, inl, inr, Option, none, some, Result, ok, err, get, arith,
  and_then, or_raise, key_error, type_error, not_implemented, if◌then◌else◌, Option-cases,
}
use wot_py.Platform.{Platform}
use wot_py.Json.{Json}
use wot_py.Interaction.{
  Kind, property_fragment, action_fragment, event_fragment, Interaction, writable,
}
use wot_py.Thing.{add_fragment, remove_interaction, find_interaction}
use wot_py.Thing.Changes.{remove_interaction-IsFormed}
use wot_py.Exposed.{
  ExposedThing, Reader, Writer, Invoker, emit, write_property, invoke, emit_event, add_property,
  add_action, add_event, remove, set_action_handler, set_property_read_handler,
  set_property_write_handler, default_update, update_with, invoked, invoke_with, property_change,
}
use wot_py.Exposed.Allocated.{remove_interaction-IsAllocated}
use wot_py.Exposed.WellFormed.{
  IsWellFormed, set_at-other, action-below, added-IsWellFormed, attempt-IsWellFormed,
  emit-IsWellFormed, emit_after, found-below, property-below, thing-IsWellFormed,
  value-IsWellFormed,
}

module _ (env : Platform) where
  pub default_update-IsWellFormed :
      (name : String) (v : Json) (x : ExposedThing)
      → IsWellFormed env x
      → IsWellFormed env (default_update env name v x).0
  unfolding default_update
  default_update-IsWellFormed name v x h = elim (Option-cases (find_interaction env name x.thing)) [
    | inl e ↦ rw e h
    | inr (i, e) ↦ rw e (value-IsWellFormed env i.ident v x h (found-below env name i x h e))
  ]

  pub set_action_handler-IsWellFormed :
      (name : String) (f : Invoker) (x : ExposedThing)
      → IsWellFormed env x
      → IsWellFormed env (set_action_handler name f x).0
  unfolding set_action_handler
  set_action_handler-IsWellFormed name f x h = elim (Option-cases (get name x.thing.actions)) [
    | inl e ↦ rw e h
    | inr (a, e) ↦ rw e (record {
      formed = h.formed;
      allocated = h.allocated;
      fresh = λ n m.
          let (p, q, r, s) = h.fresh n m in
          let l = action-below env name a x h e in
          (p, q, r, set_at-other a.ident n (some f) x.invoke_action (omega (arith, l, m)) ∙ s);
    })
  ]

  pub set_read_handler-IsWellFormed :
      (name : String) (f : Reader) (x : ExposedThing)
      → IsWellFormed env x
      → IsWellFormed env (set_property_read_handler name f x).0
  unfolding set_property_read_handler
  set_read_handler-IsWellFormed name f x h = elim (Option-cases (get name x.thing.properties)) [
    | inl e ↦ rw e h
    | inr (a, e) ↦ rw e (record {
      formed = h.formed;
      allocated = h.allocated;
      fresh = λ n m.
          let (p, q, r, s) = h.fresh n m in
          let l = property-below env name a x h e in
          (p, set_at-other a.ident n (some f) x.retrieve_property (omega (arith, l, m)) ∙ q, r, s);
    })
  ]

  pub set_write_handler-IsWellFormed :
      (name : String) (f : Writer) (x : ExposedThing)
      → IsWellFormed env x
      → IsWellFormed env (set_property_write_handler name f x).0
  unfolding set_property_write_handler
  set_write_handler-IsWellFormed name f x h = elim (Option-cases (get name x.thing.properties)) [
    | inl e ↦ rw e h
    | inr (a, e) ↦ rw e (record {
      formed = h.formed;
      allocated = h.allocated;
      fresh = λ n m.
          let (p, q, r, s) = h.fresh n m in
          let l = property-below env name a x h e in
          (p, q, set_at-other a.ident n (some f) x.update_property (omega (arith, l, m)) ∙ r, s);
    })
  ]

  pub update_with-IsWellFormed :
      (o : Option Writer) (name : String) (v : Json) (x : ExposedThing)
      → IsWellFormed env x
      → IsWellFormed env (update_with env o name v x).0
  unfolding update_with
  update_with-IsWellFormed none name v x h = default_update-IsWellFormed name v x h
  update_with-IsWellFormed (some f) name v x h = attempt-IsWellFormed env (f v) x _ h (λ a e. h)

  pub write_property-IsWellFormed :
      (name : String) (v : Json) (x : ExposedThing)
      → IsWellFormed env x
      → IsWellFormed env (write_property env name v x).0
  unfolding write_property
  write_property-IsWellFormed name v x h =
      attempt-IsWellFormed env (or_raise (get name x.thing.properties) key_error) x _ h
        λ p e. attempt-IsWellFormed env (writable p) x _ h λ w f. go p w
    where
      go :
          (p : Interaction) (w : Bool)
          → IsWellFormed env
              (if not w
                then (x, some type_error)
                else and_then
                    (update_with env (x.update_property p.ident) name v x)
                    (λ y. (emit (property_change name v) y, none))).0
      go p false = h
      go p true =
          emit_after env (property_change name v)
            (update_with env (x.update_property p.ident) name v x)
            (update_with-IsWellFormed (x.update_property p.ident) name v x h)

  pub invoked-IsWellFormed :
      (r : Result Json) (name : String) (x : ExposedThing)
      → IsWellFormed env x
      → IsWellFormed env (invoked r name x).0
  unfolding invoked
  invoked-IsWellFormed (err e) name x h = h
  invoked-IsWellFormed (ok v) name x h = emit-IsWellFormed env _ x h

  pub invoke_with-IsWellFormed :
      (o : Option Invoker) (name : String) (v : Json) (x : ExposedThing)
      → IsWellFormed env x
      → IsWellFormed env (invoke_with o name v x).0
  unfolding invoke_with
  invoke_with-IsWellFormed none name v x h = invoked-IsWellFormed (err not_implemented) name x h
  invoke_with-IsWellFormed (some f) name v x h = invoked-IsWellFormed (f v) name x h

  pub invoke-IsWellFormed :
      (name : String) (v : Json) (x : ExposedThing)
      → IsWellFormed env x
      → IsWellFormed env (invoke env name v x).0
  unfolding invoke
  invoke-IsWellFormed name v x h = elim (Option-cases (get name x.thing.actions)) [
    | inl e ↦ rw (e, invoke) h
    | inr (a, e) ↦ rw (e, invoke) (invoke_with-IsWellFormed (x.invoke_action a.ident) name v x h)
  ]

  pub emit_event-IsWellFormed :
      (name : String) (v : Json) (x : ExposedThing)
      → IsWellFormed env x
      → IsWellFormed env (emit_event env name v x).0
  unfolding emit_event
  emit_event-IsWellFormed name v x h = elim (Option-cases (find_interaction env name x.thing)) [
    | inl e ↦ rw e h
    | inr (i, e) ↦ rw e (emit-IsWellFormed env _ x h)
  ]

  pub remove-IsWellFormed :
      (kind : Kind) (name : String) (x : ExposedThing)
      → IsWellFormed env x
      → IsWellFormed env (remove env kind name x)
  unfolding remove
  remove-IsWellFormed kind name x h =
      let (a, e) = remove_interaction-IsAllocated env name x.thing h.formed h.allocated in
      emit-IsWellFormed env _ _ (
        thing-IsWellFormed env (remove_interaction env name x.thing) x h
          (remove_interaction-IsFormed env name x.thing h.formed) a (omega (arith, e)))

  pub add_property-IsWellFormed :
      (name : String) (read_only shown : Bool) (v : Json) (x : ExposedThing)
      → IsWellFormed env x
      → IsWellFormed env (add_property env name read_only shown v x).0
  unfolding add_property
  add_property-IsWellFormed name read_only shown v x h =
      attempt-IsWellFormed env (add_fragment env name (property_fragment read_only shown) x.thing) x
        _ h
        λ t e.
          let (w, n) = added-IsWellFormed env name (property_fragment read_only shown) t x h e in
          emit-IsWellFormed env _ _ (
            value-IsWellFormed env x.thing.next_ident v (record x { thing = t }) w
              (omega (arith, n)))

  pub add_action-IsWellFormed :
      (name : String) (f : Option Invoker) (x : ExposedThing)
      → IsWellFormed env x
      → IsWellFormed env (add_action env name f x).0
  unfolding add_action
  add_action-IsWellFormed name none x h =
      attempt-IsWellFormed env (add_fragment env name action_fragment x.thing) x _ h
        λ t e. emit-IsWellFormed env _ _ (added-IsWellFormed env name action_fragment t x h e).0
  add_action-IsWellFormed name (some f) x h =
      attempt-IsWellFormed env (add_fragment env name action_fragment x.thing) x _ h λ t e.
        set_action_handler-IsWellFormed name f _
          (emit-IsWellFormed env _ _ (added-IsWellFormed env name action_fragment t x h e).0)

  pub add_event-IsWellFormed :
      (name : String) (x : ExposedThing)
      → IsWellFormed env x
      → IsWellFormed env (add_event env name x).0
  unfolding add_event
  add_event-IsWellFormed name x h =
      attempt-IsWellFormed env (add_fragment env name event_fragment x.thing) x _ h
        λ t e. emit-IsWellFormed env _ _ (added-IsWellFormed env name event_fragment t x h e).0
