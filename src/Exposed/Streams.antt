-- ===== src/Exposed/Streams.antt =====
-- wotpy/wot/exposed/thing.py: what the subscribers of a property are told.
use wot_py.Prelude.{
  String, true, false, [], ◌∷◌, ◌++◌, ◌≡◌, ◌≢◌, refl, sym, ap, ◌∙◌, ◌==◌, inl, inr, none, some, ok,
  In, ==-of-ne, get-In, get-key,
}
use wot_py.Platform.{Platform}
use wot_py.Json.{Json}
use wot_py.Interaction.{Interaction, url_name, observable}
use wot_py.Thing.{interactions, find_interaction}
use wot_py.Thing.Members.{In-three_of, name_of}
use wot_py.Thing.Unique.{find_interaction-eq, is_match-name, is_match-url_name}
use wot_py.Exposed.{
  ExposedThing, Emitted, property_change, property_change_filter, on_property_change,
  write_property, emit, set_property_value, emitted_name, data_name, filtered,
}
use wot_py.Exposed.WellFormed.{IsWellFormed}
use wot_py.Exposed.Values.{write_property-ok, IsWritten}

-- What the filter of a subscription does with a property change.
pub property_change_filter_lem :
    (q name : String) (v : Json)
    → property_change_filter q (property_change name v) ≡ ok (name == q)
unfolding property_change_filter emitted_name data_name
property_change_filter_lem q name v = refl

module _ (env : Platform) where
  written-events_stream :
      (name : String) (v : Json) (p : Interaction) (x y : ExposedThing)
      → IsWritten env name v p x y
      → y.events_stream ≡ x.events_stream ++ property_change name v ∷ []
  unfolding emit set_property_value
  written-events_stream name v p x y (inl a) = ap (λ (z : ExposedThing). z.events_stream) a.1
  written-events_stream name v p x y (inr b) = ap (λ (z : ExposedThing). z.events_stream) b.3

  -- On a well-formed ExposedThing, a write that did not raise emits one event. The filter of a
  -- subscription to the changes of `q` lets it through exactly if `q` is the name that was written.
  property_change_filter-write_property :
      (name : String) (v : Json) (x y : ExposedThing)
      → IsWellFormed env x
      → write_property env name v x ≡ (y, none)
      → (e : Emitted) × (y.events_stream ≡ x.events_stream ++ e ∷ [])
        × ((q : String) → property_change_filter q e ≡ ok (name == q))
  property_change_filter-write_property name v x y h k =
      let (p, n, w, written) = write_property-ok env name v x y h k in
      (
        property_change name v,
        written-events_stream name v p x y written,
        λ q. property_change_filter_lem q name v,
      )

  -- On a well-formed ExposedThing, a subscription to a shown property by its URL name, where this
  -- is not its name, is accepted, and then its filter lets through the event of no write, of
  -- whatever property.
  pub on_property_change-url_name :
      (i : Interaction) (name : String) (v : Json) (x y : ExposedThing)
      → IsWellFormed env x
      → In i (interactions x.thing)
      → observable i ≡ ok true
      → i.name ≢ url_name env i
      → write_property env name v x ≡ (y, none)
      → (on_property_change env (url_name env i) x
          ≡ ok (filtered (property_change_filter (url_name env i))))
        × ((e : Emitted) × (y.events_stream ≡ x.events_stream ++ e ∷ [])
            × (property_change_filter (url_name env i) e ≡ ok false))
  unfolding on_property_change
  on_property_change-url_name i name v x y h m o n k =
      let u = url_name env i in
      let found : find_interaction env u x.thing ≡ some i =
        find_interaction-eq env x.thing u i h.formed.unique m (is_match-url_name env i) in
      let (p, got, w, written) = write_property-ok env name v x y h k in
      let key : p.name ≡ name =
        get-key name_of name p x.thing.properties h.formed.keyed.properties got in
      let here : In p (interactions x.thing) =
        In-three_of p x.thing (inl (get-In name p x.thing.properties got)) in
      let other : name ≢ u = λ e.
        let also : find_interaction env p.name x.thing ≡ some p =
          find_interaction-eq env x.thing p.name p h.formed.unique here (is_match-name env p) in
        let same : some p ≡ some i =
          sym also ∙ (ap (λ q. find_interaction env q x.thing) (key ∙ e) ∙ found) in
        let pi : p ≡ i = cc in n (sym (ap name_of pi) ∙ (key ∙ e)) in
      (
        rw (found, on_property_change, o) refl,
        (
          property_change name v,
          written-events_stream name v p x y written,
          property_change_filter_lem u name v ∙ ap ok (==-of-ne name u other),
        ),
      )
