-- ===== src/Mqtt/Subscriber/Expected.antt =====
-- wotpy/protocols/mqtt/handlers/subs.py: the interactions that should be observed, and their streams.
use wot_py.Prelude.{
  ℕ, List, [], ◌∷◌, map, Bool, true, false, ◌is◌, ◌≡◌, ◌≢◌, ◌↔◌, refl, sym, ap, ◌∙◌, subst, inl,
  inr, In, values, ok, arith, has_ident, is_iff, Bool-cases,
}
use wot_py.Platform.{Platform}
use wot_py.Interaction.{
  Fragment, property_fragment, action_fragment, event_fragment, Interaction, property,
  interaction_type, observable, url_name,
}
use wot_py.Thing.{interactions}
use wot_py.Thing.Members.{In-three_of}
use wot_py.Thing.Unique.{find_interaction-eq, is_match-name}
use wot_py.Exposed.{
  ExposedThing, Observable, filtered, property_change_filter, on_property_change, on_event,
}
use wot_py.Exposed.Names.{find_normalized_name-event}
use wot_py.Exposed.WellFormed.{IsWellFormed}
use wot_py.Exposed.Proxies.{
  normalized_name, normalized_name-property, observe_property, observe_event,
}
use wot_py.Mqtt.Subscriber.{
  Observed, observed_properties, observed_events, distinct, observables, interaction_set, ident_of,
  stream_of,
}

-- The interactions of one kind that MQTT clients may observe.
abbrev pub IsShown : Observed → ExposedThing → Interaction → Type 0
IsShown observed_properties x i = In i (values x.thing.properties) × (observable i ≡ ok true)
IsShown observed_events x i = In i (values x.thing.events)

abbrev pub AreDistinct : List Interaction → Type 0
AreDistinct [] = Unit
AreDistinct (i ∷ rest) = ((k : Interaction) → In k rest → k.ident ≢ i.ident) × AreDistinct rest

has_ident-In :
    (j : ℕ) (items : List Interaction)
    → has_ident j (map ident_of items) ≡ true
    → (i : Interaction) × In i items × (i.ident ≡ j)
unfolding has_ident
has_ident-In j [] h = cc
has_ident-In j (i ∷ items) h = elim (Bool-cases (i.ident is j)) [
  | inl t ↦ (i, inl refl, (is_iff i.ident j).0 t)
  | inr f ↦ let (k, m, e) = has_ident-In j items (ground arith) in (k, inr m, e)
]

In-has_ident :
    (j : ℕ) (items : List Interaction) (i : Interaction)
    → In i items
    → i.ident ≡ j
    → has_ident j (map ident_of items) ≡ true
unfolding has_ident
In-has_ident j [] i m e = absurd m
In-has_ident j (k ∷ items) i (inl s) e = ground (arith, ap ident_of s)
In-has_ident j (k ∷ items) i (inr m) e = ground (arith, In-has_ident j items i m e)

pub has_ident_iff :
    (j : ℕ) (items : List Interaction)
    → (has_ident j (map ident_of items) ≡ true) ↔ ((i : Interaction) × In i items × (i.ident ≡ j))
has_ident_iff j items = (has_ident-In j items, λ (i, m, e). In-has_ident j items i m e)

-- Where equal identities mean equal interactions, `distinct` keeps the members and tells them apart.
distinct_lem :
    (items : List Interaction)
    → ((i j : Interaction) → In i items → In j items → i.ident ≡ j.ident → i ≡ j)
    → AreDistinct (distinct items) × ((i : Interaction) → In i (distinct items) ↔ In i items)
unfolding distinct
distinct_lem [] apart = (tt, λ i. (λ m. m, λ m. m))
distinct_lem (x ∷ items) apart =
    let (d, iff) = distinct_lem items (λ i j m n. apart i j (inr m) (inr n)) in
    elim (Bool-cases (has_ident x.ident (map ident_of (distinct items)))) [
      | inl t ↦
          let (k, m, e) = has_ident-In x.ident (distinct items) t in
          let s : x ≡ k = apart x k (inl refl) (inr ((iff k).0 m)) (sym e) in
          rw t (
            d,
            λ i. (
              λ n. inr ((iff i).0 n),
              λ n. elim n [
                | inl f ↦ subst (λ y. In y (distinct items)) (sym (f ∙ s)) m
                | inr r ↦ (iff i).1 r
              ],
            ),
          )
      | inr f ↦ rw f (
        (λ k m e. ground (arith, In-has_ident x.ident (distinct items) k m e), d),
        λ i. (
          λ n. elim n [ inl e ↦ inl e | inr r ↦ inr ((iff i).0 r) ],
          λ n. elim n [ inl e ↦ inl e | inr r ↦ inr ((iff i).1 r) ],
        ),
      )
    ]

observable_ok :
    (i : Interaction) → interaction_type i ≡ property → (b : Bool) × (observable i ≡ ok b)
unfolding observable interaction_type
observable_ok i e = by_fragment i.fragment refl
  where
    by_fragment : (f : Fragment) → i.fragment ≡ f → (b : Bool) × (observable i ≡ ok b)
    by_fragment (property_fragment read_only shown) s = (shown, ground arith)
    by_fragment action_fragment s = absurd (ground (arith, e))
    by_fragment event_fragment s = absurd (ground (arith, e))

observables_lem :
    (items : List Interaction)
    → AreDistinct items
    → ((i : Interaction) → In i items → interaction_type i ≡ property)
    → (shown : List Interaction) × (observables items ≡ ok shown)
      × AreDistinct shown
      × ((i : Interaction) → In i shown ↔ (In i items × (observable i ≡ ok true)))
unfolding observables
observables_lem [] d typed = ([], refl, tt, λ i. (λ m. absurd m, λ m. m.0))
observables_lem (x ∷ items) (n, d) typed =
    let (rest, e, dr, iff) = observables_lem items d (λ i m. typed i (inr m)) in
    let (b, ob) = observable_ok x (typed x (inl refl)) in
    elim (Bool-cases b) [
      | inl t ↦ (
        x ∷ rest,
        rw (ob, e, t) refl,
        (λ k m. n k ((iff k).0 m).0, dr),
        λ i. (
          λ m. elim m [
            | inl s ↦ (inl s, rw s (rw (ob, t) refl))
            | inr r ↦ (inr ((iff i).0 r).0, ((iff i).0 r).1)
          ],
          λ m. elim (m.0) [ inl s ↦ inl s | inr r ↦ inr ((iff i).1 (r, m.1)) ],
        ),
      )
      | inr f ↦ (
        rest,
        rw (ob, e, f) refl,
        dr,
        λ i. (
          λ m. (inr ((iff i).0 m).0, ((iff i).0 m).1),
          λ m. elim (m.0) [
            | inl s ↦ absurd (hidden x b ob f (subst (λ y. observable y ≡ ok true) s (m.1)))
            | inr r ↦ (iff i).1 (r, m.1)
          ],
        ),
      )
    ]
  where
    hidden :
        (y : Interaction) (c : Bool) → observable y ≡ ok c → c ≡ false → observable y ≡ ok true → ⊥
    hidden y c o f t = cc

module _ (env : Platform) (x : ExposedThing) (w : IsWellFormed env x) where
  apart_in :
      (items : List Interaction)
      → ((i : Interaction) → In i items → In i (interactions x.thing))
      → (i j : Interaction) → In i items
      → In j items
      → i.ident ≡ j.ident
      → i ≡ j
  apart_in items sub i j m n e = w.allocated.apart i j (sub i m) (sub j n) e

  property_In : (i : Interaction) → In i (values x.thing.properties) → In i (interactions x.thing)
  property_In i m = In-three_of i x.thing (inl m)

  event_In : (i : Interaction) → In i (values x.thing.events) → In i (interactions x.thing)
  event_In i m = In-three_of i x.thing (inr (inr m))

  -- Of a well-formed ExposedThing, the set of the interactions to observe is found without a raise.
  pub interaction_set_lem :
      (o : Observed)
      → (expected : List Interaction) × (interaction_set o x ≡ ok expected)
        × AreDistinct expected
        × ((i : Interaction) → In i expected ↔ IsShown o x i)
  unfolding interaction_set
  interaction_set_lem observed_properties =
      let items = values x.thing.properties in
      let (d, iff) = distinct_lem items (apart_in items property_In) in
      let (shown, e, ds, k) =
        observables_lem (distinct items) d (λ i m. w.allocated.typed i ((iff i).0 m)) in
      (
        shown,
        e,
        ds,
        λ i. (λ m. ((iff i).0 ((k i).0 m).0, ((k i).0 m).1), λ m. (k i).1 ((iff i).1 (m.0), m.1)),
      )
  interaction_set_lem observed_events =
      let items = values x.thing.events in
      let (d, iff) = distinct_lem items (apart_in items event_In) in (distinct items, refl, d, iff)

  normalized_name-event :
      (i : Interaction)
      → In i (values x.thing.events)
      → normalized_name env i.name x.thing.events ≡ ok i.name
  unfolding normalized_name url_name
  normalized_name-event i m =
      rw (find_normalized_name-event env i.name i x.thing w.formed m refl) refl

  -- To ask for the stream of an interaction to observe does not raise.
  pub stream_of_lem :
      (o : Observed) (i : Interaction)
      → IsShown o x i
      → (s : Observable) × (stream_of env o i.name x ≡ ok s)
  unfolding stream_of observe_property observe_event on_property_change
  stream_of_lem observed_properties i (m, shown) =
      let f =
        find_interaction-eq env x.thing i.name i w.formed.unique (property_In i m)
          (is_match-name env i) in
      (
        filtered (property_change_filter i.name),
        rw (normalized_name-property env x w.formed i m)
            (rw (f, on_property_change) (rw shown refl)),
      )
  stream_of_lem observed_events i m = (on_event i.name x, rw (normalized_name-event i m) refl)
