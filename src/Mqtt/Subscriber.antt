-- ===== src/Mqtt/Subscriber.antt =====
-- wotpy/protocols/mqtt/handlers/subs.py: the subscriptions to all properties, or to all events, of the
-- ExposedThings of a server. Objects are known by identity. A subscription is named by the
-- ExposedThing and the interaction that it was made for; `live` lists those that were made and not
-- disposed, one as often as it was made. The order in which Python walks through a set is that of
-- the list here. `on_error` is not modelled: it is called for a stream that fails.
pub mod Members
pub mod Expected
pub mod Loops
pub mod Refresh
use wot_py.Prelude.{
  ℕ, String, List, [], ◌∷◌, map, Option, none, some, Bool, true, false, not, ◌&&◌, ◌is◌,
  if◌then◌else◌, values, filter, Error, Result, ok, err, ◌>>=◌, Outcome, attempt, and_then,
  for_each, Table, get_at, put_at, pop_at, idents, has_ident,
}
use wot_py.Platform.{Platform}
use wot_py.Interaction.{Interaction, observable}
use wot_py.Exposed.{ExposedThing, Observable}
use wot_py.Exposed.Proxies.{observe_property, observe_event}

-- the interaction types that the constructor lets pass
pub data Observed : Type 0 where
  observed_properties observed_events : Observed

pub record Subscriber : Type 0 where
  pub observed : Observed
  pub subs : Table (List ℕ)
  pub live : List (ℕ × ℕ)

-- `InteractionsSubscriber.__init__`
unfoldable pub new_subscriber : Observed → Subscriber
new_subscriber observed = record { observed = observed; subs = []; live = [] }

abbrev pub or_empty : Option (List ℕ) → List ℕ
or_empty none = []
or_empty (some keys) = keys

-- the keys of `self._subs[exp_thing]`
unfoldable pub thing_subs : ℕ → Subscriber → List ℕ
thing_subs r s = or_empty (get_at r s.subs)

-- `disposable.dispose()`
unfoldable pub dispose_live : ℕ → ℕ → List (ℕ × ℕ) → List (ℕ × ℕ)
dispose_live r i [] = []
dispose_live r i ((q, j) ∷ live) = if q is r && j is i then live else (q, j) ∷ dispose_live r i live

-- `thing_subs[intrc].dispose()` and `thing_subs.pop(intrc)`
unfoldable pub unsubscribe : ℕ → ℕ → Subscriber → Subscriber
unfolding dispose_live thing_subs
unsubscribe r i s = record s {
  subs = put_at r (filter (λ j. not (j is i)) (thing_subs r s)) s.subs;
  live = dispose_live r i s.live;
}

-- `thing_subs[intrc] = exp_thing_intrc.subscribe(...)`
unfoldable pub subscribe : ℕ → ℕ → Subscriber → Subscriber
unfolding thing_subs
subscribe r i s = record s {
  subs = put_at r (i ∷ filter (λ j. not (j is i)) (thing_subs r s)) s.subs;
  live = (r, i) ∷ s.live;
}

unfoldable pub dispose_each : ℕ → List ℕ → List (ℕ × ℕ) → List (ℕ × ℕ)
unfolding dispose_live
dispose_each r [] live = live
dispose_each r (i ∷ rest') live = dispose_each r rest' (dispose_live r i live)

-- `_dispose_exposed_thing_subs`
unfoldable pub dispose_thing : ℕ → Subscriber → Subscriber
unfolding dispose_each
dispose_thing r s = elim (get_at r s.subs) [
  | none ↦ s
  | some keys ↦ record s { subs = pop_at r s.subs; live = dispose_each r keys s.live }
]

-- `dispose`, and the first loop of `refresh`
unfoldable pub dispose_things : List ℕ → Subscriber → Subscriber
unfolding dispose_thing
dispose_things [] s = s
dispose_things (r ∷ rs) s = dispose_things rs (dispose_thing r s)

unfoldable pub dispose : Subscriber → Subscriber
unfolding dispose_things
dispose s = dispose_things (idents s.subs) s

-- `set(...)` of interactions
unfoldable pub distinct : List Interaction → List Interaction
distinct [] = []
distinct (i ∷ rest') =
    let rest = distinct rest' in
    if has_ident i.ident (map (λ (j : Interaction). j.ident) rest) then rest else i ∷ rest

-- `set(item for item in intrc_expected if item.observable)`
unfoldable pub observables : List Interaction → Result (List Interaction)
observables [] = ok []
observables (i ∷ rest') = do
  shown ← observable i
  rest ← observables rest'
  ok (if shown then i ∷ rest else rest)

-- `_get_exposed_thing_interaction_set`
unfoldable pub interaction_set : Observed → ExposedThing → Result (List Interaction)
unfolding distinct observables
interaction_set observed_properties x = observables (distinct (values x.thing.properties))
interaction_set observed_events x = ok (distinct (values x.thing.events))

abbrev pub ident_of : Interaction → ℕ
ident_of i = i.ident

-- `for intrc in intrc_remove`
unfoldable pub unsubscribe_each : ℕ → List ℕ → Subscriber → Subscriber
unfolding unsubscribe
unsubscribe_each r [] s = s
unsubscribe_each r (i ∷ rest') s = unsubscribe_each r rest' (unsubscribe r i s)

-- `if exp_thing not in self._subs: self._subs[exp_thing] = {}`
unfoldable pub with_thing : ℕ → Subscriber → Subscriber
unfolding thing_subs
with_thing r s = record s { subs = put_at r (thing_subs r s) s.subs }

module _ (env : Platform) where
  -- `exp_thing.__getattribute__(attr)[intrc.name]`, and the stream that its `subscribe` asks for
  unfoldable pub stream_of : Observed → String → ExposedThing → Result Observable
  stream_of observed_properties name x = observe_property env name x
  stream_of observed_events name x = observe_event env name x

  -- `for intrc in intrc_new`
  unfoldable pub subscribe_each :
      ℕ → ExposedThing → List Interaction → Subscriber → Outcome Subscriber
  unfolding stream_of subscribe
  subscribe_each r x [] s = (s, none)
  subscribe_each r x (i ∷ rest') s =
      attempt (stream_of s.observed i.name x) s
        λ o. subscribe_each r x rest' (subscribe r i.ident s)

  -- `_refresh_exposed_thing_subs`
  unfoldable pub refresh_thing : (ℕ → ExposedThing) → ℕ → Subscriber → Outcome Subscriber
  unfolding with_thing interaction_set unsubscribe_each subscribe_each
  refresh_thing heap r s =
      let s1 = with_thing r s in
      attempt (interaction_set s.observed (heap r)) s1 λ expected.
        let s2 =
          unsubscribe_each r
            (filter (λ i. not (has_ident i (map ident_of expected))) (thing_subs r s1)) s1 in
        subscribe_each r (heap r)
          (filter (λ (i : Interaction). not (has_ident i.ident (thing_subs r s2))) expected) s2

  -- `refresh`
  unfoldable pub refresh : (ℕ → ExposedThing) → List ℕ → Subscriber → Outcome Subscriber
  unfolding refresh_thing dispose_things
  refresh heap exposed s =
      for_each (refresh_thing heap) exposed
        (dispose_things (filter (λ r. not (has_ident r exposed)) (idents s.subs)) s)
