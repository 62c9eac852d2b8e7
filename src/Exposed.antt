-- ===== src/Exposed.antt =====
-- wotpy/wot/exposed/thing.py, wotpy/wot/exposed/interaction_map.py and wotpy/wot/events.py: an
-- ExposedThing, its property values, its handlers and the events that it emits.
-- Dictionaries by interaction object are functions of the object's identity, with what `.get` says
-- on a missing key as their value there. A handler of the application is a function to its outcome.
pub mod Allocated
pub mod WellFormed
pub mod Steps
pub mod Operations
pub mod Values
pub mod Reading
pub mod Streams
pub mod Names
pub mod Proxies
use wot_py.Prelude.{
  ℕ, String, List, [], ◌∷◌, ◌++◌, Option, none, some, Bool, true, false, not, ◌&&◌, ◌==◌, ◌is◌,
  if◌then◌else◌, Dict, get, has, keys, next, Error, value_error, type_error, key_error,
  attribute_error, not_implemented, Result, ok, err, ◌>>=◌, or_raise, Outcome, attempt, and_then,
}
use wot_py.Platform.{Platform}
use wot_py.Json.{Json, null}
use wot_py.Interaction.{
  Kind, property, action, event, Fragment, property_fragment, action_fragment, event_fragment,
  Interaction, writable, observable,
}
use wot_py.Thing.{Thing, find_interaction, add_fragment, remove_interaction}

-- TDChangeMethod, as far as it is used
pub data Method : Type 0 where
  adds removes : Method

-- The items of the event stream, with their init.
pub data Emitted : Type 0 where
  plain : String → Json → Emitted
  property_change : String → Json → Emitted
  action_invocation : String → Json → Emitted
  description_change : Kind → Method → String → Option Fragment → Emitted

-- `item.name`, with the names of DefaultThingEvent
unfoldable pub emitted_name : Emitted → String
emitted_name (plain name _) = name
emitted_name (property_change _ _) = "propertychange"
emitted_name (action_invocation _ _) = "actioninvocation"
emitted_name (description_change _ _ _ _) = "descriptionchange"

-- `item.data.name`: an action's init has none, and a payload is no object with attributes.
unfoldable pub data_name : Emitted → Result String
data_name (plain _ _) = err attribute_error
data_name (property_change name _) = ok name
data_name (action_invocation _ _) = err attribute_error
data_name (description_change _ _ name _) = ok name

abbrev pub Reader : Type 0
Reader = Result Json

abbrev pub Writer : Type 0
Writer = Json → Result (Unit {0})

abbrev pub Invoker : Type 0
Invoker = Json → Result Json

pub record ExposedThing : Type 0 where
  pub thing : Thing
  pub property_values : ℕ → Json
  pub retrieve_property : ℕ → Option Reader
  pub update_property : ℕ → Option Writer
  pub invoke_action : ℕ → Option Invoker
  pub events_stream : List Emitted

-- `ExposedThing.__init__`
unfoldable pub new_exposed_thing : Thing → ExposedThing
new_exposed_thing t = record {
  thing = t;
  property_values = λ _. null;
  retrieve_property = λ _. none;
  update_property = λ _. none;
  invoke_action = λ _. none;
  events_stream = [];
}

-- `d[k] = a`
unfoldable pub set_at : {A : Type 0} → ℕ → A → (ℕ → A) → ℕ → A
set_at k a d x = if x is k then a else d x

-- `self._events_stream.on_next(item)`
unfoldable pub emit : Emitted → ExposedThing → ExposedThing
emit e x = record x { events_stream = x.events_stream ++ e ∷ [] }

unfoldable pub set_property_value : Interaction → Json → ExposedThing → ExposedThing
unfolding set_at
set_property_value p v x = record x { property_values = set_at p.ident v x.property_values }

abbrev pub done : ExposedThing → Outcome ExposedThing
done x = (x, none)

-- What a call leaves and what it returns or raises.
abbrev pub Call : Type 0
Call = ExposedThing × Result Json

-- A stream that throws at its subscriber, or the event stream through a filter.
pub data Observable : Type 0 where
  throws : Observable
  filtered : (Emitted → Result Bool) → Observable

-- the filter of `on_property_change`
unfoldable pub property_change_filter : String → Emitted → Result Bool
unfolding emitted_name data_name
property_change_filter name item =
    if emitted_name item == "propertychange"
    then data_name item >>= (λ n. ok (n == name))
    else ok false

unfoldable pub on_event : String → ExposedThing → Observable
unfolding emitted_name
on_event name x =
    if has name x.thing.events then filtered (λ item. ok (emitted_name item == name)) else throws

unfoldable pub on_td_change : Observable
unfolding emitted_name
on_td_change = filtered (λ item. ok (emitted_name item == "descriptionchange"))

unfoldable pub set_action_handler : String → Invoker → ExposedThing → Outcome ExposedThing
unfolding set_at
set_action_handler name h x =
    attempt (or_raise (get name x.thing.actions) key_error) x
      λ a. done (record x { invoke_action = set_at a.ident (some h) x.invoke_action })

unfoldable pub set_property_read_handler : String → Reader → ExposedThing → Outcome ExposedThing
unfolding set_at
set_property_read_handler name h x =
    attempt (or_raise (get name x.thing.properties) key_error) x
      λ p. done (record x { retrieve_property = set_at p.ident (some h) x.retrieve_property })

unfoldable pub set_property_write_handler : String → Writer → ExposedThing → Outcome ExposedThing
unfolding set_at
set_property_write_handler name h x =
    attempt (or_raise (get name x.thing.properties) key_error) x
      λ p. done (record x { update_property = set_at p.ident (some h) x.update_property })

-- what follows the handler's result
unfoldable pub invoked : Result Json → String → ExposedThing → Call
unfolding emit
invoked (err e) name x = (x, err e)
invoked (ok v) name x = (emit (action_invocation name v) x, ok v)

-- `_get_handler` for an action: its own handler, or else `_default_invoke_action_handler`
unfoldable pub invoke_with : Option Invoker → String → Json → ExposedThing → Call
unfolding invoked
invoke_with none name input x = invoked (err not_implemented) name x
invoke_with (some h) name input x = invoked (h input) name x

module _ (env : Platform) where
  -- `_find_interaction`
  unfoldable pub find_or_raise : String → ExposedThing → Result Interaction
  find_or_raise name x = or_raise (find_interaction env name x.thing) value_error

  unfoldable pub default_retrieve : String → ExposedThing → Result Json
  unfolding find_or_raise
  default_retrieve name x = do p ← find_or_raise name x; ok (x.property_values p.ident)

  unfoldable pub default_update : String → Json → ExposedThing → Outcome ExposedThing
  unfolding find_or_raise set_property_value
  default_update name v x = attempt (find_or_raise name x) x λ p. done (set_property_value p v x)

  -- the own handler of the property, or else the default one
  unfoldable pub read_with : Option Reader → String → ExposedThing → Result Json
  unfolding default_retrieve
  read_with none name x = default_retrieve name x
  read_with (some h) name x = h

  unfoldable pub read_property : String → ExposedThing → Result Json
  unfolding read_with
  read_property name x = do
    p ← or_raise (get name x.thing.properties) key_error
    read_with (x.retrieve_property p.ident) name x

  -- the own handler of the property, or else the default one
  unfoldable pub update_with : Option Writer → String → Json → ExposedThing → Outcome ExposedThing
  unfolding default_update
  update_with none name v x = default_update name v x
  update_with (some h) name v x = attempt (h v) x (λ _. done x)

  unfoldable pub write_property : String → Json → ExposedThing → Outcome ExposedThing
  unfolding update_with emit
  write_property name v x = attempt (or_raise (get name x.thing.properties) key_error) x λ p.
      attempt (writable p) x λ w.
        if not w
        then (x, some type_error)
        else and_then (update_with (x.update_property p.ident) name v x)
            λ y. done (emit (property_change name v) y)

  unfoldable pub invoke : String → Json → ExposedThing → Call
  unfolding invoke_with
  invoke name input x = elim (get name x.thing.actions) [
    | none ↦ (x, err key_error)
    | some a ↦ invoke_with (x.invoke_action a.ident) name input x
  ]

  unfoldable pub on_property_change : String → ExposedThing → Result Observable
  unfolding property_change_filter
  on_property_change name x = elim (find_interaction env name x.thing) [
    | none ↦ ok throws
    | some i ↦
        observable i >>= (λ o. ok (if o then filtered (property_change_filter name) else throws))
  ]

  unfoldable pub emit_event : String → Json → ExposedThing → Outcome ExposedThing
  unfolding emit find_or_raise
  emit_event name payload x =
      attempt (find_or_raise name x) x λ _. done (emit (plain name payload) x)

  -- `add_property`
  unfoldable pub add_property : String → Bool → Bool → Json → ExposedThing → Outcome ExposedThing
  unfolding emit set_at
  add_property name read_only shown v x =
      let fragment = property_fragment read_only shown in
      attempt (add_fragment env name fragment x.thing) x λ t. done (
        emit (description_change property adds name (some fragment))
          (record x { thing = t; property_values = set_at x.thing.next_ident v x.property_values }))

  unfoldable pub add_action : String → Option Invoker → ExposedThing → Outcome ExposedThing
  unfolding emit set_action_handler
  add_action name handler x = attempt (add_fragment env name action_fragment x.thing) x λ t.
      let y =
        emit (description_change action adds name (some action_fragment))
          (record x { thing = t }) in
      elim handler [ none ↦ done y | some h ↦ set_action_handler name h y ]

  unfoldable pub add_event : String → ExposedThing → Outcome ExposedThing
  unfolding emit
  add_event name x = attempt (add_fragment env name event_fragment x.thing) x λ t.
      done
        (emit (description_change event adds name (some event_fragment)) (record x { thing = t }))

  -- the three removals, which differ in the emitted event
  unfoldable pub remove : Kind → String → ExposedThing → ExposedThing
  unfolding emit
  remove kind name x =
      emit (description_change kind removes name none)
        (record x { thing = remove_interaction env name x.thing })

  unfoldable pub remove_property : String → ExposedThing → ExposedThing
  unfolding remove
  remove_property name x = remove property name x

  unfoldable pub remove_action : String → ExposedThing → ExposedThing
  unfolding remove
  remove_action name x = remove action name x

  unfoldable pub remove_event : String → ExposedThing → ExposedThing
  unfolding remove
  remove_event name x = remove event name x

  -- `_find_normalized_name`
  unfoldable pub find_normalized_name : String → Dict Interaction → Option String
  find_normalized_name name d = next (λ k. env.slugify k == env.slugify name) (keys d)
