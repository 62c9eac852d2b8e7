-- ===== src/Exposed/Proxies.antt =====
-- wotpy/wot/exposed/interaction_map.py: the dictionaries of an ExposedThing's interactions that the
-- application and the servers see, and the calls of their items, which look the name up first.
use wot_py.Prelude.{
  String, ◌≡◌, refl, key_error, Result, ok, err, ◌>>=◌, or_raise, Outcome, attempt, Dict, values,
  In,
}
use wot_py.Platform.{Platform}
use wot_py.Json.{Json}
use wot_py.Interaction.{Interaction, url_name}
use wot_py.Thing.Unique.{IsFormed}
use wot_py.Exposed.{
  ExposedThing, Call, Observable, read_property, write_property, invoke, on_property_change,
  on_event, find_normalized_name,
}
use wot_py.Exposed.Names.{find_normalized_name-property}

module _ (env : Platform) where
  -- `ExposedThingInteractionDict.__getitem__`: the name of the item
  unfoldable pub normalized_name : String → Dict Interaction → Result String
  normalized_name name d = or_raise (find_normalized_name env name d) key_error

  -- `exposed_thing.properties[name].read()`
  unfoldable pub read_item : String → ExposedThing → Result Json
  unfolding normalized_name
  read_item name x =
      normalized_name name x.thing.properties >>= λ actual. read_property env actual x

  -- `exposed_thing.properties[name].write(value)`
  unfoldable pub write_item : String → Json → ExposedThing → Outcome ExposedThing
  unfolding normalized_name
  write_item name v x =
      attempt (normalized_name name x.thing.properties) x λ actual. write_property env actual v x

  -- `exposed_thing.actions[name].invoke(input)`
  unfoldable pub invoke_item : String → Json → ExposedThing → Call
  unfolding normalized_name
  invoke_item name input x = elim (normalized_name name x.thing.actions) [
    | err e ↦ (x, err e)
    | ok actual ↦ invoke env actual input x
  ]

  -- the stream behind `exposed_thing.properties[name].subscribe(...)`
  unfoldable pub observe_property : String → ExposedThing → Result Observable
  unfolding normalized_name
  observe_property name x =
      normalized_name name x.thing.properties >>= λ actual. on_property_change env actual x

  -- the stream behind `exposed_thing.events[name].subscribe(...)`
  unfoldable pub observe_event : String → ExposedThing → Result Observable
  unfolding normalized_name
  observe_event name x = normalized_name name x.thing.events >>= λ actual. ok (on_event actual x)

  module _ (x : ExposedThing) (formed : IsFormed env x.thing) (p : Interaction) where
    -- An item that is asked for under the name of a property is that property's.
    pub normalized_name-property :
        In p (values x.thing.properties) → normalized_name p.name x.thing.properties ≡ ok p.name
    unfolding normalized_name url_name
    normalized_name-property m =
        rw (find_normalized_name-property env p.name p x.thing formed m refl) refl

    pub read_item-property :
        In p (values x.thing.properties) → read_item p.name x ≡ read_property env p.name x
    unfolding read_item
    read_item-property m = rw (normalized_name-property m) refl

    pub write_item-property :
        (v : Json)
        → In p (values x.thing.properties)
        → write_item p.name v x ≡ write_property env p.name v x
    unfolding write_item
    write_item-property v m = rw (normalized_name-property m) refl
