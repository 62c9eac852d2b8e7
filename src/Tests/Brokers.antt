-- ===== src/Tests/Brokers.antt =====
-- The theorems on the MQTT handlers at concrete inputs.
use wot_py.Prelude.{
  ℕ, ◌≤◌, String, List, [], ◌∷◌, ◌++◌, Option, none, some, Bool, true, false, not, Result, ok, err,
  ◌≡◌, ◌↔◌, refl, sym, inl, inr, In, values, attempt, and_then, Error,
}
use wot_py.Json.{null, integer, text, object, Members, empty, member}
use wot_py.Interaction.{Interaction, Fragment, property_fragment, action_fragment, url_name}
use wot_py.Thing.{Thing, new_thing, thing_url_name}
use wot_py.Exposed.{ExposedThing, new_exposed_thing, read_property, write_property, set_at}
use wot_py.Exposed.WellFormed.{IsWellFormed, new_exposed_thing-IsWellFormed}
use wot_py.Exposed.Proxies.{invoke_item}
use wot_py.Mqtt.Topics.{
  HasNoSlash, topic_of, requests_path, updates_path, ack_path, invocation_path, result_path,
  to_write_ack_topic, to_result_topic, answer_topics,
}
use wot_py.Mqtt.Handlers.{
  MqttHandler, MqttMessage, Published, handle_property_message, handle_action_message,
  result_message,
}
use wot_py.Mqtt.Handlers.Requests.{
  Serves, handle_property_message-read, handle_property_message-write, handle_action_message_lem,
}
use wot_py.Tests.Lab.{lab}

abbrev temp : Interaction
temp = record {
  ident = 10;
  thing = 1;
  name = "Temp";
  fragment = property_fragment false true;
  forms = [];
}

abbrev reset : Interaction
reset = record { ident = 11; thing = 1; name = "reset"; fragment = action_fragment; forms = [] }

-- A Thing with a property and an action.
abbrev device : Thing
device = record {
  ident = 1;
  id = "urn:lab";
  title = "Lab";
  base = none;
  properties = ("Temp", temp) ∷ [];
  actions = ("reset", reset) ∷ [];
  events = [];
  next_ident = 12;
}

device-made :
    new_thing lab 1 "urn:lab" "Lab" none
      (("Temp", property_fragment false true) ∷ [])
      (("reset", action_fragment) ∷ [])
      []
      10
    ≡ ok device
unfolding new_thing wot_py.Thing.add_fragment wot_py.Interaction.new_interaction
    wot_py.Validation.is_valid_safe_name wot_py.Validation.is_safe_char wot_py.Thing.add_interaction
    wot_py.Thing.find_interaction wot_py.Prelude.next wot_py.Thing.interactions wot_py.Thing.store
    wot_py.Interaction.interaction_type wot_py.Prelude.put wot_py.Thing.is_match
    wot_py.Tests.Lab.lab_slugify
device-made = refl

abbrev pub exposed : ExposedThing
unfolding new_exposed_thing
exposed = new_exposed_thing device

pub exposed-IsWellFormed : IsWellFormed lab exposed
unfolding exposed new_exposed_thing
exposed-IsWellFormed =
    new_exposed_thing-IsWellFormed lab 1 "urn:lab" "Lab" none
      (("Temp", property_fragment false true) ∷ []) (("reset", action_fragment) ∷ []) [] 10 device
      device-made

abbrev handler : MqttHandler
handler = record {
  servient_id = "servient";
  exposed_things = 1 ∷ [];
  heap = λ r. exposed;
  qos_observe = 0;
  qos_rw = 2;
  queue = [];
}

handler-Serves : Serves lab handler 1
unfolding exposed new_exposed_thing wot_py.Mqtt.Topics.has_slash thing_url_name
    wot_py.Tests.Lab.lab_slugify
handler-Serves = record {
  served = inl refl;
  alone = λ q m e. elim m [ inl f ↦ f | inr r ↦ absurd r ];
  formed = exposed-IsWellFormed.formed;
  plain_servient = refl;
  plain_name = refl;
}

abbrev request : Members
request = member "action" (text "read") empty

handle_property_message-read_example :
    handle_property_message lab 5
      (record {
        topic = topic_of requests_path "servient" (thing_url_name lab device) (url_name lab temp);
        parsed = some (object request);
      })
      handler
    ≡ attempt (read_property lab "Temp" exposed) handler λ v. (
      record handler {
        queue =
            record {
              topic =
                  topic_of updates_path "servient" (thing_url_name lab device) (url_name lab temp);
              payload = object (member "value" v (member "timestamp" (integer 5) empty));
              qos = 0;
            }
            ∷ [];
      },
      none,
    )
unfolding exposed new_exposed_thing wot_py.Mqtt.Topics.has_slash url_name
    wot_py.Tests.Lab.lab_slugify wot_py.Ws.Schemas.member_at
handle_property_message-read_example =
    handle_property_message-read lab handler 1 temp handler-Serves refl 5 request (inl refl) refl

abbrev write_request : Members
write_request =
    member "action" (text "write") (member "value" (integer 20) (member "ack" (text "code") empty))

handle_property_message-write_example :
    handle_property_message lab 5
      (record {
        topic = topic_of requests_path "servient" (thing_url_name lab device) (url_name lab temp);
        parsed = some (object write_request);
      })
      handler
    ≡ (let (y, e) = write_property lab "Temp" (integer 20) exposed in
        and_then
          (record handler { heap = set_at 1 y handler.heap }, e)
          λ g. (
            record g {
              queue =
                  g.queue
                  ++ record {
                    topic =
                        topic_of ack_path "servient"
                          (thing_url_name lab device)
                          (url_name lab temp);
                    payload = object (member "ack" (text "code") empty);
                    qos = g.qos_rw;
                  }
                    ∷ [];
            },
            none,
          ))
unfolding exposed new_exposed_thing wot_py.Mqtt.Topics.has_slash url_name
    wot_py.Tests.Lab.lab_slugify wot_py.Ws.Schemas.member_at wot_py.Mqtt.Handlers.is_truthy
handle_property_message-write_example =
    handle_property_message-write lab handler 1 temp handler-Serves refl 5 write_request
      (integer 20) (text "code") (inl refl) refl refl refl refl

abbrev invocation : Members
invocation = member "id" (text "one") (member "input" null empty)

handle_action_message_lem_example :
    handle_action_message lab 5
      (λ e. "error")
      (record {
        topic =
            topic_of invocation_path "servient" (thing_url_name lab device) (url_name lab reset);
        parsed = some (object invocation);
      })
      handler
    ≡ (let (y, result) = invoke_item lab "reset" null exposed in
        (
          record handler {
            heap = set_at 1 y handler.heap;
            queue =
                result_message lab 5
                  (topic_of result_path "servient" (thing_url_name lab device) (url_name lab reset))
                  (text "one")
                  result
                  (λ e. "error")
                  handler
                ∷ [];
          },
          none,
        ))
unfolding exposed new_exposed_thing wot_py.Mqtt.Topics.has_slash url_name
    wot_py.Tests.Lab.lab_slugify wot_py.Ws.Schemas.member_at
handle_action_message_lem_example =
    handle_action_message_lem lab handler 1 reset handler-Serves refl 5 (λ e. "error") invocation
      (inl refl)

answer_topics_example :
    (to_write_ack_topic (topic_of requests_path "servient" "lab" "temp")
      ≡ ok (topic_of ack_path "servient" "lab" "temp"))
    × (to_result_topic (topic_of invocation_path "servient" "lab" "temp")
        ≡ ok (topic_of result_path "servient" "lab" "temp"))
unfolding wot_py.Mqtt.Topics.has_slash
answer_topics_example = answer_topics "servient" "lab" "temp" (refl, refl, refl)
