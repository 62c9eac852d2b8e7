-- ===== src/Mqtt/Client.antt =====
-- wotpy/protocols/mqtt/client.py: the client's queues of messages, its connections and their
-- references. hbmqtt enters by the outcomes of its calls (`Calls`). Times are counted in any unit.
pub mod Queues
pub mod Connections
pub mod Releases
pub mod Uses
use Prim.Native.Char.{code}
use Prim.Native.String
use wot_py.Prelude.{
  ℕ, ◌+◌, String, List, [], ◌∷◌, ◌++◌, Option, none, some, Bool, true, false, not, ◌&&◌, ◌||◌, ◌==◌,
  ◌is◌, ltb, leb, if◌then◌else◌, map, filter, Dict, get, put, pop, has, contains, contains_text,
  Error, value_error, attribute_error, assertion_error, client_request_timeout, form_not_found,
  remote_error, Result, ok, err, Outcome, and_then, attempt,
}
use wot_py.Json.{Json, null, text, object, Members, empty, member}
use wot_py.Server.{cat}
use wot_py.Refs.{ConnRefCounter, increase, decrease, has_any}
use wot_py.Choice.{Urls, ThingDescription, FormDict, pick_mqtt_href, get_kind_forms}
use wot_py.Interaction.{Kind, property, action}
use wot_py.Ws.Schemas.{member_at}
use wot_py.Mqtt.Topics.{to_result_topic, to_write_ack_topic}
use wot_py.Mqtt.Handlers.{MqttMessage, Published, member_or_null}

-- An item of a queue.
pub record Stored : Type 0 where
  pub id : String
  pub msg_data : Json
  pub time : ℕ

-- The dictionaries by broker URL, and what was published. `clients` has the keys only,
-- `deliver_stop_events` what `is_set` gives, and `msg_conditions` the topics.
pub record MqttClient : Type 0 where
  pub msg_ttl : ℕ
  pub timeout_default : Option ℕ
  pub ref_counter : ConnRefCounter
  pub clients : List String
  pub deliver_stop_events : Dict Bool
  pub msg_conditions : Dict (List String)
  pub messages : Dict (Dict (List Stored))
  pub topics : Dict (List (String × ℕ))
  pub outbox : List Published

-- `__init__`, with an empty dictionary for each of the broker's
abbrev pub new_mqtt_client : ℕ → Option ℕ → MqttClient
new_mqtt_client ttl timeout = record {
  msg_ttl = ttl;
  timeout_default = timeout;
  ref_counter = [];
  clients = [];
  deliver_stop_events = [];
  msg_conditions = [];
  messages = [];
  topics = [];
  outbox = [];
}

abbrev pub or_empty {ℓ} : {A : Type ℓ} → Option (List A) → List A
or_empty none = []
or_empty (some xs) = xs

abbrev pub queues_of : String → MqttClient → Dict (List Stored)
queues_of broker c = or_empty (get broker c.messages)

abbrev pub known_topics : String → MqttClient → List String
known_topics broker c = or_empty (get broker c.msg_conditions)

abbrev passes_time : Option ℕ → Stored → Bool
passes_time none m = true
passes_time (some from) m = leb from m.time

-- `_topic_messages`
unfoldable pub topic_messages : String → String → Option ℕ → List String → MqttClient → List Stored
topic_messages broker topic from_time ignore_ids c =
    filter (λ m. passes_time from_time m && not (contains_text m.id ignore_ids))
      (or_empty (get topic (queues_of broker c)))

abbrev pub clean_queues : ℕ → ℕ → Dict (List Stored) → Dict (List Stored)
clean_queues ttl now [] = []
clean_queues ttl now ((topic, q) ∷ d) =
    (topic, filter (λ m. ltb now (m.time + ttl)) q) ∷ clean_queues ttl now d

-- `_clean_messages`; the difference of the times may be negative in the source
unfoldable pub clean_messages : String → ℕ → MqttClient → MqttClient
clean_messages broker now c = elim (get broker c.messages) [
  | none ↦ c
  | some queues ↦ record c { messages = put broker (clean_queues c.msg_ttl now queues) c.messages }
]

-- the entry of a dictionary, made if it is missing
abbrev pub append_to : String → Stored → Dict (List Stored) → Dict (List Stored)
append_to topic m queues = put topic (or_empty (get topic queues) ++ m ∷ []) queues

abbrev make_queue : String → Dict (List Stored) → Dict (List Stored)
make_queue topic queues = if has topic queues then queues else put topic [] queues

-- `_new_message`, with the UUID and the times of the new item and of the cleaning
unfoldable pub new_message : String → MqttMessage → String → ℕ → ℕ → MqttClient → Outcome MqttClient
unfolding clean_messages
new_message broker msg id time now c =
    if not (contains_text msg.topic (known_topics broker c))
    then (c, some assertion_error)
    else elim msg.parsed [
      | none ↦ (
        record c { messages = put broker (make_queue msg.topic (queues_of broker c)) c.messages },
        some value_error,
      )
      | some msg_data ↦ (
        clean_messages broker now (record c {
          messages =
              put broker
                (append_to msg.topic (record { id = id; msg_data = msg_data; time = time })
                  (queues_of broker c))
                c.messages;
        }),
        none,
      )
    ]

-- The first item that `func` accepts; `func` may raise.
unfoldable pub first_match : (Stored → Result Bool) → List Stored → Result (Option Stored)
first_match func [] = ok none
first_match func (m ∷ ms) =
    let rest = first_match func ms in
    elim (func m) [ err e ↦ err e | ok b ↦ if b then ok (some m) else rest ]

-- `_next_match`
unfoldable pub next_match :
    String → String → (Stored → Result Bool) → MqttClient → Result (Option Stored)
unfolding topic_messages first_match
next_match broker topic func c = first_match func (topic_messages broker topic none [] c)

-- What hbmqtt raises, and whether the delivery loop ends before the timeout of `_stop_deliver_loop`.
pub record Calls : Type 0 where
  pub connect : Option Error
  pub subscribe : Option Error
  pub publish : Option Error
  pub loop_ends : Bool

-- `_start_deliver_loop`
unfoldable pub start_deliver_loop : String → MqttClient → Outcome MqttClient
start_deliver_loop broker c =
    if has broker c.deliver_stop_events
    then (c, some assertion_error)
    else (record c { deliver_stop_events = put broker false c.deliver_stop_events }, none)

-- `_stop_deliver_loop`: the loop clears the event when it ends
unfoldable pub stop_deliver_loop : Bool → String → MqttClient → Outcome MqttClient
stop_deliver_loop loop_ends broker c = elim (get broker c.deliver_stop_events) [
  | none ↦ (c, some assertion_error)
  | some is_set ↦
      if is_set
      then (c, some assertion_error)
      else if loop_ends
      then (record c { deliver_stop_events = pop broker c.deliver_stop_events }, none)
      else (
        record c { deliver_stop_events = put broker true c.deliver_stop_events },
        some client_request_timeout,
      )
]

-- `_init_client`
unfoldable pub init_client : Calls → String → String → MqttClient → Outcome MqttClient
unfolding increase start_deliver_loop
init_client calls broker ref_id c =
    let d = record c { ref_counter = increase broker ref_id c.ref_counter } in
    if contains_text broker c.clients
    then (d, none)
    else and_then (record d { clients = broker ∷ c.clients }, calls.connect)
        (start_deliver_loop broker)

-- `_disconnect_client`: what the two calls raise is logged
unfoldable pub disconnect_client : Calls → String → String → MqttClient → MqttClient
unfolding decrease has_any stop_deliver_loop
disconnect_client calls broker ref_id c =
    let d = record c { ref_counter = decrease broker ref_id c.ref_counter } in
    if has_any broker d.ref_counter
    then d
    else let e = (stop_deliver_loop calls.loop_ends broker d).0 in
      record e {
        clients = filter (λ k. not (k == broker)) e.clients;
        messages = pop broker e.messages;
        msg_conditions = pop broker e.msg_conditions;
        topics = pop broker e.topics;
      }

abbrev add_text : String → List String → List String
add_text k ks = if contains_text k ks then ks else ks ++ k ∷ []

abbrev add_topic : String → ℕ → List (String × ℕ) → List (String × ℕ)
add_topic topic qos ts =
    if contains (λ t. t.0 == topic && t.1 is qos) ts then ts else ts ++ (topic, qos) ∷ []

-- `_subscribe`
unfoldable pub subscribe_topic : Calls → String → String → ℕ → MqttClient → Outcome MqttClient
subscribe_topic calls broker topic qos c =
    if not (contains_text broker c.clients) then (c, none) else (
      record c {
        msg_conditions = put broker (add_text topic (known_topics broker c)) c.msg_conditions;
        topics = put broker (add_topic topic qos (or_empty (get broker c.topics))) c.topics;
      },
      calls.subscribe,
    )

-- `_publish`; a call that raises has not published
unfoldable pub publish_message : Calls → String → Published → MqttClient → Outcome MqttClient
publish_message calls broker m c =
    if not (contains_text broker c.clients) then (c, none) else elim calls.publish [
      | some e ↦ (c, some e)
      | none ↦ (record c { outbox = c.outbox ++ m ∷ [] }, none)
    ]
