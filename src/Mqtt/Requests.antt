-- ===== src/Mqtt/Requests.antt =====
-- wotpy/protocols/mqtt/client.py: the requests of the client, with the exceptions by which they end.
pub mod Waiting
pub mod Timeouts
pub mod Answers
use Prim.Native.Char.{code}
use Prim.Native.String
use Prim.Native.Char.{code}
use Prim.Native.String
use wot_py.Prelude.{
  ℕ, ◌+◌, String, List, [], ◌∷◌, ◌++◌, Option, none, some, Bool, true, false, not, ◌&&◌, ◌||◌, ◌==◌,
  ◌is◌, ltb, leb, if◌then◌else◌, map, filter, Dict, get, put, pop, has, contains, contains_text,
  Error, value_error, attribute_error, assertion_error, client_request_timeout, form_not_found,
  remote_error, Result, ok, err, Outcome, and_then, attempt, or_raise, ◌>>=◌,
}
use wot_py.Json.{Json, null, text, object, Members, empty, member}
use wot_py.Server.{cat}
use wot_py.Refs.{ConnRefCounter, increase, decrease, has_any}
use wot_py.Choice.{Urls, ThingDescription, FormDict, pick_mqtt_href, get_kind_forms}
use wot_py.Interaction.{Kind, property, action}
use wot_py.Ws.Schemas.{member_at}
use wot_py.Mqtt.Topics.{to_result_topic, to_write_ack_topic}
use wot_py.Mqtt.Handlers.{MqttMessage, Published, member_or_null}
use wot_py.Mqtt.Client.{
  Calls, MqttClient, Stored, append_to, clean_messages, clean_queues, disconnect_client,
  first_match, init_client, known_topics, new_message, new_mqtt_client, next_match, or_empty,
  publish_message, queues_of, start_deliver_loop, stop_deliver_loop, subscribe_topic,
  topic_messages,
}
use wot_py.Mqtt.Awaiting.{
  parse_href, Arrival, Wake, deliver, Awaited, is_late, await_turn, await_match, is_text,
  answers_with, unless_error, result_or_raise, pending, failed, returned,
}

-- `timeout if timeout else self._timeout_default`
abbrev pub effective : Option ℕ → Option ℕ → Option ℕ
effective none default = default
effective (some timeout) default = if timeout is 0 then default else some timeout

-- What a request does before it awaits its answer.
unfoldable pub send_request :
    Calls → String → String → String → ℕ → Published → MqttClient → Outcome MqttClient
unfolding init_client subscribe_topic publish_message
send_request calls broker ref_id answer qos m c =
    and_then
      (and_then (init_client calls broker ref_id c) (subscribe_topic calls broker answer qos))
      (publish_message calls broker m)

-- The `finally` of a request.
unfoldable pub released :
    {A : Type 0} → Calls → String → String → MqttClient × Awaited A → MqttClient × Awaited A
unfolding disconnect_client
released calls broker ref_id (c, pending) = (c, pending)
released calls broker ref_id (c, failed e) = (disconnect_client calls broker ref_id c, failed e)
released calls broker ref_id (c, returned a) = (disconnect_client calls broker ref_id c, returned a)

-- the rest of a `try` after calls that may raise
abbrev pub then_await :
    {A : Type 0}
    → Outcome MqttClient
    → (MqttClient → MqttClient × Awaited A)
    → MqttClient × Awaited A
then_await (c, none) k = k c
then_await (c, some e) k = (c, failed e)

abbrev pub with_match :
    {A : Type 0} → MqttClient × Awaited Stored → (Stored → Awaited A) → MqttClient × Awaited A
with_match (c, pending) k = (c, pending)
with_match (c, failed e) k = (c, failed e)
with_match (c, returned m) k = (c, k m)

-- what is done with the value of a call that may raise
abbrev pub attempt_await :
    {A B : Type 0} → Result B → MqttClient → (B → MqttClient × Awaited A) → MqttClient × Awaited A
attempt_await (err e) c k = (c, failed e)
attempt_await (ok b) c k = k b

-- The arguments of a request that the client does not compute: the UUIDs it draws, the qualities of
-- service, the time after the publication, and the wakes that follow.
pub record RemoteRequest : Type 0 where
  pub td : ThingDescription
  pub name : String
  pub timeout : Option ℕ
  pub ref_id : String
  pub msg_id : String
  pub qos_publish : ℕ
  pub qos_subscribe : ℕ
  pub ini : ℕ
  pub wakes : List Wake

abbrev pub invocation : RemoteRequest → Json → String → Published
invocation r input topic = record {
  topic = topic;
  payload = object (member "id" (text r.msg_id) (member "input" input empty));
  qos = r.qos_publish;
}

abbrev pub await_answer :
    RemoteRequest → Option ℕ → String → String → MqttClient → MqttClient × Awaited Json
await_answer r timeout broker answer d =
    with_match
      (await_match timeout r.ini broker answer (answers_with "id" r.msg_id) r.ini r.wakes d)
      λ m. result_or_raise m.msg_data

-- `msg_data.get("value")`
unfoldable pub value_or_raise : Json → Awaited Json
value_or_raise (object ms) = returned (member_or_null "value" ms)
value_or_raise _ = failed attribute_error

abbrev pub is_update : ℕ → Stored → Result Bool
is_update read_time m = ok (leb read_time m.time)

abbrev pub await_value :
    RemoteRequest → Option ℕ → ℕ → String → String → MqttClient → MqttClient × Awaited Json
await_value r timeout read_time broker topic d =
    with_match (await_match timeout r.ini broker topic (is_update read_time) r.ini r.wakes d)
      λ m. value_or_raise m.msg_data

abbrev pub write_message : RemoteRequest → Json → String → Published
write_message r value topic = record {
  topic = topic;
  payload =
      object (
        member "action" (text "write") (member "value" value (member "ack" (text r.msg_id) empty)));
  qos = r.qos_publish;
}

abbrev pub await_acked :
    RemoteRequest → Bool → Option ℕ → String → String → MqttClient → MqttClient × Awaited Json
await_acked r wait_ack timeout broker answer d =
    if not wait_ack
    then (d, returned null)
    else with_match
        (await_match timeout r.ini broker answer (answers_with "ack" r.msg_id) r.ini r.wakes d)
        λ m. returned null

module _ (urls : Urls) (calls : Calls) where
  -- What the form of an interaction gives: the broker, the topic, and the topic of the answers.
  unfoldable pub request_target :
      Kind
      → Option String
      → (String → Result String)
      → RemoteRequest
      → Result (String × String × String)
  unfolding get_kind_forms pick_mqtt_href parse_href
  request_target kind op to_topic r = do
    forms ← get_kind_forms kind r.name r.td
    href ← or_raise (pick_mqtt_href urls r.td.base forms op) form_not_found
    target ← parse_href urls href
    answer ← to_topic target.1
    ok (target.0, target.1, answer)

  -- the `try` of `invoke_action`
  unfoldable pub await_result :
      RemoteRequest → Json → String → String → String → MqttClient → MqttClient × Awaited Json
  unfolding send_request released await_match answers_with result_or_raise
  await_result r input broker topic answer c = released calls broker r.ref_id (
      then_await
        (send_request calls broker r.ref_id answer r.qos_subscribe (invocation r input topic) c)
        (await_answer r (effective r.timeout c.timeout_default) broker answer))

  unfoldable pub invoke_remote : RemoteRequest → Json → MqttClient → MqttClient × Awaited Json
  unfolding await_result request_target to_result_topic
  invoke_remote r input c =
      attempt_await (request_target action none to_result_topic r) c
        λ t. await_result r input t.0 t.1 t.2 c

  -- the `try` of `write_property`, which gives nothing
  unfoldable pub await_ack :
      RemoteRequest
      → Json
      → Bool
      → String
      → String
      → String
      → MqttClient
      → MqttClient × Awaited Json
  unfolding send_request released await_match answers_with
  await_ack r value wait_ack broker topic answer c = released calls broker r.ref_id (
      then_await
        (send_request calls broker r.ref_id answer r.qos_subscribe (write_message r value topic) c)
        (await_acked r wait_ack (effective r.timeout c.timeout_default) broker answer))

  -- `write_property`
  unfoldable pub write_remote : RemoteRequest → Json → Bool → MqttClient → MqttClient × Awaited Json
  unfolding await_ack request_target to_write_ack_topic
  write_remote r value wait_ack c =
      attempt_await (request_target property (some "writeproperty") to_write_ack_topic r) c
        λ t. await_ack r value wait_ack t.0 t.1 t.2 c

  -- the `try` of `read_property` up to the wait: the broker of the updates may be another one
  abbrev pub send_read :
      RemoteRequest → String × String → String × String → MqttClient → Outcome MqttClient
  send_read r (broker_read, topic_read) (broker_obsv, topic_obsv) c =
      and_then
        (and_then
          (and_then (init_client calls broker_read r.ref_id c) λ d.
            if broker_obsv == broker_read
            then (d, none)
            else init_client calls broker_obsv r.ref_id d)
          (subscribe_topic calls broker_obsv topic_obsv r.qos_subscribe))
        (publish_message calls broker_read (record {
          topic = topic_read;
          payload = object (member "action" (text "read") empty);
          qos = r.qos_publish;
        }))

  -- `read_time` is the time in front of the publication
  unfoldable pub await_update :
      RemoteRequest → ℕ → String × String → String × String → MqttClient → MqttClient × Awaited Json
  unfolding init_client subscribe_topic publish_message released await_match value_or_raise
  await_update r read_time read obsv c =
      let result = released calls read.0 r.ref_id (
        then_await (send_read r read obsv c)
          (await_value r (effective r.timeout c.timeout_default) read_time obsv.0 obsv.1)) in
      if obsv.0 == read.0 then result else released calls obsv.0 r.ref_id result

  -- the broker and the topic of a read, and those of the updates
  unfoldable pub read_targets : RemoteRequest → Result ((String × String) × (String × String))
  unfolding get_kind_forms pick_mqtt_href parse_href
  read_targets r = do
    forms ← get_kind_forms property r.name r.td
    href_read ← or_raise (pick_mqtt_href urls r.td.base forms (some "readproperty")) form_not_found
    href_obsv ←
        or_raise (pick_mqtt_href urls r.td.base forms (some "observeproperty")) form_not_found
    read ← parse_href urls href_read
    obsv ← parse_href urls href_obsv
    ok (read, obsv)

  -- `read_property`
  unfoldable pub read_remote : RemoteRequest → ℕ → MqttClient → MqttClient × Awaited Json
  unfolding await_update read_targets
  read_remote r read_time c =
      attempt_await (read_targets r) c λ t. await_update r read_time t.0 t.1 c
