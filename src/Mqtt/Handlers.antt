-- ===== src/Mqtt/Handlers.antt =====
-- wotpy/protocols/mqtt/handlers/property.py and action.py: the handlers of the requests that come in
-- over the broker. `parsed` is what `json.loads` makes of the payload of a message, or `none` where
-- it raises; `queue` is what was put for the runner to publish. The ExposedThings are shared objects
-- of the server, so the handler knows them by identity.
pub mod Requests
use wot_py.Prelude.{
  ℕ, suc, ◌+◌, String, List, [], ◌∷◌, ◌++◌, Option, none, some, Bool, true, false, not, ◌||◌, ◌==◌,
  ◌is◌, if◌then◌else◌, values, next, length, Error, attribute_error, Result, ok, err, ◌>>=◌,
  Outcome, attempt, and_then,
}
use wot_py.Platform.{Platform}
use wot_py.Json.{
  Json, null, boolean, integer, negative, real, text, array, object, Items, end, item, Members,
  empty, member,
}
use wot_py.Interaction.{Interaction, url_name}
use wot_py.Thing.{thing_url_name}
use wot_py.Exposed.{ExposedThing, set_at}
use wot_py.Exposed.Proxies.{read_item, write_item, invoke_item}
use wot_py.Ws.Schemas.{member_at}
use wot_py.Mqtt.Topics.{split, from_end, topic_of, to_write_ack_topic, updates_path, result_path}
use wot_py.Server.{cat}

pub record MqttMessage : Type 0 where
  pub topic : String
  pub parsed : Option Json

-- What the runner publishes, with the payload in front of `json.dumps`.
pub record Published : Type 0 where
  pub topic : String
  pub payload : Json
  pub qos : ℕ

-- `qos_observe` is the only `_qos` of the action handler, `qos_rw` is for the property handler.
pub record MqttHandler : Type 0 where
  pub servient_id : String
  pub exposed_things : List ℕ
  pub heap : ℕ → ExposedThing
  pub qos_observe : ℕ
  pub qos_rw : ℕ
  pub queue : List Published

-- `yield self.queue.put(message)`: the queue has no bound
unfoldable pub enqueue : Published → MqttHandler → Outcome MqttHandler
enqueue m h = (record h { queue = h.queue ++ m ∷ [] }, none)

-- ACTION_READ and ACTION_WRITE
pub data Access : Type 0 where
  reading writing : Access

unfoldable pub access_of : Json → Option Access
access_of (text s) =
    if s == "write" then some writing else if s == "read" then some reading else none
access_of _ = none

-- `bool(value)`
unfoldable pub is_truthy : Json → Bool
is_truthy null = false
is_truthy (boolean b) = b
is_truthy (integer n) = not (n is 0)
is_truthy (negative n) = not (n is 0)
is_truthy (real s) = not (s == "0.0" || s == "-0.0")
is_truthy (text s) = not (s == "")
is_truthy (array end) = false
is_truthy (array (item _ _)) = true
is_truthy (object empty) = false
is_truthy (object (member _ _ _)) = true

-- a search that follows another one
abbrev then_find : {A B : Type 0} → Option A → (A → Option B) → Option B
then_find none k = none
then_find (some a) k = k a

-- what is left alone where a search or a key gave nothing
abbrev or_return :
    {A : Type 0} → Option A → MqttHandler → (A → Outcome MqttHandler) → Outcome MqttHandler
or_return none h k = (h, none)
or_return (some a) h k = k a

abbrev or_null : Option Json → Json
or_null none = null
or_null (some v) = v

-- `parsed_msg.get(k, None)`
abbrev pub member_or_null : String → Members → Json
member_or_null k ms = or_null (member_at k ms)

abbrev outcome_member : (Error → String) → Result Json → Members
outcome_member str (ok v) = member "result" v empty
outcome_member str (err e) = member "error" (text (str e)) empty

module _ (env : Platform) where
  -- The Thing and the interaction that a topic names, as the two `next` of a handler find them.
  unfoldable pub find_target :
      List String
      → (ExposedThing → List Interaction)
      → MqttHandler
      → Result (Option (ℕ × Interaction))
  unfolding from_end
  find_target pieces items h = do
    thing ← from_end 1 pieces
    name ← from_end 0 pieces
    ok (
        then_find (next (λ r. thing_url_name env (h.heap r).thing == thing) h.exposed_things)
          λ r. then_find (next (λ i. url_name env i == name) (items (h.heap r))) λ i. some (r, i))

  -- The test on the number of pieces, and the search.
  unfoldable pub on_target :
      String
      → String
      → (ExposedThing → List Interaction)
      → MqttHandler
      → (ℕ → Interaction → Outcome MqttHandler)
      → Outcome MqttHandler
  unfolding split
  on_target wildcard topic items h rest =
      if not (length (split topic) is (length (split wildcard) + 1))
      then (h, none)
      else attempt (find_target (split topic) items h) h
          λ found. or_return found h (λ target. rest target.0 target.1)

  -- `topic_wildcard_requests` and `topic_wildcard_invocation`
  unfoldable pub requests_wildcard : MqttHandler → String
  unfolding cat
  requests_wildcard h = cat (h.servient_id ∷ "/property/requests/#" ∷ [])

  unfoldable pub invocation_wildcard : MqttHandler → String
  unfolding cat
  invocation_wildcard h = cat (h.servient_id ∷ "/action/invocation/#" ∷ [])

  -- the topic of the updates of a property, or of the results of an action
  unfoldable pub item_topic : String → MqttHandler → ExposedThing → Interaction → String
  unfolding topic_of
  item_topic path h x i = topic_of path h.servient_id (thing_url_name env x.thing) (url_name env i)

  -- `_build_update_message`
  unfoldable pub update_message : ℕ → String → Json → MqttHandler → Published
  update_message now topic v h = record {
    topic = topic;
    payload = object (member "value" v (member "timestamp" (integer now) empty));
    qos = h.qos_observe;
  }

  unfoldable pub ack_message : String → Json → MqttHandler → Published
  ack_message topic code h = record {
    topic = topic;
    payload = object (member "ack" code empty);
    qos = h.qos_rw;
  }

  -- `publish_write_ack`, behind its tests on `action`, which hold where it is called
  unfoldable pub publish_write_ack : String → Members → MqttHandler → Outcome MqttHandler
  unfolding enqueue ack_message is_truthy
  publish_write_ack topic ms h = or_return (member_at "ack" ms) h λ code.
      if is_truthy code
      then attempt (to_write_ack_topic topic) h (λ t. enqueue (ack_message t code h) h)
      else (h, none)

  -- the branches on the action of a request
  unfoldable pub read_request : ℕ → ℕ → Interaction → MqttHandler → Outcome MqttHandler
  unfolding enqueue update_message item_topic
  read_request now r i h =
      attempt (read_item env i.name (h.heap r)) h
        λ v. enqueue (update_message now (item_topic updates_path h (h.heap r) i) v h) h

  unfoldable pub write_request :
      String → Members → ℕ → Interaction → MqttHandler → Outcome MqttHandler
  unfolding publish_write_ack set_at
  write_request topic ms r i h = or_return (member_at "value" ms) h λ v.
      let (y, e) = write_item env i.name v (h.heap r) in
      and_then (record h { heap = set_at r y h.heap }, e) (publish_write_ack topic ms)

  unfoldable pub access_request :
      Access → ℕ → String → Members → ℕ → Interaction → MqttHandler → Outcome MqttHandler
  unfolding read_request write_request
  access_request reading now topic ms r i h = read_request now r i h
  access_request writing now topic ms r i h = write_request topic ms r i h

  -- a parsed property request; only a dict has `get`
  unfoldable pub handle_request : ℕ → String → Json → MqttHandler → Outcome MqttHandler
  unfolding access_of access_request on_target requests_wildcard
  handle_request now topic (object ms) h = or_return (member_at "action" ms) h λ v.
      or_return (access_of v) h λ a.
        on_target (requests_wildcard h) topic (λ x. values x.thing.properties) h
          λ r i. access_request a now topic ms r i h
  handle_request now topic _ h = (h, some attribute_error)

  -- `PropertyMQTTHandler.handle_message`
  unfoldable pub handle_property_message : ℕ → MqttMessage → MqttHandler → Outcome MqttHandler
  unfolding handle_request
  handle_property_message now msg h =
      or_return msg.parsed h (λ parsed. handle_request now msg.topic parsed h)

  -- the result or the error of an invocation, with its ID
  unfoldable pub result_message :
      ℕ → String → Json → Result Json → (Error → String) → MqttHandler → Published
  result_message now topic id result str h = record {
    topic = topic;
    payload =
        object (member "id" id (member "timestamp" (integer now) (outcome_member str result)));
    qos = h.qos_observe;
  }

  unfoldable pub invocation_request :
      ℕ → (Error → String) → Json → Json → ℕ → Interaction → MqttHandler → Outcome MqttHandler
  unfolding enqueue result_message item_topic set_at
  invocation_request now str id input r i h =
      let (y, result) = invoke_item env i.name input (h.heap r) in
      let g : MqttHandler = record h { heap = set_at r y h.heap } in
      enqueue (result_message now (item_topic result_path g (g.heap r) i) id result str g) g

  -- `parsed_msg.get` comes after the search
  unfoldable pub handle_invocation :
      ℕ → (Error → String) → String → Json → MqttHandler → Outcome MqttHandler
  unfolding on_target invocation_wildcard invocation_request
  handle_invocation now str topic parsed h =
      on_target (invocation_wildcard h) topic (λ x. values x.thing.actions) h
        λ r i. elim parsed [
          | object ms ↦
              invocation_request now str (member_or_null "id" ms) (member_or_null "input" ms) r i h
          | _ ↦ (h, some attribute_error)
        ]

  -- `ActionMQTTHandler.handle_message`
  unfoldable pub handle_action_message :
      ℕ → (Error → String) → MqttMessage → MqttHandler → Outcome MqttHandler
  unfolding handle_invocation
  handle_action_message now str msg h =
      or_return msg.parsed h (λ parsed. handle_invocation now str msg.topic parsed h)
