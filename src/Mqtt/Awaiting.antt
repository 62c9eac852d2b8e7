-- ===== src/Mqtt/Awaiting.antt =====
-- wotpy/protocols/mqtt/client.py: the loop in which a request awaits its answer, and what it does with
-- the link of a form. The delivery loop enters by what it has delivered when a coroutine goes on
-- (`Wake`).
use wot_py.Prelude.{
  ℕ, ◌+◌, String, List, [], ◌∷◌, Option, none, some, Bool, false, not, ◌&&◌, ◌||◌, ◌==◌, ◌is◌, ltb,
  if◌then◌else◌, contains_text, Error, attribute_error, assertion_error, client_request_timeout,
  remote_error, Result, ok, err,
}
use wot_py.Json.{Json, null, text, object}
use wot_py.Server.{cat, lstrip, rstrip}
use wot_py.Choice.{Urls}
use wot_py.Mqtt.Handlers.{MqttMessage, member_or_null}
use wot_py.Mqtt.Client.{MqttClient, Stored, known_topics, new_message, next_match}

-- `_parse_href`: the broker URL and the topic
unfoldable pub parse_href : Urls → String → Result (String × String)
unfolding lstrip rstrip cat
parse_href urls href =
    if urls.scheme href == "" || urls.netloc href == "" || urls.path href == ""
    then err assertion_error
    else ok
        (cat (urls.scheme href ∷ "://" ∷ urls.netloc href ∷ []), rstrip (lstrip (urls.path href)))

-- What was delivered while a coroutine waited: the message, its UUID, and the times of `_new_message`.
pub record Arrival : Type 0 where
  pub broker : String
  pub msg : MqttMessage
  pub id : String
  pub time : ℕ
  pub cleaned : ℕ

pub record Wake : Type 0 where
  pub arrivals : List Arrival
  pub now : ℕ

-- The delivery loop logs what `_new_message` raises.
unfoldable pub deliver : List Arrival → MqttClient → MqttClient
unfolding new_message
deliver [] c = c
deliver (a ∷ rest) c = deliver rest (new_message a.broker a.msg a.id a.time a.cleaned c).0

-- A request is answered, it failed, or it waits longer than the wakes that are given.
pub data Awaited (A : Type 0) : Type 0 where
  pending : Awaited A
  failed : Error → Awaited A
  returned : A → Awaited A

-- `timeout and (time.time() - ini) > timeout`
unfoldable pub is_late : Option ℕ → ℕ → ℕ → Bool
is_late none ini now = false
is_late (some timeout) ini now = not (timeout is 0) && ltb (ini + timeout) now

-- One turn of the loop in which a request awaits its match. The assertions are those of
-- `_wait_on_message`; the rest is what comes after the wait.
unfoldable pub await_turn :
    Option ℕ
    → ℕ
    → String
    → String
    → (Stored → Result Bool)
    → ℕ
    → MqttClient
    → MqttClient × Awaited Stored
    → MqttClient × Awaited Stored
unfolding is_late next_match
await_turn timeout ini broker topic func now c rest =
    if is_late timeout ini now
    then (c, failed client_request_timeout)
    else elim (next_match broker topic func c) [
      | err e ↦ (c, failed e)
      | ok (some m) ↦ (c, returned m)
      | ok none ↦
          if contains_text topic (known_topics broker c) then rest else (c, failed assertion_error)
    ]

unfoldable pub await_match :
    Option ℕ
    → ℕ
    → String
    → String
    → (Stored → Result Bool)
    → ℕ
    → List Wake
    → MqttClient
    → MqttClient × Awaited Stored
unfolding await_turn deliver
await_match timeout ini broker topic func now [] c =
    await_turn timeout ini broker topic func now c (c, pending)
await_match timeout ini broker topic func now (w ∷ wakes) c =
    await_turn timeout ini broker topic func now c
      (await_match timeout ini broker topic func w.now wakes (deliver w.arrivals c))

abbrev pub is_text : String → Json → Bool
is_text id (text s) = s == id
is_text id _ = false

-- `item[1].get(key) == id`
unfoldable pub answers_with : String → String → Stored → Result Bool
answers_with key id m = elim m.msg_data [
  | object ms ↦ ok (is_text id (member_or_null key ms))
  | _ ↦ err attribute_error
]

abbrev pub unless_error : Json → Json → Awaited Json
unless_error null result = returned result
unless_error _ result = failed remote_error

-- what is done with the data of a match
unfoldable pub result_or_raise : Json → Awaited Json
result_or_raise (object ms) = unless_error (member_or_null "error" ms) (member_or_null "result" ms)
result_or_raise _ = failed attribute_error
