-- ===== src/Ws/Client.antt =====
-- wotpy/protocols/ws/client.py: the connections that the requests of a WebsocketClient share, and the
-- coroutine of a request, cut where it yields. The six dictionaries of the client are keyed by URL;
-- `at_url` gives what they hold for one URL, with `none` or `false` for a missing key. `loop` is the
-- state of the receive loop of the URL.
pub mod Steps
pub mod Kept
pub mod Stored
pub mod Answered
pub mod Supported
pub mod Effects
pub mod Preserved
pub mod Lasting
pub mod Unanswered
pub mod Lost
use wot_py.Prelude.{
  ℕ, String, List, [], ◌∷◌, Option, none, some, Bool, true, false, ◌==◌, if◌then◌else◌, Dict, get,
  put, has, contains_text, Error, key_error, attribute_error, assertion_error, Result, ok, err,
}
use wot_py.Json.{Json, text}
use wot_py.Refs.{ConnRefCounter, add_ref, increase, decrease, has_any}
use wot_py.Ws.Schemas.{Validator}
use wot_py.Ws.Messages.{Message, failure, response, response_from_raw, error_from_raw}

pub data Loop : Type 0 where
  absent scheduled reading : Loop

pub record Connection : Type 0 where
  pub connected : Bool
  pub stop_event : Option Bool
  pub conditions : Option (List String)
  pub messages : Option (Dict Message)
  pub loop : Loop

pub record WsClient : Type 0 where
  pub counter : ConnRefCounter
  pub at_url : String → Connection

abbrev no_connection : Connection
no_connection = record {
  connected = false;
  stop_event = none;
  conditions = none;
  messages = none;
  loop = absent;
}

-- `WebsocketClient.__init__`
unfoldable pub new_client : WsClient
new_client = record { counter = []; at_url = λ _. no_connection }

unfoldable pub put_url : String → Connection → WsClient → WsClient
put_url url x c = record c { at_url = λ u. if u == url then x else c.at_url u }

-- `_init_conn` up to the connection, under the lock, and whether it goes on to connect
unfoldable pub init_begin : String → String → WsClient → WsClient × Bool
init_begin url ref_id c = (
  record c { counter = increase url ref_id c.counter },
  if (c.at_url url).connected then false else true,
)

-- the rest of `_init_conn`, with the connection made
unfoldable pub init_end : String → WsClient → WsClient
unfolding put_url
init_end url c =
    put_url url
      (record (c.at_url url) { connected = true; stop_event = some false; loop = scheduled }) c

abbrev pub or_no_ids : Option (List String) → List String
or_no_ids none = []
or_no_ids (some ids) = ids

abbrev pub or_no_messages : Option (Dict Message) → Dict Message
or_no_messages none = []
or_no_messages (some ms) = ms

-- `_send_message` up to the write; `none` is its early return
unfoldable pub send_begin : String → WsClient → Option WsClient
unfolding put_url
send_begin url c =
    if (c.at_url url).connected
    then some (
        put_url url
          (record (c.at_url url) { conditions = some (or_no_ids (c.at_url url).conditions) }) c)
    else none

-- the rest of `_send_message`: the condition of the message is made when the message is written
unfoldable pub send_end : String → String → WsClient → Result WsClient
unfolding put_url
send_end url msg_id c = elim (c.at_url url).conditions [
  | none ↦ err key_error
  | some ids ↦ ok (put_url url (record (c.at_url url) { conditions = some (add_ref msg_id ids) }) c)
]

-- the lines of `_receive_loop` in front of the `while`
unfoldable pub loop_begin : String → WsClient → WsClient
unfolding put_url
loop_begin url c =
    if (c.at_url url).connected
    then put_url url
        (record (c.at_url url) {
          messages = some (or_no_messages (c.at_url url).messages);
          loop = reading;
        })
        c
    else put_url url (record (c.at_url url) { loop = absent }) c

-- `_parse_msg_response`
unfoldable pub parse_msg_response : Validator → Option Json → Option Message
parse_msg_response validate raw = elim (response_from_raw validate raw) [
  | ok m ↦ some (response m)
  | err _ ↦ elim (error_from_raw validate raw) [ ok m ↦ some (failure m) | err _ ↦ none ]
]

-- The ID of a response, where it is a text: what stands under another key is never looked up.
unfoldable pub text_id : Json → Option String
text_id (text s) = some s
text_id _ = none

abbrev pub message_id : Message → Option String
message_id (response m) = text_id m.msg_id
message_id (failure m) = text_id m.msg_id
message_id _ = none

-- A round of the `while` that read the message `m` with the ID `id`: what is stored, and whether the
-- waiters for the ID are notified. A `KeyError` is caught by the round.
unfoldable pub receive : String → String → Message → WsClient → WsClient × Bool
unfolding put_url
receive url id m c = elim (c.at_url url).messages [
  | none ↦ (c, false)
  | some ms ↦ (
    put_url url (record (c.at_url url) { messages = some (put id m ms) }) c,
    contains_text id (or_no_ids (c.at_url url).conditions),
  )
]

-- the end of `_receive_loop`
unfoldable pub loop_end : String → WsClient → WsClient
unfolding put_url
loop_end url c = put_url url (record (c.at_url url) { stop_event = some false; loop = absent }) c

-- `_stop_conn` up to its first return, and whether references are left
unfoldable pub stop_begin : String → String → WsClient → WsClient × Bool
stop_begin url ref_id c =
    let counter = decrease url ref_id c.counter in
    (record c { counter = counter }, has_any url counter)

-- the close and the request to the receive loop to end
unfoldable pub stop_signal : String → WsClient → WsClient
unfolding put_url
stop_signal url c = put_url url (record (c.at_url url) { stop_event = some true }) c

-- the pops at the end of `_stop_conn`; a loop that is scheduled still comes to run
unfoldable pub stop_end : String → WsClient → WsClient
unfolding put_url
stop_end url c =
    put_url url
      (record (c.at_url url) {
        connected = false;
        stop_event = none;
        conditions = none;
        messages = none;
      })
      c

-- What a request ends with: a result, the message of an error, a timeout, or another exception.
pub data Ending : Type 0 where
  gave : Json → Ending
  refused : Json → Ending
  timed_out : Ending
  raised : Error → Ending

abbrev pub ending_of : Message → Ending
ending_of (response m) = gave m.result
ending_of (failure m) = refused m.message
ending_of _ = raised attribute_error

abbrev ending_at : Option Message → Ending
ending_at none = raised assertion_error
ending_at (some m) = ending_of m

-- `_raise_message`
unfoldable pub raise_message : String → String → WsClient → Ending
raise_message url msg_id c = elim (c.at_url url).messages [
  | none ↦ raised assertion_error
  | some ms ↦ ending_at (get msg_id ms)
]
