-- ===== src/Ws/Handler.antt =====
-- wotpy/protocols/ws/handler.py: the handler of one WebSockets connection.
-- `exposed` is what the server finds under the name that the connection was opened for, if anything;
-- `sent` is what was written to the client. A raise inside a coroutine ends it and is not reported.
pub mod Answers
pub mod Replies
pub mod Subscriptions
use wot_py.Prelude.{
  String, List, [], ◌∷◌, ◌++◌, Option, none, some, Bool, true, false, not, ◌==◌, if◌then◌else◌,
  Dict, get, put, pop, has, keys, Error, type_error, key_error, not_implemented, attribute_error,
  validation, Result, ok, err, ◌>>=◌, Outcome, and_then, attempt,
}
use wot_py.Platform.{Platform}
use wot_py.Json.{Json, null, text, negative, object, member, empty}
use wot_py.Exposed.{
  ExposedThing, Emitted, emitted_name, Observable, Call, read_property, write_property, invoke,
  on_property_change, on_td_change, on_event,
}
use wot_py.Ws.Schemas.{
  Schema, Validator, schema_params_name, schema_params_write_property, schema_params_invoke_action,
  schema_params_on_td_change, schema_params_dispose,
}
use wot_py.Ws.Messages.{
  Message, Request, failure, response, emitted_item, new_error, new_response, new_emitted_item,
  item_at, item_or_null, request_from_raw,
}

pub record Handler : Type 0 where
  pub exposed : Option ExposedThing
  pub subscriptions : Dict Observable
  pub sent : List Message
  pub closed : Bool

-- WebsocketErrors
abbrev pub invalid_method_params : Json
invalid_method_params = negative 32602

abbrev pub internal_error : Json
internal_error = negative 32603

abbrev pub subscription_error : Json
subscription_error = negative 32000

-- `self.write_message`
unfoldable pub send : Message → Handler → Handler
send m h = record h { sent = h.sent ++ m ∷ [] }

-- A value of the parameters that is used as a name; nothing is stored under another key.
unfoldable pub as_name : Json → Result String
as_name (text s) = ok s
as_name _ = err key_error

-- `_dispose_subscription`
unfoldable pub dispose_subscription : String → Handler → Handler
dispose_subscription id h = record h { subscriptions = pop id h.subscriptions }

-- `_subscribe`
unfoldable pub subscribe : String → Observable → Handler → Handler
subscribe id o h = record h { subscriptions = put id o h.subscriptions }

-- `on_close`
unfoldable pub dispose_all : List String → Handler → Handler
unfolding dispose_subscription
dispose_all [] h = h
dispose_all (id ∷ ids) h = dispose_all ids (dispose_subscription id h)

unfoldable pub on_close : Handler → Handler
unfolding dispose_all
on_close h = dispose_all (keys h.subscriptions) h

-- `self.exposed_thing` and a call on it: without an ExposedThing the connection is closed, and the
-- call on `None` raises AttributeError.
unfoldable pub ask : (ExposedThing → Call) → Handler → Handler × Result Json
ask call h = elim h.exposed [
  | none ↦ (record h { closed = true }, err attribute_error)
  | some x ↦ let (y, r) = call x in (record h { exposed = some y }, r)
]

abbrev pub written : Outcome ExposedThing → Call
written (x, none) = (x, ok null)
written (x, some e) = (x, err e)

-- the calls of the first three handlers, with the reads of `params` inside their `try`
unfoldable pub read_call : Platform → Json → ExposedThing → Call
unfolding item_at as_name
read_call env params x =
    (x, (do n ← item_at "name" params; name ← as_name n; read_property env name x))

unfoldable pub write_call : Platform → Json → ExposedThing → Call
unfolding item_at as_name
write_call env params x = elim (item_at "name" params >>= as_name) [
  | err e ↦ (x, err e)
  | ok name ↦ elim (item_at "value" params) [
    | err e ↦ (x, err e)
    | ok v ↦ written (write_property env name v x)
  ]
]

unfoldable pub invoke_call : Platform → Json → ExposedThing → Call
unfolding item_at item_or_null as_name
invoke_call env params x = elim (item_or_null "parameters" params) [
  | err e ↦ (x, err e)
  | ok v ↦ elim (item_at "name" params >>= as_name) [
    | err e ↦ (x, err e)
    | ok name ↦ invoke env name v x
  ]
]

-- What `self.exposed_thing` gives to the subscriptions, with the closing of the connection.
unfoldable pub observe : (ExposedThing → Result Observable) → Handler → Handler × Result Observable
observe stream h = elim h.exposed [
  | none ↦ (record h { closed = true }, err attribute_error)
  | some x ↦ (h, stream x)
]

module _ (env : Platform) (validate : Validator) (str : Error → String) where
  -- `_write_error`
  unfoldable pub write_error : Error → Json → Json → Json → Handler → Outcome Handler
  unfolding send
  write_error ex code msg_id detail h =
      attempt (new_error validate (text (str ex)) code detail msg_id) h
        λ m. (send (failure m) h, none)

  -- the two lines that end most handlers
  unfoldable pub write_response : Json → Json → Handler → Outcome Handler
  unfolding send
  write_response result msg_id h =
      attempt (new_response validate result msg_id) h λ m. (send (response m) h, none)

  unfoldable pub reply : Json → Handler × Result Json → Outcome Handler
  unfolding write_error write_response
  reply msg_id (h, ok v) = write_response v msg_id h
  reply msg_id (h, err e) = write_error e internal_error msg_id null h

  -- the validation of the parameters, which opens every handler
  unfoldable pub checked : Schema → Request → Handler → Outcome Handler → Outcome Handler
  unfolding write_error
  checked schema req h rest =
      if validate schema req.params
      then rest
      else write_error validation invalid_method_params req.msg_id null h

  unfoldable pub handle_get_property : Request → Handler → Outcome Handler
  unfolding checked reply ask
  handle_get_property req h =
      checked schema_params_name req h (reply req.msg_id (ask (read_call env req.params) h))

  unfoldable pub handle_set_property : Request → Handler → Outcome Handler
  unfolding checked reply ask
  handle_set_property req h =
      checked schema_params_write_property req h
        (reply req.msg_id (ask (write_call env req.params) h))

  unfoldable pub handle_invoke_action : Request → Handler → Outcome Handler
  unfolding checked reply ask
  handle_invoke_action req h =
      checked schema_params_invoke_action req h
        (reply req.msg_id (ask (invoke_call env req.params) h))

  abbrev pub subscribed : String → Handler × Result Observable → Outcome Handler
  subscribed id (h, ok o) = (subscribe id o h, none)
  subscribed id (h, err e) = (h, some e)

  -- the end of the three subscription handlers: the answer goes out before the stream is asked for
  unfoldable pub answer_and_subscribe :
      String → Json → (ExposedThing → Result Observable) → Handler → Outcome Handler
  unfolding write_response observe
  answer_and_subscribe id msg_id stream h =
      and_then (write_response (text id) msg_id h) λ g. subscribed id (observe stream g)

  unfoldable pub handle_on_property_change : String → Request → Handler → Outcome Handler
  unfolding checked answer_and_subscribe
  handle_on_property_change id req h = checked schema_params_name req h (
      answer_and_subscribe id req.msg_id
        (λ x. item_at "name" req.params >>= as_name >>= λ name. on_property_change env name x) h)

  unfoldable pub handle_on_td_change : String → Request → Handler → Outcome Handler
  unfolding checked answer_and_subscribe
  handle_on_td_change id req h =
      checked schema_params_on_td_change req h
        (answer_and_subscribe id req.msg_id (λ x. ok on_td_change) h)

  unfoldable pub handle_on_event : String → Request → Handler → Outcome Handler
  unfolding checked answer_and_subscribe
  handle_on_event id req h = checked schema_params_name req h (
      answer_and_subscribe id req.msg_id
        (λ x. item_at "name" req.params >>= as_name >>= λ name. ok (on_event name x)) h)

  unfoldable pub dispose_known : String → Json → Handler → Outcome Handler
  unfolding write_response dispose_subscription
  dispose_known id msg_id h =
      if has id h.subscriptions
      then write_response (text id) msg_id (dispose_subscription id h)
      else write_response null msg_id h

  unfoldable pub handle_dispose : Request → Handler → Outcome Handler
  unfolding checked dispose_known
  handle_dispose req h = checked schema_params_dispose req h (
      attempt (item_at "subscription" req.params >>= as_name) h λ id. dispose_known id req.msg_id h)

  -- `_handle`; `id` is the new UUID that a subscription gets.
  unfoldable pub handle : String → Request → Handler → Outcome Handler
  unfolding handle_get_property handle_set_property handle_invoke_action handle_on_property_change
      handle_on_td_change handle_on_event handle_dispose
  handle id req h = elim req.method [
    | text method ↦
        if method == "read_property"
        then handle_get_property req h
        else if method == "write_property"
        then handle_set_property req h
        else if method == "invoke_action"
        then handle_invoke_action req h
        else if method == "on_property_change"
        then handle_on_property_change id req h
        else if method == "on_td_change"
        then handle_on_td_change id req h
        else if method == "on_event"
        then handle_on_event id req h
        else if method == "dispose"
        then handle_dispose req h
        else write_error not_implemented internal_error req.msg_id null h
    | _ ↦ write_error not_implemented internal_error req.msg_id null h
  ]

  unfoldable pub on_message : String → Option Json → Handler → Outcome Handler
  unfolding handle
  on_message id raw h = elim (request_from_raw validate raw) [
    | ok req ↦ handle id req h
    | err e ↦ write_error e internal_error null null h
  ]

  -- the callbacks of a subscription
  unfoldable pub on_subscription_error : String → Error → Handler → Outcome Handler
  unfolding write_error dispose_subscription
  on_subscription_error id ex h =
      write_error ex subscription_error null (object (member "subscription" (text id) empty))
        (dispose_subscription id h)

  unfoldable pub on_subscription_next :
      (Emitted → Json) → String → Emitted → Handler → Outcome Handler
  unfolding send
  on_subscription_next data_of id item h =
      attempt (new_emitted_item validate (text id) (text (emitted_name item)) (data_of item)) h
        λ m. (send (emitted_item m) h, none)
