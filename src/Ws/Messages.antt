-- ===== src/Ws/Messages.antt =====
-- wotpy/protocols/ws/messages.py: the four classes of messages and the parser.
-- A raw message is here what `json.loads` makes of it, `none` where it raises. A constructor that
-- fails its validation raises a WebsocketMessageError, which is no exception class, so Python
-- raises TypeError in its place; `from_raw` turns every exception into WebsocketMessageException.
use wot_py.Prelude.{
  String, Option, none, some, type_error, key_error, value_error, validation, websocket_message,
  Result, ok, err, ◌>>=◌, ◌>>◌, require, or_raise, if◌then◌else◌,
}
use wot_py.Json.{Json, null, text, object, member, empty}
use wot_py.Ws.Schemas.{
  Validator, json_rpc_version, schema_request, schema_response, schema_error, schema_emitted_item,
  member_at,
}

pub record Request : Type 0 where
  pub method : Json
  pub params : Json
  pub msg_id : Json

pub record Response : Type 0 where
  pub result : Json
  pub msg_id : Json

pub record ErrorMessage : Type 0 where
  pub message : Json
  pub code : Json
  pub data_item : Json
  pub msg_id : Json

-- `data_item` is the data after `to_json_obj`.
pub record EmittedItem : Type 0 where
  pub subscription_id : Json
  pub name : Json
  pub data_item : Json

pub data Message : Type 0 where
  request : Request → Message
  failure : ErrorMessage → Message
  response : Response → Message
  emitted_item : EmittedItem → Message

-- the four `to_dict`
unfoldable pub request_dict : Request → Json
request_dict m = object (
    member "jsonrpc" (text json_rpc_version)
      (member "method" m.method (member "params" m.params (member "id" m.msg_id empty))))

unfoldable pub response_dict : Response → Json
response_dict m = object (
    member "jsonrpc" (text json_rpc_version)
      (member "result" m.result (member "id" m.msg_id empty)))

unfoldable pub error_dict : ErrorMessage → Json
error_dict m = object (
    member "jsonrpc" (text json_rpc_version) (
      member "error"
        (object
          (member "code" m.code (member "message" m.message (member "data" m.data_item empty))))
        (member "id" m.msg_id empty)))

unfoldable pub emitted_item_dict : EmittedItem → Json
emitted_item_dict m = object (
    member "subscription" m.subscription_id
      (member "name" m.name (member "data" m.data_item empty)))

unfoldable pub to_dict : Message → Json
unfolding request_dict response_dict error_dict emitted_item_dict
to_dict (request m) = request_dict m
to_dict (failure m) = error_dict m
to_dict (response m) = response_dict m
to_dict (emitted_item m) = emitted_item_dict m

-- `msg[k]`
unfoldable pub item_at : String → Json → Result Json
unfolding member_at
item_at k (object ms) = or_raise (member_at k ms) key_error
item_at k _ = err type_error

abbrev or_null : Option Json → Json
or_null none = null
or_null (some v) = v

-- `msg.get(k, None)`, of a dict
unfoldable pub item_or_null : String → Json → Result Json
unfolding member_at
item_or_null k (object ms) = ok (or_null (member_at k ms))
item_or_null k _ = err type_error

-- `except Exception as ex: raise WebsocketMessageException(str(ex))`
unfoldable pub as_message_exception {ℓ} : {A : Type ℓ} → Result A → Result A
as_message_exception (ok a) = ok a
as_message_exception (err e) = err websocket_message

-- One round of the loop of `parse_ws_message`.
unfoldable pub or_next {ℓ} :
    {A : Type ℓ} → Result A → (A → Message) → Result Message → Result Message
or_next (ok a) make rest = ok (make a)
or_next (err e) make rest = rest

module _ (validate : Validator) where
  -- the four `__init__`
  unfoldable pub new_request : Json → Json → Json → Result Request
  unfolding request_dict
  new_request method params msg_id =
      let m : Request = record { method = method; params = params; msg_id = msg_id } in
      if validate schema_request (request_dict m) then ok m else err type_error

  unfoldable pub new_response : Json → Json → Result Response
  unfolding response_dict
  new_response result msg_id =
      let m : Response = record { result = result; msg_id = msg_id } in
      if validate schema_response (response_dict m) then ok m else err type_error

  unfoldable pub new_error : Json → Json → Json → Json → Result ErrorMessage
  unfolding error_dict
  new_error message code data_item msg_id =
      let m : ErrorMessage = record {
        message = message;
        code = code;
        data_item = data_item;
        msg_id = msg_id;
      } in
      if validate schema_error (error_dict m) then ok m else err type_error

  unfoldable pub new_emitted_item : Json → Json → Json → Result EmittedItem
  unfolding emitted_item_dict
  new_emitted_item subscription_id name data_item =
      let m : EmittedItem = record {
        subscription_id = subscription_id;
        name = name;
        data_item = data_item;
      } in
      if validate schema_emitted_item (emitted_item_dict m) then ok m else err type_error

  -- the four `from_raw`
  unfoldable pub request_from_raw : Option Json → Result Request
  unfolding new_request as_message_exception item_at item_or_null
  request_from_raw raw = as_message_exception (do
    msg ← or_raise raw value_error
    require (validate schema_request msg) validation
    method ← item_at "method" msg
    params ← item_at "params" msg
    msg_id ← item_or_null "id" msg
    new_request method params msg_id)

  unfoldable pub response_from_raw : Option Json → Result Response
  unfolding new_response as_message_exception item_at item_or_null
  response_from_raw raw = as_message_exception (do
    msg ← or_raise raw value_error
    require (validate schema_response msg) validation
    result ← item_at "result" msg
    msg_id ← item_or_null "id" msg
    new_response result msg_id)

  unfoldable pub error_from_raw : Option Json → Result ErrorMessage
  unfolding new_error as_message_exception item_at item_or_null
  error_from_raw raw = as_message_exception (do
    msg ← or_raise raw value_error
    require (validate schema_error msg) validation
    error ← item_at "error" msg
    message ← item_at "message" error
    code ← item_at "code" error
    data_item ← item_or_null "data" error
    msg_id ← item_or_null "id" msg
    new_error message code data_item msg_id)

  unfoldable pub emitted_item_from_raw : Option Json → Result EmittedItem
  unfolding new_emitted_item as_message_exception item_at
  emitted_item_from_raw raw = as_message_exception (do
    msg ← or_raise raw value_error
    require (validate schema_emitted_item msg) validation
    subscription_id ← item_at "subscription" msg
    name ← item_at "name" msg
    data_item ← item_at "data" msg
    new_emitted_item subscription_id name data_item)

  unfoldable pub parse_ws_message : Option Json → Result Message
  unfolding request_from_raw response_from_raw error_from_raw emitted_item_from_raw or_next
  parse_ws_message raw = or_next (request_from_raw raw) request (
      or_next (error_from_raw raw) failure (
        or_next (response_from_raw raw) response
          (or_next (emitted_item_from_raw raw) emitted_item (err websocket_message))))
