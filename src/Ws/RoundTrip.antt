-- ===== src/Ws/RoundTrip.antt =====
-- wotpy/protocols/ws/messages.py: the parser against the printer, and what the parser accepts.
use wot_py.Prelude.{true, false, some, websocket_message, ok, err, ◌≡◌, refl, inl, inr, In}
use wot_py.Json.{Json}
use wot_py.Ws.Schemas.{
  Validator, Schema, ChecksRequired, schema_request, schema_response, schema_error,
  schema_emitted_item, member_at,
}
use wot_py.Ws.Messages.{
  Request, Response, ErrorMessage, EmittedItem, Message, request, failure, response, emitted_item,
  to_dict, request_dict, response_dict, error_dict, emitted_item_dict, request_from_raw,
  response_from_raw, error_from_raw, emitted_item_from_raw, parse_ws_message, or_next,
}

abbrev pub schema_of : Message → Schema
schema_of (request m) = schema_request
schema_of (failure m) = schema_error
schema_of (response m) = schema_response
schema_of (emitted_item m) = schema_emitted_item

module _ (validate : Validator) where
  request_from_raw-dict :
      (m : Request)
      → validate schema_request (request_dict m) ≡ true
      → request_from_raw validate (some (request_dict m)) ≡ ok m
  unfolding request_from_raw request_dict
  request_from_raw-dict m h = rw h refl

  response_from_raw-dict :
      (m : Response)
      → validate schema_response (response_dict m) ≡ true
      → response_from_raw validate (some (response_dict m)) ≡ ok m
  unfolding response_from_raw response_dict
  response_from_raw-dict m h = rw h refl

  error_from_raw-dict :
      (m : ErrorMessage)
      → validate schema_error (error_dict m) ≡ true
      → error_from_raw validate (some (error_dict m)) ≡ ok m
  unfolding error_from_raw error_dict
  error_from_raw-dict m h = rw h refl

  emitted_item_from_raw-dict :
      (m : EmittedItem)
      → validate schema_emitted_item (emitted_item_dict m) ≡ true
      → emitted_item_from_raw validate (some (emitted_item_dict m)) ≡ ok m
  unfolding emitted_item_from_raw emitted_item_dict
  emitted_item_from_raw-dict m h = rw h refl

  -- A value that is not valid is of no class.
  request_from_raw-invalid :
      (j : Json)
      → validate schema_request j ≡ false
      → request_from_raw validate (some j) ≡ err websocket_message
  unfolding request_from_raw
  request_from_raw-invalid j h = rw h refl

  error_from_raw-invalid :
      (j : Json)
      → validate schema_error j ≡ false
      → error_from_raw validate (some j) ≡ err websocket_message
  unfolding error_from_raw
  error_from_raw-invalid j h = rw h refl

  response_from_raw-invalid :
      (j : Json)
      → validate schema_response j ≡ false
      → response_from_raw validate (some j) ≡ err websocket_message
  unfolding response_from_raw
  response_from_raw-invalid j h = rw h refl

  error_dict-not_request :
      (m : ErrorMessage) → ChecksRequired validate → validate schema_request (error_dict m) ≡ false
  unfolding error_dict member_at
  error_dict-not_request m c = c schema_request "method" _ (inr (inl refl)) refl

  response_dict-not_request :
      (m : Response) → ChecksRequired validate → validate schema_request (response_dict m) ≡ false
  unfolding response_dict member_at
  response_dict-not_request m c = c schema_request "method" _ (inr (inl refl)) refl

  response_dict-not_error :
      (m : Response) → ChecksRequired validate → validate schema_error (response_dict m) ≡ false
  unfolding response_dict member_at
  response_dict-not_error m c = c schema_error "error" _ (inr (inl refl)) refl

  -- An emitted item has no "jsonrpc" member.
  emitted_item_dict-only :
      (m : EmittedItem) (s : Schema)
      → ChecksRequired validate
      → In "jsonrpc" s.required
      → validate s (emitted_item_dict m) ≡ false
  unfolding emitted_item_dict member_at
  emitted_item_dict-only m s c i = c s "jsonrpc" _ i refl

  -- With a validator that checks the required members, the parser gives back every valid message
  -- from its dict, in the class that it was printed from.
  pub parse_ws_message-to_dict :
      (m : Message)
      → ChecksRequired validate
      → validate (schema_of m) (to_dict m) ≡ true
      → parse_ws_message validate (some (to_dict m)) ≡ ok m
  unfolding parse_ws_message to_dict or_next
  parse_ws_message-to_dict (request m) c h = rw (request_from_raw-dict m h) refl
  parse_ws_message-to_dict (failure m) c h =
      let a = request_from_raw-invalid (error_dict m) (error_dict-not_request m c) in
      rw (a, error_from_raw-dict m h) refl
  parse_ws_message-to_dict (response m) c h =
      let a = request_from_raw-invalid (response_dict m) (response_dict-not_request m c) in
      let b = error_from_raw-invalid (response_dict m) (response_dict-not_error m c) in
      rw (a, b, response_from_raw-dict m h) refl
  parse_ws_message-to_dict (emitted_item m) c h =
      let d = emitted_item_dict m in
      let a = request_from_raw-invalid d (emitted_item_dict-only m schema_request c (inl refl)) in
      let b = error_from_raw-invalid d (emitted_item_dict-only m schema_error c (inl refl)) in
      let e = response_from_raw-invalid d (emitted_item_dict-only m schema_response c (inl refl)) in
      rw (a, b, e, emitted_item_from_raw-dict m h) refl
