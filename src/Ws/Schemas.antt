-- ===== src/Ws/Schemas.antt =====
-- wotpy/protocols/ws/schemas.py and the WebsocketMethods of wotpy/protocols/ws/enums.py.
-- `validate` of the package jsonschema is a parameter: a test of a value against a schema.
use wot_py.Prelude.{
  String, List, [], ◌∷◌, Bool, Dict, Option, none, some, false, ◌==◌, if◌then◌else◌, In, ◌≡◌,
}
use wot_py.Json.{Json, Members, object, empty, member}

-- the `type` keyword
pub data SchemaType : Type 0 where
  object_type array_type string_type integer_type null_type : SchemaType

-- The schema of a member without members of its own: `{}`, a `type`, a `type` of string with an
-- `enum`, and a `oneOf` of types.
pub data Leaf : Type 0 where
  anything : Leaf
  has_type : SchemaType → Leaf
  string_enum : List String → Leaf
  one_of : List SchemaType → Leaf

-- The schema of a member: a leaf, or an object with `properties` and `required`.
pub data Rule : Type 0 where
  leaf : Leaf → Rule
  nested : Dict Leaf → List String → Rule

-- An object with `properties` and `required`.
pub record Schema : Type 0 where
  pub properties : Dict Rule
  pub required : List String

abbrev pub Validator : Type 0
Validator = Schema → Json → Bool

abbrev pub json_rpc_version : String
json_rpc_version = "2.0"

abbrev pub websocket_methods : List String
websocket_methods =
    "read_property" ∷ "write_property" ∷ "invoke_action" ∷ "on_property_change" ∷ "on_td_change"
    ∷ "on_event" ∷ "dispose" ∷ []

abbrev pub schema_id : Leaf
schema_id = one_of (string_type ∷ integer_type ∷ null_type ∷ [])

abbrev pub schema_request : Schema
schema_request = record {
  properties =
      ("jsonrpc", leaf (string_enum (json_rpc_version ∷ [])))
      ∷ ("method", leaf (string_enum websocket_methods))
      ∷ ("params", leaf (one_of (object_type ∷ array_type ∷ [])))
      ∷ ("id", leaf schema_id)
      ∷ [];
  required = "jsonrpc" ∷ "method" ∷ [];
}

abbrev pub schema_response : Schema
schema_response = record {
  properties =
      ("jsonrpc", leaf (string_enum ("2.0" ∷ [])))
      ∷ ("result", leaf anything)
      ∷ ("id", leaf schema_id)
      ∷ [];
  required = "jsonrpc" ∷ "result" ∷ "id" ∷ [];
}

abbrev pub schema_error : Schema
schema_error = record {
  properties =
      ("jsonrpc", leaf (string_enum ("2.0" ∷ [])))
      ∷ (
        "error",
        nested
            (("code", has_type integer_type)
              ∷ ("message", has_type string_type)
              ∷ ("data", anything)
              ∷ [])
            ("code" ∷ "message" ∷ []),
      )
      ∷ ("id", leaf schema_id)
      ∷ [];
  required = "jsonrpc" ∷ "error" ∷ "id" ∷ [];
}

abbrev pub schema_emitted_item : Schema
schema_emitted_item = record {
  properties =
      ("subscription", leaf (has_type string_type))
      ∷ ("name", leaf (has_type string_type))
      ∷ ("data", leaf anything)
      ∷ [];
  required = "subscription" ∷ "name" ∷ "data" ∷ [];
}

-- SCHEMA_PARAMS_READ_PROPERTY, SCHEMA_PARAMS_ON_PROPERTY_CHANGE and SCHEMA_PARAMS_ON_EVENT
abbrev pub schema_params_name : Schema
schema_params_name = record {
  properties = ("name", leaf (has_type string_type)) ∷ [];
  required = "name" ∷ [];
}

abbrev pub schema_params_write_property : Schema
schema_params_write_property = record {
  properties = ("name", leaf (has_type string_type)) ∷ ("value", leaf anything) ∷ [];
  required = "name" ∷ "value" ∷ [];
}

abbrev pub schema_params_invoke_action : Schema
schema_params_invoke_action = record {
  properties = ("name", leaf (has_type string_type)) ∷ ("parameters", leaf anything) ∷ [];
  required = "name" ∷ [];
}

abbrev pub schema_params_on_td_change : Schema
schema_params_on_td_change = record { properties = []; required = [] }

abbrev pub schema_params_dispose : Schema
schema_params_dispose = record {
  properties = ("subscription", leaf (has_type string_type)) ∷ [];
  required = "subscription" ∷ [];
}

-- The member of an object under a key.
unfoldable pub member_at : String → Members → Option Json
member_at k empty = none
member_at k (member j v ms) = if j == k then some v else member_at k ms

-- The documented meaning of `required`: an object without a required member is not valid.
abbrev pub ChecksRequired : Validator → Type 0
ChecksRequired validate =
    (s : Schema) (k : String) (ms : Members)
    → In k s.required
    → member_at k ms ≡ none
    → validate s (object ms) ≡ false
