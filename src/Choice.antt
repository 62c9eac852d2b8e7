-- ===== src/Choice.antt =====
-- wotpy/protocols/utils.py, wotpy/wot/dictionaries/link.py, wotpy/wot/td.py and the choice of a client
-- in wotpy/wot/servient.py: which form, and which Protocol Binding client, serves an interaction.
-- The URL functions of the runtime differ between the Python versions that the package runs on, and
-- enter as `Urls`: nothing is assumed of them.
pub mod Picked
pub mod Selected
use Prim.Native.Char.{code}
use Prim.Native.String
use wot_py.Prelude.{
  ℕ, String, List, [], ◌∷◌, Option, none, some, Bool, true, false, not, ◌&&◌, ◌||◌, ◌==◌, ◌is◌,
  if◌then◌else◌, Dict, get, has, next, filter, contains, contains_text, Error, value_error,
  index_error, key_error, Result, ok, err, ◌>>=◌, or_raise,
}
use wot_py.Platform.{Protocol, http, websockets, coap, mqtt, Op, absent, single, several}
use wot_py.Interaction.{Kind, property, action, event, same_protocol}

pub record Urls : Type 0 where
  pub scheme : String → String
  pub netloc : String → String
  pub path : String → String
  pub urljoin : String → String → String

-- A form of a Thing Description, as far as it is read.
pub record FormDict : Type 0 where
  pub href : String
  pub op : Op

pub record ThingDescription : Type 0 where
  pub base : Option String
  pub properties : Dict (List FormDict)
  pub actions : Dict (List FormDict)
  pub events : Dict (List FormDict)

-- `ThingDescription.get_forms`
unfoldable pub get_forms : String → ThingDescription → List FormDict
get_forms name td = elim (get name td.properties) [
  | some fs ↦ fs
  | none ↦ elim (get name td.actions) [
    | some fs ↦ fs
    | none ↦ elim (get name td.events) [ some fs ↦ fs | none ↦ [] ]
  ]
]

-- `get_property_forms`, `get_action_forms` and `get_event_forms`
unfoldable pub get_kind_forms : Kind → String → ThingDescription → Result (List FormDict)
get_kind_forms property name td = or_raise (get name td.properties) key_error
get_kind_forms action name td = or_raise (get name td.actions) key_error
get_kind_forms event name td = or_raise (get name td.events) key_error

-- `op == form.op or op in form.op`, where `in` of a text looks for a part of it
unfoldable pub is_prefix : String → String → Bool
is_prefix String.[] t = true
is_prefix (String.◌∷◌ c s) String.[] = false
is_prefix (String.◌∷◌ c s) (String.◌∷◌ d t) = code c is code d && is_prefix s t

unfoldable pub is_part : String → String → Bool
unfolding is_prefix
is_part s String.[] = s == ""
is_part s (String.◌∷◌ d t) = is_prefix s (String.◌∷◌ d t) || is_part s t

-- `form.op == op`
unfoldable pub is_op : Option String → FormDict → Bool
is_op none f = true
is_op (some op) f = elim f.op [ absent ↦ false | single o ↦ o == op | several _ ↦ false ]

abbrev pub map_href : Option FormDict → Option String
map_href none = none
map_href (some f) = some f.href

abbrev pub first_or : List FormDict → Option FormDict → Option FormDict
first_or [] rest = rest
first_or (f ∷ fs) rest = some f

-- the test of `MQTTClient._pick_mqtt_href`
unfoldable pub is_op_form : Option String → FormDict → Bool
unfolding is_part
is_op_form none f = true
is_op_form (some op) f = elim f.op [
  | absent ↦ false
  | single o ↦ is_part op o
  | several os ↦ contains_text op os
]

-- the schemes of the `is_supported_interaction` of the four clients
abbrev pub schemes_of : Protocol → List String
schemes_of http = "http" ∷ "https" ∷ []
schemes_of websockets = "wss" ∷ "ws" ∷ []
schemes_of coap = "coap" ∷ "coaps" ∷ []
schemes_of mqtt = "mqtt" ∷ []

-- `protocol_preference_map`
abbrev pub protocol_prefs : Kind → List Protocol
protocol_prefs property = http ∷ coap ∷ websockets ∷ mqtt ∷ []
protocol_prefs action = websockets ∷ mqtt ∷ coap ∷ http ∷ []
protocol_prefs event = websockets ∷ mqtt ∷ coap ∷ http ∷ []

-- `intrct_type`
unfoldable pub intrct_type : String → ThingDescription → Result Kind
intrct_type name td =
    if has name td.properties
    then ok property
    else if has name td.actions
    then ok action
    else if has name td.events
    then ok event
    else err value_error

abbrev pub first_client : List Protocol → Result Protocol
first_client [] = err index_error
first_client (p ∷ ps) = ok p

abbrev pub chosen_or : Option Protocol → Result Protocol → Result Protocol
chosen_or none rest = rest
chosen_or (some p) rest = ok p

module _ (urls : Urls) where
  -- `FormDict.resolve_uri`
  unfoldable pub resolve_uri : Option String → FormDict → Option String
  resolve_uri none f = if urls.scheme f.href == "" then none else some f.href
  resolve_uri (some base) f =
      if urls.scheme f.href == ""
      then if base == "" then none else some (urls.urljoin base f.href)
      else some f.href

  abbrev scheme_in : Option String → List String → Bool
  scheme_in none schemes = false
  scheme_in (some url) schemes =
      if url == "" then false else contains_text (urls.scheme url) schemes

  -- `is_scheme_form`; a single scheme is a list of one
  unfoldable pub is_scheme_form : Option String → List String → FormDict → Bool
  unfolding resolve_uri
  is_scheme_form base schemes f = scheme_in (resolve_uri base f) schemes

  -- what the two filters of `pick_form` leave
  unfoldable pub scheme_forms :
      Option String → Option String → String → List FormDict → List FormDict
  unfolding is_scheme_form is_op
  scheme_forms base op scheme forms =
      filter (is_op op) (filter (is_scheme_form base (scheme ∷ [])) forms)

  -- `pick_form`
  unfoldable pub pick_form :
      Option String → List FormDict → List String → Option String → Option FormDict
  unfolding scheme_forms
  pick_form base forms [] op = none
  pick_form base forms (scheme ∷ schemes) op =
      first_or (scheme_forms base op scheme forms) (pick_form base forms schemes op)

  unfoldable pub pick_mqtt_href : Option String → List FormDict → Option String → Option String
  unfolding is_scheme_form is_op_form
  pick_mqtt_href base forms op =
      map_href (next (λ f. is_scheme_form base ("mqtt" ∷ []) f && is_op_form op f) forms)

  unfoldable pub is_supported_interaction : ThingDescription → String → Protocol → Bool
  unfolding is_scheme_form get_forms
  is_supported_interaction td name p =
      contains (is_scheme_form td.base (schemes_of p)) (get_forms name td)

  -- `_default_select_client`: the clients have different protocols, and are known by them
  unfoldable pub select_client : List Protocol → ThingDescription → String → Result Protocol
  unfolding is_supported_interaction intrct_type
  select_client clients td name =
      let supported = filter (is_supported_interaction td name) clients in
      intrct_type name td >>= λ kind.
      chosen_or (next (λ p. contains (λ q. same_protocol q p) supported) (protocol_prefs kind))
        (first_client clients)
