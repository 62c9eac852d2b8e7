-- ===== src/Server.antt =====
-- wotpy/protocols/server.py and the server classes of the four bindings: what they are told apart
-- by, their ExposedThings, and the forms and base URLs that they build.
pub mod Forms
use Prim.Native.Char.{code}
use Prim.Native.String
use wot_py.Prelude.{
  ℕ, String, List, [], ◌∷◌, Option, none, some, Bool, true, false, ◌&&◌, ◌||◌, ◌==◌, ◌is◌, not,
  if◌then◌else◌, Error, value_error, Result, ok, err, ◌>>=◌, or_raise,
}
use wot_py.Platform.{Platform, Protocol, http, websockets, coap, mqtt, Op, absent, single, several}
use wot_py.Interaction.{
  Kind, property, action, event, Form, Interaction, interaction_type, url_name,
}
use wot_py.Thing.{Thing, thing_url_name, found}
use wot_py.ThingSet.{Heap, ThingSet, add_thing, find_by_thing_id, find_by_interaction, remove_thing}

-- A server of one of the four classes. `port` is the port's decimal text; `broker_url` and
-- `servient_id` are the MQTT server's.
pub record Server : Type 0 where
  pub protocol : Protocol
  pub secure : Bool
  pub port : String
  pub broker_url : String
  pub servient_id : Option String
  pub things : ThingSet

-- `"".join(parts)`, which spells out a call of `format`.
unfoldable pub cat : List String → String
cat [] = ""
cat (x ∷ xs) = String.◌++◌ x (cat xs)

-- `s.lstrip("/")`
unfoldable pub lstrip : String → String
lstrip String.[] = ""
lstrip (String.◌∷◌ c s) = let rest = lstrip s in if code c is b'/' then rest else String.◌∷◌ c s

-- `s.rstrip("/")`
unfoldable pub rstrip : String → String
rstrip String.[] = ""
rstrip (String.◌∷◌ c s) =
    let rest = rstrip s in if code c is b'/' && rest == "" then "" else String.◌∷◌ c rest

-- the `scheme` properties
unfoldable pub scheme : Server → String
scheme s = elim s.protocol [
  | http ↦ if s.secure then "https" else "http"
  | websockets ↦ if s.secure then "wss" else "ws"
  | coap ↦ if s.secure then "coaps" else "coap"
  | mqtt ↦ "mqtt"
]

-- `"{}://{}:{}/"` of a server and the stripped host name, without the last slash
unfoldable pub origin : Server → String → String
unfolding scheme cat lstrip rstrip
origin s hostname = cat (scheme s ∷ "://" ∷ lstrip (rstrip hostname) ∷ ":" ∷ s.port ∷ [])

abbrev json : String
json = "application/json"

-- the keyword arguments of a form
unfoldable pub new_form : Interaction → Protocol → String → Op → Form
new_form i protocol href op = record {
  interaction = i.ident;
  protocol = protocol;
  href = href;
  content_type = json;
  op = op;
}

-- `BaseProtocolServer.add_exposed_thing`
unfoldable pub add_exposed_thing : Heap → ℕ → Server → Result Server
add_exposed_thing heap r s = do set ← add_thing heap r s.things; ok (record s { things = set })

module _ (env : Platform) where
  -- `BaseProtocolServer.remove_exposed_thing` and `get_exposed_thing`
  unfoldable pub remove_exposed_thing : Heap → String → Server → Result Server
  remove_exposed_thing heap thing_id s = do
    set ← remove_thing env heap thing_id s.things
    ok (record s { things = set })

  unfoldable pub get_exposed_thing : Heap → String → Server → Result ℕ
  get_exposed_thing heap name s = or_raise (find_by_thing_id env heap name s.things) value_error

  -- `MQTTServer.servient_id`
  unfoldable pub mqtt_servient_id : Server → String
  mqtt_servient_id s = elim s.servient_id [
    | none ↦ "wotpy"
    | some given ↦ if given == "" then "wotpy" else env.slugify given
  ]

  -- HTTPServer: `_build_forms_property`, `_build_forms_action`, `_build_forms_event`
  unfoldable pub http_forms : Kind → Server → String → String → Interaction → List Form
  unfolding cat origin new_form url_name
  http_forms property s hostname thing i =
      let href = cat (origin s hostname ∷ "/" ∷ thing ∷ "/property/" ∷ url_name env i ∷ []) in
      new_form i http href (several ("readproperty" ∷ "writeproperty" ∷ []))
      ∷ new_form i http (cat (href ∷ "/subscription" ∷ [])) (several ("observeproperty" ∷ []))
      ∷ []
  http_forms action s hostname thing i =
      new_form i http (cat (origin s hostname ∷ "/" ∷ thing ∷ "/action/" ∷ url_name env i ∷ []))
        (several ("invokeaction" ∷ []))
      ∷ []
  http_forms event s hostname thing i =
      new_form i http
        (cat (origin s hostname ∷ "/" ∷ thing ∷ "/event/" ∷ url_name env i ∷ "/subscription" ∷ []))
        (several ("subscribeevent" ∷ []))
      ∷ []

  -- The query URLs of CoAPServer.
  unfoldable pub coap_href : Server → String → String → String → Interaction → String
  unfolding cat origin url_name
  coap_href s hostname path thing i =
      cat (origin s hostname ∷ path ∷ "?thing=" ∷ thing ∷ "&name=" ∷ url_name env i ∷ [])

  -- CoAPServer: the same three
  unfoldable pub coap_forms : Kind → Server → String → String → Interaction → List Form
  unfolding coap_href new_form
  coap_forms property s hostname thing i =
      let href = coap_href s hostname "/property" thing i in
      new_form i coap href (single "readproperty")
      ∷ new_form i coap href (single "writeproperty")
      ∷ new_form i coap href (single "observeproperty")
      ∷ []
  coap_forms action s hostname thing i =
      new_form i coap (coap_href s hostname "/action" thing i) (single "invokeaction") ∷ []
  coap_forms event s hostname thing i =
      new_form i coap (coap_href s hostname "/event" thing i) (single "subscribeevent") ∷ []

  -- The topics of MQTTServer, behind the URL of the broker.
  unfoldable pub mqtt_href : Server → String → String → Interaction → String
  unfolding cat rstrip url_name mqtt_servient_id
  mqtt_href s path thing i =
      cat
        (rstrip s.broker_url ∷ "/" ∷ mqtt_servient_id s ∷ path ∷ thing ∷ "/" ∷ url_name env i ∷ [])

  -- MQTTServer: the same three
  unfoldable pub mqtt_forms : Kind → Server → String → Interaction → List Form
  unfolding mqtt_href new_form
  mqtt_forms property s thing i =
      let href_rw = mqtt_href s "/property/requests/" thing i in
      new_form i mqtt href_rw (single "readproperty")
      ∷ new_form i mqtt href_rw (single "writeproperty")
      ∷ new_form i mqtt (mqtt_href s "/property/updates/" thing i) (single "observeproperty")
      ∷ []
  mqtt_forms action s thing i =
      new_form i mqtt (mqtt_href s "/action/invocation/" thing i) (single "invokeaction") ∷ []
  mqtt_forms event s thing i =
      new_form i mqtt (mqtt_href s "/event/" thing i) (single "subscribeevent") ∷ []

  -- `build_base_url` of the four classes; only HTTP and CoAP strip slashes in front of the host
  unfoldable pub base_url_of : Protocol → Heap → Server → String → Thing → Result String
  unfolding cat origin scheme rstrip
  base_url_of http heap s hostname t =
      if found (find_by_thing_id env heap t.id s.things)
      then ok (cat (origin s hostname ∷ "/" ∷ thing_url_name env t ∷ []))
      else err value_error
  base_url_of coap heap s hostname t =
      if found (find_by_thing_id env heap t.id s.things)
      then ok (origin s hostname)
      else err value_error
  base_url_of websockets heap s hostname t =
      if found (find_by_thing_id env heap t.id s.things)
      then ok (
          cat (scheme s ∷ "://" ∷ rstrip hostname ∷ ":" ∷ s.port ∷ "/" ∷ thing_url_name env t ∷ []))
      else err value_error
  base_url_of mqtt heap s hostname t = ok s.broker_url

  unfoldable pub build_base_url : Heap → Server → String → Thing → Result String
  unfolding base_url_of
  build_base_url heap s hostname t = base_url_of s.protocol heap s hostname t

  -- WebsocketServer.build_forms: one form, without an `op`
  unfoldable pub websocket_forms : Heap → Server → String → Interaction → Result (List Form)
  unfolding new_form base_url_of
  websocket_forms heap s hostname i = do
    r ← or_raise (find_by_interaction heap i s.things) value_error
    base ← base_url_of websockets heap s hostname (heap r)
    ok (new_form i websockets base absent ∷ [])

  -- `build_forms` by the class of the server. `proprty.thing` is the Thing that the interaction
  -- refers to.
  unfoldable pub forms_of : Protocol → Heap → Server → String → Interaction → Result (List Form)
  unfolding http_forms coap_forms mqtt_forms websocket_forms interaction_type
  forms_of http heap s hostname i =
      ok (http_forms (interaction_type i) s hostname (thing_url_name env (heap i.thing)) i)
  forms_of websockets heap s hostname i = websocket_forms heap s hostname i
  forms_of coap heap s hostname i =
      ok (coap_forms (interaction_type i) s hostname (thing_url_name env (heap i.thing)) i)
  forms_of mqtt heap s hostname i =
      ok (mqtt_forms (interaction_type i) s (thing_url_name env (heap i.thing)) i)

  unfoldable pub build_forms : Heap → Server → String → Interaction → Result (List Form)
  unfolding forms_of
  build_forms heap s hostname i = forms_of s.protocol heap s hostname i
