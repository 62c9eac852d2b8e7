-- ===== src/Tests/Handlers.antt =====
-- The theorems on the WebSockets handler at concrete inputs.
use wot_py.Prelude.{
  String, List, [], ◌∷◌, Bool, true, false, Option, none, some, ◌==◌, ◌≡◌, refl, ok, get, Dict,
  if◌then◌else◌, Error,
}
use wot_py.Json.{Json, Members, text, object, member, empty}
use wot_py.Exposed.{throws}
use wot_py.Ws.Schemas.{
  Validator, Rule, leaf, has_type, string_type, member_at, schema_params_dispose,
}
use wot_py.Ws.Messages.{Request, item_at}
use wot_py.Ws.Handler.{Handler, handle_dispose}
use wot_py.Ws.Handler.Subscriptions.{get-handle_dispose}
use wot_py.Tests.Lab.{lab}

-- A validator of the required members: each is there, and is a text where the schema says so.
abbrev is_text : Json → Bool
is_text (text s) = true
is_text _ = false

abbrev fits : Option Rule → Json → Bool
fits (some (leaf (has_type string_type))) j = is_text j
fits _ j = true

abbrev is_there : Option Rule → Option Json → Bool
is_there r none = false
is_there r (some j) = fits r j

abbrev both : Bool → Bool → Bool
both true b = b
both false b = false

unfoldable has_all : Dict Rule → List String → Members → Bool
unfolding get member_at
has_all rules [] ms = true
has_all rules (k ∷ ks) ms = both (is_there (get k rules) (member_at k ms)) (has_all rules ks ms)

unfoldable lab_validate : Validator
unfolding has_all
lab_validate s (object ms) = has_all s.properties s.required ms
lab_validate s _ = false

abbrev handler : Handler
handler = record {
  exposed = none;
  subscriptions = ("a", throws) ∷ ("b", throws) ∷ [];
  sent = [];
  closed = false;
}

-- The request to dispose the subscription `a`.
abbrev disposing : Request
disposing = record {
  method = text "dispose";
  params = object (member "subscription" (text "a") empty);
  msg_id = text "1";
}

abbrev blank : Error → String
blank e = "error"

disposing-valid : lab_validate schema_params_dispose disposing.params ≡ true
unfolding lab_validate
disposing-valid = refl

disposing-named : item_at "subscription" disposing.params ≡ ok (text "a")
unfolding item_at
disposing-named = refl

get-handle_dispose_example :
    get "b" (handle_dispose lab lab_validate blank disposing handler).0.subscriptions
    ≡ (if "a" == "b" then none else get "b" handler.subscriptions)
get-handle_dispose_example =
    get-handle_dispose lab lab_validate blank "a" "b" disposing handler disposing-valid
      disposing-named
