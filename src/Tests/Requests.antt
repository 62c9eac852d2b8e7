-- ===== src/Tests/Requests.antt =====
-- The theorems on the MQTT client and on the choice of forms and clients at concrete inputs.
use wot_py.Prelude.{
  ℕ, ◌+◌, ◌<◌, ◌≤◌, String, List, [], ◌∷◌, Option, none, some, Bool, true, false, ◌==◌,
  if◌then◌else◌, ◌≡◌, ◌≢◌, ◌↔◌, ◌⊎◌, refl, In, ok,
}
use wot_py.Json.{Json, null, integer, text, object, empty, member}
use wot_py.Platform.{Protocol, http, mqtt, single}
use wot_py.Interaction.{property}
use wot_py.Choice.{
  Urls, FormDict, ThingDescription, pick_form, select_client, first_client,
  is_supported_interaction,
}
use wot_py.Choice.Picked.{IsBest, pick_form_iff}
use wot_py.Choice.Selected.{IsPreferred, select_client_lem}
use wot_py.Mqtt.Handlers.{MqttMessage}
use wot_py.Mqtt.Client.{Stored, MqttClient, Calls, new_message}
use wot_py.Mqtt.Requests.{RemoteRequest, invoke_remote}
use wot_py.Mqtt.Awaiting.{Wake, returned}
use wot_py.Mqtt.Client.Queues.{queue, new_item, new_message_iff}
use wot_py.Mqtt.Client.Connections.{AreConsistent}
use wot_py.Mqtt.Client.Uses.{opens, closes, use_all, use_all-AreConsistent}

-- URLs are not taken apart by a parser here: each text of the test has its parts.
abbrev urls : Urls
urls = record {
  scheme = λ u.
      if u == "mqtt://a/s/action/invocation/t/n"
      then "mqtt"
      else if u == "http://a/p"
      then "http"
      else "";
  netloc = λ u. "a";
  path = λ u. "/s/action/invocation/t/n";
  urljoin = λ b u. u;
}

abbrev mqtt_form : FormDict
mqtt_form = record { href = "mqtt://a/s/action/invocation/t/n"; op = single "invokeaction" }

abbrev http_form : FormDict
http_form = record { href = "http://a/p"; op = single "readproperty" }

abbrev td : ThingDescription
td = record {
  base = none;
  properties = ("p", http_form ∷ []) ∷ [];
  actions = ("n", mqtt_form ∷ []) ∷ [];
  events = [];
}

pick_form_iff_example :
    (pick_form urls none (mqtt_form ∷ http_form ∷ []) ("https" ∷ "http" ∷ []) none ≡ some http_form)
    ↔ IsBest urls none none (mqtt_form ∷ http_form ∷ []) ("https" ∷ "http" ∷ []) http_form
pick_form_iff_example =
    pick_form_iff urls none none (mqtt_form ∷ http_form ∷ []) ("https" ∷ "http" ∷ []) http_form

select_client_lem_example :
    ((p : Protocol) × (select_client urls (mqtt ∷ http ∷ []) td "p" ≡ ok p)
      × IsPreferred urls (mqtt ∷ http ∷ []) td "p" property p)
    ⊎ (((q : Protocol) → In q (mqtt ∷ http ∷ []) → is_supported_interaction urls td "p" q ≡ false)
        × (select_client urls (mqtt ∷ http ∷ []) td "p" ≡ first_client (mqtt ∷ http ∷ [])))
unfolding wot_py.Choice.intrct_type wot_py.Prelude.has wot_py.Prelude.get
select_client_lem_example = select_client_lem urls (mqtt ∷ http ∷ []) td "p" property refl

abbrev calls : Calls
calls = record { connect = none; subscribe = none; publish = none; loop_ends = true }

abbrev hanging : Calls
hanging = record calls { loop_ends = false }

abbrev client : MqttClient
client = record {
  msg_ttl = 15;
  timeout_default = none;
  ref_counter = [];
  clients = [];
  deliver_stop_events = [];
  msg_conditions = [];
  messages = [];
  topics = [];
  outbox = [];
}

abbrev connected : MqttClient
connected = record client {
  ref_counter = ("mqtt://a", "r" ∷ []) ∷ [];
  clients = "mqtt://a" ∷ [];
  deliver_stop_events = ("mqtt://a", false) ∷ [];
  msg_conditions = ("mqtt://a", "t" ∷ []) ∷ [];
}

abbrev message : MqttMessage
message = record { topic = "t"; parsed = some (integer 3) }

new_message_iff_example :
    let d = new_message "mqtt://a" message "i" 4 5 connected in
    (d.1 ≡ none)
    × ((topic : String) (m : Stored)
        → In m (queue "mqtt://a" topic d.0) ↔ (
            (In m (queue "mqtt://a" topic connected)
              ⊎ ((topic ≡ "t") × (m ≡ new_item "mqtt://a" message "i" 4 5 connected (integer 3))))
            × (5 < m.time + 15)))
    × ((b topic : String) → b ≢ "mqtt://a" → queue b topic d.0 ≡ queue b topic connected)
unfolding wot_py.Prelude.get wot_py.Prelude.contains
new_message_iff_example = new_message_iff "mqtt://a" message "i" 4 5 connected (integer 3) refl refl

abbrev answer : Json
answer = object (member "id" (text "i") (member "result" (integer 9) empty))

abbrev wake : Wake
wake = record {
  arrivals =
      (record {
        broker = "mqtt://a";
        msg = record { topic = "s/action/result/t/n"; parsed = some answer };
        id = "u";
        time = 5;
        cleaned = 5;
      })
      ∷ [];
  now = 6;
}

abbrev request_for : List Wake → RemoteRequest
request_for wakes = record {
  td = td;
  name = "n";
  timeout = some 3;
  ref_id = "r";
  msg_id = "i";
  qos_publish = 2;
  qos_subscribe = 1;
  ini = 4;
  wakes = wakes;
}

abbrev late_wake : Wake
late_wake = record { arrivals = []; now = 9 }

use_all-AreConsistent_example :
    AreConsistent
      (use_all calls
        (opens "mqtt://a" "r" ∷ opens "mqtt://a" "q" ∷ closes "mqtt://a" "r" ∷ [])
        client)
      "mqtt://a"
use_all-AreConsistent_example =
    use_all-AreConsistent calls refl refl
      (opens "mqtt://a" "r" ∷ opens "mqtt://a" "q" ∷ closes "mqtt://a" "r" ∷ []) 15 none "mqtt://a"

abbrev after : MqttClient
after = (invoke_remote urls calls (request_for (wake ∷ [])) null client).0

invoked :
    invoke_remote urls calls (request_for (wake ∷ [])) null client ≡ (after, returned (integer 9))
unfolding invoke_remote wot_py.Prelude.get wot_py.Prelude.next wot_py.Prelude.contains
    wot_py.Prelude.has wot_py.Prelude.filter wot_py.Prelude.put wot_py.Ws.Schemas.member_at
invoked = refl
