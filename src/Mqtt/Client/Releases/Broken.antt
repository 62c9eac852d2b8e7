-- ===== src/Mqtt/Client/Releases/Broken.antt =====
-- wotpy/protocols/mqtt/client.py: a broker after a delivery loop that did not end in time.
use wot_py.Prelude.{String, List, [], ◌∷◌, some, Bool, false, ◌≡◌, get, contains_text}
use wot_py.Refs.{increase, has_any}
use wot_py.Mqtt.Client.{MqttClient, Calls, init_client, disconnect_client}

-- A broker without references and without a client, whose stop event was left behind.
abbrev pub IsStuck : String → MqttClient → Type 0
IsStuck broker c =
    ((is_set : Bool) × (get broker c.deliver_stop_events ≡ some is_set))
    × (contains_text broker c.clients ≡ false)
    × (has_any broker c.ref_counter ≡ false)

module _ (broker ref_id : String) where
  -- The state that `_init_client` leaves when the stop event is there already.
  refused : MqttClient → MqttClient
  refused c = record c {
    ref_counter = increase broker ref_id c.ref_counter;
    clients = broker ∷ c.clients;
  }

-- Requests with these references, one after the other, each with the disconnection of its `finally`.
abbrev pub retries : Calls → String → List String → MqttClient → MqttClient
retries calls broker [] c = c
retries calls broker (r ∷ rs) c =
    retries calls broker rs (disconnect_client calls broker r (init_client calls broker r c).0)
