-- ===== src/Mqtt/Client/Uses.antt =====
-- wotpy/protocols/mqtt/client.py: any sequence of connections and disconnections.
use wot_py.Prelude.{ℕ, String, List, [], ◌∷◌, Option, none, true, ◌≡◌, refl, get, contains}
use wot_py.Refs.{has_any}
use wot_py.Mqtt.Client.{MqttClient, Calls, new_mqtt_client, init_client, disconnect_client}
use wot_py.Mqtt.Client.Connections.{AreConsistent, init_client-AreConsistent}
use wot_py.Mqtt.Client.Releases.{disconnect_client-AreConsistent}

-- A call of `_init_client` or of `_disconnect_client`: the broker and the reference.
pub data Use : Type 0 where
  opens closes : String → String → Use

abbrev pub use_client : Calls → Use → MqttClient → MqttClient
use_client calls (opens broker ref_id) c = (init_client calls broker ref_id c).0
use_client calls (closes broker ref_id) c = disconnect_client calls broker ref_id c

abbrev pub use_all : Calls → List Use → MqttClient → MqttClient
use_all calls [] c = c
use_all calls (u ∷ us) c = use_all calls us (use_client calls u c)

module _ (calls : Calls) (connects : calls.connect ≡ none) (ends : calls.loop_ends ≡ true) where
  uses-AreConsistent :
      (us : List Use) (c : MqttClient)
      → ((b : String) → AreConsistent c b)
      → (b : String) → AreConsistent (use_all calls us c) b
  uses-AreConsistent [] c all = all
  uses-AreConsistent (opens broker ref_id ∷ us) c all =
      let (done, own, next) = init_client-AreConsistent calls broker ref_id c connects all in
      uses-AreConsistent us (init_client calls broker ref_id c).0 next
  uses-AreConsistent (closes broker ref_id ∷ us) c all =
      uses-AreConsistent us (disconnect_client calls broker ref_id c)
        (disconnect_client-AreConsistent calls broker ref_id c ends all)

  -- Where hbmqtt connects and the delivery loops end in time: after any sequence of connections and
  -- disconnections, with any references, of a new client, a broker is connected exactly if there is
  -- a reference to it, and its delivery loop runs exactly then.
  pub use_all-AreConsistent :
      (us : List Use) (ttl : ℕ) (timeout : Option ℕ) (b : String)
      → AreConsistent (use_all calls us (new_mqtt_client ttl timeout)) b
  unfolding has_any get contains
  use_all-AreConsistent us ttl timeout =
      uses-AreConsistent us (new_mqtt_client ttl timeout) (λ b. (refl, refl))
