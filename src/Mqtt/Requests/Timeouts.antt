-- ===== src/Mqtt/Requests/Timeouts.antt =====
-- wotpy/protocols/mqtt/client.py: the requests end once the timeout is over.
use wot_py.Prelude.{ℕ, Option, true, ◌≡◌, In}
use wot_py.Json.{Json}
use wot_py.Choice.{Urls}
use wot_py.Mqtt.Client.{MqttClient, Calls}
use wot_py.Mqtt.Requests.{RemoteRequest, effective}
use wot_py.Mqtt.Awaiting.{Wake, is_late}

module _ (urls : Urls) (calls : Calls) (r : RemoteRequest) (c : MqttClient) (w : Wake)
    (awake : In w r.wakes)
    (late : is_late (effective r.timeout c.timeout_default) r.ini w.now ≡ true) where
  abbrev timeout : Option ℕ
  timeout = effective r.timeout c.timeout_default
