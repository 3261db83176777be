-- ===== src/MqttTunnel/Start.antt =====
-- Start, up to the goroutine that disconnects when the context is done. The state is the tunnel and
-- the world of the paho client; `base_client` makes the client of some options in that world.
pub mod Laws
use module_controller.Prelude.{String, Bool, true, false, Option, none, some, ◌<>◌}
use module_controller.Prelude.Int.{pos}
use module_controller.Go.Effect.{Outcome, returns, panics, Result, ok, err, Error}
use module_controller.Model.{base_heart_beat_topic, base_query_baseline_topic}
use module_controller.MqttClient.{
  MqttConfig, ClientConfig, ClientOptions, Files, new_mqtt_client, Paho, connect, qos1, heart_beat,
  query_baseline,
}
use module_controller.MqttTunnel.{MqttTunnel}

pub record Started (W : Type 0) : Type 0 where
  pub tunnel : MqttTunnel W
  pub world : W

unfoldable pub client_config : MqttConfig → String → ClientConfig
client_config c client_id = record {
  broker = c.mqtt_broker;
  port = c.mqtt_port;
  client_id = c.mqtt_client_prefix <> "@@@" <> client_id;
  username = c.mqtt_username;
  password = c.mqtt_password;
  ca_path = c.mqtt_ca_path;
  client_crt_path = c.mqtt_client_crt_path;
  client_key_path = c.mqtt_client_key_path;
  clean_session = true;
  keep_alive = pos 0;
}

module _ {W : Type 0} (files : Files) (base_client : ClientOptions → Paho W) where
  -- OnConnectHandler, which paho calls at each connection.
  unfoldable pub on_connect : Paho W → String → W → W
  on_connect paho env w =
      let (e, w') = paho.subscribe (base_heart_beat_topic env) qos1 heart_beat w in
      let (e', w'') = paho.subscribe (base_query_baseline_topic env) qos1 query_baseline w' in w''

  -- What NewMqttClient returns: the client, nil with an error.
  abbrev pub made : Result ClientOptions → Option (Paho W) × Option Error
  made (err e) = (none, some e)
  made (ok options) = (some (base_client options), none)

  -- The method Connect, which reads a field of its receiver: a nil one makes it panic.
  unfoldable pub connect_client : Option (Paho W) → W → Outcome (Option Error) × W
  unfolding connect
  connect_client none w = (panics, w)
  connect_client (some client) w = let (e, w') = connect client w in (returns e, w')

  abbrev pub connected :
      MqttTunnel W → Outcome (Option Error) × W → Outcome (Option Error) × Started W
  connected t (panics, w) = (panics, record { tunnel = t; world = w })
  connected t (returns (some e), w) = (returns (some e), record { tunnel = t; world = w })
  connected t (returns none, w) =
      (returns none, record { tunnel = record t { ready = true }; world = w })

  abbrev pub is_made : Option (Paho W) → Bool
  is_made none = false
  is_made (some client) = true

  -- The error of NewMqttClient is overwritten by Connect's.
  unfoldable pub start :
      MqttConfig → String → String → MqttTunnel W → W → Outcome (Option Error) × Started W
  unfolding connect_client new_mqtt_client client_config
  start c client_id env t w =
      let (client, e) = made (new_mqtt_client files (client_config c client_id)) in
      connected (record t { env = env; has_client = is_made client }) (connect_client client w)
