-- ===== src/MqttTunnel.antt =====
-- module_tunnels/koupleless_mqtt_tunnel/mqtt_tunnel.go: the tunnel that talks to the bases by MQTT.
pub mod Nodes
pub mod Messages
pub mod Commands
pub mod Start
mod Tests
use module_controller.Prelude.{String, Bool, false}
use module_controller.Tunnel.{Callbacks, no_callbacks}

pub record MqttTunnel (W : Type 0) : Type 0 where
  pub env : String
  pub ready : Bool
  -- whether mqttClient is not nil
  pub has_client : Bool
  pub callbacks : Callbacks W

unfoldable pub new_mqtt_tunnel : {W : Type 0} → String → MqttTunnel W
new_mqtt_tunnel env = record {
  env = env;
  ready = false;
  has_client = false;
  callbacks = no_callbacks;
}

unfoldable pub ready : {W : Type 0} → MqttTunnel W → Bool
ready t = t.ready

unfoldable pub key : String
key = "mqtt_tunnel_provider"

unfoldable pub register_callback : {W : Type 0} → Callbacks W → MqttTunnel W → MqttTunnel W
register_callback callbacks t = record t { callbacks = callbacks }
