-- ===== src/MqttClient.antt =====
-- module_tunnels/koupleless_mqtt_tunnel/mqtt/mqtt.go and ../config.go: the MQTT client around paho's,
-- and its configuration.
use module_controller.Prelude.{
  ℕ, String, Bool, true, Option, none, some, ◌<>◌, ◌==◌, not, if◌then◌else◌,
}
use module_controller.Prelude.Int.{ℤ, pos, eqb_ℤ}
use module_controller.Go.Effect.{Error, Result, ok, err}
use module_controller.Go.Strconv.{itoa, atoi}

-- The message handlers of the tunnel, by name.
pub data Handler : Type 0 where
  heart_beat query_baseline health simple_biz all_biz biz_operation batch_install : Handler

abbrev pub qos0 : ℕ
qos0 = 0

abbrev pub qos1 : ℕ
qos1 = 1

-- paho's client after waiting for its token, on the state `W` of everything outside; none is a nil
-- error.
pub record Paho (W : Type 0) : Type 0 where
  pub connect : W → Option Error × W
  pub publish : String → ℕ → Bool → String → W → Option Error × W
  pub subscribe : String → ℕ → Handler → W → Option Error × W
  pub unsubscribe : String → W → W
  pub disconnect : ℕ → W → W

module _ {W : Type 0} (paho : Paho W) where
  unfoldable pub connect : W → Option Error × W
  connect = paho.connect

  -- Published messages are retained.
  unfoldable pub publish : String → ℕ → String → W → Option Error × W
  publish topic qos msg = paho.publish topic qos true msg

  unfoldable pub sub : String → ℕ → Handler → W → Option Error × W
  sub = paho.subscribe

  unfoldable pub unsub : String → W → W
  unsub = paho.unsubscribe

  unfoldable pub disconnect : W → W
  disconnect = paho.disconnect 200

pub record ClientConfig : Type 0 where
  pub broker : String
  pub port : ℤ
  pub client_id : String
  pub username : String
  pub password : String
  pub ca_path : String
  pub client_crt_path : String
  pub client_key_path : String
  pub clean_session : Bool
  -- in nanoseconds
  pub keep_alive : ℤ

-- What is set of tls.Config: the switch, the path of the authorities, and the paths of the key pair
-- if there is one. ClientAuth, which only a server reads, is left out.
pub record TlsConfig : Type 0 where
  pub insecure_skip_verify : Bool
  pub root_cas : String
  pub certificate : Option (String × String)

-- What is set of paho's options; the handlers are those of the configuration or the defaults, which
-- only log.
pub record ClientOptions : Type 0 where
  pub broker_url : String
  pub client_id : String
  pub username : String
  pub password : String
  pub tls : Option TlsConfig
  pub auto_reconnect : Bool
  pub keep_alive : ℤ
  pub clean_session : Bool

-- os.ReadFile and tls.LoadX509KeyPair, of which only the error matters here.
pub record Files : Type 0 where
  pub read_file : String → Option Error
  pub load_key_pair : String → String → Option Error

-- time.Minute * 3.
abbrev pub three_minutes : ℤ
three_minutes = pos 180000000000

abbrev pub options_for : ClientConfig → String → Option TlsConfig → ClientOptions
options_for cfg scheme tls = record {
  broker_url = scheme <> "://" <> cfg.broker <> ":" <> itoa cfg.port;
  client_id = cfg.client_id;
  username = cfg.username;
  password = cfg.password;
  tls = tls;
  auto_reconnect = true;
  keep_alive = if eqb_ℤ cfg.keep_alive (pos 0) then three_minutes else cfg.keep_alive;
  clean_session = cfg.clean_session;
}

abbrev pub with_tls : ClientConfig → Result TlsConfig → Result ClientOptions
with_tls cfg (err e) = err e
with_tls cfg (ok tls) = ok (options_for cfg "ssl" (some tls))

unfoldable pub with_key_pair : ClientConfig → Option Error → Result TlsConfig
with_key_pair cfg (some e) = err e
with_key_pair cfg none = ok (record {
  insecure_skip_verify = true;
  root_cas = cfg.ca_path;
  certificate = some (cfg.client_crt_path, cfg.client_key_path);
})

module _ (files : Files) where
  unfoldable pub with_authorities : ClientConfig → Option Error → Result TlsConfig
  unfolding with_key_pair
  with_authorities cfg (some e) = err e
  with_authorities cfg none =
      if not (cfg.client_crt_path == "")
      then with_key_pair cfg (files.load_key_pair cfg.client_crt_path cfg.client_key_path)
      else ok (record { insecure_skip_verify = true; root_cas = cfg.ca_path; certificate = none })

  unfoldable pub new_tls_config : ClientConfig → Result TlsConfig
  unfolding with_authorities
  new_tls_config cfg = with_authorities cfg (files.read_file cfg.ca_path)

  -- NewMqttClient, up to the call of ClientInitFunc with these options.
  unfoldable pub new_mqtt_client : ClientConfig → Result ClientOptions
  unfolding new_tls_config
  new_mqtt_client cfg =
      if not (cfg.ca_path == "")
      then with_tls cfg (new_tls_config cfg)
      else ok (options_for cfg "tcp" none)

pub record MqttConfig : Type 0 where
  pub mqtt_broker : String
  pub mqtt_port : ℤ
  pub mqtt_username : String
  pub mqtt_password : String
  pub mqtt_client_prefix : String
  pub mqtt_ca_path : String
  pub mqtt_client_crt_path : String
  pub mqtt_client_key_path : String

-- A port that does not parse leaves the zero value.
abbrev pub port_or_zero : Option ℤ → ℤ
port_or_zero none = pos 0
port_or_zero (some port) = port

-- The method `init`: `get_env` is virtual-kubelet's utils.GetEnv with its default, `os_get_env` is
-- os.Getenv.
unfoldable pub init : (String → String → String) → (String → String) → MqttConfig
unfolding atoi
init get_env os_get_env = record {
  mqtt_broker = get_env "MQTT_BROKER" "test-broker";
  mqtt_port = port_or_zero (atoi (get_env "MQTT_PORT" "1883"));
  mqtt_username = get_env "MQTT_USERNAME" "test-username";
  mqtt_password = os_get_env "MQTT_PASSWORD";
  mqtt_client_prefix = get_env "MQTT_CLIENT_PREFIX" "koupleless";
  mqtt_ca_path = os_get_env "MQTT_CA_PATH";
  mqtt_client_crt_path = os_get_env "MQTT_CLIENT_CRT_PATH";
  mqtt_client_key_path = os_get_env "MQTT_CLIENT_KEY_PATH";
}
