-- ===== src/MqttTunnel/Start/Laws.antt =====
-- When Start panics.
use mathlib.Core.Option.{none-ne-some}
use module_controller.Prelude.{
  String, ◌≡◌, ◌≢◌, ◌∙◌, sym, refl, Option, none, some, ◌==◌, eq_iff, Bool-cases, inl, inr, ◌↔◌,
  arith,
}
use module_controller.Go.Effect.{returns, panics, Result, ok, err, Error}
use module_controller.MqttClient.{
  MqttConfig, ClientConfig, ClientOptions, Files, new_mqtt_client, new_tls_config, Paho, connect,
  with_tls, with_authorities, with_key_pair,
}
use module_controller.MqttTunnel.{MqttTunnel}
use module_controller.MqttTunnel.Start.{client_config, made, connect_client, connected, start}

-- The files of a configuration that has the path of authorities cannot be read: the authorities, or
-- the key pair if one is configured.
pub data Unreadable (files : Files) (ca crt key : String) : Type 0 where
  authorities : (e : Error) → ca ≢ "" → files.read_file ca ≡ some e → Unreadable files ca crt key
  key_pair :
      (e : Error)
      → ca ≢ ""
      → files.read_file ca ≡ none
      → crt ≢ ""
      → files.load_key_pair crt key ≡ some e
      → Unreadable files ca crt key

-- How NewMqttClient ends, and why.
data Ends (files : Files) (cfg : ClientConfig) : Result ClientOptions → Type 0 where
  fails :
      (e : Error)
      → Unreadable files cfg.ca_path cfg.client_crt_path cfg.client_key_path
      → Ends files cfg (err e)
  makes :
      (o : ClientOptions)
      → ¬ (Unreadable files cfg.ca_path cfg.client_crt_path cfg.client_key_path)
      → Ends files cfg (ok o)

module _ (files : Files) (ca crt key : String) where
  plain-readable : ca ≡ "" → ¬ (Unreadable files ca crt key)
  plain-readable plain (authorities e n r) = n plain
  plain-readable plain (key_pair e n r n' l) = n plain

  no_pair-readable : files.read_file ca ≡ none → crt ≡ "" → ¬ (Unreadable files ca crt key)
  no_pair-readable read empty (authorities e n r) = none-ne-some e (sym read ∙ r)
  no_pair-readable read empty (key_pair e n r n' l) = n' empty

  pair-readable :
      files.read_file ca ≡ none
      → files.load_key_pair crt key ≡ none
      → ¬ (Unreadable files ca crt key)
  pair-readable read loaded (authorities e n r) = none-ne-some e (sym read ∙ r)
  pair-readable read loaded (key_pair e n r n' l) = none-ne-some e (sym loaded ∙ l)

module _ (files : Files) (cfg : ClientConfig) where
  pair-Ends :
      (loaded : Option Error)
      → cfg.ca_path ≢ ""
      → files.read_file cfg.ca_path ≡ none
      → cfg.client_crt_path ≢ ""
      → files.load_key_pair cfg.client_crt_path cfg.client_key_path ≡ loaded
      → Ends files cfg (with_tls cfg (with_key_pair cfg loaded))
  unfolding with_key_pair
  pair-Ends (some e) n r n' l = fails e (key_pair e n r n' l)
  pair-Ends none n r n' l = makes _ (pair-readable files _ _ _ r l)

  authorities-Ends :
      (read : Option Error)
      → cfg.ca_path ≢ ""
      → files.read_file cfg.ca_path ≡ read
      → Ends files cfg (with_tls cfg (with_authorities files cfg read))
  unfolding with_authorities
  authorities-Ends (some e) n r = fails e (authorities e n r)
  authorities-Ends none n r = elim (Bool-cases (cfg.client_crt_path == "")) [
    | inl empty ↦ rw empty (makes _ (no_pair-readable files _ _ _ r ((eq_iff _ _).0 empty)))
    | inr given ↦ rw given (pair-Ends _ n r (λ e. ground (arith, given, (eq_iff _ _).1 e)) refl)
  ]

  new_mqtt_client-Ends : Ends files cfg (new_mqtt_client files cfg)
  unfolding new_mqtt_client new_tls_config
  new_mqtt_client-Ends = elim (Bool-cases (cfg.ca_path == "")) [
    | inl plain ↦ rw plain (makes _ (plain-readable files _ _ _ ((eq_iff _ _).0 plain)))
    | inr given ↦ rw given (authorities-Ends _ (λ e. ground (arith, given, (eq_iff _ _).1 e)) refl)
  ]

module _ {W : Type 0} (files : Files) (base_client : ClientOptions → Paho W) where
  connected-returns :
      (t : MqttTunnel W) (e : Option Error) (w : W)
      → (connected files base_client t (returns e, w)).0 ≢ panics
  connected-returns t none w = cc
  connected-returns t (some e) w = cc

  panics_iff :
      (cfg : ClientConfig) (t : MqttTunnel W) (w : W) (r : Result ClientOptions)
      → Ends files cfg r
      → ((connected files base_client t
            (connect_client files base_client (made files base_client r).0 w)).0
          ≡ panics)
        ↔ Unreadable files cfg.ca_path cfg.client_crt_path cfg.client_key_path
  unfolding connect_client connect
  panics_iff cfg t w (err e) (fails e' u) = (λ p. u, λ u'. refl)
  panics_iff cfg t w (ok o) (makes o' n) =
      (λ p. absurd (connected-returns t _ _ p), λ u. absurd (n u))

  -- Start panics exactly if the configuration has a path of authorities and the authorities, or the
  -- key pair if a certificate is configured, cannot be read: the error of NewMqttClient is lost, and
  -- Connect is called on a nil client.
  pub start_panics_iff :
      (c : MqttConfig) (client_id env : String) (t : MqttTunnel W) (w : W)
      → ((start files base_client c client_id env t w).0 ≡ panics)
        ↔ Unreadable files c.mqtt_ca_path c.mqtt_client_crt_path c.mqtt_client_key_path
  unfolding start client_config
  start_panics_iff c client_id env t w =
      panics_iff (client_config c client_id) _ w _
        (new_mqtt_client-Ends files (client_config c client_id))
