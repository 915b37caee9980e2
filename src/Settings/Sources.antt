-- ===== src/Settings/Sources.antt =====
-- examples/h264-relay and examples/kcpq-to-nats: where a setting comes from.
use kcpq.Settings.{
  Environment, RelayFile, RelayConfig, ForwarderFile, ForwarderConfig, read_key, to_relay_config,
  to_forwarder_config, relay_settings, forwarder_settings,
}
use kcpq.Prelude.{◌<◌, ◌≡◌, inl, Option, none, some, Bytes, codes, length, arith}

module _ (decode_hex : Bytes → Option Bytes) (env : Environment) where
  -- The relay starts only with settings in which the key is what the hexadecimal setting decodes to, of 32
  -- bytes, and the intervals are positive; and a variable of the environment that is not empty is preferred
  -- to the file and to the defaults, for the server, the subject and the listening address.
  pub relay_settings_lem :
      (file : Option RelayFile) (c : RelayConfig)
      → relay_settings decode_hex env file ≡ inl c
      → (length c.aes256_key ≡ 32)
        × (decode_hex c.aes256_key_hex ≡ some c.aes256_key)
        × (0 < c.stats_interval)
        × (0 < c.reconnect_interval)
        × (0 < length (env (codes "KCPQ_SERVER")) → c.kcp_server_addr ≡ env (codes "KCPQ_SERVER"))
        × (0 < length (env (codes "KCPQ_SUBJECT")) → c.subject ≡ env (codes "KCPQ_SUBJECT"))
        × (0 < length (env (codes "UDP_LISTEN")) → c.udp_listen_addr ≡ env (codes "UDP_LISTEN"))
  unfolding relay_settings read_key to_relay_config
  relay_settings_lem none c e = ground arith
  relay_settings_lem (some f) c e = ground arith

  -- So does the forwarder, for both servers and both subjects.
  pub forwarder_settings_lem :
      (file : Option ForwarderFile) (c : ForwarderConfig)
      → forwarder_settings decode_hex env file ≡ inl c
      → (length c.aes256_key ≡ 32)
        × (decode_hex c.aes256_key_hex ≡ some c.aes256_key)
        × (0 < c.stats_interval)
        × (0 < c.reconnect_interval)
        × (0 < length (env (codes "KCPQ_SERVER")) → c.kcpq_server ≡ env (codes "KCPQ_SERVER"))
        × (0 < length (env (codes "KCPQ_SUBJECT")) → c.kcpq_subject ≡ env (codes "KCPQ_SUBJECT"))
        × (0 < length (env (codes "NATS_SERVER")) → c.nats_server ≡ env (codes "NATS_SERVER"))
        × (0 < length (env (codes "NATS_SUBJECT")) → c.nats_subject ≡ env (codes "NATS_SUBJECT"))
  unfolding forwarder_settings read_key to_forwarder_config
  forwarder_settings_lem none c e = ground arith
  forwarder_settings_lem (some f) c e = ground arith
