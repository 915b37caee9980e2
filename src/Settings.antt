-- ===== src/Settings.antt =====
-- The settings of examples/h264-relay and examples/kcpq-to-nats (config.go and the start of `main` of
-- each). What the YAML library reads from a file, the environment and `hex.DecodeString` are
-- arguments. A duration is in nanoseconds; the numbers of a file are taken not to be negative, and its
-- intervals to fit an `int64`.
mod Serving
mod Sources
mod Tests
use kcpq.Prelude.{
  ℕ, ◌*◌, ◌+◌, ◌⊎◌, inl, inr, Bool, true, false, not, Option, none, some, List, [], ◌∷◌, Bytes,
  codes, ◌==◌, if◌then◌else◌, length, second,
}

-- `ConfigFile` of h264-relay, as the library fills it
pub record RelayFile : Type 0 where
  pub udp_listen : Bytes
  pub kcpq_server : Bytes
  pub subject : Bytes
  pub aes256_key_hex : Bytes
  pub stats_interval : ℕ
  pub buffer_size : ℕ
  pub auto_reconnect : Bool
  pub reconnect_interval : ℕ

pub record RelayConfig : Type 0 where
  pub udp_listen_addr : Bytes
  pub kcp_server_addr : Bytes
  pub subject : Bytes
  pub aes256_key_hex : Bytes
  pub aes256_key : Bytes
  pub reconnect_delay : ℕ
  pub stats_interval : ℕ
  pub buffer_size : ℕ
  pub auto_reconnect : Bool
  pub reconnect_interval : ℕ

abbrev pub or_default : ℕ → ℕ → ℕ
or_default value default = if value == 0 then default else value

-- `LoadConfig` behind the library's call, and `ToRelayConfig`.
unfoldable pub to_relay_config : RelayFile → RelayConfig
to_relay_config f = record {
  udp_listen_addr = f.udp_listen;
  kcp_server_addr = f.kcpq_server;
  subject = f.subject;
  aes256_key_hex = f.aes256_key_hex;
  aes256_key = [];
  reconnect_delay = 3 * second;
  stats_interval = or_default f.stats_interval 10 * second;
  buffer_size = or_default f.buffer_size (10 * 1024 * 1024);
  auto_reconnect = f.auto_reconnect;
  reconnect_interval = or_default f.reconnect_interval 5 * second;
}

-- The settings of `main` where there is no file.
abbrev pub default_relay_config : RelayConfig
default_relay_config = record {
  udp_listen_addr = codes ":22345";
  kcp_server_addr = codes "208.81.129.186:4000";
  subject = codes "h264.stream";
  aes256_key_hex = [];
  aes256_key = [];
  reconnect_delay = 3 * second;
  stats_interval = 10 * second;
  buffer_size = 10 * 1024 * 1024;
  auto_reconnect = true;
  reconnect_interval = 5 * second;
}

-- `if v := os.Getenv(name); v != ""`
abbrev pub override : Bytes → Bytes → Bytes
override value old = if length value == 0 then old else value

-- The environment, by the names of its variables.
abbrev pub Environment : Type 0
Environment = Bytes → Bytes

pub data KeyError : Type 0 where
  key_required : KeyError
  invalid_hex : KeyError
  bad_length : ℕ → KeyError

-- What each `main` asks of the key.
unfoldable pub read_key : (Bytes → Option Bytes) → Bytes → Bytes ⊎ KeyError
read_key decode_hex key_hex =
    if length key_hex == 0 then inr key_required else elim (decode_hex key_hex) [
      | none ↦ inr invalid_hex
      | some key ↦ if not (length key == 32) then inr (bad_length (length key)) else inl key
    ]

abbrev relay_overrides : Environment → RelayConfig → RelayConfig
relay_overrides env c = record c {
  kcp_server_addr = override (env (codes "KCPQ_SERVER")) c.kcp_server_addr;
  subject = override (env (codes "KCPQ_SUBJECT")) c.subject;
  udp_listen_addr = override (env (codes "UDP_LISTEN")) c.udp_listen_addr;
  aes256_key_hex = override (env (codes "KCPQ_AES256_KEY_HEX")) c.aes256_key_hex;
}

-- `main` of h264-relay up to the start of the relay; `none` is no file.
unfoldable pub relay_settings :
    (Bytes → Option Bytes) → Environment → Option RelayFile → RelayConfig ⊎ KeyError
relay_settings decode_hex env file =
    let loaded : RelayConfig = elim file [
      | none ↦ default_relay_config
      | some f ↦ to_relay_config f
    ] in
    let config = relay_overrides env loaded in
    elim (read_key decode_hex config.aes256_key_hex) [
      | inr e ↦ inr e
      | inl key ↦ inl (record config { aes256_key = key })
    ]

-- `ConfigFile` of kcpq-to-nats
pub record ForwarderFile : Type 0 where
  pub kcpq_server : Bytes
  pub kcpq_subject : Bytes
  pub nats_server : Bytes
  pub nats_subject : Bytes
  pub aes256_key_hex : Bytes
  pub stats_interval : ℕ
  pub auto_reconnect : Bool
  pub reconnect_interval : ℕ
  pub use_channel_mode : Bool

pub record ForwarderConfig : Type 0 where
  pub kcpq_server : Bytes
  pub kcpq_subject : Bytes
  pub nats_server : Bytes
  pub nats_subject : Bytes
  pub aes256_key_hex : Bytes
  pub aes256_key : Bytes
  pub reconnect_delay : ℕ
  pub stats_interval : ℕ
  pub auto_reconnect : Bool
  pub reconnect_interval : ℕ
  pub use_channel_mode : Bool

unfoldable pub to_forwarder_config : ForwarderFile → ForwarderConfig
to_forwarder_config f = record {
  kcpq_server = f.kcpq_server;
  kcpq_subject = f.kcpq_subject;
  nats_server = f.nats_server;
  nats_subject = f.nats_subject;
  aes256_key_hex = f.aes256_key_hex;
  aes256_key = [];
  reconnect_delay = 3 * second;
  stats_interval = or_default f.stats_interval 10 * second;
  auto_reconnect = f.auto_reconnect;
  reconnect_interval = or_default f.reconnect_interval 5 * second;
  use_channel_mode = f.use_channel_mode;
}

abbrev pub default_forwarder_config : ForwarderConfig
default_forwarder_config = record {
  kcpq_server = codes "208.81.129.186:4000";
  kcpq_subject = codes "h264.stream";
  nats_server = codes "nats://cctv.mba:4222";
  nats_subject = codes "h264.stream";
  aes256_key_hex = [];
  aes256_key = [];
  reconnect_delay = 3 * second;
  stats_interval = 10 * second;
  auto_reconnect = true;
  reconnect_interval = 5 * second;
  use_channel_mode = true;
}

abbrev forwarder_overrides : Environment → ForwarderConfig → ForwarderConfig
forwarder_overrides env c = record c {
  kcpq_server = override (env (codes "KCPQ_SERVER")) c.kcpq_server;
  kcpq_subject = override (env (codes "KCPQ_SUBJECT")) c.kcpq_subject;
  nats_server = override (env (codes "NATS_SERVER")) c.nats_server;
  nats_subject = override (env (codes "NATS_SUBJECT")) c.nats_subject;
  aes256_key_hex = override (env (codes "KCPQ_AES256_KEY_HEX")) c.aes256_key_hex;
}

-- `main` of kcpq-to-nats up to the start of the forwarder.
unfoldable pub forwarder_settings :
    (Bytes → Option Bytes) → Environment → Option ForwarderFile → ForwarderConfig ⊎ KeyError
forwarder_settings decode_hex env file =
    let loaded : ForwarderConfig = elim file [
      | none ↦ default_forwarder_config
      | some f ↦ to_forwarder_config f
    ] in
    let config = forwarder_overrides env loaded in
    elim (read_key decode_hex config.aes256_key_hex) [
      | inr e ↦ inr e
      | inl key ↦ inl (record config { aes256_key = key })
    ]
