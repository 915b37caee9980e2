-- ===== src/Settings/Tests.antt =====
-- The settings of the examples: a relay without a file, whose environment gives a server and a key.
use kcpq.Settings.{
  Environment, RelayConfig, ForwarderConfig, relay_settings, forwarder_settings, read_key,
  default_relay_config, default_forwarder_config,
}
use kcpq.Prelude.{◌≡◌, inl, refl, Option, none, some, Bytes, codes, beq, if◌then◌else◌, ◌++◌}

abbrev key : Bytes
key = codes "0123456789abcdef" ++ codes "0123456789abcdef"

-- A decoder that knows one text.
abbrev decode : Bytes → Option Bytes
decode text = if beq text (codes "k") then some key else none

abbrev env : Environment
env name =
    if beq name (codes "KCPQ_AES256_KEY_HEX")
    then codes "k"
    else if beq name (codes "KCPQ_SERVER")
    then codes "host:1"
    else codes ""

abbrev relay : RelayConfig
relay = record default_relay_config {
  kcp_server_addr = codes "host:1";
  aes256_key_hex = codes "k";
  aes256_key = key;
}

relay_starts : relay_settings decode env none ≡ inl relay
unfolding relay_settings read_key beq
relay_starts = refl

abbrev forwarder : ForwarderConfig
forwarder = record default_forwarder_config {
  kcpq_server = codes "host:1";
  aes256_key_hex = codes "k";
  aes256_key = key;
}

forwarder_starts : forwarder_settings decode env none ≡ inl forwarder
unfolding forwarder_settings read_key beq
forwarder_starts = refl
