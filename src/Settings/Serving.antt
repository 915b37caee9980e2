-- ===== src/Settings/Serving.antt =====
-- The settings of examples/server (config.go and the start of `main`).
use kcpq.Settings.{Environment, KeyError, override, read_key}
use kcpq.Prelude.{◌<◌, ◌≡◌, ◌⊎◌, inl, inr, Option, none, some, [], Bytes, codes, length, arith}

-- `ConfigFile`, as the library fills it
record ServerFile : Type 0 where
  listen_addr : Bytes
  pprof_addr : Bytes
  aes256_key_hex : Bytes

-- `LoadConfig` behind the library's call
load_config : ServerFile → ServerFile
load_config f = record f {
  listen_addr = override f.listen_addr (codes ":4000");
  pprof_addr = override f.pprof_addr (codes "localhost:6060");
}

-- The settings of `main` where there is no file.
abbrev default_config : ServerFile
default_config = record {
  listen_addr = codes ":4000";
  pprof_addr = codes "localhost:6060";
  aes256_key_hex = [];
}

abbrev overrides : Environment → ServerFile → ServerFile
overrides env c = record c {
  listen_addr = override (env (codes "KCP_NATS_ADDR")) c.listen_addr;
  pprof_addr = override (env (codes "KCPQ_PPROF_ADDR")) c.pprof_addr;
  aes256_key_hex = override (env (codes "KCPQ_AES256_KEY_HEX")) c.aes256_key_hex;
}

-- `main` up to `NewServer`, with the key; `none` is no file.
server_settings :
    (Bytes → Option Bytes) → Environment → Option ServerFile → (ServerFile × Bytes) ⊎ KeyError
unfolding load_config
server_settings decode_hex env file =
    let loaded : ServerFile = elim file [ none ↦ default_config | some f ↦ load_config f ] in
    let c = overrides env loaded in
    elim (read_key decode_hex c.aes256_key_hex) [ inr e ↦ inr e | inl key ↦ inl (c, key) ]

-- The server is made only with a key of 32 bytes, what the hexadecimal setting decodes to, and with
-- addresses that are not empty; and a variable of the environment that is not empty is preferred to
-- the file and to the defaults.
server_settings_lem :
    (decode_hex : Bytes → Option Bytes) (env : Environment) (file : Option ServerFile)
    (c : ServerFile) (key : Bytes)
    → server_settings decode_hex env file ≡ inl (c, key)
    → (length key ≡ 32)
      × (decode_hex c.aes256_key_hex ≡ some key)
      × (0 < length c.listen_addr)
      × (0 < length c.pprof_addr)
      × (0 < length (env (codes "KCP_NATS_ADDR")) → c.listen_addr ≡ env (codes "KCP_NATS_ADDR"))
      × (0 < length (env (codes "KCPQ_PPROF_ADDR")) → c.pprof_addr ≡ env (codes "KCPQ_PPROF_ADDR"))
unfolding server_settings read_key load_config
server_settings_lem decode_hex env none c key e = ground arith
server_settings_lem decode_hex env (some f) c key e = ground arith
