-- ===== src/Relay.antt =====
-- examples/h264-relay/main.go: UDP packets, stamped with the time, become messages of one subject.
-- A packet, or an error of the socket, is an event; its time and what befalls the publication stand beside
-- it. The counters are `uint64`. Log output is left out.
use kcpq.Client.{Client}
use kcpq.Client.Lifecycle.{publish, close}
use kcpq.Client.Reconnecting.{ConnectError, Dialed, connect, enable_auto_reconnect}
use kcpq.Protocol.Words.{put_uint64}
use kcpq.Settings.{RelayConfig}
use kcpq.Prelude.{
  ℕ, ◌+◌, ◌*◌, ◌%◌, ◌^◌, ◌⊎◌, inl, inr, Bool, true, false, not, Option, none, some, List, [], ◌∷◌,
  ◌++◌, Bytes, ◌==◌, if◌then◌else◌, length, second,
}

pub record Stats : Type 0 where
  pub total_frames : ℕ
  pub total_bytes : ℕ
  pub error_count : ℕ

abbrev pub count : ℕ → ℕ → ℕ
count n k = (n + k) % 2 ^ 64

pub record Relay : Type 0 where
  pub config : RelayConfig
  pub stats : Stats
  pub kcp_client : Option Client
  pub initialized : Bool
  -- the relay's own context
  pub cancelled : Bool

abbrev pub new_relay : RelayConfig → Relay
new_relay config = record {
  config = config;
  stats = record { total_frames = 0; total_bytes = 0; error_count = 0 };
  kcp_client = none;
  initialized = false;
  cancelled = false;
}

pub data StartError : Type 0 where
  bad_key : ℕ → StartError
  connect_failed : ConnectError → StartError

-- What `connectToKCPQ` does in h264-relay and in kcpq-to-nats.
unfoldable pub start_client :
    Bytes → (auto_reconnect : Bool) → ℕ → (cancelled : Bool) → Dialed → Client ⊎ StartError
start_client key auto_reconnect reconnect_interval cancelled answer =
    let interval = if reconnect_interval == 0 then 5 * second else reconnect_interval in
    if not (length key == 32)
    then inr (bad_key (length key))
    else elim (connect key cancelled answer) [
      | inr e ↦ inr (connect_failed e)
      | inl c ↦ inl (if auto_reconnect then enable_auto_reconnect interval c else c)
    ]

-- `connectToKCPQ`
unfoldable pub connect_to_kcpq : Dialed → Relay → Relay ⊎ StartError
connect_to_kcpq answer r =
    elim (start_client r.config.aes256_key r.config.auto_reconnect r.config.reconnect_interval
      r.cancelled answer) [
        | inr e ↦ inr e
        | inl c ↦ inl (record r { kcp_client = some c; initialized = true })
      ]

abbrev pub one_error : Relay → Relay
one_error r = record r { stats = record r.stats { error_count = count r.stats.error_count 1 } }

-- `publishToKCPQ`
unfoldable pub publish_to_kcpq : Bytes → ℕ → (write_fails : Bool) → Relay → Relay
publish_to_kcpq message frame_size write_fails r = elim r.kcp_client [
  | none ↦ one_error r
  | some c ↦
      let (c', e) = publish r.config.subject message r.cancelled write_fails c in
      let r' = record r { kcp_client = some c' } in
      if not r.initialized then one_error r else elim e [
        | some err ↦ one_error r'
        | none ↦ record r' {
          stats = record r.stats {
            total_frames = count r.stats.total_frames 1;
            total_bytes = count r.stats.total_bytes frame_size;
          };
        }
      ]
]

-- The message of a packet: the time in nanoseconds, then the packet.
unfoldable pub stamped : ℕ → Bytes → Bytes
stamped now packet = put_uint64 now ++ packet

pub data Event : Type 0 where
  timeout : Event
  read_error : Event
  packet : Bytes → (now : ℕ) → (write_fails : Bool) → Event

abbrev pub receive : Event → Relay → Relay
receive timeout r = r
receive read_error r = one_error r
receive (packet bytes now write_fails) r =
    publish_to_kcpq (stamped now bytes) (length bytes) write_fails r

-- The loop of `UDPReceiver`, which stops when the context is done.
unfoldable pub udp_receiver : List Event → Relay → Relay
unfolding publish_to_kcpq
udp_receiver [] r = r
udp_receiver (e ∷ es) r =
    let rest = udp_receiver es (receive e r) in if r.cancelled then r else rest

-- `Stop`
unfoldable pub stop : Relay → Relay
stop r = record r {
  cancelled = true;
  kcp_client = elim r.kcp_client [
    | none ↦ none
    | some c ↦ some (close (record c { cancelled = true }))
  ];
}
