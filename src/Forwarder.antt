-- ===== src/Forwarder.antt =====
-- examples/kcpq-to-nats/main.go: messages of one subject, without their time stamp, go to a NATS
-- server. The NATS library is not part of the repository: whether it takes a message is an argument,
-- and what it was given is listed. The counters are `uint64`. Log output is left out.
pub mod Passing
pub mod Starting
pub mod Life
mod Tests
mod LifeTests
use kcpq.Client.{Client, ClientMessage, SubId}
use kcpq.Client.Processing.{Channel}
use kcpq.Relay.{Stats, count}
use kcpq.Settings.{ForwarderConfig}
use kcpq.Prelude.{
  ℕ, ◌+◌, Bool, true, false, not, Option, none, some, List, [], ◌∷◌, ◌++◌, Bytes, ltb, ◌==◌,
  if◌then◌else◌, length, drop,
}

pub record Forwarder : Type 0 where
  pub config : ForwarderConfig
  pub stats : Stats
  pub kcp_client : Option Client
  pub nats_connected : Bool
  -- the channel of `UseChannelMode`
  pub msg_chan : Option Channel
  pub subscription : Option SubId
  -- what the NATS library was given, with its subject
  pub sent : List (Bytes × Bytes)
  pub cancelled : Bool

abbrev pub new_forwarder : ForwarderConfig → Forwarder
new_forwarder config = record {
  config = config;
  stats = record { total_frames = 0; total_bytes = 0; error_count = 0 };
  kcp_client = none;
  nats_connected = false;
  msg_chan = none;
  subscription = none;
  sent = [];
  cancelled = false;
}

abbrev pub one_error : Forwarder → Forwarder
one_error f = record f { stats = record f.stats { error_count = count f.stats.error_count 1 } }

-- `handleMessage`
unfoldable pub handle_message : ClientMessage → (nats_fails : Bool) → Forwarder → Forwarder
handle_message msg nats_fails f =
    let h264_data = drop 8 msg.body in
    if ltb (length msg.body) 8 then one_error f else if nats_fails then one_error f else record f {
      stats = record f.stats {
        total_frames = count f.stats.total_frames 1;
        total_bytes = count f.stats.total_bytes (length h264_data);
      };
      sent = f.sent ++ (f.config.nats_subject, h264_data) ∷ [];
    }

-- The loop of `handleMessagesFromChannel` over what the channel delivers, beside what NATS answers.
unfoldable pub handle_messages : List (ClientMessage × Bool) → Forwarder → Forwarder
unfolding handle_message
handle_messages [] f = f
handle_messages ((msg, nats_fails) ∷ msgs) f =
    let rest = handle_messages msgs (handle_message msg nats_fails f) in
    if f.cancelled then f else rest
