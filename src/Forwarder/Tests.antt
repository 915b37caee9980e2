-- ===== src/Forwarder/Tests.antt =====
-- examples/h264-relay and examples/kcpq-to-nats: a packet of two bytes, and a message without a time stamp.
use kcpq.Forwarder.{Forwarder, new_forwarder, handle_message, handle_messages}
use kcpq.Forwarder.Passing.{relayed_packet_is_forwarded}
use kcpq.Relay.{Relay, new_relay, packet, receive, connect_to_kcpq, start_client, count, stop}
use kcpq.Client.{ClientMessage}
use kcpq.Client.Delivery.{delivered}
use kcpq.Client.Reconnecting.{connected_client, dialed, connect, enable_auto_reconnect}
use kcpq.Crypto.{new_aes256_block_crypt}
use kcpq.Server.Publish.{msg_frame}
use kcpq.Settings.{default_relay_config, default_forwarder_config}
use kcpq.Protocol.{Message, cmd_pub, parsed, parse_with_remaining}
use kcpq.Prelude.{
  ◌≡◌, inl, refl, true, false, some, Bytes, codes, length, ◌++◌, ◌∷◌, [], List, Bool, arith, second,
  ◌*◌,
}

abbrev start : Relay
start = record (new_relay default_relay_config) {
  kcp_client = some (connected_client []);
  initialized = true;
}

abbrev forwarder : Forwarder
forwarder = new_forwarder default_forwarder_config

relayed_packet_is_forwarded_example :
    let r' = receive (packet (codes "ab") 7 false) start in
    (frame : Bytes) × (m : Message) × (m' : Message) × (r'.kcp_client
      ≡ some (record (connected_client []) { written = [] ++ frame ∷ [] }))
    × (r'.stats ≡ record start.stats {
      total_frames = count start.stats.total_frames 1;
      total_bytes = count start.stats.total_bytes (length (codes "ab"));
    })
    × (parse_with_remaining (frame ++ []) ≡ parsed m [])
    × (m.command ≡ cmd_pub)
    × (parse_with_remaining (msg_frame m ++ []) ≡ parsed m' [])
    × (handle_message (delivered m') false forwarder ≡ record forwarder {
      stats = record forwarder.stats {
        total_frames = count forwarder.stats.total_frames 1;
        total_bytes = count forwarder.stats.total_bytes (length (codes "ab"));
      };
      sent = forwarder.sent ++ (forwarder.config.nats_subject, codes "ab") ∷ [];
    })
relayed_packet_is_forwarded_example =
    relayed_packet_is_forwarded (codes "ab") [] 7 start (connected_client []) forwarder
      (omega arith) (omega arith) refl refl refl refl

abbrev short : ClientMessage
short = record { subject = codes "h264.stream"; body = codes "ab" }

abbrev whole : ClientMessage
whole = record { subject = codes "h264.stream"; body = codes "01234567ab" }

-- A short message, one that NATS takes and one that it does not.
abbrev three : List (ClientMessage × Bool)
three = (short, false) ∷ (whole, false) ∷ (whole, true) ∷ []

one_of_three : (handle_messages three forwarder).sent ≡ (codes "h264.stream", codes "ab") ∷ []
unfolding handle_messages handle_message
one_of_three = refl

abbrev keyed : Relay
keyed = new_relay (record default_relay_config {
  aes256_key = codes "0123456789abcdef" ++ codes "0123456789abcdef";
})

relay_connects :
    connect_to_kcpq dialed keyed
    ≡ inl (record keyed {
      kcp_client =
          some (enable_auto_reconnect (5 * second) (connected_client keyed.config.aes256_key));
      initialized = true;
    })
unfolding connect_to_kcpq start_client connect new_aes256_block_crypt
relay_connects = refl

stopped : (stop start).cancelled ≡ true
unfolding stop
stopped = refl
