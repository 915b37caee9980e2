-- ===== src/Forwarder/Passing.antt =====
-- examples/h264-relay and examples/kcpq-to-nats together: what becomes of a packet.
use kcpq.Forwarder.{Forwarder, handle_message, handle_messages}
use kcpq.Relay.{Relay, packet, receive, stamped, publish_to_kcpq, count}
use kcpq.Client.{Client, ClientMessage}
use kcpq.Client.Delivery.{delivered}
use kcpq.Client.Lifecycle.{publish}
use kcpq.Server.Publish.{msg_frame}
use kcpq.Protocol.{
  Message, new_message_cmd, encode, cmd_pub, cmd_msg, parsed, parse_with_remaining, max_subject_len,
}
use kcpq.Protocol.RoundTrip.{IsSendable, parse_with_remaining-encode}
use kcpq.Protocol.Words.{put_uint64, put_uint32}
use kcpq.Prelude.{
  ℕ, ◌+◌, ◌^◌, ◌≤◌, ◌<◌, ◌≡◌, refl, Bool, true, false, some, List, [], ◌∷◌, ◌++◌, Bytes, length,
  drop, arith, length-append,
}

length-stamped : (now : ℕ) (bytes : Bytes) → length (stamped now bytes) ≡ 8 + length bytes
unfolding stamped put_uint64 put_uint32
length-stamped now bytes = omega arith

drop-stamped : (now : ℕ) (bytes : Bytes) → drop 8 (stamped now bytes) ≡ bytes
unfolding stamped put_uint64 put_uint32
drop-stamped now bytes = refl

-- A message with any time stamp is passed on without it, and counted by its length.
handle_message-stamped :
    (now : ℕ) (bytes subject : Bytes) (f : Forwarder)
    → let msg : ClientMessage = record { subject = subject; body = stamped now bytes } in
      handle_message msg false f ≡ record f {
        stats = record f.stats {
          total_frames = count f.stats.total_frames 1;
          total_bytes = count f.stats.total_bytes (length bytes);
        };
        sent = f.sent ++ (f.config.nats_subject, bytes) ∷ [];
      }
unfolding handle_message
handle_message-stamped now bytes subject f =
    ground (arith, length-stamped now bytes, drop-stamped now bytes)

-- Every packet that the socket can deliver passes unchanged from the relay to the NATS server. A relay
-- that is connected and not stopped, with a subject within the limit, writes one frame for a packet of
-- at most 65536 bytes, and counts it; the server reads that frame as a PUB message; the frame that it
-- sends for this message is read by the client as one whose payload the forwarder hands to NATS, if
-- NATS takes it, as exactly the packet, under the configured subject, and counts as the relay did.
pub relayed_packet_is_forwarded :
    (bytes rest : Bytes) (now : ℕ) (r : Relay) (c : Client) (f : Forwarder)
    → length bytes ≤ 65536
    → length r.config.subject ≤ max_subject_len
    → r.kcp_client ≡ some c
    → r.initialized ≡ true
    → r.cancelled ≡ false
    → c.has_conn ≡ true
    → let r' = receive (packet bytes now false) r in
      (frame : Bytes) × (m : Message) × (m' : Message) × (r'.kcp_client
        ≡ some (record c { written = c.written ++ frame ∷ [] }))
      × (r'.stats ≡ record r.stats {
        total_frames = count r.stats.total_frames 1;
        total_bytes = count r.stats.total_bytes (length bytes);
      })
      × (parse_with_remaining (frame ++ rest) ≡ parsed m rest)
      × (m.command ≡ cmd_pub)
      × (parse_with_remaining (msg_frame m ++ rest) ≡ parsed m' rest)
      × (handle_message (delivered m') false f ≡ record f {
        stats = record f.stats {
          total_frames = count f.stats.total_frames 1;
          total_bytes = count f.stats.total_bytes (length bytes);
        };
        sent = f.sent ++ (f.config.nats_subject, bytes) ∷ [];
      })
unfolding publish_to_kcpq publish
relayed_packet_is_forwarded bytes rest now r c f small fits has_client ready running online = (
  encode m,
  m,
  m',
  ground (arith, length-stamped now bytes),
  ground (arith, length-stamped now bytes),
  parse_with_remaining-encode m rest sendable,
  refl,
  parse_with_remaining-encode m' rest sendable',
  handle_message-stamped now bytes r.config.subject f,
)
  where
    m : Message
    m = new_message_cmd cmd_pub r.config.subject (stamped now bytes)

    m' : Message
    m' = new_message_cmd cmd_msg r.config.subject (stamped now bytes)

    sendable : IsSendable m
    sendable = omega (arith, length-stamped now bytes)

    sendable' : IsSendable m'
    sendable' = omega (arith, length-stamped now bytes)

-- The forwarder, whatever messages it gets and whatever NATS answers: each message is counted as a frame or
-- as an error, as long as the counters do not wrap, and NATS was given as many as there are frames counted.
pub handle_messages-counts :
    (msgs : List (ClientMessage × Bool)) (f : Forwarder)
    → f.cancelled ≡ false
    → f.stats.total_frames + length msgs < 2 ^ 64
    → f.stats.error_count + length msgs < 2 ^ 64
    → let f' = handle_messages msgs f in
      (f'.stats.total_frames + f'.stats.error_count
        ≡ f.stats.total_frames + f.stats.error_count + length msgs)
      × (length f'.sent + f.stats.total_frames ≡ length f.sent + f'.stats.total_frames)
unfolding handle_messages handle_message
handle_messages-counts [] f h1 h2 h3 = ground arith
handle_messages-counts ((msg, nats_fails) ∷ msgs) f h1 h2 h3 = ground (
  arith,
  handle_messages-counts msgs (handle_message msg nats_fails f),
  length-append f.sent ((f.config.nats_subject, drop 8 msg.body) ∷ []),
)
