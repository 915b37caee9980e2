-- ===== src/Session.antt =====
-- server/session.go: the outgoing side of a session: its queue, its limits and what it sends.
-- `queuedBytes` is a number (Session/Queue shows that it never falls below 0); `go s.Close()` sets
-- `closing`, and `Close` itself, which `closeOnce` runs once, is a step of the server (Server.antt), which
-- comes at any time after that.
-- A method is one step here; Session/Interleaving takes `enqueueEncoded` and the writer apart.
pub mod Utf8
pub mod Queue
pub mod Interleaving
pub mod Replies
mod Tests
use Utf8.{truncate_utf8}
use kcpq.Prelude.{
  ℕ, suc, ◌+◌, ◌-◌, ◌*◌, Bool, true, false, ◌&&◌, Option, none, some, List, [], ◌∷◌, ◌++◌, Bytes,
  ltb, ◌==◌, if◌then◌else◌, length,
}
use kcpq.Protocol.{
  Message, new_message_cmd, encode, max_subject_len, max_body_len, cmd_msg, cmd_ok, cmd_err,
  cmd_pong,
}

pub record Session : Type 0 where
  pub subjects : List Bytes
  pub out_chan : List Bytes
  pub out_cap : ℕ
  pub queued_bytes : ℕ
  pub max_queued_bytes : ℕ
  pub closed : Bool
  pub closing : Bool

-- The limits of the server that `NewSession` reads, in bytes and frames.
pub record Limits : Type 0 where
  pub session_out_chan_cap : ℕ
  pub max_session_queued_bytes : ℕ

-- `none` is a session without a server.
unfoldable pub new_session : Option Limits → Session
new_session server =
    let out_cap : ℕ = elim server [
      | none ↦ 1024
      | some l ↦ if ltb 0 l.session_out_chan_cap then l.session_out_chan_cap else 1024
    ] in
    let max_queued : ℕ = elim server [
      | none ↦ 32 * 1024 * 1024
      | some l ↦
          if ltb 0 l.max_session_queued_bytes then l.max_session_queued_bytes else 32 * 1024 * 1024
    ] in
    record {
      subjects = [];
      out_chan = [];
      out_cap = out_cap;
      queued_bytes = 0;
      max_queued_bytes = max_queued;
      closed = false;
      closing = false;
    }

pub data SendError : Type 0 where
  session_closed : SendError
  subject_too_long : ℕ → SendError
  message_too_large : SendError
  encoded_too_large : SendError
  backpressure_limit_exceeded : SendError
  send_queue_full : SendError

-- What a method that sends returns: the session after it, and its `error`, `none` for nil.
abbrev pub Sent : Type 0
Sent = Session × Option SendError

unfoldable pub enqueue_encoded : Bytes → Session → Sent
enqueue_encoded encoded s =
    let next = s.queued_bytes + length encoded in
    if s.closed
    then (s, some session_closed)
    else if ltb 0 s.max_queued_bytes && ltb s.max_queued_bytes next
    then (record s { closing = true }, some backpressure_limit_exceeded)
    else if ltb (length s.out_chan) s.out_cap
    then (record s { queued_bytes = next; out_chan = s.out_chan ++ encoded ∷ [] }, none)
    else (record s { queued_bytes = next - length encoded; closing = true }, some send_queue_full)

unfoldable pub send_message : Bytes → Bytes → Session → Sent
send_message subject payload s =
    if s.closed
    then (s, some session_closed)
    else if ltb max_subject_len (length subject)
    then (s, some (subject_too_long (length subject)))
    else if ltb max_body_len (1 + 2 + length subject + length payload)
    then (s, some message_too_large)
    else enqueue_encoded (encode (new_message_cmd cmd_msg subject payload)) s

unfoldable pub send_encoded : Bytes → Session → Sent
send_encoded encoded s =
    if s.closed
    then (s, some session_closed)
    else if ltb (max_body_len + 4) (length encoded)
    then (s, some encoded_too_large)
    else enqueue_encoded encoded s

unfoldable pub send_ok : Bytes → Session → Sent
send_ok text s =
    if s.closed
    then (s, some session_closed)
    else enqueue_encoded (encode (new_message_cmd cmd_ok (truncate_utf8 text max_subject_len) [])) s

unfoldable pub send_error : Bytes → Session → Sent
send_error text s =
    if s.closed
    then (s, some session_closed)
    else enqueue_encoded (encode (new_message_cmd cmd_err (truncate_utf8 text max_subject_len) []))
        s

unfoldable pub send_pong : Session → Sent
send_pong s =
    if s.closed
    then (s, some session_closed)
    else enqueue_encoded (encode (new_message_cmd cmd_pong [] [])) s

-- One round of the write loop: what it hands to `conn.Write`, if the queue holds a frame.
unfoldable pub write_next : Session → Session × Option Bytes
write_next s = elim s.out_chan [
  | [] ↦ (s, none)
  | frame ∷ rest ↦
      (record s { out_chan = rest; queued_bytes = s.queued_bytes - length frame }, some frame)
]
