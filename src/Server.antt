-- ===== src/Server.antt =====
-- server/server.go, with the handlers of server/session.go that change the server's state: the router,
-- the set of sessions and the sessions themselves. A handler is one step, as the router's lock and the
-- session's lock serialise the parts that meet. Log and debug output, deadlines, `lastPing` and the KCP
-- connection are left out; what a connection delivers is a `Reader` of Protocol.
pub mod Sync
pub mod Flags
pub mod Publish
pub mod Order
pub mod Replies
pub mod Lifecycle
pub mod ReadLoop
pub mod Queues
pub mod Running
pub mod Stopping
pub mod Races
mod Tests
use kcpq.Prelude.{
  ℕ, zero, suc, ◌⊎◌, inl, inr, ◌+◌, ◌*◌, Bool, true, false, ◌&&◌, ◌||◌, not, Option, none, some,
  List, [], ◌∷◌, ◌++◌, Bytes, codes, beq, ◌==◌, ltb, if◌then◌else◌, length,
}
use kcpq.Crypto.{CryptError, new_aes256_block_crypt}
use kcpq.Protocol.{
  Message, new_message_cmd, encode, cmd_sub, cmd_unsub, cmd_pub, cmd_ping, cmd_msg, Parsed, parsed,
  refused, Reader, parse_from_reader,
}
use kcpq.Router
use kcpq.Router.{Router}
use kcpq.Subscriptions.{SessionId, contains}
use kcpq.Session.{
  Session, Limits, SendError, new_session, send_ok, send_error, send_pong, send_encoded,
}

pub record Server : Type 0 where
  pub router : Router
  -- the keys of the map `sessions`
  pub sessions : List SessionId
  -- every session that was created, by its pointer
  pub session : SessionId → Session
  pub limits : Limits
  pub done : Bool

-- What `NewServer` returns with a good key; the sessions are those that will be created.
abbrev pub fresh_server : Server
fresh_server = record {
  router = Router.new_router;
  sessions = [];
  session = λ id. new_session none;
  limits = record { session_out_chan_cap = 1024; max_session_queued_bytes = 32 * 1024 * 1024 };
  done = false;
}

-- `NewServer`; the test says whether the library refuses the key.
pub new_server : Bytes → Bool → Server ⊎ CryptError
new_server key key_refused = elim (new_aes256_block_crypt key key_refused) [
  | some e ↦ inr e
  | none ↦ inl fresh_server
]

abbrev pub update : (SessionId → Session) → SessionId → Session → SessionId → Session
update f id s j = if id == j then s else f j

-- `subjects` holds the subject.
unfoldable pub has_subject : Bytes → List Bytes → Bool
has_subject subject [] = false
has_subject subject (sub ∷ subs) = if beq sub subject then true else has_subject subject subs

-- `filtered` of `handleUnsubscribe`
unfoldable pub other_subjects : Bytes → List Bytes → List Bytes
other_subjects subject [] = []
other_subjects subject (sub ∷ subs) =
    if not (beq sub subject) then sub ∷ other_subjects subject subs else other_subjects subject subs

unfoldable pub handle_subscribe : Message → SessionId → Server → Server
handle_subscribe msg id w =
    let s = w.session id in
    let fresh = not (has_subject msg.subject s.subjects) in
    let s' : Session =
      if fresh then record s { subjects = s.subjects ++ msg.subject ∷ [] } else s in
    let answered = (send_ok (codes "subscribed to " ++ msg.subject) s').0 in
    record w {
      router = if fresh then Router.subscribe msg.subject id w.router else w.router;
      session = update w.session id answered;
    }

pub handle_unsubscribe : Message → SessionId → Server → Server
handle_unsubscribe msg id w =
    let s = w.session id in
    let s' : Session = record s { subjects = other_subjects msg.subject s.subjects } in
    let answered = (send_ok (codes "unsubscribed from " ++ msg.subject) s').0 in
    record w {
      router = Router.unsubscribe msg.subject id w.router;
      session = update w.session id answered;
    }

-- `for _, sub := range subscribers { sub.SendEncoded(encoded) }`; a failure is logged
unfoldable pub send_to_all : Bytes → List SessionId → (SessionId → Session) → SessionId → Session
send_to_all encoded [] f = f
send_to_all encoded (id ∷ ids) f =
    send_to_all encoded ids (update f id (send_encoded encoded (f id)).0)

pub handle_publish : Message → Server → Server
handle_publish msg w =
    let subscribers = Router.find_subscribers msg.subject w.router in
    let encoded = encode (new_message_cmd cmd_msg msg.subject msg.payload) in
    record w { session = send_to_all encoded subscribers w.session }

pub handle_ping : SessionId → Server → Server × Option SendError
handle_ping id w =
    let (s, e) = send_pong (w.session id) in (record w { session = update w.session id s }, e)

pub data HandleError : Type 0 where
  unknown_command : ℕ → HandleError
  send_failed : SendError → HandleError

abbrev pub send_result : Option SendError → Option HandleError
send_result none = none
send_result (some e) = some (send_failed e)

unfoldable pub handle_message : Message → SessionId → Server → Server × Option HandleError
handle_message msg id w =
    if msg.command == cmd_sub
    then (handle_subscribe msg id w, none)
    else if msg.command == cmd_unsub
    then (handle_unsubscribe msg id w, none)
    else if msg.command == cmd_pub
    then (handle_publish msg w, none)
    else if msg.command == cmd_ping
    then (let (w', e) = handle_ping id w in (w', send_result e))
    else (w, some (unknown_command msg.command))

-- `Session.Close`: `closed` is what `closeOnce` remembers.
pub close_session : SessionId → Server → Server
close_session id w =
    let s = w.session id in
    if s.closed then w else record w {
      router = Router.remove_session id w.router;
      sessions = Router.without id w.sessions;
      session = update w.session id (record s { closed = true });
    }

-- `Session.Close` called by a goroutine that may hold the server's lock `mu` already: `removeSession`
-- takes it, and a lock of Go is not taken twice by one goroutine. `none` is blocked for ever.
pub close_session_under : Bool → SessionId → Server → Option Server
close_session_under holds_mu id w =
    if (w.session id).closed then some w else if holds_mu then none else some (close_session id w)

-- The loop of `Server.Close` over the sessions, which runs with `mu` held.
pub close_sessions : List SessionId → Server → Option Server
close_sessions [] w = some w
close_sessions (id ∷ ids) w = elim (close_session_under true id w) [
  | none ↦ none
  | some w' ↦ close_sessions ids (record w' { sessions = Router.without id w'.sessions })
]

-- `Server.Close`; `done` is what `closeOnce` remembers.
pub close_server : Server → Option Server
close_server w = if w.done then some w else close_sessions w.sessions (record w { done = true })

-- `handle error: %s`; the text of the error is the parameter `describe`
unfoldable pub handle_and_report : (HandleError → Bytes) → Message → SessionId → Server → Server
handle_and_report describe msg id w =
    let (w', e) = handle_message msg id w in
    elim e [
      | none ↦ w'
      | some err ↦
          let s' = (send_error (codes "handle error: " ++ describe err) (w'.session id)).0 in
          record w' { session = update w'.session id s' }
    ]

-- In one round of the read loop: whether the goroutine that a full queue started by `go s.Close()` has run
-- when the loop looks at `done`, and when it has read a message. Where that goroutine runs during the
-- read and makes it fail, the loop ends as if it had run before.
pub record Round : Type 0 where
  pub at_look : Bool
  pub after_read : Bool

-- `go s.Close()`, if it was started and runs now.
unfoldable pub close_started : (runs : Bool) → SessionId → Server → Server
close_started runs id w = if (w.session id).closing && runs then close_session id w else w

-- The loop of `Session.Start` over what the connection delivers: `fuel` rounds at most, the session
-- closed when the loop ends. A session that is closed meanwhile ends it through `done`. `rounds` says, by
-- the fuel left, when a started `Close` of the session runs.
pub read_loop : ℕ → (ℕ → Round) → (HandleError → Bytes) → SessionId → Reader → Server → Server
read_loop zero rounds describe id r w = w
read_loop (suc fuel) rounds describe id r w =
    let w1 = close_started (rounds fuel).at_look id w in
    if (w1.session id).closed then w1 else elim (parse_from_reader r) [
      | refused e r' ↦ close_session id w1
      | parsed msg r' ↦
          let w2 = close_started (rounds fuel).after_read id w1 in
          read_loop fuel rounds describe id r' (handle_and_report describe msg id w2)
    ]

-- `acceptLoop`, one connection accepted, under a pointer that is not in use.
pub accept : SessionId → Server → Server
accept id w = record w {
  sessions = id ∷ Router.without id w.sessions;
  session = update w.session id (new_session (some w.limits));
}

pub set_session_backpressure : (max_queued_bytes out_chan_cap : ℕ) → Server → Server
set_session_backpressure max_queued_bytes out_chan_cap w =
    let l = w.limits in
    record w {
      limits = record {
        session_out_chan_cap = if ltb 0 out_chan_cap then out_chan_cap else l.session_out_chan_cap;
        max_session_queued_bytes =
            if ltb 0 max_queued_bytes then max_queued_bytes else l.max_session_queued_bytes;
      };
    }

pub record ServerStats : Type 0 where
  pub connections : ℕ
  pub subjects : ℕ
  pub total_subscriptions : ℕ

pub get_stats : Server → ServerStats
get_stats w = record {
  connections = length w.sessions;
  subjects = Router.get_subject_count w.router;
  total_subscriptions = Router.get_total_subscriptions w.router;
}
