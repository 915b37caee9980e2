-- ===== src/Server/Races.antt =====
-- server/session.go and server/server.go with the handlers and `Close` cut where other goroutines can come
-- between: at the session's lock, at the router's lock, at every send and at the server's lock. A step is
-- what one goroutine does between two such points.
pub mod Invariant
pub mod Handling
pub mod Soundness
pub mod Whole
mod Tests
use kcpq.Server.{
  Server, HandleError, unknown_command, send_failed, update, has_subject, other_subjects,
  handle_ping, accept, fresh_server, set_session_backpressure,
}
use kcpq.Router
use kcpq.Subscriptions.{SessionId}
use kcpq.Session.{Session, SendError, send_ok, send_error, send_pong, send_encoded, write_next}
use kcpq.Protocol.{Message, new_message_cmd, encode, cmd_sub, cmd_unsub, cmd_pub, cmd_ping, cmd_msg}
use kcpq.Protocol.RoundTrip.{IsSendable}
use kcpq.Prelude.{
  ℕ, ◌≡◌, Bool, true, false, not, ◌||◌, Option, none, some, List, [], ◌∷◌, ◌++◌, Bytes, codes, beq,
  ◌==◌, if◌then◌else◌,
}

-- Where the read loop of a session stands.
pub data Activity : Type 0 where
  resting : Activity
  -- listed by the session, not yet by the router
  entering : (subject : Bytes) → Activity
  -- no longer listed by the session, perhaps still by the router
  leaving : (subject : Bytes) → Activity
  answering : (text : Bytes) → Activity
  sending : (encoded : Bytes) → List SessionId → Activity
  reporting : HandleError → Activity

-- How far a session is: not accepted yet, open, or with the first, the second or all actions of its
-- `Close` done.
pub data Stage : Type 0 where
  unborn alive marked removed forgotten : Stage

abbrev pub is_marked : Stage → Bool
is_marked unborn = false
is_marked alive = false
is_marked marked = true
is_marked removed = true
is_marked forgotten = true

abbrev pub is_removed : Stage → Bool
is_removed unborn = false
is_removed alive = false
is_removed marked = false
is_removed removed = true
is_removed forgotten = true

abbrev pub is_listed : Stage → Bool
is_listed unborn = false
is_listed alive = true
is_listed marked = true
is_listed removed = true
is_listed forgotten = false

abbrev pub is_unborn : Stage → Bool
is_unborn unborn = true
is_unborn alive = false
is_unborn marked = false
is_unborn removed = false
is_unborn forgotten = false

pub record Racing : Type 0 where
  pub server : Server
  pub activity : SessionId → Activity
  pub stage : SessionId → Stage
  -- the router was given a subscription of the session after its `Close` had removed it there
  pub late : SessionId → Bool

abbrev pub set {ℓ} : {A : Type ℓ} → (SessionId → A) → SessionId → A → SessionId → A
set f id a j = if id == j then a else f j

-- A read loop goes on to another place.
abbrev pub move : SessionId → Activity → Racing → Racing
move id a r = record r { activity = set r.activity id a }

-- So it does, and a session changes.
abbrev pub replace : SessionId → Session → SessionId → Activity → Racing → Racing
replace k s id a r = record r {
  server = record r.server { session = update r.server.session k s };
  activity = set r.activity id a;
}

abbrev pub after_pong : Option SendError → Activity
after_pong none = resting
after_pong (some e) = reporting (send_failed e)

-- The first action of a handler.
unfoldable pub begin : Message → SessionId → Racing → Racing
begin msg id r =
    let s = r.server.session id in
    let listed : Session = record s { subjects = s.subjects ++ msg.subject ∷ [] } in
    let unlisted : Session = record s { subjects = other_subjects msg.subject s.subjects } in
    let encoded = encode (new_message_cmd cmd_msg msg.subject msg.payload) in
    let pong = send_pong s in
    if msg.command == cmd_sub
    then (if has_subject msg.subject s.subjects
        then move id (answering (codes "subscribed to " ++ msg.subject)) r
        else replace id listed id (entering msg.subject) r)
    else if msg.command == cmd_unsub
    then replace id unlisted id (leaving msg.subject) r
    else if msg.command == cmd_pub
    then move id (sending encoded (Router.find_subscribers msg.subject r.server.router)) r
    else if msg.command == cmd_ping
    then replace id pong.0 id (after_pong pong.1) r
    else move id (reporting (unknown_command msg.command)) r

abbrev pub enter : Bytes → SessionId → Racing → Racing
enter subject id r = record r {
  server = record r.server { router = Router.subscribe subject id r.server.router };
  activity = set r.activity id (answering (codes "subscribed to " ++ subject));
  late = set r.late id (r.late id || is_removed (r.stage id));
}

abbrev pub leave : Bytes → SessionId → Racing → Racing
leave subject id r = record r {
  server = record r.server { router = Router.unsubscribe subject id r.server.router };
  activity = set r.activity id (answering (codes "unsubscribed from " ++ subject));
}

-- The next action of a handler; `describe` is the text of an error.
abbrev pub go_on_from : (HandleError → Bytes) → Activity → SessionId → Racing → Racing
go_on_from describe resting id r = r
go_on_from describe (entering subject) id r = enter subject id r
go_on_from describe (leaving subject) id r = leave subject id r
go_on_from describe (answering text) id r =
    replace id (send_ok text (r.server.session id)).0 id resting r
go_on_from describe (sending encoded []) id r = move id resting r
go_on_from describe (sending encoded (k ∷ ks)) id r =
    replace k (send_encoded encoded (r.server.session k)).0 id (sending encoded ks) r
go_on_from describe (reporting e) id r =
    replace id (send_error (codes "handle error: " ++ describe e) (r.server.session id)).0 id
      resting r

-- The next action of `Close`: the flag, the router, the server's set.
abbrev pub close_from : Stage → SessionId → Racing → Racing
close_from unborn id r = r
close_from alive id r = record r {
  server = record r.server {
    session = update r.server.session id (record (r.server.session id) { closed = true });
  };
  stage = set r.stage id marked;
}
close_from marked id r = record r {
  server = record r.server { router = Router.remove_session id r.server.router };
  stage = set r.stage id removed;
}
close_from removed id r = record r {
  server = record r.server { sessions = Router.without id r.server.sessions };
  stage = set r.stage id forgotten;
}
close_from forgotten id r = r

module _ (describe : HandleError → Bytes) where
  -- The read loop looks for a closed session before it waits for a message, so it may begin to handle one
  -- of a session that was closed meanwhile.
  pub data Step (r s : Racing) : Type 0 where
    accepts :
        (id : SessionId)
        → r.stage id ≡ unborn
        → s ≡ record r { server = accept id r.server; stage = set r.stage id alive }
        → Step r s
    begins :
        (id : SessionId) (msg : Message)
        → is_unborn (r.stage id) ≡ false
        → r.activity id ≡ resting
        → IsSendable msg
        → s ≡ begin msg id r
        → Step r s
    goes_on :
        (id : SessionId) (a : Activity)
        → r.activity id ≡ a
        → s ≡ go_on_from describe a id r
        → Step r s
    writes :
        (id : SessionId)
        → s ≡ record r {
          server = record r.server {
            session = update r.server.session id (write_next (r.server.session id)).0;
          };
        }
        → Step r s
    closes : (id : SessionId) (c : Stage) → r.stage id ≡ c → s ≡ close_from c id r → Step r s
    limits :
        (max_queued_bytes out_chan_cap : ℕ)
        → s ≡ record r { server = set_session_backpressure max_queued_bytes out_chan_cap r.server }
        → Step r s

  pub data Reach (r : Racing) : Racing → Type 0 where
    here : Reach r r
    next : {s t : Racing} → Reach r s → Step s t → Reach r t

abbrev pub fresh_racing : Racing
fresh_racing = record {
  server = fresh_server;
  activity = λ id. resting;
  stage = λ id. unborn;
  late = λ id. false;
}
