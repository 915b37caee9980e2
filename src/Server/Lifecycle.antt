-- ===== src/Server/Lifecycle.antt =====
-- server/server.go and server/session.go: the ends of sessions and of the server.
use kcpq.Server.{
  Server, handle_message, handle_subscribe, close_session, close_session_under, close_sessions,
  close_server, has_subject,
}
use kcpq.Server.Sync.{IsSynced}
use kcpq.Server.Flags.{closed-handle_message}
use kcpq.Router
use kcpq.Router.Relation.{is_subscribed, is_subscribed-subscribe, is_subscribed-remove_session}
use kcpq.Subscriptions.{SessionId, contains}
use kcpq.Protocol.{Message, cmd_sub}
use kcpq.Prelude.{
  ◌≡◌, true, false, none, List, [], ◌∷◌, Bytes, beq_refl, ◌==◌, if◌then◌else◌, arith,
}

-- After `Close` of an open session it is subscribed to nothing, the others keep their subscriptions, and
-- no session is changed but itself, which is closed.
pub close_session_lem :
    (id j : SessionId) (t : Bytes) (w : Server)
    → IsSynced w
    → (w.session id).closed ≡ false
    → (is_subscribed (close_session id w).router t j
        ≡ (if id == j then false else is_subscribed w.router t j))
      × ((close_session id w).session j
          ≡ (if id == j then record (w.session j) { closed = true } else w.session j))
unfolding close_session
close_session_lem id j t w v is_open =
    ground (arith, is_subscribed-remove_session w.router t id j v.router)

-- A session that has been closed already and receives a SUB message for a subject that it does not list,
-- as its read loop may with a message that it has parsed, is subscribed to it in the router, also when it
-- is closed once more.
pub closed_session_subscribes :
    (msg : Message) (id : SessionId) (w : Server)
    → msg.command ≡ cmd_sub
    → (w.session id).closed ≡ true
    → has_subject msg.subject (w.session id).subjects ≡ false
    → is_subscribed (close_session id (handle_message msg id w).0).router msg.subject id ≡ true
unfolding handle_message handle_subscribe close_session
closed_session_subscribes msg id w sub gone fresh = ground (
  arith,
  is_subscribed-subscribe w.router msg.subject msg.subject id id,
  beq_refl msg.subject,
  closed-handle_message msg id id w,
)

close_sessions_blocks :
    (id : SessionId) (ids : List SessionId) (w : Server)
    → contains id ids ≡ true
    → (w.session id).closed ≡ false
    → close_sessions ids w ≡ none
unfolding close_sessions close_session_under contains
close_sessions_blocks id [] w m o = cc
close_sessions_blocks id (j ∷ ids) w m o =
    ground
      (arith, close_sessions_blocks id ids (record w { sessions = Router.without j w.sessions }))

-- `Server.Close` never returns on a server that has an open session among its sessions: it holds the lock
-- that the session's own `Close` waits for.
pub close_server_blocks :
    (w : Server) (id : SessionId)
    → w.done ≡ false
    → contains id w.sessions ≡ true
    → (w.session id).closed ≡ false
    → close_server w ≡ none
unfolding close_server
close_server_blocks w id h m is_open =
    ground (arith, close_sessions_blocks id w.sessions (record w { done = true }))
