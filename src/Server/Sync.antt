-- ===== src/Server/Sync.antt =====
-- server/server.go and server/session.go: the router and the sessions' own lists of subjects agree.
use kcpq.Server.{
  Server, update, has_subject, other_subjects, handle_subscribe, handle_unsubscribe, send_to_all,
  handle_publish, handle_ping, handle_message, close_session,
}
use kcpq.Router
use kcpq.Router.Relation.{
  IsValid, is_subscribed, is_subscribed-subscribe, is_subscribed-unsubscribe,
  is_subscribed-remove_session,
}
use kcpq.Router.Validity.{subscribe-IsValid, unsubscribe-IsValid, remove_session-IsValid}
use kcpq.Subscriptions.{SessionId}
use kcpq.Session.{Session, enqueue_encoded, send_ok, send_error, send_pong, send_encoded}
use kcpq.Session.Utf8.{truncate_utf8}
use kcpq.Protocol.{
  Message, new_message_cmd, encode, max_subject_len, cmd_msg, cmd_ok, cmd_err, cmd_pong, cmd_sub,
  cmd_unsub, cmd_pub, cmd_ping,
}
use kcpq.Prelude.{
  ◌≡◌, inl, inr, refl, false, ◌||◌, List, [], ◌∷◌, ◌++◌, Bytes, codes, beq, beq_iff, ◌==◌,
  if◌then◌else◌, arith, Bool-cases,
}

-- Sending leaves the subjects and the closed flag as they are.
abbrev pub Keeps : Session → Session → Type 0
Keeps s s' = (s'.subjects ≡ s.subjects) × (s'.closed ≡ s.closed)

enqueue_encoded-Keeps : (e : Bytes) (s : Session) → Keeps s (enqueue_encoded e s).0
unfolding enqueue_encoded
enqueue_encoded-Keeps e s = ground arith

pub send_ok-Keeps : (text : Bytes) (s : Session) → Keeps s (send_ok text s).0
unfolding send_ok
send_ok-Keeps text s = ground (
  arith,
  enqueue_encoded-Keeps (encode (new_message_cmd cmd_ok (truncate_utf8 text max_subject_len) [])) s,
)

pub send_error-Keeps : (text : Bytes) (s : Session) → Keeps s (send_error text s).0
unfolding send_error
send_error-Keeps text s = ground (
  arith,
  enqueue_encoded-Keeps (encode (new_message_cmd cmd_err (truncate_utf8 text max_subject_len) []))
      s,
)

pub send_pong-Keeps : (s : Session) → Keeps s (send_pong s).0
unfolding send_pong
send_pong-Keeps s =
    ground (arith, enqueue_encoded-Keeps (encode (new_message_cmd cmd_pong [] [])) s)

pub send_encoded-Keeps : (e : Bytes) (s : Session) → Keeps s (send_encoded e s).0
unfolding send_encoded
send_encoded-Keeps e s = ground (arith, enqueue_encoded-Keeps e s)

pub send_to_all-Keeps :
    (e : Bytes) (ids : List SessionId) (f : SessionId → Session) (j : SessionId)
    → Keeps (f j) (send_to_all e ids f j)
unfolding send_to_all
send_to_all-Keeps e [] f j = (refl, refl)
send_to_all-Keeps e (id ∷ ids) f j = ground (
  arith,
  send_to_all-Keeps e ids (update f id (send_encoded e (f id)).0) j,
  send_encoded-Keeps e (f id),
)

pub has_subject-append :
    (t u : Bytes) (subs : List Bytes)
    → has_subject t (subs ++ u ∷ []) ≡ (has_subject t subs || beq u t)
unfolding has_subject
has_subject-append t u [] = ground arith
has_subject-append t u (s ∷ subs) = ground (arith, has_subject-append t u subs)

pub has_subject-other_subjects :
    (t u : Bytes) (subs : List Bytes)
    → has_subject t (other_subjects u subs) ≡ (if beq u t then false else has_subject t subs)
unfolding has_subject other_subjects
has_subject-other_subjects t u [] = ground arith
has_subject-other_subjects t u (s ∷ subs) =
    ground (arith, has_subject-other_subjects t u subs, beq_iff s u, beq_iff u t, beq_iff s t)

-- The router is well formed, and knows of each open session exactly the subjects that the session lists.
pub record IsSynced (w : Server) : Type 0 where
  pub router : IsValid w.router
  pub agree :
      (id : SessionId) (t : Bytes)
      → (w.session id).closed ≡ false
      → is_subscribed w.router t id ≡ has_subject t (w.session id).subjects

handle_subscribe-IsSynced :
    (msg : Message) (id : SessionId) (w : Server)
    → (w.session id).closed ≡ false
    → IsSynced w
    → IsSynced (handle_subscribe msg id w)
unfolding handle_subscribe
handle_subscribe-IsSynced msg id w is_open v = record {
  router = ground (arith, subscribe-IsValid msg.subject id w.router v.router);
  agree = λ j t h. ground (
    arith,
    v.agree j t,
    v.agree id t,
    v.agree id msg.subject,
    send_ok-Keeps (codes "subscribed to " ++ msg.subject) (w.session id),
    send_ok-Keeps (codes "subscribed to " ++ msg.subject)
        (record (w.session id) { subjects = (w.session id).subjects ++ msg.subject ∷ [] }),
    is_subscribed-subscribe w.router msg.subject t id j,
    has_subject-append t msg.subject (w.session id).subjects,
    beq_iff msg.subject t,
  );
}

handle_unsubscribe-IsSynced :
    (msg : Message) (id : SessionId) (w : Server)
    → IsSynced w
    → IsSynced (handle_unsubscribe msg id w)
unfolding handle_unsubscribe
handle_unsubscribe-IsSynced msg id w v = record {
  router = unsubscribe-IsValid msg.subject id w.router v.router;
  agree = λ j t h. ground (
    arith,
    v.agree j t,
    v.agree id t,
    send_ok-Keeps (codes "unsubscribed from " ++ msg.subject)
        (record (w.session id) { subjects = other_subjects msg.subject (w.session id).subjects }),
    is_subscribed-unsubscribe w.router msg.subject t id j,
    has_subject-other_subjects t msg.subject (w.session id).subjects,
  );
}

handle_publish-IsSynced :
    (msg : Message) (w : Server) → IsSynced w → IsSynced (handle_publish msg w)
unfolding handle_publish
handle_publish-IsSynced msg w v = record {
  router = v.router;
  agree = λ j t h. ground (
    arith,
    v.agree j t,
    send_to_all-Keeps (encode (new_message_cmd cmd_msg msg.subject msg.payload))
        (Router.find_subscribers msg.subject w.router) w.session j,
  );
}

handle_ping-IsSynced : (id : SessionId) (w : Server) → IsSynced w → IsSynced (handle_ping id w).0
unfolding handle_ping
handle_ping-IsSynced id w v = record {
  router = v.router;
  agree = λ j t h. ground (arith, v.agree j t, send_pong-Keeps (w.session id));
}

-- No message that an open session receives, whatever its command, breaks the agreement of the router
-- with the sessions.
pub handle_message-IsSynced :
    (msg : Message) (id : SessionId) (w : Server)
    → (w.session id).closed ≡ false
    → IsSynced w
    → IsSynced (handle_message msg id w).0
unfolding handle_message
handle_message-IsSynced msg id w is_open v = elim (Bool-cases (msg.command == cmd_sub)) [
  | inl sub ↦ rw sub (handle_subscribe-IsSynced msg id w is_open v)
  | inr not_sub ↦ rw not_sub (elim (Bool-cases (msg.command == cmd_unsub)) [
    | inl unsub ↦ rw unsub (handle_unsubscribe-IsSynced msg id w v)
    | inr not_unsub ↦ rw not_unsub (elim (Bool-cases (msg.command == cmd_pub)) [
      | inl publish ↦ rw publish (handle_publish-IsSynced msg w v)
      | inr not_publish ↦ rw not_publish (elim (Bool-cases (msg.command == cmd_ping)) [
        | inl ping ↦ rw ping (handle_ping-IsSynced id w v)
        | inr other ↦ rw other v
      ])
    ])
  ])
]

-- Closing a session, open or closed already, keeps the agreement of the router with the open sessions.
pub close_session-IsSynced :
    (id : SessionId) (w : Server) → IsSynced w → IsSynced (close_session id w)
unfolding close_session
close_session-IsSynced id w v = elim (Bool-cases (w.session id).closed) [
  | inl gone ↦ rw gone v
  | inr is_open ↦ rw is_open (record {
    router = remove_session-IsValid id w.router v.router;
    agree =
        λ j t h. ground (arith, v.agree j t, is_subscribed-remove_session w.router t id j v.router);
  })
]
