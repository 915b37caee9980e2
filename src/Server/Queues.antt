-- ===== src/Server/Queues.antt =====
-- server/session.go: what the handlers leave in the queues of the sessions.
use kcpq.Server.{
  Server, update, has_subject, other_subjects, handle_subscribe, handle_unsubscribe, send_to_all,
  handle_publish, handle_ping, handle_message,
}
use kcpq.Subscriptions.{SessionId}
use kcpq.Session.{
  Session, Limits, new_session, send_ok, send_error, send_pong, send_encoded, write_next,
}
use kcpq.Session.Queue.{IsBounded, bytes_of, new_session-IsBounded, enqueue_encoded_cases}
use kcpq.Session.Utf8.{truncate_utf8}
use kcpq.Session.Replies.{IsFrame, HoldsFrames, sends-HoldsFrames}
use kcpq.Protocol.{
  Message, new_message_cmd, encode, max_subject_len, cmd_sub, cmd_unsub, cmd_pub, cmd_ping, cmd_msg,
  cmd_ok, cmd_err, cmd_pong,
}
use kcpq.Protocol.RoundTrip.{IsSendable}
use kcpq.Prelude.{inl, inr, refl, some, none, List, [], ◌∷◌, Bytes, ◌==◌, arith, Bool-cases}

-- The queue is within its limits and counted right, and holds only whole messages of the protocol.
pub record IsFit (s : Session) : Type 0 where
  pub bounded : IsBounded s
  pub frames : HoldsFrames s

pub new_session-IsFit : (l : Limits) → IsFit (new_session (some l))
new_session-IsFit l = record {
  bounded = new_session-IsBounded (some l);
  frames = unfold new_session in tt;
}

pub no_server-IsFit : IsFit (new_session none)
no_server-IsFit = record { bounded = new_session-IsBounded none; frames = unfold new_session in tt }

pub send_ok-IsFit : (text : Bytes) (s : Session) → IsFit s → IsFit (send_ok text s).0
unfolding send_ok
send_ok-IsFit text s v = record {
  bounded = ground (
    arith,
    (enqueue_encoded_cases (encode (new_message_cmd cmd_ok (truncate_utf8 text max_subject_len) []))
        s v.bounded).0,
    v.bounded,
  );
  frames = (sends-HoldsFrames s v.frames).2 text;
}

pub send_error-IsFit : (text : Bytes) (s : Session) → IsFit s → IsFit (send_error text s).0
unfolding send_error
send_error-IsFit text s v = record {
  bounded = ground (
    arith,
    (enqueue_encoded_cases
        (encode (new_message_cmd cmd_err (truncate_utf8 text max_subject_len) [])) s v.bounded).0,
    v.bounded,
  );
  frames = (sends-HoldsFrames s v.frames).3 text;
}

pub send_pong-IsFit : (s : Session) → IsFit s → IsFit (send_pong s).0
unfolding send_pong
send_pong-IsFit s v = record {
  bounded = ground (
    arith,
    (enqueue_encoded_cases (encode (new_message_cmd cmd_pong [] [])) s v.bounded).0,
    v.bounded,
  );
  frames = (sends-HoldsFrames s v.frames).4;
}

pub send_encoded-IsFit :
    (e : Bytes) (s : Session) → IsFrame e → IsFit s → IsFit (send_encoded e s).0
unfolding send_encoded
send_encoded-IsFit e s f v = record {
  bounded = ground (arith, (enqueue_encoded_cases e s v.bounded).0, v.bounded);
  frames = (sends-HoldsFrames s v.frames).1 e f;
}

pub write_next-IsFit : (s : Session) → IsFit s → IsFit (write_next s).0
unfolding write_next bytes_of
write_next-IsFit s v = ground (arith, v.bounded, v.frames)

send_to_all-IsFit :
    (e : Bytes) (ids : List SessionId) (f : SessionId → Session)
    → IsFrame e
    → ((j : SessionId) → IsFit (f j))
    → (j : SessionId) → IsFit (send_to_all e ids f j)
unfolding send_to_all
send_to_all-IsFit e [] f h v j = v j
send_to_all-IsFit e (id ∷ ids) f h v j =
    send_to_all-IsFit e ids (update f id (send_encoded e (f id)).0) h
      (λ k. elim (Bool-cases (id == k)) [
        | inl same ↦ rw same (send_encoded-IsFit e (f id) h (v id))
        | inr other ↦ rw other (v k)
      ])
      j

pub update-IsFit :
    (f : SessionId → Session) (id : SessionId) (s : Session)
    → IsFit s
    → ((j : SessionId) → IsFit (f j))
    → (j : SessionId) → IsFit (update f id s j)
update-IsFit f id s h v j = elim (Bool-cases (id == j)) [
  | inl same ↦ rw same h
  | inr other ↦ rw other (v j)
]

pub subjects-IsFit :
    (subs : List Bytes) (s : Session) → IsFit s → IsFit (record s { subjects = subs })
subjects-IsFit subs s v = record { bounded = ground (arith, v.bounded); frames = v.frames }

handle_subscribe-IsFit :
    (msg : Message) (id : SessionId) (w : Server)
    → ((j : SessionId) → IsFit (w.session j))
    → (j : SessionId) → IsFit ((handle_subscribe msg id w).session j)
unfolding handle_subscribe
handle_subscribe-IsFit msg id w v =
    update-IsFit w.session id _
      (send_ok-IsFit _ _ (elim (Bool-cases (has_subject msg.subject (w.session id).subjects)) [
        | inl old ↦ rw old (v id)
        | inr new ↦ rw new (subjects-IsFit _ (w.session id) (v id))
      ]))
      v

handle_unsubscribe-IsFit :
    (msg : Message) (id : SessionId) (w : Server)
    → ((j : SessionId) → IsFit (w.session j))
    → (j : SessionId) → IsFit ((handle_unsubscribe msg id w).session j)
unfolding handle_unsubscribe
handle_unsubscribe-IsFit msg id w v =
    update-IsFit w.session id _
      (send_ok-IsFit _ _
        (subjects-IsFit (other_subjects msg.subject (w.session id).subjects) (w.session id) (v id)))
      v

handle_publish-IsFit :
    (msg : Message) (w : Server)
    → IsSendable msg
    → ((j : SessionId) → IsFit (w.session j))
    → (j : SessionId) → IsFit ((handle_publish msg w).session j)
unfolding handle_publish
handle_publish-IsFit msg w h v =
    send_to_all-IsFit _ _ w.session
      (record {
        message = new_message_cmd cmd_msg msg.subject msg.payload;
        sendable = ground (arith, h);
        encoded = refl;
      })
      v

pub handle_message-IsFit :
    (msg : Message) (id : SessionId) (w : Server)
    → IsSendable msg
    → ((j : SessionId) → IsFit (w.session j))
    → (j : SessionId) → IsFit ((handle_message msg id w).0.session j)
unfolding handle_message handle_ping
handle_message-IsFit msg id w h v j = elim (Bool-cases (msg.command == cmd_sub)) [
  | inl sub ↦ rw sub (handle_subscribe-IsFit msg id w v j)
  | inr e1 ↦ rw e1 (elim (Bool-cases (msg.command == cmd_unsub)) [
    | inl unsub ↦ rw unsub (handle_unsubscribe-IsFit msg id w v j)
    | inr e2 ↦ rw e2 (elim (Bool-cases (msg.command == cmd_pub)) [
      | inl publish ↦ rw publish (handle_publish-IsFit msg w h v j)
      | inr e3 ↦ rw e3 (elim (Bool-cases (msg.command == cmd_ping)) [
        | inl ping ↦
            rw ping (update-IsFit w.session id _ (send_pong-IsFit (w.session id) (v id)) v j)
        | inr other ↦ rw other (v j)
      ])
    ])
  ])
]
