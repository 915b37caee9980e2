-- ===== src/Server/Publish.antt =====
-- server/session.go: `handlePublish`, from a message that was read to the queues of the subscribers.
use kcpq.Server.{Server, update, send_to_all, handle_publish}
use kcpq.Server.Sync.{IsSynced}
use kcpq.Router
use kcpq.Router.Relation.{Distinct, is_subscribed}
use kcpq.Router.Delivery.{find_subscribers_iff, find_subscribers-Distinct}
use kcpq.Router.Matching.{Admits}
use kcpq.Subscriptions.{SessionId, contains}
use kcpq.Session.{Session, enqueue_encoded, send_encoded}
use kcpq.Protocol.{Message, new_message_cmd, encode, max_body_len, cmd_msg}
use kcpq.Protocol.RoundTrip.{IsSendable}
use kcpq.Protocol.Framing.{length-encode}
use kcpq.Prelude.{
  ◌+◌, ◌≤◌, ◌<◌, ◌≡◌, inl, inr, refl, ◌∙◌, true, false, List, [], ◌∷◌, ◌++◌, Bytes, if◌then◌else◌,
  length, arith, Bool-cases,
}

-- A session is sent the frame once if it stands in the list, and is left alone otherwise.
pub send_to_all_lem :
    (e : Bytes) (ids : List SessionId) (f : SessionId → Session) (j : SessionId)
    → Distinct ids
    → send_to_all e ids f j ≡ (if contains j ids then (send_encoded e (f j)).0 else f j)
unfolding send_to_all contains
send_to_all_lem e [] f j d = refl
send_to_all_lem e (id ∷ ids) f j (fresh, d) =
    ground (arith, send_to_all_lem e ids (update f id (send_encoded e (f id)).0) j d)

-- The frame that goes out for a published message.
abbrev pub msg_frame : Message → Bytes
msg_frame msg = encode (new_message_cmd cmd_msg msg.subject msg.payload)

send_encoded_open :
    (e : Bytes) (s : Session)
    → s.closed ≡ false
    → length e ≤ max_body_len + 4
    → 0 < s.max_queued_bytes
    → s.queued_bytes + length e ≤ s.max_queued_bytes
    → length s.out_chan < s.out_cap
    → (send_encoded e s).0.out_chan ≡ s.out_chan ++ e ∷ []
unfolding send_encoded enqueue_encoded
send_encoded_open e s h1 h2 h3 h4 h5 = ground arith

-- Where the router and the sessions agree, and for a message within the limits of the protocol: an open
-- session that is subscribed to a pattern that admits the subject, with room within both of its limits,
-- has the message's frame put last in its queue, once.
pub handle_publish-delivers :
    (msg : Message) (w : Server) (id : SessionId) (pattern : Bytes)
    → IsSynced w
    → IsSendable msg
    → is_subscribed w.router pattern id ≡ true
    → Admits pattern msg.subject
    → (w.session id).closed ≡ false
    → 0 < (w.session id).max_queued_bytes
    → (w.session id).queued_bytes + length (msg_frame msg) ≤ (w.session id).max_queued_bytes
    → length (w.session id).out_chan < (w.session id).out_cap
    → ((handle_publish msg w).session id).out_chan ≡ (w.session id).out_chan ++ msg_frame msg ∷ []
unfolding handle_publish
handle_publish-delivers msg w id pattern v s held admits is_open h1 h2 h3 = ground (
  arith,
  send_to_all_lem (msg_frame msg) (Router.find_subscribers msg.subject w.router) w.session id
      (find_subscribers-Distinct w.router msg.subject),
  (find_subscribers_iff w.router msg.subject id v.router).1 (pattern, held, admits),
  send_encoded_open (msg_frame msg) (w.session id) is_open
      (omega (arith, length-encode (new_message_cmd cmd_msg msg.subject msg.payload), s.body_fits))
      h1 h2 h3,
)

-- Where the router and the sessions agree, a published message leaves every session as it was that is
-- subscribed to no pattern that admits the subject.
pub handle_publish_other :
    (msg : Message) (w : Server) (id : SessionId)
    → IsSynced w
    → ((pattern : Bytes) → is_subscribed w.router pattern id ≡ true → ¬ Admits pattern msg.subject)
    → (handle_publish msg w).session id ≡ w.session id
unfolding handle_publish
handle_publish_other msg w id v none_admits =
    send_to_all_lem (msg_frame msg) ids w.session id
      (find_subscribers-Distinct w.router msg.subject)
    ∙ left_out
  where
    ids : List SessionId
    ids = Router.find_subscribers msg.subject w.router

    left_out :
        (if contains id ids then (send_encoded (msg_frame msg) (w.session id)).0 else w.session id)
        ≡ w.session id
    left_out = elim (Bool-cases (contains id ids)) [
      | inl found ↦
          let (p, held, admits) = (find_subscribers_iff w.router msg.subject id v.router).0 found in
          absurd (none_admits p held admits)
      | inr absent ↦ rw absent
    ]
