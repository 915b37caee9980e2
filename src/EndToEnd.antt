-- ===== src/EndToEnd.antt =====
-- A message from the client that publishes it (client/client.go) over the server (server/session.go,
-- server/router.go) to the callback of a client that is subscribed (client/subscription.go).
pub mod Ordering
mod Tests
use kcpq.Client.{Client, ClientMessage, SubId, Subscription, match_subject, handle_message}
use kcpq.Client.Lifecycle.{publish, PublishError}
use kcpq.Client.Publishing.{publish_succeeds}
use kcpq.Client.Delivery.{delivered, handle_message-delivers}
use kcpq.Client.Matching.{match_subject-match}
use kcpq.Client.Processing.{process_next}
use kcpq.Server
use kcpq.Server.{Server}
use kcpq.Server.Sync.{IsSynced}
use kcpq.Server.Publish.{msg_frame, handle_publish-delivers}
use kcpq.Router
use kcpq.Router.Relation.{Distinct, is_subscribed}
use kcpq.Router.Matching.{match_iff}
use kcpq.Session.{Session, write_next}
use kcpq.Subscriptions.{SessionId, contains}
use kcpq.Protocol.{
  Message, new_message_cmd, encode, cmd_pub, cmd_msg, parsed, Reader, parse_from_reader,
  max_subject_len, max_body_len,
}
use kcpq.Protocol.RoundTrip.{IsSendable}
use kcpq.Protocol.Streams.{parse_from_reader-encode}
use kcpq.Prelude.{
  ℕ, ◌+◌, ◌≤◌, ◌<◌, ◌≡◌, refl, sym, ap, ◌∙◌, Bool, true, false, Option, none, some, List, [], ◌∷◌,
  ◌++◌, Bytes, length, concat, arith,
}

-- The session of a subscriber, with an empty queue and room for a frame.
pub record IsReady (s : Session) (frame : Bytes) : Type 0 where
  pub is_open : s.closed ≡ false
  pub empty : s.out_chan ≡ []
  pub bytes : s.queued_bytes + length frame ≤ s.max_queued_bytes
  pub limited : 0 < s.max_queued_bytes
  pub slots : 0 < s.out_cap

-- A subscription of the client that waits for its first message.
pub record IsWaiting (b : Client) (id : SubId) (pattern : Bytes) : Type 0 where
  pub alone : Distinct b.subscriptions
  pub listed : contains id b.subscriptions ≡ true
  pub active : (b.sub id).active ≡ true
  pub subject : (b.sub id).subject ≡ pattern
  pub is_open : (b.sub id).chan_closed ≡ false
  pub empty : (b.sub id).msg_chan ≡ []
  pub room : 0 < (b.sub id).capacity

abbrev published : Bytes → Bytes → Message
published subject body = new_message_cmd cmd_pub subject body

abbrev forwarded : Bytes → Bytes → Message
forwarded subject body = new_message_cmd cmd_msg subject body

pub queued :
    (subject body pattern : Bytes) (w : Server) (to from : SessionId)
    → IsSynced w
    → IsSendable (published subject body)
    → is_subscribed w.router pattern to ≡ true
    → Router.match pattern subject ≡ true
    → IsReady (w.session to) (msg_frame (published subject body))
    → ((Server.handle_message (published subject body) from w).0.session to).out_chan
      ≡ encode (forwarded subject body) ∷ []
unfolding Server.handle_message
queued subject body pattern w to from v s held matches ready =
    handle_publish-delivers (published subject body) w to pattern v s held
      ((match_iff pattern subject).0 matches) ready.is_open ready.limited ready.bytes
      (let e = ready.empty in rw e ready.slots)
    ∙ ap (λ q. q ++ encode (forwarded subject body) ∷ []) ready.empty

handed :
    (subject body pattern : Bytes) (b : Client) (id : SubId)
    → Router.match pattern subject ≡ true
    → IsWaiting b id pattern
    → (process_next ((handle_message (forwarded subject body) b).sub id)).1
      ≡ some (delivered (forwarded subject body))
unfolding process_next
handed subject body pattern b id matches v = ground (
  arith,
  v.listed,
  v.active,
  v.subject,
  v.is_open,
  v.empty,
  v.room,
  (match_subject-match pattern subject).0 matches,
  handle_message-delivers (forwarded subject body) b id refl v.alone,
)

-- From a publication to the callback: a client with a connection publishes a body of a subject within the
-- limits; the server, in which the router and the sessions agree, has a session that is ready and is
-- subscribed to a pattern that matches the subject; and that session's client has a subscription for the
-- pattern that waits. Then the publication succeeds and writes one frame; however the stream is cut, the
-- server reads it as a message; when the server has handled that message, the session's write loop writes
-- one frame; however that stream is cut, the subscriber reads it as a message; and when the subscriber has
-- handled that one, the callback is called with the subject and the body that were published.
pub published_message_arrives :
    (subject body pattern : Bytes) (a b : Client) (w : Server) (from to : SessionId) (id : SubId)
    → IsSendable (published subject body)
    → a.has_conn ≡ true
    → IsSynced w
    → is_subscribed w.router pattern to ≡ true
    → Router.match pattern subject ≡ true
    → IsReady (w.session to) (msg_frame (published subject body))
    → IsWaiting b id pattern
    → (frame : Bytes) × (out : Bytes) × (m : Message) × (m' : Message) × (publish subject body false
          false a
        ≡ (record a { written = a.written ++ frame ∷ [] }, none))
      × ((r : Reader) (rest : Bytes)
          → concat r ≡ frame ++ rest
          → (r' : Reader) × (parse_from_reader r ≡ parsed m r') × (concat r' ≡ rest))
      × ((write_next ((Server.handle_message m from w).0.session to)).1 ≡ some out)
      × ((r : Reader) (rest : Bytes)
          → concat r ≡ out ++ rest
          → (r' : Reader) × (parse_from_reader r ≡ parsed m' r') × (concat r' ≡ rest))
      × ((process_next ((handle_message m' b).sub id)).1
          ≡ some (record { subject = subject; body = body }))
unfolding publish write_next
published_message_arrives subject body pattern a b w from to id s online v held matches ready
      waits =
    (
      encode (published subject body),
      encode (forwarded subject body),
      published subject body,
      forwarded subject body,
      ground (arith, s.subject_fits, s.body_fits),
      λ r rest e. parse_from_reader-encode r (published subject body) rest s e,
      ground (arith, queued subject body pattern w to from v s held matches ready),
      λ r rest e. parse_from_reader-encode r (forwarded subject body) rest s' e,
      handed subject body pattern b id matches waits,
    )
  where
    s' : IsSendable (forwarded subject body)
    s' = record { subject_fits = s.subject_fits; body_fits = s.body_fits }
