-- ===== src/Client/Handshake.antt =====
-- client/client.go and server/session.go together: the answer to a SUB message and what the client
-- makes of it.
use kcpq.Client.{
  Client, AckId, find_pending, confirm, subscribed_to, contains_text, trim_prefix, handle_ok,
  handle_message,
}
use kcpq.Client.Subscribing.{find_pending-drop_pending}
use kcpq.Subject.{has_prefix}
use kcpq.Subject.Splitting.{has_prefix_iff}
use kcpq.Server.{Server, handle_subscribe}
use kcpq.Session.{send_ok, enqueue_encoded}
use kcpq.Session.Utf8.{truncate_utf8, truncate_utf8_lem}
use kcpq.Subscriptions.{SessionId}
use kcpq.Protocol.{Message, new_message_cmd, encode, cmd_sub, cmd_ok, max_subject_len}
use kcpq.Protocol.Framing.{length-encode}
use kcpq.Prelude.{
  ◌+◌, ◌≤◌, ◌<◌, ◌≡◌, refl, ap, ◌∙◌, true, false, none, some, [], ◌∷◌, ◌++◌, Bytes, length,
  length-append, arith,
}

contains_text-prefix : (p s : Bytes) → has_prefix s p ≡ true → contains_text s p ≡ true
unfolding contains_text
contains_text-prefix p [] h = h
contains_text-prefix p (a ∷ s) h = ground arith

trim_prefix-subscribed_to :
    (subject : Bytes) → trim_prefix (subscribed_to ++ subject) subscribed_to ≡ subject
unfolding trim_prefix
trim_prefix-subscribed_to subject =
    rw ((has_prefix_iff (subscribed_to ++ subject) subscribed_to).1 (subject, refl)) refl

-- The text "subscribed to X" confirms what is pending for X, where nothing is pending for the text itself.
pub handle_ok-subscribed_to :
    (subject : Bytes) (ack : AckId) (c : Client)
    → find_pending subject c.pending_subs ≡ some ack
    → find_pending (subscribed_to ++ subject) c.pending_subs ≡ none
    → handle_ok (subscribed_to ++ subject) c ≡ confirm subject ack c
unfolding handle_ok
handle_ok-subscribed_to subject ack c pending other = ground (
  arith,
  trim_prefix-subscribed_to subject,
  contains_text-prefix subscribed_to (subscribed_to ++ subject)
      ((has_prefix_iff (subscribed_to ++ subject) subscribed_to).1 (subject, refl)),
)

-- The server answers a SUB message of an open session with room in its queue, for a subject of at most
-- 4082 bytes, by one message put last in that queue; and a client that has a subscription pending for the
-- subject, and none under the answer's whole text, takes it as confirmed when it handles this message,
-- and forgets that it was pending.
pub subscription_is_acknowledged :
    (subject : Bytes) (id : SessionId) (w : Server) (ack : AckId) (c : Client)
    → length subject ≤ 4082
    → (w.session id).closed ≡ false
    → (w.session id).queued_bytes + 21 + length subject ≤ (w.session id).max_queued_bytes
    → length (w.session id).out_chan < (w.session id).out_cap
    → find_pending subject c.pending_subs ≡ some ack
    → find_pending (subscribed_to ++ subject) c.pending_subs ≡ none
    → (m : Message) × (((handle_subscribe (new_message_cmd cmd_sub subject []) id w).session
          id).out_chan
        ≡ (w.session id).out_chan ++ encode m ∷ [])
      × ((handle_message m c).acked ack ≡ true)
      × (find_pending subject (handle_message m c).pending_subs ≡ none)
unfolding handle_message
subscription_is_acknowledged subject id w ack c fits is_open bytes slots pending other = (
  answer,
  queued,
  ap (λ d. d.acked ack) handled ∙ ground arith,
  ap (λ d. find_pending subject d.pending_subs) handled
      ∙ find_pending-drop_pending subject c.pending_subs,
)
  where
    text : Bytes
    text = subscribed_to ++ subject

    answer : Message
    answer = new_message_cmd cmd_ok text []

    whole : truncate_utf8 text max_subject_len ≡ text
    whole =
        ground (arith, truncate_utf8_lem text max_subject_len, length-append subscribed_to subject)

    handled : handle_message answer c ≡ confirm subject ack c
    handled = handle_ok-subscribed_to subject ack c pending other

    queued :
        ((handle_subscribe (new_message_cmd cmd_sub subject []) id w).session id).out_chan
        ≡ (w.session id).out_chan ++ encode answer ∷ []
    queued =
        unfold handle_subscribe send_ok enqueue_encoded in
        ground (arith, whole, length-encode answer, length-append subscribed_to subject)
