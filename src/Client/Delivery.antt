-- ===== src/Client/Delivery.antt =====
-- client/client.go: the case `CmdMsg` of `handleMessage`, which hands a message to the subscriptions.
use kcpq.Client.{
  Client, ClientMessage, Subscription, SubId, update, match_subject, try_enqueue, deliver,
  handle_message, handle_ok,
}
use kcpq.Protocol.{Message, cmd_msg}
use kcpq.Router.Relation.{Distinct}
use kcpq.Subscriptions.{contains}
use kcpq.Prelude.{
  ◌+◌, ◌≤◌, ◌<◌, ◌≡◌, ◌==◌, ◌⊎◌, refl, Bool, true, false, ◌&&◌, List, [], ◌∷◌, ◌++◌, if◌then◌else◌,
  length, arith,
}

abbrev pub delivered : Message → ClientMessage
delivered msg = record { subject = msg.subject; body = msg.payload }

abbrev wants : Message → Subscription → Bool
wants msg s = s.active && match_subject s.subject msg.subject

deliver_lem :
    (msg : Message) (ids : List SubId) (f : SubId → Subscription) (id : SubId)
    → Distinct ids
    → deliver msg ids f id ≡ (
        if contains id ids && wants msg (f id)
        then (try_enqueue (delivered msg) (f id)).0
        else f id)
unfolding deliver contains
deliver_lem msg [] f id h = refl
deliver_lem msg (s ∷ ss) f id (fresh, h) = ground (
  arith,
  deliver_lem msg ss f id h,
  deliver_lem msg ss (update f s (try_enqueue (delivered msg) (f s)).0) id h,
)

-- A MSG message goes once to every subscription that is active and accepts the subject, where the client
-- lists each of its subscriptions once: with room in an open channel it is put last there, and with a full
-- one it is counted as dropped and nothing else changes. A subscription that is not listed, not active or
-- does not accept the subject is left as it was.
pub handle_message-delivers :
    (msg : Message) (c : Client) (id : SubId)
    → msg.command ≡ cmd_msg
    → Distinct c.subscriptions
    → let s = c.sub id in
      let s' = (handle_message msg c).sub id in
      (contains id c.subscriptions ≡ true
        → s.active ≡ true
        → match_subject s.subject msg.subject ≡ true
        → s.chan_closed ≡ false
        → (length s.msg_chan < s.capacity → s'.msg_chan ≡ s.msg_chan ++ delivered msg ∷ [])
          × (s.capacity ≤ length s.msg_chan
              → s' ≡ record s { dropped_count = s.dropped_count + 1 }))
      × ((contains id c.subscriptions && s.active && match_subject s.subject msg.subject) ≡ false
          → s' ≡ s)
unfolding handle_message try_enqueue
handle_message-delivers msg c id is_msg distinct =
    ground (arith, deliver_lem msg c.subscriptions c.sub id distinct)

-- Whatever message is handled, the channel of a subscription is as it was, or the message is a MSG and
-- stands last in it.
pub handle_message_queues :
    (msg : Message) (c : Client) (id : SubId)
    → Distinct c.subscriptions
    → (((handle_message msg c).sub id).msg_chan ≡ (c.sub id).msg_chan)
      ⊎ (((msg.command == cmd_msg) ≡ true)
          × (((handle_message msg c).sub id).msg_chan ≡ (c.sub id).msg_chan ++ delivered msg ∷ []))
unfolding handle_message handle_ok try_enqueue
handle_message_queues msg c id distinct =
    ground (arith, deliver_lem msg c.subscriptions c.sub id distinct)
