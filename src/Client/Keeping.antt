-- ===== src/Client/Keeping.antt =====
-- client/client.go: what handling a message, subscribing and unsubscribing leave alone.
use kcpq.Client.{
  Client, Subscription, SubId, update, handle_ok, deliver, try_enqueue, handle_message, receive,
}
use kcpq.Client.Attempts.{
  Attempt, clear_pending, register, abandon, try_subscribe, subscribe_loop, subscribe,
}
use kcpq.Client.Lifecycle.{unsubscribe}
use kcpq.Client.Stats.{Counted, counted_by}
use kcpq.Protocol.{Message, new_message_cmd, encode, cmd_sub}
use kcpq.Prelude.{
  ℕ, zero, suc, leb, ◌≡◌, refl, ◌∙◌, Bool, true, false, if◌then◌else◌, List, [], ◌∷◌, ◌++◌, Bytes,
  arith,
}

-- What the receive loop and an attempt to subscribe or to restore leave alone.
pub record Flags : Type 0 where
  pub listed : List SubId
  pub conn : Bool
  pub opened : Bool
  pub is_done : Bool
  pub is_cancelled : Bool
  pub lost : Bool
  pub automatic : Bool
  pub busy : Bool
  pub errors : ℕ
  pub once : Bool
  pub dial_errors : ℕ
  pub unpublished : ℕ
  pub redials : ℕ
  pub counted : Counted

abbrev pub flags : Client → Flags
flags c = record {
  listed = c.subscriptions;
  conn = c.has_conn;
  opened = c.conn_open;
  is_done = c.done;
  is_cancelled = c.cancelled;
  lost = c.connection_lost;
  automatic = c.auto_reconnect;
  busy = c.reconnecting;
  errors = c.subscription_errors;
  once = c.closed_once;
  dial_errors = c.connection_errors;
  unpublished = c.publish_errors;
  redials = c.reconnect_count;
  counted = counted_by c;
}

-- Of a subscription: what it is for, whether it is active, was unsubscribed, and its channel is closed.
abbrev pub role : Subscription → Bytes × Bool × Bool × Bool
role s = (s.subject, s.active, s.unsubscribed, s.chan_closed)

abbrev pub Same : SubId → Client → Client → Type 0
Same id c d = (flags d ≡ flags c) × (role (d.sub id) ≡ role (c.sub id))

pub Same-trans : (id : SubId) (c d e : Client) → Same id c d → Same id d e → Same id c e
Same-trans id c d e h k = (k.0 ∙ h.0, k.1 ∙ h.1)

role-deliver :
    (msg : Message) (ids : List SubId) (f : SubId → Subscription) (id : SubId)
    → role (deliver msg ids f id) ≡ role (f id)
unfolding deliver try_enqueue
role-deliver msg [] f id = refl
role-deliver msg (s ∷ ss) f id = ground (
  arith,
  role-deliver msg ss f id,
  role-deliver msg ss
      (update f s (try_enqueue (record { subject = msg.subject; body = msg.payload }) (f s)).0) id,
)

pub handle_message-Same :
    (msg : Message) (id : SubId) (c : Client) → Same id c (handle_message msg c)
unfolding handle_message handle_ok
handle_message-Same msg id c = ground (arith, role-deliver msg c.subscriptions c.sub id)

pub receive-Same : (msgs : List Message) (id : SubId) (c : Client) → Same id c (receive msgs c)
unfolding receive
receive-Same [] id c = (refl, refl)
receive-Same (msg ∷ msgs) id c =
    Same-trans id c (handle_message msg c) (receive msgs (handle_message msg c))
      (handle_message-Same msg id c) (receive-Same msgs id (handle_message msg c))

pub clear_pending-Same :
    (subject : Bytes) (id : SubId) (c : Client) → Same id c (clear_pending subject c)
unfolding clear_pending
clear_pending-Same subject id c = ground arith

-- The same but for the list of subscriptions.
abbrev pub SameButListed : Client → Client → Type 0
SameButListed c d = record (flags d) { listed = c.subscriptions } ≡ flags c

register-SameButListed :
    (subject : Bytes) (capacity : ℕ) (c : Client) → SameButListed c (register subject capacity c)
unfolding register
register-SameButListed subject capacity c = refl

abandon-SameButListed :
    (subject : Bytes) (id : SubId) (c : Client) → SameButListed c (abandon subject id c)
unfolding abandon
abandon-SameButListed subject id c = refl

try_subscribe-SameButListed :
    (subject : Bytes) (capacity : ℕ) (again : Bool) (a : Attempt) (c : Client)
    → SameButListed c (try_subscribe subject capacity again a c).0
unfolding try_subscribe
try_subscribe-SameButListed subject capacity again a c = ground (
  arith,
  clear_pending-Same subject 0 c,
  register-SameButListed subject capacity b,
  receive-Same a.inbox 0 sent,
  abandon-SameButListed subject b.next_sub c1,
  abandon-SameButListed subject b.next_sub (receive a.inbox sent),
)
  where
    b : Client
    b = if again then clear_pending subject c else c

    c1 : Client
    c1 = register subject capacity b

    sent : Client
    sent = record c1 { written = c1.written ++ encode (new_message_cmd cmd_sub subject []) ∷ [] }

subscribe_loop-SameButListed :
    (left : ℕ) (subject : Bytes) (capacity : ℕ) (again : Bool) (attempts : List Attempt)
    (c : Client)
    → SameButListed c (subscribe_loop left subject capacity again attempts c).0
unfolding subscribe_loop
subscribe_loop-SameButListed zero subject capacity again attempts c = refl
subscribe_loop-SameButListed (suc left) subject capacity again [] c = refl
subscribe_loop-SameButListed (suc left) subject capacity again (a ∷ attempts) c = ground (
  arith,
  try_subscribe-SameButListed subject capacity again a c,
  subscribe_loop-SameButListed left subject capacity true attempts
      (try_subscribe subject capacity again a c).0,
)

-- `SubscribeWithOptionsContext` and `Unsubscribe` change nothing of the client's flags and counts but its
-- list of subscriptions.
pub subscribe-SameButListed :
    (subject : Bytes) (capacity : ℕ) (attempts : List Attempt) (c : Client)
    → SameButListed c (subscribe subject capacity attempts c).0
unfolding subscribe
subscribe-SameButListed subject capacity attempts c = ground (
  arith,
  subscribe_loop-SameButListed 3 subject (if leb capacity 0 then 100 else capacity) false attempts
      c,
)

pub unsubscribe-SameButListed :
    (id : SubId) (write_fails : Bool) (c : Client)
    → SameButListed c (unsubscribe id write_fails c).0
unfolding unsubscribe
unsubscribe-SameButListed id write_fails c = ground arith
