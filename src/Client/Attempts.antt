-- ===== src/Client/Attempts.antt =====
-- client/client.go: `SubscribeWithOptionsContext`, its attempts and what ends them. `Attempt` says what
-- the connection, the caller's context and the receive loop did to one attempt.
use kcpq.Prelude.{
  ℕ, zero, suc, ◌+◌, Bool, true, false, not, none, some, List, [], ◌∷◌, ◌++◌, Bytes, leb, ltb,
  if◌then◌else◌, length,
}
use kcpq.Protocol.{Message, new_message_cmd, encode, max_subject_len, cmd_sub}
use kcpq.Client.{Client, SubId, update, find_pending, drop_pending, confirm, receive, remove_sub}

-- Why a wait for an acknowledgement ended, if none came.
pub data Ended : Type 0 where
  timed_out context_done client_closed : Ended

pub record Attempt : Type 0 where
  -- the context is cancelled before the attempt
  pub cancelled_before : Bool
  pub write_fails : Bool
  -- what the receive loop handles before the wait ends
  pub inbox : List Message
  pub ended : Ended

pub data SubscribeError : Type 0 where
  subject_too_long : ℕ → SubscribeError
  context_error : SubscribeError
  connection_closed : SubscribeError
  failed_after_attempts : SubscribeError

pub data Subscribed : Type 0 where
  subscribed : SubId → Subscribed
  failed : SubscribeError → Subscribed
  retry : Subscribed

-- `if attempt > 0`: an acknowledgement that is still pending is closed and forgotten.
unfoldable pub clear_pending : Bytes → Client → Client
clear_pending subject c = elim (find_pending subject c.pending_subs) [
  | some ack ↦ confirm subject ack c
  | none ↦ c
]

-- A new subscription, entered in the list, and a new entry of `pendingSubs`.
unfoldable pub register : Bytes → ℕ → Client → Client
register subject capacity c = record c {
  sub = update c.sub c.next_sub (record {
    subject = subject;
    active = true;
    msg_chan = [];
    capacity = capacity;
    chan_closed = false;
    dropped_count = 0;
    processed_count = 0;
    unsubscribed = false;
  });
  next_sub = c.next_sub + 1;
  subscriptions = c.subscriptions ++ c.next_sub ∷ [];
  pending_subs = (subject, c.next_ack) ∷ drop_pending subject c.pending_subs;
  acked = update c.acked c.next_ack false;
  next_ack = c.next_ack + 1;
}

-- Forgets the acknowledgement and the subscription, and closes its channel.
unfoldable pub abandon : Bytes → SubId → Client → Client
abandon subject id c = record c {
  pending_subs = drop_pending subject c.pending_subs;
  subscriptions = remove_sub id c.subscriptions;
  sub = update c.sub id (record (c.sub id) { active = false; chan_closed = true });
}

-- One round of the loop of `SubscribeWithOptionsContext`, behind its look at the context.
unfoldable pub try_subscribe : Bytes → ℕ → Bool → Attempt → Client → Client × Subscribed
try_subscribe subject capacity again a c0 =
    let c = if again then clear_pending subject c0 else c0 in
    let id = c.next_sub in
    let ack = c.next_ack in
    let c1 = register subject capacity c in
    if not c1.has_conn
    then (c1, retry)
    else if a.write_fails
    then (abandon subject id c1, retry)
    else let sent = record c1 {
      written = c1.written ++ encode (new_message_cmd cmd_sub subject []) ∷ [];
    } in
      let c2 = receive a.inbox sent in
      if c2.acked ack then (c2, subscribed id) else elim a.ended [
        | timed_out ↦ (abandon subject id c2, retry)
        | context_done ↦ (abandon subject id c2, failed context_error)
        | client_closed ↦ (c2, failed connection_closed)
      ]

unfoldable pub subscribe_loop : ℕ → Bytes → ℕ → Bool → List Attempt → Client → Client × Subscribed
subscribe_loop zero subject capacity again attempts c = (c, failed failed_after_attempts)
subscribe_loop (suc left) subject capacity again [] c = (c, failed failed_after_attempts)
subscribe_loop (suc left) subject capacity again (a ∷ attempts) c =
    let round = try_subscribe subject capacity again a c in
    let rest = subscribe_loop left subject capacity true attempts round.0 in
    if a.cancelled_before
    then (c, failed context_error)
    else elim round.1 [ retry ↦ rest | subscribed id ↦ round | failed e ↦ round ]

-- `SubscribeWithOptionsContext`; the list says what befalls the (at most three) attempts.
unfoldable pub subscribe : Bytes → ℕ → List Attempt → Client → Client × Subscribed
subscribe subject channel_capacity attempts c =
    let capacity = if leb channel_capacity 0 then 100 else channel_capacity in
    if ltb max_subject_len (length subject)
    then (c, failed (subject_too_long (length subject)))
    else subscribe_loop 3 subject capacity false attempts c
