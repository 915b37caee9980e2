-- ===== src/Client/Reconnecting.antt =====
-- client/client.go: connecting, and what a round of `reconnect` does: `doReconnect`,
-- `restoreSubscriptions`, `restoreOneSubscription` and `sendSubWithAck`. What the KCP library answers and
-- what befalls each attempt are arguments; the settings of the connection are left out.
pub mod Frames
pub mod Restoring
pub mod Running
mod Tests
use kcpq.Prelude.{
  ℕ, zero, suc, ◌+◌, ◌*◌, ◌⊎◌, inl, inr, Bool, true, false, ◌||◌, not, Option, none, some, List, [],
  ◌∷◌, ◌++◌, Bytes, ltb, ◌==◌, if◌then◌else◌, length, second,
}
use kcpq.Crypto.{CryptError, new_aes256_block_crypt}
use kcpq.Protocol.{Message, new_message_cmd, encode, max_subject_len, cmd_sub}
use kcpq.Client.{Client, Subscription, SubId, AckId, update, drop_pending, receive}
use kcpq.Client.Attempts.{Ended, timed_out, context_done, client_closed, clear_pending}

pub data ConnectError : Type 0 where
  context_error : ConnectError
  crypt_error : CryptError → ConnectError
  dial_error : ConnectError

-- What the library answers to `NewAESBlockCrypt` and `DialWithOptions`.
pub data Dialed : Type 0 where
  no_cipher no_connection dialed : Dialed

-- The cipher, then the dialling.
abbrev pub dial : Bytes → Dialed → Option ConnectError
dial key answer =
    let refused : Bool = elim answer [
      | no_cipher ↦ true
      | no_connection ↦ false
      | dialed ↦ false
    ] in
    elim (new_aes256_block_crypt key refused) [
      | some e ↦ some (crypt_error e)
      | none ↦ elim answer [ no_cipher ↦ none | no_connection ↦ some dial_error | dialed ↦ none ]
    ]

abbrev pub no_subscription : Subscription
no_subscription = record {
  subject = [];
  active = false;
  msg_chan = [];
  capacity = 0;
  chan_closed = false;
  dropped_count = 0;
  processed_count = 0;
  unsubscribed = false;
}

-- What `ConnectWithContext` returns once the server is dialled.
abbrev pub connected_client : Bytes → Client
connected_client key = record {
  has_conn = true;
  subscriptions = [];
  sub = λ id. no_subscription;
  next_sub = 0;
  pending_subs = [];
  acked = λ ack. false;
  next_ack = 0;
  written = [];
  done = false;
  cancelled = false;
  connection_lost = false;
  auto_reconnect = false;
  reconnecting = false;
  reconnect_interval = 5 * second;
  max_reconnect_interval = 30 * second;
  key = key;
  conn_open = true;
  publish_errors = 0;
  connection_errors = 0;
  subscription_errors = 0;
  reconnect_count = 0;
  messages_sent = 0;
  messages_received = 0;
  bytes_sent = 0;
  bytes_received = 0;
  total_subscriptions = 0;
  closed_once = false;
}

-- `ConnectWithContext`; its context may be cancelled already.
unfoldable pub connect : Bytes → (cancelled : Bool) → Dialed → Client ⊎ ConnectError
connect key cancelled answer =
    if cancelled
    then inr context_error
    else elim (dial key answer) [ some e ↦ inr e | none ↦ inl (connected_client key) ]

abbrev pub enable_auto_reconnect : ℕ → Client → Client
enable_auto_reconnect interval c = record c {
  auto_reconnect = true;
  reconnect_interval = if ltb 0 interval then interval else c.reconnect_interval;
}

abbrev pub set_max_reconnect_interval : ℕ → Client → Client
set_max_reconnect_interval max c = record c { max_reconnect_interval = max }

abbrev pub disable_auto_reconnect : Client → Client
disable_auto_reconnect c = record c { auto_reconnect = false }

-- What befalls one attempt to restore a subscription.
pub record RestoreAttempt : Type 0 where
  pub write_fails : Bool
  -- what the receive loop handles before the wait ends
  pub inbox : List Message
  pub ended : Ended
  -- the client is closed, or its context cancelled, when the code looks after a failure
  pub stopped : Bool

pub data RestoreError : Type 0 where
  subject_too_long : ℕ → RestoreError
  connection_not_available : RestoreError
  failed_to_send : RestoreError
  ack_timeout : RestoreError
  context_error : RestoreError
  connection_closed : RestoreError
  restore_failed : RestoreError

abbrev pub forget : Bytes → Client → Client
forget subject c = record c { pending_subs = drop_pending subject c.pending_subs }

abbrev pub add_pending : Bytes → Client → Client
add_pending subject c = record c {
  pending_subs = (subject, c.next_ack) ∷ drop_pending subject c.pending_subs;
  acked = update c.acked c.next_ack false;
  next_ack = c.next_ack + 1;
}

-- `sendSubWithAck`
unfoldable pub send_sub_with_ack : Bytes → RestoreAttempt → Client → Client × Option RestoreError
send_sub_with_ack subject a c0 =
    let c = clear_pending subject c0 in
    let c1 = add_pending subject c in
    let sent = record c1 {
      written = c1.written ++ encode (new_message_cmd cmd_sub subject []) ∷ [];
    } in
    let c2 = receive a.inbox sent in
    if ltb max_subject_len (length subject)
    then (c0, some (subject_too_long (length subject)))
    else if not c1.has_conn
    then (forget subject c1, some connection_not_available)
    else if a.write_fails
    then (forget subject c1, some failed_to_send)
    else if c2.acked c.next_ack
    then (c2, none)
    else elim a.ended [
      | timed_out ↦ (forget subject c2, some ack_timeout)
      | context_done ↦ (forget subject c2, some context_error)
      | client_closed ↦ (c2, some connection_closed)
    ]

-- The loop of `restoreOneSubscription` from the attempt `k` on.
unfoldable pub restore_loop :
    (left k : ℕ) → Bytes → (ℕ → RestoreAttempt) → Client → Client × Option RestoreError
restore_loop zero k subject env c = (c, some restore_failed)
restore_loop (suc left) k subject env c =
    let r = send_sub_with_ack subject (env k) c in
    let rest = restore_loop left (k + 1) subject env r.0 in
    elim r.1 [
      | none ↦ r
      | some e ↦
          if r.0.done || (r.0.cancelled || (env k).stopped) then (r.0, some context_error) else rest
    ]

-- `restoreOneSubscription`; which of its two stopping errors it returns is not kept apart.
unfoldable pub restore_one_subscription :
    Bytes → (ℕ → RestoreAttempt) → Client → Client × Option RestoreError
unfolding restore_loop
restore_one_subscription subject env c = restore_loop 3 0 subject env c

abbrev pub give_up : SubId → Client → Client
give_up id c = record c {
  subscription_errors = c.subscription_errors + 1;
  sub = update c.sub id (record (c.sub id) { active = false });
}

-- One round of the loop of `restoreSubscriptions`.
unfoldable pub restore_sub : (ℕ → RestoreAttempt) → SubId → Client → Client
restore_sub env id c =
    let r = restore_one_subscription (c.sub id).subject env c in
    if not (c.sub id).active then c else elim r.1 [ none ↦ r.0 | some e ↦ give_up id r.0 ]

unfoldable pub restore_subs : (SubId → ℕ → RestoreAttempt) → List SubId → Client → Client
restore_subs env [] c = c
restore_subs env (id ∷ ids) c = restore_subs env ids (restore_sub (env id) id c)

-- `restoreSubscriptions`: over a copy of the list, made first.
unfoldable pub restore_subscriptions : (SubId → ℕ → RestoreAttempt) → Client → Client
unfolding restore_subs
restore_subscriptions env c = restore_subs env c.subscriptions c

-- `doReconnect` up to the end of the wait for the old loops: the old channel `done` and the old connection
-- are closed, and `done` is a new channel.
unfoldable pub close_old : Client → Client
close_old c = record c { done = true; conn_open = false }

abbrev pub renew_done : Client → Client
renew_done c = record c { done = false }

-- The rest of it.
unfoldable pub dial_again : Dialed → Client → Client × Option ConnectError
dial_again answer c = elim (dial c.key answer) [
  | some e ↦ (c, some e)
  | none ↦ (record c { has_conn = true; conn_open = true }, none)
]
