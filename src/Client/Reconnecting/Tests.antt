-- ===== src/Client/Reconnecting/Tests.antt =====
-- client/client.go: a client that is connected, loses its connection, and restores two subscriptions.
use kcpq.Client.{Client, SubId}
use kcpq.Client.Attempts.{Attempt, timed_out, context_done, subscribe}
use kcpq.Client.Reconnecting.{
  RestoreAttempt, dialed, connect, connected_client, no_subscription, restore_subscriptions,
}
use kcpq.Client.Reconnecting.Restoring.{SameButErrors, restore_subscriptions_lem}
use kcpq.Client.Reconnecting.Frames.{AreResent}
use kcpq.Client.Reconnecting.Running.{
  Running, dialling, Loops, live, finish, idle, sleeping, restoring, receive_fails, Reach, here,
  publishes_message,
}
use kcpq.Client.Reconnecting.Running.Losses.{is_past_dialling, loss_while_restoring_is_missed}
use kcpq.Client.Reconnecting.Running.Revival.{closed_client_reconnects}
use kcpq.Client.Reconnecting.Running.Doubling.{reconnecting_doubles_loops}
use kcpq.Client.Stats.{active_count}
use kcpq.Crypto.{new_aes256_block_crypt}
use kcpq.Subscriptions.{contains}
use kcpq.Router.Relation.{Distinct}
use kcpq.Protocol.{new_message_cmd, cmd_ok}
use kcpq.Prelude.{List, ◌≡◌, ◌<◌, arith, inl, refl, true, false, [], ◌∷◌, ◌++◌, Bytes, codes, ◌+◌}

-- A key of 32 bytes.
abbrev zeros8 : Bytes
zeros8 = codes "00000000"

abbrev good_key : Bytes
good_key = zeros8 ++ zeros8 ++ zeros8 ++ zeros8

abbrev online : Client
online = record (connected_client good_key) {
  subscriptions = 1 ∷ 2 ∷ [];
  sub = λ id. record no_subscription { subject = codes "a"; active = true };
  next_sub = 3;
  auto_reconnect = true;
}

connects : connect good_key false dialed ≡ inl (connected_client good_key)
unfolding connect new_aes256_block_crypt
connects = refl

abbrev one_loop : Loops
one_loop = record { fresh = 0; counted = 1 }

-- An attempt that nobody answers.
abbrev gone : Attempt
gone = record { cancelled_before = false; write_fails = false; inbox = []; ended = context_done }

abbrev started : Running
started = record {
  client = online;
  phase = idle;
  receiving = one_loop;
  beating = one_loop;
  missed_receiving = 0;
  missed_beating = 0;
}

abbrev restores_two : Running
restores_two = record started {
  client = record online { reconnecting = true };
  phase = restoring (1 ∷ 2 ∷ []);
}

loss_while_restoring_is_missed_example :
    let t = receive_fails restores_two in
    (t.client.connection_lost ≡ true)
    × (live t.receiving < live restores_two.receiving)
    × (is_past_dialling t.phase ≡ true)
loss_while_restoring_is_missed_example =
    loss_while_restoring_is_missed restores_two (receive_fails restores_two) (1 ∷ 2 ∷ [])
      (omega arith) refl refl refl refl here

abbrev asleep : Running
asleep = record started {
  client = record online { reconnecting = true; connection_lost = true };
  phase = sleeping 0;
  receiving = finish one_loop;
}

closed_client_reconnects_example :
    (t : Running) × Reach asleep t
    × (t.client.closed_once ≡ true)
    × (0 < live t.beating)
    × ((u : Running) → Reach t u → (u.client.conn_open ≡ true) × (u.client.done ≡ false))
closed_client_reconnects_example = closed_client_reconnects 0 asleep refl refl refl

-- An attempt that the server answers.
abbrev answered : RestoreAttempt
answered = record {
  write_fails = false;
  inbox = new_message_cmd cmd_ok (codes "subscribed to a") [] ∷ [];
  ended = timed_out;
  stopped = false;
}

restore_subscriptions_lem_example :
    let d = restore_subscriptions (λ id k. answered) online in
    ((frames : List Bytes) × (d.written ≡ online.written ++ frames)
      × AreResent online d online.subscriptions frames)
    × SameButErrors online d
    × (d.subscription_errors + active_count d online.subscriptions
        ≡ online.subscription_errors + active_count online online.subscriptions)
    × (online.has_conn ≡ false → active_count d online.subscriptions ≡ 0)
    × ((j : SubId)
        → ((d.sub j).subject ≡ (online.sub j).subject)
          × ((online.sub j).active ≡ false → (d.sub j).active ≡ false))
restore_subscriptions_lem_example = restore_subscriptions_lem (λ id k. answered) online two_distinct
  where
    two_distinct : Distinct online.subscriptions
    two_distinct = unfold contains in (refl, (refl, tt))

-- A message is published, a subscription made, and the connection is lost.
abbrev subscribed_to_b : Running
subscribed_to_b = record started { client = (subscribe (codes "b") 1 (gone ∷ []) started.client).0 }

abbrev published : Running
published = publishes_message (codes "a") (codes "hi") false false subscribed_to_b

abbrev published_then_lost : Running
published_then_lost = receive_fails published

-- The goroutine dials, and no loop runs.
abbrev dials_now : Running
dials_now = record started {
  client = record online { subscriptions = []; reconnecting = true; connection_lost = true };
  phase = dialling 1;
  receiving = finish one_loop;
  beating = finish one_loop;
}

reconnecting_doubles_loops_example :
    (t : Running) × Reach dials_now t
    × (live t.receiving ≡ live dials_now.receiving + 2)
    × (live t.beating ≡ live dials_now.beating + 2)
    × (t.client.conn_open ≡ true)
reconnecting_doubles_loops_example =
    reconnecting_doubles_loops 1 dials_now refl refl refl refl refl refl refl refl
