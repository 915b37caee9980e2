-- ===== src/Client/Reconnecting/Running/Revival.antt =====
-- client/client.go: a client that is closed while it reconnects.
use kcpq.Client.Reconnecting.Running.{
  publishes, publishes_message, idle, sleeping, waiting, connected, restoring, Running, notice,
  leave, dials, beat, monitor_connection, loop_exited, client_stopped, Step, receive_starts,
  beat_starts, subscribes, unsubscribes, live, finish, drain, launch, renew, receives, read_fails,
  receive_stops, beats, monitors, beat_stops, notices, checks, wakes, renews, dials_again, settles,
  restores, leaves, enables, disables, closes, Reach, here, next,
}
use kcpq.Client.Keeping.{
  Flags, SameButListed, handle_message-Same, subscribe-SameButListed, unsubscribe-SameButListed,
}
use kcpq.Client.Reconnecting.Restoring.{restore_sub_lem}
use kcpq.Client.Reconnecting.{dialed, RestoreAttempt, restore_sub, close_old, dial_again}
use kcpq.Crypto.{new_aes256_block_crypt}
use kcpq.Client.Attempts.{subscribe}
use kcpq.Client.Lifecycle.{trigger_connection_lost, reconnect, publish, unsubscribe, close}
use kcpq.Client.{Client, SubId}
use kcpq.Prelude.{ℕ, ◌+◌, ◌<◌, ◌≡◌, refl, ap, true, false, [], arith, length}

-- A client that was closed, with a connection that is open again.
record IsRevived (s : Running) : Type 0 where
  pub closed : s.client.closed_once ≡ true
  pub is_cancelled : s.client.cancelled ≡ true
  pub undone : s.client.done ≡ false
  pub opened : s.client.conn_open ≡ true
  pub ended : s.phase ≡ idle

flags-listed :
    (c d : Client)
    → SameButListed c d
    → (d.closed_once ≡ c.closed_once)
      × (d.cancelled ≡ c.cancelled)
      × (d.done ≡ c.done)
      × (d.conn_open ≡ c.conn_open)
flags-listed c d e = (
  ap (λ (f : Flags). f.once) e,
  ap (λ (f : Flags). f.is_cancelled) e,
  ap (λ (f : Flags). f.is_done) e,
  ap (λ (f : Flags). f.opened) e,
)

flags-restored :
    (env : ℕ → RestoreAttempt) (id : SubId) (c : Client)
    → let d = restore_sub env id c in
      (d.closed_once ≡ c.closed_once)
      × (d.cancelled ≡ c.cancelled)
      × (d.done ≡ c.done)
      × (d.conn_open ≡ c.conn_open)
flags-restored env id c =
    let e = (restore_sub_lem env id c).0 in
    (
      ap (λ (f : Flags). f.once) e,
      ap (λ (f : Flags). f.is_cancelled) e,
      ap (λ (f : Flags). f.is_done) e,
      ap (λ (f : Flags). f.opened) e,
    )

notice-IsRevived : (s : Running) → IsRevived s → IsRevived (notice s)
unfolding notice trigger_connection_lost reconnect
notice-IsRevived s v = ground arith

Step-IsRevived : {s t : Running} → Step s t → IsRevived s → IsRevived t
Step-IsRevived (receive_starts h e) v = ground arith
Step-IsRevived (beat_starts h e) v = ground arith
Step-IsRevived {s} (receives msg h e) v =
    let same = (handle_message-Same msg 0 s.client).0 in
    ground (
      arith,
      ap (λ (f : Flags). f.once) same,
      ap (λ (f : Flags). f.is_cancelled) same,
      ap (λ (f : Flags). f.is_done) same,
      ap (λ (f : Flags). f.opened) same,
    )
Step-IsRevived {s} (read_fails h e) v = ground (
  arith,
  notice-IsRevived (record s {
    client = record s.client { connection_errors = s.client.connection_errors + 1 };
    receiving = finish s.receiving;
  }),
)
Step-IsRevived (receive_stops h h' e) v = ground arith
Step-IsRevived {s} (beats write_fails h e) v =
    unfold beat in ground (arith, notice-IsRevived (record s { beating = finish s.beating }))
Step-IsRevived {s} (monitors loop_exited e) v =
    unfold monitor_connection in ground (arith, notice-IsRevived s)
Step-IsRevived (monitors client_stopped e) v = unfold monitor_connection in ground arith
Step-IsRevived (beat_stops h h' e) v = ground arith
Step-IsRevived {s} (notices e) v = ground (arith, notice-IsRevived s)
Step-IsRevived (publishes subject body x y e) v =
    unfold publishes_message publish trigger_connection_lost reconnect in ground arith
Step-IsRevived (checks k h e) v = ground arith
Step-IsRevived (wakes k h e) v = ground arith
Step-IsRevived (renews k h h1 h2 e) v = ground arith
Step-IsRevived (dials_again k answer h e) v = ground arith
Step-IsRevived (settles h e) v = ground arith
Step-IsRevived {s} (restores id ids env h e) v = ground (arith, flags-restored env id s.client)
Step-IsRevived (leaves h e) v = ground arith
Step-IsRevived (enables interval e) v = ground arith
Step-IsRevived (disables e) v = ground arith
Step-IsRevived {s} (subscribes subject capacity attempts e) v =
    let c = (subscribe subject capacity attempts s.client).0 in
    ground
      (arith, flags-listed s.client c (subscribe-SameButListed subject capacity attempts s.client))
Step-IsRevived {s} (unsubscribes id write_fails e) v =
    let c = (unsubscribe id write_fails s.client).0 in
    ground (arith, flags-listed s.client c (unsubscribe-SameButListed id write_fails s.client))
Step-IsRevived (closes h e) v = ground arith

Reach-IsRevived : {s t : Running} → IsRevived s → Reach s t → IsRevived t
Reach-IsRevived v here = v
Reach-IsRevived v (next r st) = Step-IsRevived st (Reach-IsRevived v r)

-- A client that is closed while its goroutine sleeps before an attempt to reconnect may come back:
-- with a key of 32 bytes and a server that answers, it ends with a new connection, a heartbeat and a
-- new channel `done`, and whatever of the actions happens from then on, that connection is never
-- closed and that channel neither.
pub closed_client_reconnects :
    (k : ℕ) (s : Running)
    → s.phase ≡ sleeping k
    → s.client.closed_once ≡ false
    → length s.client.key ≡ 32
    → (t : Running) × Reach s t
      × (t.client.closed_once ≡ true)
      × (0 < live t.beating)
      × ((u : Running) → Reach t u → (u.client.conn_open ≡ true) × (u.client.done ≡ false))
unfolding close close_old
closed_client_reconnects k s asleep first fits = (
  s6,
  next
      (next
        (next
          (next (next (next here (closes first refl)) (wakes k e0 refl))
            (renews k refl refl refl refl))
          (dials_again k dialed refl dialled))
        (settles refl refl))
      (leaves none_left refl),
  once,
  omega arith,
  λ u r. let v = Reach-IsRevived revived r in (v.opened, v.undone),
)
  where
    s1 : Running
    s1 = record s {
      client = close s.client;
      receiving = drain s.receiving;
      beating = drain s.beating;
    }

    e0 : s1.phase ≡ sleeping k
    e0 = asleep

    s2 : Running
    s2 = record s1 { client = close_old s1.client; phase = waiting k }

    s3 : Running
    s3 = renew k s2

    s4 : Running
    s4 = record s3 {
      client = record s3.client { has_conn = true; conn_open = true };
      phase = connected;
      receiving = launch s3.receiving;
      beating = launch s3.beating;
    }

    dialled : s4 ≡ dials k dialed s3
    dialled = unfold dial_again new_aes256_block_crypt in ground arith

    s5 : Running
    s5 = record s4 {
      client = record s4.client { connection_lost = false };
      phase = restoring s4.client.subscriptions;
    }

    none_left : s5.phase ≡ restoring []
    none_left = ground arith

    s6 : Running
    s6 = leave s5

    once : s6.client.closed_once ≡ true
    once = ground arith

    revived : IsRevived s6
    revived = ground arith
