-- ===== src/Client/Reconnecting/Running/Doubling.antt =====
-- client/client.go: loops that `wg.Wait` misses, since they run `wg.Add(1)` themselves.
use kcpq.Client.Reconnecting.Running.{
  checking, sleeping, waiting, dialling, connected, restoring, Running, notice, leave, live, launch,
  renew, check, dials, notices, checks, wakes, renews, dials_again, settles, leaves, Reach, here,
  next,
}
use kcpq.Client.Reconnecting.{dialed, close_old, dial_again}
use kcpq.Client.Lifecycle.{trigger_connection_lost, reconnect}
use kcpq.Crypto.{new_aes256_block_crypt}
use kcpq.Prelude.{ℕ, ◌+◌, ◌≡◌, refl, true, false, [], arith, length}

-- The state after a dialling that the server answers.
abbrev redialled : Running → Running
redialled s = record s {
  client = record s.client { has_conn = true; conn_open = true };
  phase = connected;
  receiving = launch s.receiving;
  beating = launch s.beating;
}

dials-redialled : (k : ℕ) (s : Running) → length s.client.key ≡ 32 → redialled s ≡ dials k dialed s
unfolding dial_again new_aes256_block_crypt
dials-redialled k s fits = ground arith

-- Where no subscription is listed, the goroutine settles and leaves.
abbrev left : Running → Running
left s = leave (record (redialled s) {
  client = record (redialled s).client { connection_lost = false };
  phase = restoring s.client.subscriptions;
})

abbrev lost_again : Running → Running
lost_again s = record (left s) {
  client = record (left s).client { connection_lost = true; reconnecting = true };
  phase = checking 0;
}

notice-left :
    (s : Running)
    → s.client.done ≡ false
    → s.client.cancelled ≡ false
    → s.client.auto_reconnect ≡ true
    → lost_again s ≡ notice (left s)
unfolding notice trigger_connection_lost reconnect
notice-left s alive going auto = ground arith

-- A connection that is lost soon after it was made again: from a state in which the goroutine dials,
-- with a key of 32 bytes, automatic reconnecting, no subscription, and no loop that `wg.Wait` would
-- wait for, there is a run of actions after which two more receive loops and two more heartbeats run
-- than before, since the loops of the first dialling have not run their `wg.Add(1)` when the second
-- waits.
pub reconnecting_doubles_loops :
    (k : ℕ) (s : Running)
    → s.phase ≡ dialling k
    → length s.client.key ≡ 32
    → s.client.done ≡ false
    → s.client.cancelled ≡ false
    → s.client.auto_reconnect ≡ true
    → s.client.subscriptions ≡ []
    → s.receiving.counted ≡ 0
    → s.beating.counted ≡ 0
    → (t : Running) × Reach s t
      × (live t.receiving ≡ live s.receiving + 2)
      × (live t.beating ≡ live s.beating + 2)
      × (t.client.conn_open ≡ true)
unfolding close_old
reconnecting_doubles_loops k s at fits alive going auto none_listed reads beats = (
  redialled again,
  next
      (next
        (next
          (next
            (next
              (next
                (next (next here (dials_again k dialed at (dials-redialled k s fits)))
                  (settles refl refl))
                (leaves (ground (arith, none_listed)) refl))
              (notices (notice-left s alive going auto)))
            (checks 0 refl checked))
          (wakes 0 refl refl))
        (renews 0 refl reads beats refl))
      (dials_again 0 dialed refl (dials-redialled 0 again fits)),
  omega arith,
  omega arith,
  refl,
)
  where
    asleep : Running
    asleep = record (lost_again s) { phase = sleeping 0 }

    checked : asleep ≡ check 0 (lost_again s)
    checked = ground (arith, alive, auto)

    again : Running
    again = renew 0 (record asleep { client = close_old asleep.client; phase = waiting 0 })
