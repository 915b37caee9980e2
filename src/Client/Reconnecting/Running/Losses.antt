-- ===== src/Client/Reconnecting/Running/Losses.antt =====
-- client/client.go: losses of the connection that no goroutine repairs.
use kcpq.Client.Reconnecting.Running.{
  publishes, publishes_message, Phase, idle, checking, sleeping, waiting, dialling, connected,
  restoring, Running, notice, receive_fails, beat, monitor_connection, loop_exited, client_stopped,
  Step, receive_starts, beat_starts, subscribes, unsubscribes, live, finish, receives, read_fails,
  receive_stops, beats, monitors, beat_stops, notices, checks, wakes, renews, dials_again, settles,
  restores, leaves, enables, disables, closes, Reach, here, next,
}
use kcpq.Client.Keeping.{
  Flags, handle_message-Same, subscribe-SameButListed, unsubscribe-SameButListed,
}
use kcpq.Client.Reconnecting.Restoring.{restore_sub_lem}
use kcpq.Client.Reconnecting.{RestoreAttempt, restore_sub}
use kcpq.Client.Lifecycle.{trigger_connection_lost, reconnect, publish, close}
use kcpq.Client.{Client, SubId}
use kcpq.Prelude.{ℕ, ◌+◌, ◌-◌, ◌≤◌, ◌<◌, ◌≡◌, ap, Bool, true, false, List, arith}

-- The goroutine restores subscriptions or has ended: it will not dial again.
abbrev pub is_past_dialling : Phase → Bool
is_past_dialling idle = true
is_past_dialling (checking k) = false
is_past_dialling (sleeping k) = false
is_past_dialling (waiting k) = false
is_past_dialling (dialling k) = false
is_past_dialling connected = false
is_past_dialling (restoring ids) = true

-- A loss that is recorded, with at most `n` loops that read and nothing that will dial.
pub record IsMissed (n : ℕ) (s : Running) : Type 0 where
  pub lost : s.client.connection_lost ≡ true
  pub deaf : live s.receiving ≤ n
  pub past : is_past_dialling s.phase ≡ true

notice-IsMissed : (n : ℕ) (s : Running) → IsMissed n s → IsMissed n (notice s)
unfolding notice trigger_connection_lost reconnect
notice-IsMissed n s v = ground arith

lost-restore_sub :
    (env : ℕ → RestoreAttempt) (id : SubId) (c : Client)
    → (restore_sub env id c).connection_lost ≡ c.connection_lost
lost-restore_sub env id c = ap (λ (f : Flags). f.lost) (restore_sub_lem env id c).0

Step-IsMissed : {s t : Running} {n : ℕ} → Step s t → IsMissed n s → IsMissed n t
Step-IsMissed (receive_starts h e) v = ground arith
Step-IsMissed (beat_starts h e) v = ground arith
Step-IsMissed {s} (receives msg h e) v =
    ground (arith, ap (λ (f : Flags). f.lost) (handle_message-Same msg 0 s.client).0)
Step-IsMissed {s} {n = n} (read_fails h e) v = ground (
  arith,
  notice-IsMissed n (record s {
    client = record s.client { connection_errors = s.client.connection_errors + 1 };
    receiving = finish s.receiving;
  }),
)
Step-IsMissed (receive_stops h h' e) v = ground arith
Step-IsMissed {s} {n = n} (beats write_fails h e) v =
    unfold beat in ground (arith, notice-IsMissed n (record s { beating = finish s.beating }))
Step-IsMissed {s} {n = n} (monitors loop_exited e) v =
    unfold monitor_connection in ground (arith, notice-IsMissed n s)
Step-IsMissed (monitors client_stopped e) v = unfold monitor_connection in ground arith
Step-IsMissed (beat_stops h h' e) v = ground arith
Step-IsMissed {s} {n = n} (notices e) v = ground (arith, notice-IsMissed n s)
Step-IsMissed (publishes subject body x y e) v =
    unfold publishes_message publish trigger_connection_lost reconnect in ground arith
Step-IsMissed (checks k h e) v = ground arith
Step-IsMissed (wakes k h e) v = ground arith
Step-IsMissed (renews k h h1 h2 e) v = ground arith
Step-IsMissed (dials_again k answer h e) v = ground arith
Step-IsMissed (settles h e) v = ground arith
Step-IsMissed {s} (restores id ids env h e) v = ground (arith, lost-restore_sub env id s.client)
Step-IsMissed (leaves h e) v = ground arith
Step-IsMissed (enables interval e) v = ground arith
Step-IsMissed (disables e) v = ground arith
Step-IsMissed {s} (subscribes subject capacity attempts e) v =
    ground (
      arith,
      ap (λ (f : Flags). f.lost) (subscribe-SameButListed subject capacity attempts s.client),
    )
Step-IsMissed {s} (unsubscribes id write_fails e) v =
    ground (arith, ap (λ (f : Flags). f.lost) (unsubscribe-SameButListed id write_fails s.client))
Step-IsMissed (closes h e) v = unfold close in ground arith

Reach-IsMissed : {s t : Running} {n : ℕ} → IsMissed n s → Reach s t → IsMissed n t
Reach-IsMissed v here = v
Reach-IsMissed v (next r st) = Step-IsMissed st (Reach-IsMissed v r)

-- A connection that is lost while the subscriptions are being restored is never made again, whatever
-- actions follow, also with automatic reconnecting switched on: the loss is recorded, but the
-- goroutine that notices it starts none, since `reconnecting` is still set, and every later notice
-- finds the loss recorded. From then on there are always fewer receive loops than before the loss,
-- hence none if the loop whose read failed was the only one, and nothing dials.
pub loss_while_restoring_is_missed :
    (s t : Running) (ids : List SubId)
    → 0 < s.receiving.counted
    → s.phase ≡ restoring ids
    → s.client.reconnecting ≡ true
    → s.client.done ≡ false
    → s.client.cancelled ≡ false
    → Reach (receive_fails s) t
    → (t.client.connection_lost ≡ true)
      × (live t.receiving < live s.receiving)
      × (is_past_dialling t.phase ≡ true)
unfolding notice trigger_connection_lost reconnect
loss_while_restoring_is_missed s t ids reads e busy alive going r =
    let v = Reach-IsMissed start r in (v.lost, omega (arith, v.deaf), v.past)
  where
    start : IsMissed (live s.receiving - 1) (receive_fails s)
    start = ground arith
