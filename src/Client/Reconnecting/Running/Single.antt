-- ===== src/Client/Reconnecting/Running/Single.antt =====
-- client/client.go: that one goroutine reconnects, and how many receive loops and heartbeats run.
use kcpq.Client.Reconnecting.Running.{
  Phase, idle, checking, sleeping, waiting, dialling, connected, restoring, Running, live,
}
use kcpq.Client.{Client}
use kcpq.Prelude.{ℕ, ◌+◌, ◌≤◌, ◌≡◌, Bool, true, false}

abbrev is_busy : Phase → Bool
is_busy idle = false
is_busy (checking k) = true
is_busy (sleeping k) = true
is_busy (waiting k) = true
is_busy (dialling k) = true
is_busy connected = true
is_busy (restoring ids) = true

-- The loops of one kind that a phase allows: none while the goroutine dials, which starts one.
abbrev allowed : Phase → ℕ
allowed idle = 1
allowed (checking k) = 1
allowed (sleeping k) = 1
allowed (waiting k) = 1
allowed (dialling k) = 0
allowed connected = 1
allowed (restoring ids) = 1

-- The flag `reconnecting` is set exactly while the goroutine runs. Of the receive loops and of the
-- heartbeats, launched and counted together, there is at most one, and none while the goroutine dials,
-- but for those that `wg.Wait` missed.
pub record IsSingle (s : Running) : Type 0 where
  pub busy : s.client.reconnecting ≡ is_busy s.phase
  pub few_receive : live s.receiving ≤ allowed s.phase + s.missed_receiving
  pub few_beat : live s.beating ≤ allowed s.phase + s.missed_beating
