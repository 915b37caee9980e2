-- ===== src/Client/Reconnecting/Running.antt =====
-- client/client.go: the client with its receive loops and heartbeats, its monitor, the goroutine that
-- `reconnect` starts, and the calls of the application, one action at a time. An action is what a
-- goroutine does between two waits; `Close`, a subscribing call and the restoration of one
-- subscription are one action each. A loop that `go` has launched is waited for by `wg.Wait` only once
-- it has run its own `wg.Add(1)`.
pub mod Single
pub mod Losses
pub mod Revival
pub mod Tallies
pub mod Counting
pub mod Doubling
use kcpq.Client.{Client, SubId, handle_message}
use kcpq.Client.Lifecycle.{trigger_connection_lost, publish, unsubscribe, close}
use kcpq.Client.Attempts.{Attempt, subscribe}
use kcpq.Client.Reconnecting.{
  Dialed, RestoreAttempt, restore_sub, close_old, renew_done, dial_again, enable_auto_reconnect,
  disable_auto_reconnect,
}
use kcpq.Protocol.{Message, new_message_cmd, encode, cmd_ping}
use kcpq.Prelude.{
  ℕ, ◌+◌, ◌-◌, ◌<◌, ◌≡◌, Bool, true, false, not, ◌&&◌, ◌||◌, Option, none, some, List, [], ◌∷◌,
  ◌++◌, if◌then◌else◌, Bytes,
}

-- Where the goroutine of `reconnect` stands: before the tests of its loop, in the sleep, in the wait
-- for the old loops, before dialling, connected, or with the subscriptions that are left to restore.
pub data Phase : Type 0 where
  idle : Phase
  checking sleeping waiting dialling : (attempt : ℕ) → Phase
  connected : Phase
  restoring : List SubId → Phase

-- The goroutines of one kind: those launched, which have not run `wg.Add(1)`, and those that have.
pub record Loops : Type 0 where
  pub fresh : ℕ
  pub counted : ℕ

abbrev pub live : Loops → ℕ
live l = l.fresh + l.counted

-- `go` launches one.
abbrev pub launch : Loops → Loops
launch l = record l { fresh = l.fresh + 1 }

-- `c.wg.Add(1)`
abbrev pub add : Loops → Loops
add l = record { fresh = l.fresh - 1; counted = l.counted + 1 }

-- `defer c.wg.Done()`, of one and of all that are waited for
abbrev pub finish : Loops → Loops
finish l = record l { counted = l.counted - 1 }

abbrev pub drain : Loops → Loops
drain l = record l { counted = 0 }

pub record Running : Type 0 where
  pub client : Client
  pub phase : Phase
  -- the receive loops and the heartbeats that run
  pub receiving : Loops
  pub beating : Loops
  -- those of each kind that were launched and not counted when `wg.Wait` of `doReconnect` returned
  pub missed_receiving : ℕ
  pub missed_beating : ℕ

-- `triggerConnectionLost`, which starts the goroutine where `reconnect` wins the compare-and-swap.
unfoldable pub notice : Running → Running
unfolding trigger_connection_lost
notice s =
    let c = trigger_connection_lost s.client in
    record s {
      client = c;
      phase = if not s.client.reconnecting && c.reconnecting then checking 0 else s.phase;
    }

-- `PublishWithContext`, which may notice a loss itself.
unfoldable pub publishes_message :
    (subject body : Bytes) → (context_done write_fails : Bool) → Running → Running
unfolding trigger_connection_lost publish
publishes_message subject body context_done write_fails s =
    let c = (publish subject body context_done write_fails s.client).0 in
    record s {
      client = c;
      phase = if not s.client.reconnecting && c.reconnecting then checking 0 else s.phase;
    }

-- The goroutine ends: `defer c.reconnecting.Store(false)`.
abbrev pub leave : Running → Running
leave s = record s { client = record s.client { reconnecting = false }; phase = idle }

-- `receiveLoop` returns after a failed read.
abbrev pub receive_fails : Running → Running
receive_fails s = notice (record s {
  client = record s.client { connection_errors = s.client.connection_errors + 1 };
  receiving = finish s.receiving;
})

-- One tick of `heartbeat`: a PING frame, or the end of the loop.
unfoldable pub beat : (write_fails : Bool) → Running → Running
unfolding notice
beat write_fails s =
    let stopped = notice (record s { beating = finish s.beating }) in
    if not s.client.has_conn then stopped else if write_fails then stopped else record s {
      client = record s.client {
        written = s.client.written ++ encode (new_message_cmd cmd_ping [] []) ∷ [];
      };
    }

-- What `MonitorConnection` waits for: the end of a loop, or the end of the client.
pub data Awaited : Type 0 where
  loop_exited client_stopped : Awaited

unfoldable pub monitor_connection : Awaited → Running → Running
unfolding notice
monitor_connection loop_exited s = notice s
monitor_connection client_stopped s = s

-- The top of the loop of `reconnect`.
abbrev pub check : ℕ → Running → Running
check attempt s =
    if not s.client.auto_reconnect
    then leave s
    else if s.client.done
    then leave s
    else record s { phase = sleeping attempt }

-- The dialling of `doReconnect`, and what the loop makes of its result.
abbrev pub dials : ℕ → Dialed → Running → Running
dials attempt answer s =
    let (c, e) = dial_again answer s.client in
    elim e [
      | none ↦ record s {
        client = c;
        phase = connected;
        receiving = launch s.receiving;
        beating = launch s.beating;
      }
      | some err ↦ record s {
        client = record c {
          connection_errors = c.connection_errors + 1;
          reconnect_count = c.reconnect_count + 1;
        };
        phase = checking (attempt + 1);
      }
    ]

-- `doReconnect` behind its `wg.Wait`, which lets it through once no counted loop is left.
abbrev pub renew : ℕ → Running → Running
renew attempt s = record s {
  client = renew_done s.client;
  phase = dialling attempt;
  missed_receiving = s.missed_receiving + s.receiving.fresh;
  missed_beating = s.missed_beating + s.beating.fresh;
}

pub data Step (s t : Running) : Type 0 where
  receive_starts : 0 < s.receiving.fresh → t ≡ record s { receiving = add s.receiving } → Step s t
  beat_starts : 0 < s.beating.fresh → t ≡ record s { beating = add s.beating } → Step s t
  receives :
      (msg : Message)
      → 0 < s.receiving.counted
      → t ≡ record s { client = handle_message msg s.client }
      → Step s t
  read_fails : 0 < s.receiving.counted → t ≡ receive_fails s → Step s t
  receive_stops :
      0 < s.receiving.counted
      → (s.client.done || s.client.cancelled) ≡ true
      → t ≡ record s { receiving = finish s.receiving }
      → Step s t
  beats : (write_fails : Bool) → 0 < s.beating.counted → t ≡ beat write_fails s → Step s t
  monitors : (awaited : Awaited) → t ≡ monitor_connection awaited s → Step s t
  beat_stops :
      0 < s.beating.counted
      → s.client.done ≡ true
      → t ≡ record s { beating = finish s.beating }
      → Step s t
  notices : t ≡ notice s → Step s t
  publishes :
      (subject body : Bytes) (context_done write_fails : Bool)
      → t ≡ publishes_message subject body context_done write_fails s
      → Step s t
  checks : (attempt : ℕ) → s.phase ≡ checking attempt → t ≡ check attempt s → Step s t
  wakes :
      (attempt : ℕ)
      → s.phase ≡ sleeping attempt
      → t ≡ record s { client = close_old s.client; phase = waiting attempt }
      → Step s t
  renews :
      (attempt : ℕ)
      → s.phase ≡ waiting attempt
      → s.receiving.counted ≡ 0
      → s.beating.counted ≡ 0
      → t ≡ renew attempt s
      → Step s t
  dials_again :
      (attempt : ℕ) (answer : Dialed)
      → s.phase ≡ dialling attempt
      → t ≡ dials attempt answer s
      → Step s t
  settles :
      s.phase ≡ connected
      → t ≡ record s {
        client = record s.client { connection_lost = false };
        phase = restoring s.client.subscriptions;
      }
      → Step s t
  restores :
      (id : SubId) (ids : List SubId) (env : ℕ → RestoreAttempt)
      → s.phase ≡ restoring (id ∷ ids)
      → t ≡ record s { client = restore_sub env id s.client; phase = restoring ids }
      → Step s t
  leaves : s.phase ≡ restoring [] → t ≡ leave s → Step s t
  enables :
      (interval : ℕ) → t ≡ record s { client = enable_auto_reconnect interval s.client } → Step s t
  disables : t ≡ record s { client = disable_auto_reconnect s.client } → Step s t
  subscribes :
      (subject : Bytes) (channel_capacity : ℕ) (attempts : List Attempt)
      → t ≡ record s { client = (subscribe subject channel_capacity attempts s.client).0 }
      → Step s t
  unsubscribes :
      (id : SubId) (write_fails : Bool)
      → t ≡ record s { client = (unsubscribe id write_fails s.client).0 }
      → Step s t
  -- the first `Close`: it waits for the counted loops, which see the closed channel
  closes :
      s.client.closed_once ≡ false
      → t ≡ record s {
        client = close s.client;
        receiving = drain s.receiving;
        beating = drain s.beating;
      }
      → Step s t

pub data Reach (s : Running) : Running → Type 0 where
  here : Reach s s
  next : {t u : Running} → Reach s t → Step t u → Reach s u
