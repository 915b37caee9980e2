-- ===== src/Client/Reconnecting/Running/Counting.antt =====
-- client/client.go: what `GetStats` counts while the goroutines run.
use kcpq.Client.Reconnecting.Running.{Running}
use kcpq.Client.Reconnecting.Running.Tallies.{Tally}
use kcpq.Client.Stats.{counted_by}
use kcpq.Client.{Client}
use kcpq.Prelude.{◌+◌, ◌≡◌}

-- From one client to a later one: the counts of messages are the same, and the errors are counted exactly.
record IsLater (n : Tally) (c d : Client) : Type 0 where
  pub counted : counted_by d ≡ counted_by c
  pub connection : d.connection_errors ≡ c.connection_errors + (n.failed_reads + n.refused_dials)
  pub publications : d.publish_errors ≡ c.publish_errors + n.failed_publications
  pub subscriptions : d.subscription_errors ≡ c.subscription_errors + n.lost_subscriptions
  pub redials : d.reconnect_count ≡ c.reconnect_count + n.refused_dials
