-- ===== src/Client/Stats.antt =====
-- client/client.go: `GetStats`, but for the times, the rates and the latencies (RingBuffer).
use kcpq.Client.{Client, SubId}
use kcpq.Prelude.{ℕ, ◌+◌, Bool, List, [], ◌∷◌, if◌then◌else◌}

-- `activeSubs`, over a list of subscriptions
unfoldable pub active_count : Client → List SubId → ℕ
active_count c [] = 0
active_count c (id ∷ ids) = (if (c.sub id).active then 1 else 0) + active_count c ids

pub record ClientStats : Type 0 where
  pub connected : Bool
  pub messages_sent : ℕ
  pub messages_received : ℕ
  pub bytes_sent : ℕ
  pub bytes_received : ℕ
  pub active_subscriptions : ℕ
  pub total_subscriptions : ℕ
  pub connection_errors : ℕ
  pub publish_errors : ℕ
  pub subscription_errors : ℕ
  pub reconnect_count : ℕ

abbrev pub get_stats : Client → ClientStats
get_stats c = record {
  connected = c.has_conn;
  messages_sent = c.messages_sent;
  messages_received = c.messages_received;
  bytes_sent = c.bytes_sent;
  bytes_received = c.bytes_received;
  active_subscriptions = active_count c c.subscriptions;
  total_subscriptions = c.total_subscriptions;
  connection_errors = c.connection_errors;
  publish_errors = c.publish_errors;
  subscription_errors = c.subscription_errors;
  reconnect_count = c.reconnect_count;
}

-- What the client counts of its messages and subscriptions.
pub record Counted : Type 0 where
  pub sent : ℕ
  pub received : ℕ
  pub bytes_out : ℕ
  pub bytes_in : ℕ
  pub total : ℕ

abbrev pub counted_by : Client → Counted
counted_by c = record {
  sent = c.messages_sent;
  received = c.messages_received;
  bytes_out = c.bytes_sent;
  bytes_in = c.bytes_received;
  total = c.total_subscriptions;
}
