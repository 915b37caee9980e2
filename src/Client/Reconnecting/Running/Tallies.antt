-- ===== src/Client/Reconnecting/Running/Tallies.antt =====
-- client/client.go: the failures among the actions of a client, told apart from its counts.
use kcpq.Client.Reconnecting.Running.{
  publishes, Running, Step, receive_starts, beat_starts, receives, read_fails, receive_stops, beats,
  monitors, beat_stops, notices, checks, wakes, renews, dials_again, settles, restores, leaves,
  enables, disables, subscribes, unsubscribes, closes, Reach, here, next,
}
use kcpq.Client.Reconnecting.{ConnectError, dial}
use kcpq.Client.Lifecycle.{
  PublishError, context_error, subject_too_long, message_too_large, connection_not_available,
  failed_to_publish, publish,
}
use kcpq.Client.{Client, SubId}
use kcpq.Prelude.{ℕ, ◌+◌, ◌&&◌, not, Option, none, some, if◌then◌else◌}

-- How often things went wrong, told from the actions and not from the counts of the client.
pub record Tally : Type 0 where
  pub failed_reads : ℕ
  pub refused_dials : ℕ
  pub failed_publications : ℕ
  pub lost_subscriptions : ℕ

abbrev pub nothing : Tally
nothing = record {
  failed_reads = 0;
  refused_dials = 0;
  failed_publications = 0;
  lost_subscriptions = 0;
}

abbrev pub together : Tally → Tally → Tally
together m n = record {
  failed_reads = m.failed_reads + n.failed_reads;
  refused_dials = m.refused_dials + n.refused_dials;
  failed_publications = m.failed_publications + n.failed_publications;
  lost_subscriptions = m.lost_subscriptions + n.lost_subscriptions;
}

-- A call with a cancelled context is not a failed publication.
abbrev pub is_failure : Option PublishError → ℕ
is_failure none = 0
is_failure (some context_error) = 0
is_failure (some (subject_too_long n)) = 1
is_failure (some (message_too_large n m)) = 1
is_failure (some connection_not_available) = 1
is_failure (some failed_to_publish) = 1

abbrev pub is_refused : Option ConnectError → ℕ
is_refused none = 0
is_refused (some e) = 1

-- A subscription that was active and is not any more.
abbrev pub no_longer : SubId → (c d : Client) → ℕ
no_longer id c d = if (c.sub id).active && not (d.sub id).active then 1 else 0

-- One action: a read that failed, a dialling that was refused, a publication that returned an error, or a
-- subscription that was active before its restoration and is not afterwards.
abbrev pub tally_step : {s t : Running} → Step s t → Tally
tally_step (read_fails h e) = record nothing { failed_reads = 1 }
tally_step {s} (dials_again k answer h e) = record nothing {
  refused_dials = is_refused (dial s.client.key answer);
}
tally_step {s} (publishes subject body x y e) = record nothing {
  failed_publications = is_failure (publish subject body x y s.client).1;
}
tally_step {s} {t} (restores id ids env h e) = record nothing {
  lost_subscriptions = no_longer id s.client t.client;
}
tally_step (receive_starts h e) = nothing
tally_step (beat_starts h e) = nothing
tally_step (receives msg h e) = nothing
tally_step (receive_stops h h1 e) = nothing
tally_step (beats x h e) = nothing
tally_step (monitors awaited e) = nothing
tally_step (beat_stops h h1 e) = nothing
tally_step (notices e) = nothing
tally_step (checks k h e) = nothing
tally_step (wakes k h e) = nothing
tally_step (renews k h h1 h2 e) = nothing
tally_step (settles h e) = nothing
tally_step (leaves h e) = nothing
tally_step (enables x e) = nothing
tally_step (disables e) = nothing
tally_step (subscribes x y z e) = nothing
tally_step (unsubscribes x y e) = nothing
tally_step (closes h e) = nothing

unfoldable pub tally : {s t : Running} → Reach s t → Tally
tally here = nothing
tally (next r st) = together (tally r) (tally_step st)
