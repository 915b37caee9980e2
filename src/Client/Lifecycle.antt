-- ===== src/Client/Lifecycle.antt =====
-- client/client.go and client/subscription.go: publishing, losing the connection, `Unsubscribe`, `Close`,
-- and the delays between attempts to reconnect.
use kcpq.Prelude.{
  ℕ, ◌+◌, ◌*◌, ◌^◌, ◌%◌, Bool, true, false, ◌&&◌, not, Option, none, some, List, [], ◌∷◌, ◌++◌,
  Bytes, ltb, if◌then◌else◌, length, min,
}
use kcpq.Protocol.{new_message_cmd, encode, max_subject_len, max_body_len, cmd_unsub, cmd_pub}
use kcpq.Client.{Client, Subscription, SubId, AckId, update, remove_sub}

-- `reconnect` up to the start of its goroutine: the compare-and-swap lets one in.
unfoldable pub reconnect : Client → Client
reconnect c = if c.reconnecting then c else record c { reconnecting = true }

unfoldable pub trigger_connection_lost : Client → Client
unfolding reconnect
trigger_connection_lost c =
    let lost = record c { connection_lost = true } in
    if c.done
    then c
    else if c.cancelled
    then c
    else if c.connection_lost
    then c
    else if c.auto_reconnect
    then reconnect lost
    else lost

pub data PublishError : Type 0 where
  context_error : PublishError
  subject_too_long : ℕ → PublishError
  message_too_large : (subject payload : ℕ) → PublishError
  connection_not_available : PublishError
  failed_to_publish : PublishError

abbrev pub one_publish_error : Client → Client
one_publish_error c = record c { publish_errors = c.publish_errors + 1 }

-- `PublishWithContext`; the two tests say whether the context is cancelled and whether `Write` fails.
unfoldable pub publish :
    Bytes → Bytes → (context_done write_fails : Bool) → Client → Client × Option PublishError
publish subject body context_done write_fails c =
    if context_done
    then (c, some context_error)
    else if ltb max_subject_len (length subject)
    then (one_publish_error c, some (subject_too_long (length subject)))
    else if ltb max_body_len (1 + 2 + length subject + length body)
    then (one_publish_error c, some (message_too_large (length subject) (length body)))
    else if not c.has_conn
    then (trigger_connection_lost (one_publish_error c), some connection_not_available)
    else if write_fails
    then (trigger_connection_lost (one_publish_error c), some failed_to_publish)
    else (
      record c { written = c.written ++ encode (new_message_cmd cmd_pub subject body) ∷ [] },
      none,
    )

-- `Subscription.Unsubscribe`; the result says whether it returned an error.
unfoldable pub unsubscribe : SubId → (write_fails : Bool) → Client → Client × Bool
unsubscribe id write_fails c =
    let s = c.sub id in
    let once = record c { sub = update c.sub id (record s { unsubscribed = true }) } in
    let stopped = record c {
      sub = update c.sub id (record s { unsubscribed = true; active = false; chan_closed = true });
    } in
    let removed = record stopped { subscriptions = remove_sub id c.subscriptions } in
    if s.unsubscribed
    then (c, false)
    else if not s.active
    then (once, false)
    else if not c.has_conn
    then (removed, false)
    else if write_fails
    then (stopped, true)
    else (
      record removed {
        written = c.written ++ encode (new_message_cmd cmd_unsub s.subject []) ∷ [];
      },
      false,
    )

-- The loop of `Close` over the subscriptions.
unfoldable pub deactivate : List SubId → (SubId → Subscription) → SubId → Subscription
deactivate [] f = f
deactivate (id ∷ ids) f = deactivate ids (update f id (record (f id) { active = false }))

-- The loop of `Close` over the acknowledgements that are pending.
unfoldable pub close_acks : List (Bytes × AckId) → (AckId → Bool) → AckId → Bool
close_acks [] acked = acked
close_acks ((subject, a) ∷ m) acked = close_acks m (update acked a true)

unfoldable pub close : Client → Client
unfolding deactivate close_acks
close c = if c.closed_once then c else record c {
  closed_once = true;
  cancelled = true;
  done = true;
  sub = deactivate c.subscriptions c.sub;
  subscriptions = [];
  acked = close_acks c.pending_subs c.acked;
  pending_subs = [];
  conn_open = false;
}

abbrev pub int64_mod : ℕ
int64_mod = 2 ^ 64

abbrev pub int64_sign : ℕ
int64_sign = 2 ^ 63

-- The delay before an attempt to reconnect, without its jitter (a factor between 0.5 and 1.5), as the bit
-- pattern of a `time.Duration`: from 2 ^ 63 on it is negative. A maximum of 0 is none.
unfoldable pub reconnect_delay : (base max_backoff attempt : ℕ) → ℕ
reconnect_delay base max_backoff attempt =
    let delay = if ltb 0 attempt then (base * 2 ^ min attempt 10) % int64_mod else base in
    if ltb 0 max_backoff && (ltb delay int64_sign && ltb max_backoff delay)
    then max_backoff
    else delay
