-- ===== src/Client/Processing.antt =====
-- client/subscription.go and `SubscribeChanWithContext` of client/client.go: the goroutine that hands
-- the messages of a subscription to its callback, the callback that forwards them to a channel, and
-- the counters.
use kcpq.Client.{Client, ClientMessage, Subscription, try_enqueue}
use kcpq.Client.Attempts.{Attempt, Subscribed, subscribed, failed, retry, subscribe}
use kcpq.Prelude.{
  ℕ, ◌+◌, ◌≤◌, ◌≡◌, refl, sym, ap, ◌∙◌, Bool, true, false, Option, none, some, List, [], ◌∷◌, ◌++◌,
  append_assoc, append-nil, Bytes, ltb, leb, if◌then◌else◌, length, length-append, arith,
}

-- One round of the loop of `startProcessing`: the message that the callback is called with.
unfoldable pub process_next : Subscription → Subscription × Option ClientMessage
process_next s = elim s.msg_chan [
  | [] ↦ (s, none)
  | msg ∷ rest ↦ (record s { msg_chan = rest; processed_count = s.processed_count + 1 }, some msg)
]

pub record SubscriptionStats : Type 0 where
  pub processed : ℕ
  pub dropped : ℕ
  pub active : Bool

abbrev pub get_stats : Subscription → SubscriptionStats
get_stats s = record { processed = s.processed_count; dropped = s.dropped_count; active = s.active }

-- The channel of `SubscribeChanWithContext`.
pub record Channel : Type 0 where
  pub queue : List ClientMessage
  pub capacity : ℕ
  pub closed : Bool

-- The callback that it passes: a message that finds the channel full is left out.
unfoldable pub forward : ClientMessage → Channel → Channel
forward msg ch =
    if ltb (length ch.queue) ch.capacity then record ch { queue = ch.queue ++ msg ∷ [] } else ch

-- `SubscribeChanWithContext`; on an error the channel is closed.
unfoldable pub subscribe_chan : Bytes → ℕ → List Attempt → Client → Client × Channel × Subscribed
unfolding subscribe
subscribe_chan subject capacity0 attempts c =
    let capacity = if leb capacity0 0 then 100 else capacity0 in
    let (c', out) = subscribe subject capacity attempts c in
    let ch : Channel = record { queue = []; capacity = capacity; closed = false } in
    elim out [
      | subscribed id ↦ (c', ch, subscribed id)
      | failed e ↦ (c', record ch { closed = true }, failed e)
      | retry ↦ (c', record ch { closed = true }, retry)
    ]

-- What happens to a subscription: a message arrives from the receive loop, or its goroutine takes one.
pub data Event : Type 0 where
  arrives : ClientMessage → Event
  takes : Event

-- The subscription after some events, what `TryEnqueue` accepted, and what the callback was called with.
pub record Ran : Type 0 where
  pub after : Subscription
  pub accepted : List ClientMessage
  pub handled : List ClientMessage

abbrev step : Event → Subscription → Ran
step (arrives msg) s =
    let (s', taken) = try_enqueue msg s in
    record { after = s'; accepted = if taken then msg ∷ [] else []; handled = [] }
step takes s =
    let (s', msg) = process_next s in
    let got : List ClientMessage = elim msg [ none ↦ [] | some m ↦ m ∷ [] ] in
    record { after = s'; accepted = []; handled = got }

unfoldable pub run : List Event → Subscription → Ran
run [] s = record { after = s; accepted = []; handled = [] }
run (e ∷ es) s =
    let first = step e s in
    let rest = run es first.after in
    record {
      after = rest.after;
      accepted = first.accepted ++ rest.accepted;
      handled = first.handled ++ rest.handled;
    }

unfoldable pub arrivals : List Event → ℕ
arrivals [] = 0
arrivals (arrives msg ∷ es) = 1 + arrivals es
arrivals (takes ∷ es) = arrivals es

arrivals-cons : (e : Event) (es : List Event) → arrivals (e ∷ es) ≡ arrivals (e ∷ []) + arrivals es
unfolding arrivals
arrivals-cons (arrives msg) es = refl
arrivals-cons takes es = omega arith

-- One event.
step_lem :
    (e : Event) (s : Subscription)
    → s.active ≡ true
    → s.chan_closed ≡ false
    → length s.msg_chan ≤ s.capacity
    → let r = step e s in
      (s.msg_chan ++ r.accepted ≡ r.handled ++ r.after.msg_chan)
      × (r.after.active ≡ true)
      × (r.after.chan_closed ≡ false)
      × (r.after.capacity ≡ s.capacity)
      × (length r.after.msg_chan ≤ s.capacity)
      × (r.after.processed_count ≡ s.processed_count + length r.handled)
      × (r.after.dropped_count + length r.accepted ≡ s.dropped_count + arrivals (e ∷ []))
unfolding try_enqueue process_next arrivals
step_lem (arrives msg) s h1 h2 h3 =
    ground (arith, length-append s.msg_chan (msg ∷ []), append-nil s.msg_chan)
step_lem takes s h1 h2 h3 = ground (arith, append-nil s.msg_chan)

-- A subscription that is active and open, whose queue is within its capacity: whatever arrives and however
-- its goroutine keeps up, what the callback has been called with and what is still queued are, in order,
-- what was queued before and what `TryEnqueue` accepted since. The queue keeps within the capacity, every
-- call is counted as processed, and every arrival is either accepted or counted as dropped.
pub run_in_order :
    (es : List Event) (s : Subscription)
    → s.active ≡ true
    → s.chan_closed ≡ false
    → length s.msg_chan ≤ s.capacity
    → let r = run es s in
      (s.msg_chan ++ r.accepted ≡ r.handled ++ r.after.msg_chan)
      × (length r.after.msg_chan ≤ s.capacity)
      × (r.after.processed_count ≡ s.processed_count + length r.handled)
      × (r.after.dropped_count + length r.accepted ≡ s.dropped_count + arrivals es)
unfolding run arrivals
run_in_order [] s h1 h2 h3 = (append-nil s.msg_chan, h3, omega arith, omega arith)
run_in_order (e ∷ es) s h1 h2 h3 =
    let (kept, h1', h2', same, fits, counted, dropped) = step_lem e s h1 h2 h3 in
    let (kept', fits', counted', dropped') =
      run_in_order es first.after h1' h2' (omega (arith, fits, same)) in
    (
      sym (append_assoc s.msg_chan first.accepted rest.accepted)
          ∙ ap (λ q. q ++ rest.accepted) kept
          ∙ append_assoc first.handled first.after.msg_chan rest.accepted
          ∙ ap (λ q. first.handled ++ q) kept'
          ∙ sym (append_assoc first.handled rest.handled rest.after.msg_chan),
      omega (arith, fits', same),
      omega (arith, counted, counted', length-append first.handled rest.handled),
      omega (
        arith,
        dropped,
        dropped',
        length-append first.accepted rest.accepted,
        arrivals-cons e es,
      ),
    )
  where
    first : Ran
    first = step e s

    rest : Ran
    rest = run es first.after
