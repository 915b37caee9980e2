-- ===== src/Client/Unsubscribing.antt =====
-- client/subscription.go and `Close` of client/client.go: the end of a subscription.
use kcpq.Client.{Client, Subscription, SubId, ClientMessage, update, try_enqueue}
use kcpq.Client.Lifecycle.{unsubscribe, close, deactivate}
use kcpq.Subscriptions.{contains}
use kcpq.Prelude.{◌≡◌, refl, Bool, true, false, List, [], ◌∷◌, if◌then◌else◌, arith}

-- `Unsubscribe` closes the channel of an active subscription, and acts once: whatever a second call meets,
-- it changes nothing. After it the subscription takes no more messages.
pub unsubscribe_once :
    (id : SubId) (broken broken_again : Bool) (msg : ClientMessage) (c : Client)
    → let c' = (unsubscribe id broken c).0 in
      (unsubscribe id broken_again c' ≡ (c', false))
      × ((c.sub id).unsubscribed ≡ false
          → (c.sub id).active ≡ true
          → ((c'.sub id).chan_closed ≡ true) × (try_enqueue msg (c'.sub id) ≡ (c'.sub id, false)))
unfolding unsubscribe try_enqueue
unsubscribe_once id broken broken_again msg c = ground arith

-- Of an active subscription that was not unsubscribed before, with a connection: an `Unsubscribe` whose
-- write fails returns an error and leaves the subscription in the client's list, and the next call returns
-- none, and the list is still the one there was.
pub unsubscribe_stays_listed :
    (id : SubId) (fails : Bool) (c : Client)
    → (c.sub id).unsubscribed ≡ false
    → (c.sub id).active ≡ true
    → c.has_conn ≡ true
    → let c1 = (unsubscribe id true c).0 in
      ((unsubscribe id true c).1 ≡ true)
      × ((unsubscribe id fails c1).1 ≡ false)
      × ((unsubscribe id fails c1).0.subscriptions ≡ c.subscriptions)
unfolding unsubscribe
unsubscribe_stays_listed id fails c h1 h2 h3 = ground arith

pub deactivate_lem :
    (ids : List SubId) (f : SubId → Subscription) (id : SubId)
    → deactivate ids f id ≡ (if contains id ids then record (f id) { active = false } else f id)
unfolding deactivate contains
deactivate_lem [] f id = refl
deactivate_lem (s ∷ ss) f id =
    ground (arith, deactivate_lem ss (update f s (record (f s) { active = false })) id)

-- The first `Close` leaves the open channel of a listed subscription open, and an `Unsubscribe` after it
-- does not close it either, nor does it write anything.
pub close_keeps_channels :
    (id : SubId) (fails : Bool) (c : Client)
    → c.closed_once ≡ false
    → contains id c.subscriptions ≡ true
    → (c.sub id).chan_closed ≡ false
    → let c' = (unsubscribe id fails (close c)).0 in
      ((c'.sub id).active ≡ false) × ((c'.sub id).chan_closed ≡ false) × (c'.written ≡ c.written)
unfolding close unsubscribe
close_keeps_channels id fails c h1 h2 h3 = ground (arith, deactivate_lem c.subscriptions c.sub id)
