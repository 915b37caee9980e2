-- ===== src/Client/Subscribing.antt =====
-- client/client.go: what `SubscribeWithOptionsContext` leaves behind.
use kcpq.Client.{
  Client, SubId, AckId, find_pending, drop_pending, handle_ok, handle_message, receive, remove_sub,
}
use kcpq.Client.Attempts.{
  Attempt, subscribed, failed, retry, context_error, clear_pending, register, abandon,
  try_subscribe,
}
use kcpq.Protocol.{Message, new_message_cmd, encode, cmd_sub}
use kcpq.Prelude.{
  ℕ, ◌<◌, ◌≡◌, ◌⊎◌, refl, sym, ap, subst, ◌∙◌, Bool, true, false, none, List, [], ◌∷◌, ◌++◌, Bytes,
  if◌then◌else◌, arith, All,
}

-- What the receive loop does never changes the list of subscriptions, or what has been written.
abbrev pub SameList : Client → Client → Type 0
SameList c d =
    (d.subscriptions ≡ c.subscriptions)
    × (d.written ≡ c.written)
    × (d.next_sub ≡ c.next_sub)
    × (d.has_conn ≡ c.has_conn)

handle_ok-SameList : (text : Bytes) (c : Client) → SameList c (handle_ok text c)
unfolding handle_ok
handle_ok-SameList text c = ground arith

pub receive-SameList : (msgs : List Message) (c : Client) → SameList c (receive msgs c)
unfolding receive handle_message
receive-SameList [] c = (refl, refl, refl, refl)
receive-SameList (msg ∷ msgs) c =
    ground (arith, receive-SameList msgs (handle_message msg c), handle_ok-SameList msg.subject c)

clear_pending-SameList : (subject : Bytes) (c : Client) → SameList c (clear_pending subject c)
unfolding clear_pending
clear_pending-SameList subject c = ground arith

pub find_pending-drop_pending :
    (k : Bytes) (m : List (Bytes × AckId)) → find_pending k (drop_pending k m) ≡ none
unfolding find_pending drop_pending
find_pending-drop_pending k [] = refl
find_pending-drop_pending k ((j, a) ∷ m) = ground (arith, find_pending-drop_pending k m)

-- Every subscription in the list is older than the next one.
abbrev pub AreOld : Client → Type 0
AreOld c = All (λ id. id < c.next_sub) c.subscriptions

remove_sub-snoc :
    (id : SubId) (ss : List SubId) → All (λ s. s < id) ss → remove_sub id (ss ++ id ∷ []) ≡ ss
unfolding remove_sub
remove_sub-snoc id [] h = ground arith
remove_sub-snoc id (s ∷ ss) (p, h) = ground (arith, remove_sub-snoc id ss h)

abandon_cleans :
    (subject : Bytes) (id : SubId) (ss : List SubId) (d : Client)
    → d.subscriptions ≡ ss ++ id ∷ []
    → All (λ s. s < id) ss
    → ((abandon subject id d).subscriptions ≡ ss)
      × (find_pending subject (abandon subject id d).pending_subs ≡ none)
unfolding abandon
abandon_cleans subject id ss d e old = (
  ap (remove_sub id) e ∙ remove_sub-snoc id ss old,
  find_pending-drop_pending subject d.pending_subs,
)

-- The client that an attempt starts from.
abbrev pub prepared : Bytes → Bool → Client → Client
prepared subject again c = if again then clear_pending subject c else c

pub prepared-SameList :
    (subject : Bytes) (again : Bool) (c : Client) → SameList c (prepared subject again c)
prepared-SameList subject true c = clear_pending-SameList subject c
prepared-SameList subject false c = (refl, refl, refl, refl)

pub register_lem :
    (subject : Bytes) (capacity : ℕ) (c : Client)
    → ((register subject capacity c).subscriptions ≡ c.subscriptions ++ c.next_sub ∷ [])
      × ((register subject capacity c).has_conn ≡ c.has_conn)
      × ((register subject capacity c).written ≡ c.written)
unfolding register
register_lem subject capacity c = (refl, refl, refl)

abbrev pub sent : Bytes → Client → Client
sent subject c = record c {
  written = c.written ++ encode (new_message_cmd cmd_sub subject []) ∷ [];
}

-- Where every listed subscription is older than the next one: a round that had a connection, and that has
-- to be tried again or was cancelled, leaves the list of subscriptions as it found it, and no
-- acknowledgement pending for the subject.
pub try_subscribe_cleans :
    (subject : Bytes) (capacity : ℕ) (again : Bool) (a : Attempt) (c : Client)
    → AreOld c
    → c.has_conn ≡ true
    → ((try_subscribe subject capacity again a c).1 ≡ retry)
      ⊎ ((try_subscribe subject capacity again a c).1 ≡ failed context_error)
    → let c' = (try_subscribe subject capacity again a c).0 in
      (c'.subscriptions ≡ c.subscriptions) × (find_pending subject c'.pending_subs ≡ none)
unfolding try_subscribe
try_subscribe_cleans subject capacity again a c old conn e = ground (
  arith,
  start,
  registered,
  abandon_cleans subject b.next_sub c.subscriptions c1 listed fresh,
  abandon_cleans subject b.next_sub c.subscriptions c2 (received.0 ∙ listed) fresh,
)
  where
    b : Client
    b = prepared subject again c

    c1 : Client
    c1 = register subject capacity b

    c2 : Client
    c2 = receive a.inbox (sent subject c1)

    start : SameList c b
    start = prepared-SameList subject again c

    registered :
        (c1.subscriptions ≡ b.subscriptions ++ b.next_sub ∷ [])
        × (c1.has_conn ≡ b.has_conn)
        × (c1.written ≡ b.written)
    registered = register_lem subject capacity b

    received : SameList (sent subject c1) c2
    received = receive-SameList a.inbox (sent subject c1)

    listed : c1.subscriptions ≡ c.subscriptions ++ b.next_sub ∷ []
    listed = registered.0 ∙ ap (λ ss. ss ++ b.next_sub ∷ []) start.0

    fresh : All (λ s. s < b.next_sub) c.subscriptions
    fresh = subst (λ n. All (λ s. s < n) c.subscriptions) (sym start.2) old

-- A round that succeeds has written the SUB frame of the subject last before the wait, and returns the
-- subscription that it entered last in the list.
pub try_subscribe_succeeds :
    (subject : Bytes) (capacity : ℕ) (again : Bool) (a : Attempt) (c : Client) (id : SubId)
    → (try_subscribe subject capacity again a c).1 ≡ subscribed id
    → let c' = (try_subscribe subject capacity again a c).0 in
      (id ≡ c.next_sub)
      × (c'.subscriptions ≡ c.subscriptions ++ id ∷ [])
      × (c'.written ≡ c.written ++ encode (new_message_cmd cmd_sub subject []) ∷ [])
      × (c.has_conn ≡ true)
unfolding try_subscribe
try_subscribe_succeeds subject capacity again a c id e = ground (
  arith,
  prepared-SameList subject again c,
  register_lem subject capacity (prepared subject again c),
  receive-SameList a.inbox (sent subject (register subject capacity (prepared subject again c))),
)
