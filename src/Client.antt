-- ===== src/Client.antt =====
-- client/client.go and client/subscription.go: the state of a client and its operations. A method is one
-- step except where it waits (Client/Attempts). Sleeps, deadlines, log output and the measured latencies
-- are left out.
pub mod Attempts
pub mod Lifecycle
pub mod Matching
pub mod Subscribing
pub mod Keeping
pub mod Entering
pub mod Leaking
pub mod Delivery
pub mod Handshake
pub mod Processing
pub mod Receiving
pub mod Reconnecting
pub mod Publishing
pub mod Stats
pub mod Unsubscribing
mod Tests
mod LoopTests
use kcpq.Prelude.{
  ℕ, zero, suc, ◌+◌, ◌*◌, ◌^◌, Bool, true, false, ◌||◌, ◌&&◌, not, Option, none, some, List, [],
  ◌∷◌, ◌++◌, Bytes, codes, beq, ◌==◌, ltb, leb, if◌then◌else◌, length, drop, min,
}
use kcpq.Protocol.{
  Message, new_message_cmd, encode, max_subject_len, max_body_len, cmd_sub, cmd_unsub, cmd_pub,
  cmd_msg, cmd_ok, cmd_err, cmd_pong,
}
use kcpq.Subject.{
  dot, dot_gt, split, has_prefix, has_suffix, trim_suffix, contains_byte, segments_match,
}

pub record ClientMessage : Type 0 where
  pub subject : Bytes
  pub body : Bytes

pub record Subscription : Type 0 where
  pub subject : Bytes
  pub active : Bool
  pub msg_chan : List ClientMessage
  pub capacity : ℕ
  pub chan_closed : Bool
  pub dropped_count : ℕ
  pub processed_count : ℕ
  -- what `closeOnce` remembers
  pub unsubscribed : Bool

-- A subscription and an acknowledgement channel are numbers, their pointers.
abbrev pub SubId : Type 0
SubId = ℕ

abbrev pub AckId : Type 0
AckId = ℕ

pub record Client : Type 0 where
  pub has_conn : Bool
  pub subscriptions : List SubId
  pub sub : SubId → Subscription
  pub next_sub : SubId
  pub pending_subs : List (Bytes × AckId)
  -- the acknowledgement channels that are closed
  pub acked : AckId → Bool
  pub next_ack : AckId
  -- what the connection was given to write
  pub written : List Bytes
  pub done : Bool
  pub cancelled : Bool
  pub connection_lost : Bool
  pub auto_reconnect : Bool
  pub reconnecting : Bool
  pub reconnect_interval : ℕ
  pub max_reconnect_interval : ℕ
  pub key : Bytes
  -- `conn` is a connection that this client has not closed
  pub conn_open : Bool
  pub publish_errors : ℕ
  pub connection_errors : ℕ
  pub subscription_errors : ℕ
  pub reconnect_count : ℕ
  -- the counters that `GetStats` reports beside the errors
  pub messages_sent : ℕ
  pub messages_received : ℕ
  pub bytes_sent : ℕ
  pub bytes_received : ℕ
  pub total_subscriptions : ℕ
  -- what `closeOnce` remembers
  pub closed_once : Bool

abbrev pub update {ℓ} : {A : Type ℓ} → (ℕ → A) → ℕ → A → ℕ → A
update f k v j = if k == j then v else f j

unfoldable pub match_subject : Bytes → Bytes → Bool
match_subject pattern subject =
    let prefix = trim_suffix pattern dot_gt in
    if beq pattern subject
    then true
    else if has_suffix pattern dot_gt
        && (has_prefix subject (prefix ++ dot ∷ []) || beq subject prefix)
    then true
    else if contains_byte pattern b'*'
    then (let pattern_parts = split pattern in
        let subject_parts = split subject in
        if not (length pattern_parts == length subject_parts)
        then false
        else segments_match pattern_parts subject_parts)
    else false

-- A send to a closed channel panics, which `recover` turns into false.
unfoldable pub try_enqueue : ClientMessage → Subscription → Subscription × Bool
try_enqueue msg s =
    if not s.active
    then (s, false)
    else if s.chan_closed
    then (s, false)
    else if ltb (length s.msg_chan) s.capacity
    then (record s { msg_chan = s.msg_chan ++ msg ∷ [] }, true)
    else (record s { dropped_count = s.dropped_count + 1 }, false)

-- The loop of the case `CmdMsg`.
unfoldable pub deliver : Message → List SubId → (SubId → Subscription) → SubId → Subscription
deliver msg [] f = f
deliver msg (id ∷ ids) f =
    let message : ClientMessage = record { subject = msg.subject; body = msg.payload } in
    let f' : SubId → Subscription =
      if (f id).active && match_subject (f id).subject msg.subject
      then update f id (try_enqueue message (f id)).0
      else f in
    deliver msg ids f'

unfoldable pub find_pending : Bytes → List (Bytes × AckId) → Option AckId
find_pending k [] = none
find_pending k ((j, a) ∷ m) = if beq j k then some a else find_pending k m

-- `delete(c.pendingSubs, k)`
unfoldable pub drop_pending : Bytes → List (Bytes × AckId) → List (Bytes × AckId)
drop_pending k [] = []
drop_pending k ((j, a) ∷ m) = let rest = drop_pending k m in if beq j k then rest else (j, a) ∷ rest

-- Closes the channel, if it is open, and deletes the entry.
abbrev pub confirm : Bytes → AckId → Client → Client
confirm subject ack c = record c {
  acked = update c.acked ack true;
  pending_subs = drop_pending subject c.pending_subs;
}

abbrev pub subscribed_to : Bytes
subscribed_to = codes "subscribed to "

-- `strings.Contains(s, sub)`
unfoldable pub contains_text : Bytes → Bytes → Bool
contains_text [] sub = has_prefix [] sub
contains_text (c ∷ s) sub = has_prefix (c ∷ s) sub || contains_text s sub

-- `strings.TrimPrefix(s, prefix)`
unfoldable pub trim_prefix : Bytes → Bytes → Bytes
trim_prefix s prefix = if has_prefix s prefix then drop (length prefix) s else s

unfoldable pub handle_ok : Bytes → Client → Client
handle_ok text c = elim (find_pending text c.pending_subs) [
  | some ack ↦ confirm text ack c
  | none ↦
      let subject = trim_prefix text subscribed_to in
      let late : Client = elim (find_pending subject c.pending_subs) [
        | some ack ↦ confirm subject ack c
        | none ↦ c
      ] in
      if contains_text text subscribed_to then late else c
]

unfoldable pub handle_message : Message → Client → Client
handle_message msg c =
    if msg.command == cmd_msg
    then record c { sub = deliver msg c.subscriptions c.sub }
    else if msg.command == cmd_ok
    then handle_ok msg.subject c
    else c

unfoldable pub receive : List Message → Client → Client
receive [] c = c
receive (msg ∷ msgs) c = receive msgs (handle_message msg c)

-- `removeSubscription`: the first entry that is the subscription
unfoldable pub remove_sub : SubId → List SubId → List SubId
remove_sub id [] = []
remove_sub id (s ∷ ss) = if s == id then ss else s ∷ remove_sub id ss
