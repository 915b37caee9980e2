-- ===== src/Server/Tests.antt =====
-- server/server.go and server/session.go: a server whose session 1 is subscribed to "a.*".
use mathlib.Core.Quot
use kcpq.Server.{handle_publish}
use kcpq.Server.Order.{handle_publish-unordered}
use kcpq.Router.Relation.{IsValid, is_subscribed-subscribe}
use kcpq.Router.Validity.{new_router-IsValid, subscribe-IsValid}
use kcpq.Server.{
  Server, HandleError, has_subject, handle_message, handle_subscribe, close_session, close_server,
  Round, read_loop, accept, fresh_server, new_server, handle_and_report,
}
use kcpq.Server.Lifecycle.{closed_session_subscribes}
use kcpq.Server.Stopping.{close_server_returns_iff}
use kcpq.Server.ReadLoop.{IsReadUntil, read_loop_messages}
use kcpq.Server.Running.{IsSound, Reach, here, next, accepts, handles, new_server-IsSound}
use kcpq.Crypto.{new_aes256_block_crypt}
use kcpq.Router
use kcpq.Router.Relation.{is_subscribed}
use kcpq.Subscriptions.{SessionId, lookup, sessions_at, contains}
use kcpq.Session.{new_session, send_ok, enqueue_encoded}
use kcpq.Session.Utf8.{truncate_utf8}
use kcpq.Protocol.{Message, new_message_cmd, encode, cmd_sub, cmd_pub, Reader}
use kcpq.Protocol.RoundTrip.{IsSendable}
use kcpq.Protocol.Words.{put_uint16, put_uint32}
use kcpq.Prelude.{
  ℕ, ◌≡◌, ◌≢◌, ◌↔◌, some, inl, refl, true, false, none, some, [], ◌∷◌, ◌++◌, Bytes, codes, beq,
  length, arith,
}

abbrev start : Server
start = record {
  router = Router.new_router;
  sessions = 1 ∷ 2 ∷ [];
  session = λ id.
      new_session (some (record { session_out_chan_cap = 8; max_session_queued_bytes = 1000 }));
  limits = record { session_out_chan_cap = 8; max_session_queued_bytes = 1000 };
  done = false;
}

start-open : (start.session 1).closed ≡ false
unfolding new_session
start-open = refl

abbrev sub_a : Message
sub_a = new_message_cmd cmd_sub (codes "a.*") []

abbrev pub_a : Message
pub_a = new_message_cmd cmd_pub (codes "a.b") (codes "hi")

abbrev subscribed : Server
subscribed = (handle_message sub_a 1 start).0

queue_of_one :
    ((subscribed.session 1).closed ≡ false)
    × ((subscribed.session 1).max_queued_bytes ≡ 1000)
    × ((subscribed.session 1).queued_bytes ≡ 24)
    × (length (subscribed.session 1).out_chan ≡ 1)
    × ((subscribed.session 1).out_cap ≡ 8)
unfolding handle_message handle_subscribe has_subject new_session beq send_ok enqueue_encoded
    truncate_utf8 encode put_uint32 put_uint16
queue_of_one = (refl, refl, refl, refl, refl)

abbrev gone : Server
gone = close_session 1 start

gone-closed :
    ((gone.session 1).closed ≡ true) × (has_subject (codes "a.*") (gone.session 1).subjects ≡ false)
unfolding close_session new_session has_subject
gone-closed = (refl, refl)

closed_session_subscribes_example :
    is_subscribed (close_session 1 (handle_message sub_a 1 gone).0).router (codes "a.*") 1 ≡ true
closed_session_subscribes_example =
    closed_session_subscribes sub_a 1 gone refl gone-closed.0 gone-closed.1

one_listed : contains 1 start.sessions ≡ true
unfolding contains
one_listed = refl

abbrev silent : HandleError → Bytes
silent e = []

-- The frames, cut into reads of any kind.
abbrev stream : Reader
stream = encode sub_a ∷ encode pub_a ∷ encode sub_a ∷ []

-- A queue with one place.
abbrev crowded : Server
crowded = record start {
  session = λ id.
      new_session (some (record { session_out_chan_cap = 1; max_session_queued_bytes = 1000 }));
}

crowded-open : (crowded.session 1).closed ≡ false
unfolding new_session
crowded-open = refl

-- A started `Close` runs before the loop looks again.
abbrev at_once : ℕ → Round
at_once left = record { at_look = true; after_read = false }

read_loop_messages_example :
    IsReadUntil silent 1
      (sub_a ∷ pub_a ∷ sub_a ∷ [])
      crowded
      (read_loop 4 at_once silent 1 stream crowded)
read_loop_messages_example =
    read_loop_messages at_once silent 1 (sub_a ∷ pub_a ∷ sub_a ∷ []) 4 stream crowded crowded-open
      (omega arith, (omega arith, (omega arith, tt))) refl (omega arith)

abbrev server_key : Bytes
server_key = codes "0123456789abcdef" ++ codes "0123456789abcdef"

starts : new_server server_key false ≡ inl fresh_server
unfolding new_server new_aes256_block_crypt
starts = refl

-- A connection is accepted, and subscribes.
abbrev one_subscribed : Server
one_subscribed = handle_and_report silent sub_a 1 (accept 1 fresh_server)

one_subscribed-Reach : Reach silent fresh_server one_subscribed
unfolding accept new_session
one_subscribed-Reach =
    next (next here (accepts 1 unused refl)) (handles 1 sub_a refl sub_a_is_sendable refl)
  where
    unused : (subject : Bytes) → is_subscribed fresh_server.router subject 1 ≡ false
    unused subject = unfold is_subscribed Router.new_router sessions_at lookup contains in refl

    sub_a_is_sendable : IsSendable sub_a
    sub_a_is_sendable = omega arith

new_server-IsSound_example : IsSound one_subscribed
new_server-IsSound_example =
    new_server-IsSound silent server_key false fresh_server one_subscribed starts
      one_subscribed-Reach

-- The same subscriptions, made in another order.
abbrev first_a : Router.Router
first_a = Router.subscribe (codes "b") 2 (Router.subscribe (codes "a") 1 Router.new_router)

abbrev first_b : Router.Router
first_b = Router.subscribe (codes "a") 1 (Router.subscribe (codes "b") 2 Router.new_router)

first_a-IsValid : IsValid first_a
first_a-IsValid =
    subscribe-IsValid (codes "b") 2 _ (subscribe-IsValid (codes "a") 1 _ new_router-IsValid)

first_b-IsValid : IsValid first_b
first_b-IsValid =
    subscribe-IsValid (codes "a") 1 _ (subscribe-IsValid (codes "b") 2 _ new_router-IsValid)

handle_publish-unordered_example :
    (handle_publish pub_a (record start { router = first_a })).session 1
    ≡ (handle_publish pub_a (record start { router = first_b })).session 1
handle_publish-unordered_example =
    handle_publish-unordered pub_a (record start { router = first_a })
      (record start { router = first_b }) first_a-IsValid first_b-IsValid
      (Quot.sound (λ p s. same p s)) (λ id. refl) 1
  where
    same : (p : Bytes) (s : SessionId) → is_subscribed first_a p s ≡ is_subscribed first_b p s
    same p s = ground (
      arith,
      is_subscribed-subscribe (Router.subscribe (codes "a") 1 Router.new_router) (codes "b") p 2 s,
      is_subscribed-subscribe Router.new_router (codes "a") p 1 s,
      is_subscribed-subscribe (Router.subscribe (codes "b") 2 Router.new_router) (codes "a") p 1 s,
      is_subscribed-subscribe Router.new_router (codes "b") p 2 s,
    )

accepted_one : Reach silent fresh_server (accept 1 fresh_server)
accepted_one = next here (accepts 1 unused refl)
  where
    unused : (subject : Bytes) → is_subscribed fresh_server.router subject 1 ≡ false
    unused subject = unfold is_subscribed Router.new_router sessions_at lookup contains in refl

close_server_returns_iff_example :
    ((close_server (accept 1 fresh_server) ≡ none) ↔ ((accept 1 fresh_server).sessions ≢ []))
    × ((accept 1 fresh_server).sessions ≡ []
        → close_server (accept 1 fresh_server)
          ≡ some (record (accept 1 fresh_server) { done = true }))
close_server_returns_iff_example =
    close_server_returns_iff silent (accept 1 fresh_server) accepted_one
