-- ===== src/Client/Tests.antt =====
-- client/client.go: subscribing without and with a connection.
use kcpq.Client.{Client, Subscription, SubId, match_subject, find_pending, handle_message}
use kcpq.Client.Attempts.{Attempt, timed_out, failed, failed_after_attempts, subscribe}
use kcpq.Client.Reconnecting.{connected_client, no_subscription}
use kcpq.Client.Matching.{match_subject-match}
use kcpq.Client.Leaking.{Leaked, subscribe_leaks}
use kcpq.Protocol.{Message, new_message_cmd, cmd_sub, cmd_ok, encode}
use kcpq.Router
use kcpq.Subject.{dot_gt, has_suffix}
use kcpq.Prelude.{
  ◌≡◌, refl, Bool, true, false, none, some, List, [], ◌∷◌, ◌++◌, beq, codes, length, arith,
}
use kcpq.Client.{handle_message, subscribed_to}
use kcpq.Client.Handshake.{subscription_is_acknowledged}
use kcpq.Client.Lifecycle.{publish, failed_to_publish, unsubscribe}
use kcpq.Client.Unsubscribing.{unsubscribe_stays_listed}
use kcpq.Protocol.{cmd_msg}
use kcpq.Server.{Server, handle_subscribe}
use kcpq.Subscriptions.{contains}

abbrev client_with : Bool → Client
client_with conn = record (connected_client []) {
  has_conn = conn;
  conn_open = conn;
  auto_reconnect = true;
}

-- An attempt that is answered by nothing.
abbrev silent : Attempt
silent = record { cancelled_before = false; write_fails = false; inbox = []; ended = timed_out }

-- An attempt that the server answers.
abbrev answered : Attempt
answered = record silent { inbox = new_message_cmd cmd_ok (codes "subscribed to a") [] ∷ [] }

subscribe_leaks_example :
    let r = subscribe (codes "a") 0 (silent ∷ silent ∷ silent ∷ []) (client_with false) in
    (r.1 ≡ failed failed_after_attempts)
    × ((ids : List SubId) × (length ids ≡ 3) × Leaked (client_with false) r.0 ids)
subscribe_leaks_example =
    subscribe_leaks (codes "a") 0 silent silent silent (client_with false) (omega arith) refl
      (refl, refl, refl)

match_subject-match_example :
    (Router.match (codes "a.*") (codes "a.b") ≡ true
      → match_subject (codes "a.*") (codes "a.b") ≡ true)
    × (has_suffix (codes "a.*") dot_gt ≡ false
        → match_subject (codes "a.*") (codes "a.b") ≡ Router.match (codes "a.*") (codes "a.b"))
match_subject-match_example = match_subject-match (codes "a.*") (codes "a.b")

abbrev on_a : Subscription
on_a = record no_subscription { subject = codes "a"; active = true; capacity = 1 }

-- A client with one subscription, to "a".
abbrev listening : Client
listening = record (client_with true) {
  subscriptions = 5 ∷ [];
  sub = λ id. on_a;
  pending_subs = (codes "a", 7) ∷ [];
}

abbrev news : Message
news = new_message_cmd cmd_msg (codes "a") (codes "hi")

five_listed : contains 5 listening.subscriptions ≡ true
unfolding contains
five_listed = refl

abbrev one_session : Server
one_session = record {
  router = Router.new_router;
  sessions = 1 ∷ [];
  session = λ id. record {
    subjects = [];
    out_chan = [];
    out_cap = 8;
    queued_bytes = 0;
    max_queued_bytes = 1000;
    closed = false;
    closing = false;
  };
  limits = record { session_out_chan_cap = 8; max_session_queued_bytes = 1000 };
  done = false;
}

a_pending :
    (find_pending (codes "a") listening.pending_subs ≡ some 7)
    × (find_pending (subscribed_to ++ codes "a") listening.pending_subs ≡ none)
unfolding find_pending beq
a_pending = (refl, refl)

subscription_is_acknowledged_example :
    (m : Message) × (((handle_subscribe
          (new_message_cmd cmd_sub (codes "a") [])
          1
          one_session).session
        1).out_chan
      ≡ [] ++ encode m ∷ [])
    × ((handle_message m listening).acked 7 ≡ true)
    × (find_pending (codes "a") (handle_message m listening).pending_subs ≡ none)
subscription_is_acknowledged_example =
    subscription_is_acknowledged (codes "a") 1 one_session 7 listening (omega arith) refl
      (omega arith) (omega arith) a_pending.0 a_pending.1

hi_failed : (publish (codes "a") (codes "hi") false true listening).1 ≡ some failed_to_publish
unfolding publish
hi_failed = refl

abbrev left : Client
left = (unsubscribe 5 false listening).0

unsubscribe_stays_listed_example :
    let c1 = (unsubscribe 5 true listening).0 in
    ((unsubscribe 5 true listening).1 ≡ true)
    × ((unsubscribe 5 false c1).1 ≡ false)
    × ((unsubscribe 5 false c1).0.subscriptions ≡ 5 ∷ [])
unsubscribe_stays_listed_example = unsubscribe_stays_listed 5 false listening refl refl refl
