-- ===== src/Client/LoopTests.antt =====
-- client/client.go and client/subscription.go: a stream of one message, a subscription with one place
-- in its queue, and the delays for the default intervals.
use kcpq.Client.{Client, ClientMessage, Subscription, receive}
use kcpq.Client.Lifecycle.{trigger_connection_lost, reconnect_delay}
use kcpq.Client.Processing.{Event, arrives, takes, run, arrivals, run_in_order}
use kcpq.Client.Publishing.{reconnect_delay_bounds}
use kcpq.Client.Receiving.{receive_loop, receive_loop_messages}
use kcpq.Client.Reconnecting.{connected_client, no_subscription}
use kcpq.Protocol.{Message, new_message_cmd, encode, cmd_msg}
use kcpq.Prelude.{
  ◌≡◌, refl, true, List, [], ◌∷◌, ◌++◌, codes, ◌+◌, ◌*◌, ◌^◌, ◌≤◌, ◌<◌, length, arith, second,
}

abbrev client_online : Client
client_online = connected_client []

abbrev news : Message
news = new_message_cmd cmd_msg (codes "a") (codes "hi")

receive_loop_messages_example :
    receive_loop 2 (encode news ∷ []) client_online
    ≡ trigger_connection_lost (record (receive (news ∷ []) client_online) {
      connection_errors = (receive (news ∷ []) client_online).connection_errors + 1;
    })
receive_loop_messages_example =
    receive_loop_messages (news ∷ []) 2 (encode news ∷ []) client_online refl refl refl
      ((omega arith, tt)) refl (omega arith)

abbrev one_place : Subscription
one_place = record no_subscription { subject = codes "a"; active = true; capacity = 1 }

abbrev hello : ClientMessage
hello = record { subject = codes "a"; body = codes "hi" }

-- Two arrive, the second too early; one is handled.
abbrev events : List Event
events = arrives hello ∷ arrives hello ∷ takes ∷ []

run_in_order_example :
    let r = run events one_place in
    (one_place.msg_chan ++ r.accepted ≡ r.handled ++ r.after.msg_chan)
    × (length r.after.msg_chan ≤ one_place.capacity)
    × (r.after.processed_count ≡ one_place.processed_count + length r.handled)
    × (r.after.dropped_count + length r.accepted ≡ one_place.dropped_count + arrivals events)
run_in_order_example = run_in_order events one_place refl refl (omega arith)

reconnect_delay_bounds_example :
    (reconnect_delay (5 * second) (30 * second) 1 ≤ reconnect_delay (5 * second) (30 * second) 4)
    × (reconnect_delay (5 * second) (30 * second) 4 < 2 ^ 63)
    × (0 < 30 * second → reconnect_delay (5 * second) (30 * second) 4 ≤ 30 * second)
reconnect_delay_bounds_example =
    reconnect_delay_bounds (5 * second) (30 * second) 1 4 (omega arith) (omega arith)
