-- ===== src/Forwarder/Starting.antt =====
-- examples/kcpq-to-nats/main.go: `Start` and `Stop`. Whether the NATS library connects is an argument.
use kcpq.Forwarder.{Forwarder}
use kcpq.Relay.{StartError, start_client}
use kcpq.Client.{Client, SubId}
use kcpq.Client.Attempts.{
  Attempt, Subscribed, subscribed, failed, retry, SubscribeError, context_error,
  failed_after_attempts, subscribe,
}
use kcpq.Client.Lifecycle.{unsubscribe, close}
use kcpq.Client.Processing.{Channel, subscribe_chan}
use kcpq.Client.Reconnecting.{Dialed}
use kcpq.Prelude.{Bool, true, false, inl, inr, Option, none, some, List, if◌then◌else◌}

pub data StartFailure : Type 0 where
  kcpq_failed : StartError → StartFailure
  nats_failed : StartFailure
  subscribe_failed : SubscribeError → StartFailure

-- What `subscribeKCPQ` makes of the outcome. The loop of the attempts ends with the last, so `retry` is not
-- returned.
abbrev pub settle :
    Forwarder → Client → Option Channel → Subscribed → Forwarder × Option StartFailure
settle f c ch (subscribed id) =
    (record f { kcp_client = some c; msg_chan = ch; subscription = some id }, none)
settle f c ch (failed e) = (record f { kcp_client = some c }, some (subscribe_failed e))
settle f c ch retry =
    (record f { kcp_client = some c }, some (subscribe_failed failed_after_attempts))

-- `subscribeKCPQ`, with a client
unfoldable pub subscribe_kcpq : List Attempt → Client → Forwarder → Forwarder × Option StartFailure
subscribe_kcpq attempts c f =
    let (c', ch, out) = subscribe_chan f.config.kcpq_subject 1000 attempts c in
    let (d, result) = subscribe f.config.kcpq_subject 100 attempts c in
    if f.config.use_channel_mode
    then settle f c' (some ch) out
    else if f.cancelled
    then (f, some (subscribe_failed context_error))
    else settle f d f.msg_chan result

-- `Start`: KCPQ, then NATS, then the subscription.
unfoldable pub start :
    Dialed → (nats_refuses : Bool) → List Attempt → Forwarder → Forwarder × Option StartFailure
unfolding subscribe_kcpq
start answer nats_refuses attempts f =
    elim (start_client f.config.aes256_key f.config.auto_reconnect f.config.reconnect_interval
      f.cancelled answer) [
        | inr e ↦ (f, some (kcpq_failed e))
        | inl c ↦
            let connected = record f { kcp_client = some c } in
            if nats_refuses
            then (connected, some nats_failed)
            else subscribe_kcpq attempts c (record connected { nats_connected = true })
      ]

-- The subscription, then the client; cancelling the forwarder's context cancels the client's.
abbrev pub stop_client : Option SubId → (write_fails : Bool) → Client → Client
stop_client none write_fails c = close (record c { cancelled = true })
stop_client (some id) write_fails c =
    close (unsubscribe id write_fails (record c { cancelled = true })).0

-- `Stop`
unfoldable pub stop : (write_fails : Bool) → Forwarder → Forwarder
stop write_fails f = record f {
  cancelled = true;
  kcp_client = elim f.kcp_client [
    | none ↦ none
    | some c ↦ some (stop_client f.subscription write_fails c)
  ];
  nats_connected = false;
}
