-- ===== src/Forwarder/Life.antt =====
-- examples/kcpq-to-nats/main.go: what `Start` leaves, and what `Stop` leaves of it.
use kcpq.Forwarder.{Forwarder}
use kcpq.Forwarder.Starting.{StartFailure, subscribe_kcpq, settle, start, stop, stop_client}
use kcpq.Relay.{StartError, start_client}
use kcpq.Client.{Client, SubId}
use kcpq.Client.Attempts.{Attempt, Subscribed, subscribed, failed, retry, subscribe}
use kcpq.Client.Entering.{IsEntered, subscribe-IsEntered}
use kcpq.Client.Unsubscribing.{deactivate_lem}
use kcpq.Client.Lifecycle.{unsubscribe, close}
use kcpq.Client.Processing.{Channel, subscribe_chan}
use kcpq.Client.Reconnecting.{Dialed, connect}
use kcpq.Crypto.{new_aes256_block_crypt}
use kcpq.Prelude.{
  ℕ, ◌≡◌, ◌⊎◌, inl, inr, refl, ap, subst, ◌∙◌, sym, Bool-cases, Bool, true, false, Option, none,
  some, List, [], Bytes, length, arith,
}

-- A forwarder with a client, a connection to NATS and a subscription for its subject.
pub record IsStarted (f : Forwarder) (c : Client) (id : SubId) : Type 0 where
  pub client : f.kcp_client ≡ some c
  pub nats : f.nats_connected ≡ true
  pub subscription : f.subscription ≡ some id
  pub entered : IsEntered f.config.kcpq_subject id c
  pub automatic : c.auto_reconnect ≡ f.config.auto_reconnect
  pub unclosed : c.closed_once ≡ false
  pub channel :
      f.config.use_channel_mode ≡ true
      → f.msg_chan ≡ some (record { queue = []; capacity = 1000; closed = false })

abbrev open_channel : Channel
open_channel = record { queue = []; capacity = 1000; closed = false }

-- A channel subscription is that of the client, with an open channel.
subscribe_chan_lem :
    (subject : Bytes) (attempts : List Attempt) (c : Client)
    → let r = subscribe_chan subject 1000 attempts c in
      let q = subscribe subject 1000 attempts c in
      (r.0 ≡ q.0) × (r.2 ≡ q.1) × ((id : SubId) → q.1 ≡ subscribed id → r.1 ≡ open_channel)
unfolding subscribe_chan
subscribe_chan_lem subject attempts c = ground arith

settle_lem :
    (f : Forwarder) (c : Client) (ch : Option Channel) (o : Subscribed)
    → (settle f c ch o).1 ≡ none
    → (id : SubId) × (o ≡ subscribed id)
      × ((settle f c ch o).0
          ≡ record f { kcp_client = some c; msg_chan = ch; subscription = some id })
settle_lem f c ch (subscribed id) e = (id, refl, refl)
settle_lem f c ch (failed x) e = cc
settle_lem f c ch retry e = cc

settle-IsStarted :
    (f : Forwarder) (c : Client) (ch : Option Channel) (o : Subscribed)
    → f.nats_connected ≡ true
    → c.auto_reconnect ≡ f.config.auto_reconnect
    → c.closed_once ≡ false
    → ((id : SubId) → o ≡ subscribed id → IsEntered f.config.kcpq_subject id c)
    → ((id : SubId) → o ≡ subscribed id → f.config.use_channel_mode ≡ true → ch ≡ some open_channel)
    → (settle f c ch o).1 ≡ none
    → (id : SubId) × IsStarted (settle f c ch o).0 c id
settle-IsStarted f c ch o nats automatic unclosed entered opened e =
    let (id, got, result) = settle_lem f c ch o e in
    (
      id,
      subst (λ g. IsStarted g c id) (sym result)
          (record {
            client = refl;
            nats = nats;
            subscription = refl;
            entered = entered id got;
            automatic = automatic;
            unclosed = unclosed;
            channel = opened id got;
          }),
    )

subscribe_kcpq_lem :
    (attempts : List Attempt) (c : Client) (f : Forwarder)
    → f.nats_connected ≡ true
    → c.auto_reconnect ≡ f.config.auto_reconnect
    → c.closed_once ≡ false
    → (subscribe_kcpq attempts c f).1 ≡ none
    → (d : Client) × (id : SubId) × IsStarted (subscribe_kcpq attempts c f).0 d id
subscribe_kcpq_lem attempts c f nats automatic unclosed e =
    elim (Bool-cases f.config.use_channel_mode) [
      | inl on ↦ by_channel on
      | inr off ↦ by_callback off
    ]
  where
    subject : Bytes
    subject = f.config.kcpq_subject

    Result : Type 0
    Result = (d : Client) × (id : SubId) × IsStarted (subscribe_kcpq attempts c f).0 d id

    by_channel : f.config.use_channel_mode ≡ true → Result
    by_channel on =
        let r = subscribe_chan subject 1000 attempts c in
        let (kept, entered) = subscribe-IsEntered subject 1000 attempts c in
        let (same_client, same_outcome, opened) = subscribe_chan_lem subject attempts c in
        let same : subscribe_kcpq attempts c f ≡ settle f r.0 (some r.1) r.2 =
          unfold subscribe_kcpq in ground arith in
        let (id, v) =
          subst (λ (p : Forwarder × Option StartFailure). (id : SubId) × IsStarted p.0 r.0 id)
            (sym same)
            (settle-IsStarted f r.0 (some r.1) r.2 nats (ground (arith, kept, automatic))
              (ground (arith, kept, unclosed))
              (λ id got.
                subst (IsEntered subject id) (sym same_client)
                  (entered id (sym same_outcome ∙ got)))
              (λ id got m. ap some (opened id (sym same_outcome ∙ got)))
              (sym (ap (λ (p : Forwarder × Option StartFailure). p.1) same) ∙ e)) in
        (r.0, id, v)

    by_callback : f.config.use_channel_mode ≡ false → Result
    by_callback off =
        let r = subscribe subject 100 attempts c in
        let (kept, entered) = subscribe-IsEntered subject 100 attempts c in
        let same : subscribe_kcpq attempts c f ≡ settle f r.0 f.msg_chan r.1 =
          unfold subscribe_kcpq in ground arith in
        let (id, v) =
          subst (λ (p : Forwarder × Option StartFailure). (id : SubId) × IsStarted p.0 r.0 id)
            (sym same)
            (settle-IsStarted f r.0 f.msg_chan r.1 nats (ground (arith, kept, automatic))
              (ground (arith, kept, unclosed)) entered (λ id got m. cc)
              (sym (ap (λ (p : Forwarder × Option StartFailure). p.1) same) ∙ e)) in
        (r.0, id, v)

start_client_lem :
    (key : Bytes) (auto_reconnect : Bool) (interval : ℕ) (cancelled : Bool) (answer : Dialed)
    (c : Client)
    → start_client key auto_reconnect interval cancelled answer ≡ inl c
    → (length key ≡ 32) × (c.auto_reconnect ≡ auto_reconnect) × (c.closed_once ≡ false)
unfolding start_client connect new_aes256_block_crypt
start_client_lem key auto_reconnect interval cancelled answer c e = ground arith

client_of :
    (o : Client ⊎ StartError) → ((c : Client) × (o ≡ inl c)) ⊎ ((e : StartError) × (o ≡ inr e))
client_of (inl c) = inl (c, refl)
client_of (inr e) = inr (e, refl)

start_lem :
    (answer : Dialed) (nats_refuses : Bool) (attempts : List Attempt) (f : Forwarder)
    → (start answer nats_refuses attempts f).1 ≡ none
    → let g = (start answer nats_refuses attempts f).0 in
      (length f.config.aes256_key ≡ 32) × ((c : Client) × (id : SubId) × IsStarted g c id)
start_lem answer nats_refuses attempts f e = elim (client_of o) [
  | inr (x, failed_to_connect) ↦ absurd (unfold start in ground arith)
  | inl (c, got) ↦
      let online = record f { kcp_client = some c; nats_connected = true } in
      let (fits, automatic, unclosed) =
        start_client_lem f.config.aes256_key f.config.auto_reconnect f.config.reconnect_interval
          f.cancelled answer c got in
      let same : start answer nats_refuses attempts f ≡ subscribe_kcpq attempts c online =
        unfold start in ground arith in
      (
        fits,
        subst
            (λ (p : Forwarder × Option StartFailure).
              (d : Client) × (id : SubId) × IsStarted p.0 d id)
            (sym same)
            (subscribe_kcpq_lem attempts c online refl automatic unclosed
              (sym (ap (λ (p : Forwarder × Option StartFailure). p.1) same) ∙ e)),
      )
]
  where
    o : Client ⊎ StartError
    o =
        start_client f.config.aes256_key f.config.auto_reconnect f.config.reconnect_interval
          f.cancelled answer

stop_lem :
    (write_fails : Bool) (f : Forwarder) (c : Client) (id : SubId)
    → IsStarted f c id
    → (d : Client) × ((stop write_fails f).kcp_client ≡ some d)
      × ((d.sub id).active ≡ false)
      × ((d.sub id).chan_closed ≡ true)
      × (d.subscriptions ≡ [])
      × (d.done ≡ true)
      × (d.conn_open ≡ false)
stop_lem write_fails f c id v = (
  stop_client (some id) write_fails c,
  unfold stop in (let e = v.client in let e' = v.subscription in ground (arith, e, e')),
  inactive_and_closed.0,
  inactive_and_closed.1,
  unfold unsubscribe close in ground (arith, v.unclosed),
  unfold unsubscribe close in ground (arith, v.unclosed),
  unfold unsubscribe close in ground (arith, v.unclosed),
)
  where
    c1 : Client
    c1 = (unsubscribe id write_fails (record c { cancelled = true })).0

    inactive_and_closed :
        (((stop_client (some id) write_fails c).sub id).active ≡ false)
        × (((stop_client (some id) write_fails c).sub id).chan_closed ≡ true)
    inactive_and_closed =
        let live = ap (λ (q : Bytes × Bool × Bool × Bool). q.1) v.entered.role_of in
        let first = ap (λ (q : Bytes × Bool × Bool × Bool). q.2) v.entered.role_of in
        unfold unsubscribe close in
        ground (arith, live, first, v.unclosed, deactivate_lem c1.subscriptions c1.sub id)

-- A forwarder that `Start` reports as started has a key of 32 bytes, a client that is connected and
-- reconnects as configured, a connection to NATS, and a subscription of that client for the configured
-- subject that is listed, active and open, in channel mode with an open channel of 1000 places. `Stop` then
-- ends the client's connection and its loops, leaves it no subscription, and the subscription inactive with
-- its channel closed, also when the UNSUB frame cannot be written.
pub start-stop :
    (answer : Dialed) (nats_refuses : Bool) (attempts : List Attempt) (write_fails : Bool)
    (f : Forwarder)
    → (start answer nats_refuses attempts f).1 ≡ none
    → let g = (start answer nats_refuses attempts f).0 in
      (length f.config.aes256_key ≡ 32)
      × ((c : Client) × (id : SubId) × (d : Client) × IsStarted g c id
          × ((stop write_fails g).kcp_client ≡ some d)
          × ((d.sub id).active ≡ false)
          × ((d.sub id).chan_closed ≡ true)
          × (d.subscriptions ≡ [])
          × (d.done ≡ true)
          × (d.conn_open ≡ false))
start-stop answer nats_refuses attempts write_fails f e =
    let (fits, started) = start_lem answer nats_refuses attempts f e in
    let (c, id, v) = started in
    let (d, client, inactive, closed, unlisted, is_done, hung_up) =
      stop_lem write_fails (start answer nats_refuses attempts f).0 c id v in
    (fits, (c, id, d, v, client, inactive, closed, unlisted, is_done, hung_up))
