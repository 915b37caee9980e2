-- ===== src/Forwarder/LifeTests.antt =====
-- examples/kcpq-to-nats/main.go: a start in which each connection is made and the server answers.
use kcpq.Forwarder.{Forwarder, new_forwarder}
use kcpq.Forwarder.Starting.{subscribe_kcpq, start, stop}
use kcpq.Forwarder.Life.{IsStarted, start-stop}
use kcpq.Relay.{start_client}
use kcpq.Client.{
  Client, SubId, find_pending, handle_message, handle_ok, contains_text, trim_prefix, drop_pending,
  receive,
}
use kcpq.Client.Attempts.{Attempt, timed_out, try_subscribe, subscribe_loop, subscribe, register}
use kcpq.Client.Processing.{subscribe_chan}
use kcpq.Client.Reconnecting.{dialed, connect}
use kcpq.Crypto.{new_aes256_block_crypt}
use kcpq.Protocol.{new_message_cmd, cmd_ok}
use kcpq.Settings.{default_forwarder_config}
use kcpq.Subject.{has_prefix}
use kcpq.Prelude.{◌≡◌, refl, true, false, none, some, [], ◌∷◌, ◌++◌, codes, beq, length}

abbrev answered : Attempt
answered = record {
  cancelled_before = false;
  write_fails = false;
  inbox = new_message_cmd cmd_ok (codes "subscribed to h264.stream") [] ∷ [];
  ended = timed_out;
}

abbrev keyed : Forwarder
keyed = new_forwarder (record default_forwarder_config {
  aes256_key = codes "0123456789abcdef" ++ codes "0123456789abcdef";
})

keyed_starts : (start dialed false (answered ∷ []) keyed).1 ≡ none
unfolding start start_client subscribe_kcpq subscribe_chan subscribe subscribe_loop try_subscribe
    register receive handle_message handle_ok find_pending beq contains_text trim_prefix has_prefix
    drop_pending connect new_aes256_block_crypt
keyed_starts = refl

start-stop_example :
    let g = (start dialed false (answered ∷ []) keyed).0 in
    (length keyed.config.aes256_key ≡ 32)
    × ((c : Client) × (id : SubId) × (d : Client) × IsStarted g c id
        × ((stop true g).kcp_client ≡ some d)
        × ((d.sub id).active ≡ false)
        × ((d.sub id).chan_closed ≡ true)
        × (d.subscriptions ≡ [])
        × (d.done ≡ true)
        × (d.conn_open ≡ false))
start-stop_example = start-stop dialed false (answered ∷ []) true keyed keyed_starts
