-- ===== src/Client/Receiving.antt =====
-- client/client.go: `receiveLoop` over all that one connection delivers.
use kcpq.Client.{Client, receive, handle_message}
use kcpq.Client.Lifecycle.{trigger_connection_lost}
use kcpq.Client.Keeping.{Flags, handle_message-Same}
use kcpq.Protocol.{Message, encode, parsed, refused, Reader, parse_from_reader}
use kcpq.Protocol.RoundTrip.{IsSendable}
use kcpq.Protocol.Streams.{parse_from_reader-encode, parse_from_reader_end}
use kcpq.Prelude.{
  ℕ, zero, suc, ◌+◌, ◌<◌, ◌≡◌, ap, ◌∙◌, true, false, not, List, [], ◌∷◌, length, concat, All, map,
  if◌then◌else◌, arith,
}

abbrev one_connection_error : Client → Client
one_connection_error c = record c { connection_errors = c.connection_errors + 1 }

-- `fuel` rounds at most.
unfoldable pub receive_loop : ℕ → Reader → Client → Client
receive_loop zero r c = c
receive_loop (suc fuel) r c =
    if c.done
    then c
    else if c.cancelled
    then c
    else if not c.has_conn
    then trigger_connection_lost c
    else elim (parse_from_reader r) [
      | refused e r' ↦ trigger_connection_lost (one_connection_error c)
      | parsed msg r' ↦ receive_loop fuel r' (handle_message msg c)
    ]

receive_loop_step :
    (fuel : ℕ) (r r' : Reader) (msg : Message) (c : Client)
    → c.done ≡ false
    → c.cancelled ≡ false
    → c.has_conn ≡ true
    → parse_from_reader r ≡ parsed msg r'
    → receive_loop (suc fuel) r c ≡ receive_loop fuel r' (handle_message msg c)
unfolding receive_loop
receive_loop_step fuel r r' msg c h1 h2 h3 e = ground arith

receive_loop_end :
    (fuel : ℕ) (r : Reader) (c : Client)
    → c.done ≡ false
    → c.cancelled ≡ false
    → c.has_conn ≡ true
    → concat r ≡ []
    → receive_loop (suc fuel) r c ≡ trigger_connection_lost (one_connection_error c)
unfolding receive_loop
receive_loop_end fuel r c h1 h2 h3 e = ground (arith, parse_from_reader_end r e)

-- However the connection cuts the stream of a server that sends sendable messages and is then cut off, the
-- receive loop of a client that is connected and not stopped, on more fuel than messages, handles exactly
-- those messages, in order, and then counts one connection error and reports the loss.
pub receive_loop_messages :
    (msgs : List Message) (fuel : ℕ) (r : Reader) (c : Client)
    → c.done ≡ false
    → c.cancelled ≡ false
    → c.has_conn ≡ true
    → All IsSendable msgs
    → concat r ≡ concat (map encode msgs)
    → length msgs < fuel
    → receive_loop fuel r c ≡ trigger_connection_lost (one_connection_error (receive msgs c))
unfolding receive
receive_loop_messages msgs zero r c h1 h2 h3 v e enough = absurd (omega arith)
receive_loop_messages [] (suc fuel) r c h1 h2 h3 v e enough = receive_loop_end fuel r c h1 h2 h3 e
receive_loop_messages (msg ∷ msgs) (suc fuel) r c h1 h2 h3 (s, v) e enough =
    let (r', got, left) = parse_from_reader-encode r msg (concat (map encode msgs)) s e in
    let same = (handle_message-Same msg 0 c).0 in
    receive_loop_step fuel r r' msg c h1 h2 h3 got
    ∙ receive_loop_messages msgs fuel r' (handle_message msg c)
        (ap (λ (f : Flags). f.is_done) same ∙ h1) (ap (λ (f : Flags). f.is_cancelled) same ∙ h2)
        (ap (λ (f : Flags). f.conn) same ∙ h3) v left (omega arith)
