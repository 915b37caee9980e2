-- ===== src/EndToEnd/Ordering/Invariant.antt =====
-- client/client.go, client/subscription.go, server/session.go: what is on its way, and in which order.
use kcpq.EndToEnd.Ordering.{System}
use kcpq.EndToEnd.Ordering.Subsequence.{Subsequence, line}
use kcpq.Client.{ClientMessage, SubId}
use kcpq.Client.Delivery.{delivered}
use kcpq.Router.Relation.{Distinct}
use kcpq.Subscriptions.{SessionId}
use kcpq.Protocol.{Message, encode, cmd_pub, cmd_msg, parsed, Reader, parse_from_reader}
use kcpq.Protocol.RoundTrip.{IsSendable}
use kcpq.Protocol.Streams.{parse_from_reader-encode, parse_from_reader_end}
use kcpq.Prelude.{
  ℕ, ◌≡◌, refl, sym, ap, ◌∙◌, ◌==◌, true, false, List, [], ◌∷◌, ◌++◌, concat, map, All,
  append_assoc, append-nil, if◌then◌else◌, arith,
}

-- What the messages of one command hold.
abbrev pub contents : ℕ → List Message → List ClientMessage
contents k [] = []
contents k (m ∷ ms) =
    let rest = contents k ms in if m.command == k then delivered m ∷ rest else rest

pub record IsOrdered (to : SessionId) (id : SubId) (s : System) : Type 0 where
  -- what is in the stream of the publisher, in the queue of the session, in the stream of the subscriber
  pub sent : List Message
  pub queue : List Message
  pub flying : List Message
  pub sent_fits : All IsSendable sent
  pub queue_fits : All IsSendable queue
  pub flying_fits : All IsSendable flying
  pub up : s.up ≡ concat (map encode sent)
  pub queued : (s.server.session to).out_chan ≡ map encode queue
  pub down : s.down ≡ concat (map encode flying)
  pub distinct : Distinct s.subscriber.subscriptions
  pub order :
      Subsequence
        (line s.called
          (s.subscriber.sub id).msg_chan
          (contents cmd_msg flying)
          (contents cmd_msg queue)
          (contents cmd_pub sent))
        s.published

pub contents-snoc_kept :
    (k : ℕ) (ms : List Message) (m : Message)
    → (m.command == k) ≡ true
    → contents k (ms ++ m ∷ []) ≡ contents k ms ++ delivered m ∷ []
contents-snoc_kept k [] m h = rw h refl
contents-snoc_kept k (x ∷ ms) m h = ground (arith, contents-snoc_kept k ms m h)

pub contents-snoc_other :
    (k : ℕ) (ms : List Message) (m : Message)
    → (m.command == k) ≡ false
    → contents k (ms ++ m ∷ []) ≡ contents k ms
contents-snoc_other k [] m h = rw h refl
contents-snoc_other k (x ∷ ms) m h = ground (arith, contents-snoc_other k ms m h)

pub stream-snoc :
    (ms : List Message) (m : Message)
    → concat (map encode ms) ++ encode m ≡ concat (map encode (ms ++ m ∷ []))
stream-snoc [] m = sym (append-nil (encode m))
stream-snoc (x ∷ ms) m =
    append_assoc (encode x) (concat (map encode ms)) (encode m)
    ∙ ap (λ b. encode x ++ b) (stream-snoc ms m)

pub frames-snoc :
    (ms : List Message) (m : Message) → map encode ms ++ encode m ∷ [] ≡ map encode (ms ++ m ∷ [])
frames-snoc [] m = refl
frames-snoc (x ∷ ms) m = ap (◌∷◌ (encode x)) (frames-snoc ms m)

-- What a reader takes from a stream of frames is the first message.
pub read_first :
    (ms : List Message) (r r' : Reader) (msg : Message)
    → All IsSendable ms
    → concat r ≡ concat (map encode ms)
    → parse_from_reader r ≡ parsed msg r'
    → (rest : List Message) × (ms ≡ msg ∷ rest) × (concat r' ≡ concat (map encode rest))
read_first [] r r' msg v e h = absurd (ground (arith, parse_from_reader_end r e))
read_first (m ∷ ms) r r' msg (fits, v) e h =
    let (r'', parse, rest) = parse_from_reader-encode r m (concat (map encode ms)) fits e in
    (ms, ground arith, ground arith)
