-- ===== src/EndToEnd/Ordering.antt =====
-- One client that publishes, the server, and one client that is subscribed (client/client.go,
-- client/subscription.go, server/session.go), with the two streams of bytes between them, one action at a
-- time. Other sessions may come, go, subscribe and unsubscribe, but do not publish.
pub mod Subsequence
pub mod Invariant
pub mod Upstream
pub mod Downstream
pub mod Delivery
use kcpq.Client.{Client, ClientMessage, SubId, update, handle_message}
use kcpq.Client.Delivery.{delivered}
use kcpq.Client.Lifecycle.{publish, PublishError}
use kcpq.Client.Processing.{process_next}
use kcpq.Server
use kcpq.Server.{
  Server, HandleError, handle_and_report, close_session, accept, set_session_backpressure,
}
use kcpq.Router.Relation.{Distinct}
use kcpq.Session.{write_next}
use kcpq.Subscriptions.{SessionId}
use kcpq.Protocol.{Message, encode, cmd_pub, parsed, Reader, parse_from_reader}
use kcpq.Protocol.RoundTrip.{IsSendable}
use kcpq.Prelude.{
  ℕ, ◌≡◌, ◌==◌, Bool, true, false, Option, none, some, List, [], ◌∷◌, ◌++◌, Bytes, concat,
}

pub record System : Type 0 where
  pub publisher : Client
  -- what the publisher has written and the server has not read
  pub up : Bytes
  pub server : Server
  -- what the subscriber's session has written and the subscriber has not read
  pub down : Bytes
  pub subscriber : Client
  -- the publications that succeeded, and the calls of the callback
  pub published : List ClientMessage
  pub called : List ClientMessage

-- What the callback is called with in one round of the subscription's goroutine.
abbrev pub handed : Option ClientMessage → List ClientMessage
handed none = []
handed (some m) = m ∷ []

-- The publisher is session `from`, the subscriber session `to`, and the subscription is `id`.
module _ (describe : HandleError → Bytes) (from to : SessionId) (id : SubId) where
  pub data Step (s t : System) : Type 0 where
    publishes :
        (subject body : Bytes) (context_done write_fails : Bool) (frame : Bytes)
        → publish subject body context_done write_fails s.publisher
          ≡ (record s.publisher { written = s.publisher.written ++ frame ∷ [] }, none)
        → t ≡ record s {
          publisher = record s.publisher { written = s.publisher.written ++ frame ∷ [] };
          up = s.up ++ frame;
          published = s.published ++ record { subject = subject; body = body } ∷ [];
        }
        → Step s t
    -- a publication that fails, and all that the publisher does without writing
    changes_publisher : (c : Client) → t ≡ record s { publisher = c } → Step s t
    -- its SUB, UNSUB and PING frames
    writes_other :
        (msg : Message)
        → IsSendable msg
        → (msg.command == cmd_pub) ≡ false
        → t ≡ record s { up = s.up ++ encode msg }
        → Step s t
    reads :
        (r r' : Reader) (msg : Message)
        → concat r ≡ s.up
        → parse_from_reader r ≡ parsed msg r'
        → t ≡ record s { server = handle_and_report describe msg from s.server; up = concat r' }
        → Step s t
    handles :
        (j : SessionId) (msg : Message)
        → (msg.command == cmd_pub) ≡ false
        → t ≡ record s { server = handle_and_report describe msg j s.server }
        → Step s t
    accepts :
        (j : SessionId) → (j == to) ≡ false → t ≡ record s { server = accept j s.server } → Step s t
    closes : (j : SessionId) → t ≡ record s { server = close_session j s.server } → Step s t
    limits :
        (max_queued_bytes out_chan_cap : ℕ)
        → t ≡ record s { server = set_session_backpressure max_queued_bytes out_chan_cap s.server }
        → Step s t
    writes_elsewhere :
        (j : SessionId)
        → (j == to) ≡ false
        → t ≡ record s {
          server = record s.server {
            session = Server.update s.server.session j (write_next (s.server.session j)).0;
          };
        }
        → Step s t
    writes :
        (frame : Bytes)
        → (write_next (s.server.session to)).1 ≡ some frame
        → t ≡ record s {
          server = record s.server {
            session = Server.update s.server.session to (write_next (s.server.session to)).0;
          };
          down = s.down ++ frame;
        }
        → Step s t
    receives :
        (r r' : Reader) (msg : Message)
        → concat r ≡ s.down
        → parse_from_reader r ≡ parsed msg r'
        → t ≡ record s { subscriber = handle_message msg s.subscriber; down = concat r' }
        → Step s t
    calls :
        t ≡ record s {
          subscriber = record s.subscriber {
            sub = update s.subscriber.sub id (process_next (s.subscriber.sub id)).0;
          };
          called = s.called ++ handed (process_next (s.subscriber.sub id)).1;
        }
        → Step s t
    -- all else that the subscriber does, which leaves the channel of the subscription
    changes_subscriber :
        (c : Client)
        → (c.sub id).msg_chan ≡ (s.subscriber.sub id).msg_chan
        → Distinct c.subscriptions
        → t ≡ record s { subscriber = c }
        → Step s t

  pub data Reach (s : System) : System → Type 0 where
    here : Reach s s
    next : {t u : System} → Reach s t → Step t u → Reach s u
