-- ===== src/EndToEnd/Ordering/Delivery.antt =====
-- client/client.go, client/subscription.go, server/session.go: a subscription is served in the order of the
-- publications.
use kcpq.EndToEnd.Ordering.{
  System, Step, publishes, changes_publisher, writes_other, reads, handles, accepts, closes, limits,
  writes_elsewhere, writes, receives, calls, changes_subscriber, Reach, here, next,
}
use kcpq.EndToEnd.Ordering.Invariant.{IsOrdered, contents-snoc_other, stream-snoc}
use kcpq.EndToEnd.Ordering.Upstream.{requeued, sends, server_reads}
use kcpq.EndToEnd.Ordering.Downstream.{client_reads, session_writes, callback_runs}
use kcpq.EndToEnd.Ordering.Subsequence.{front, nothing, Subsequence, Subsequence-trans}
use kcpq.Client.{Client, SubId}
use kcpq.Client.Delivery.{delivered}
use kcpq.Client.Lifecycle.{publish, PublishError}
use kcpq.Server.{HandleError, handle_and_report, close_session, accept, set_session_backpressure}
use kcpq.Server.Replies.{
  handle_and_report-Replied, accept_queue, close_session_queue, set_session_backpressure_queue,
}
use kcpq.Router.Relation.{Distinct}
use kcpq.Subscriptions.{SessionId}
use kcpq.Protocol.{new_message_cmd, encode, cmd_pub}
use kcpq.Protocol.RoundTrip.{IsSendable}
use kcpq.Prelude.{
  ◌≡◌, inl, refl, sym, ap, subst, ◌∙◌, Bool, Option, none, List, [], ◌∷◌, ◌++◌, Bytes, All-append,
  arith,
}

last-injective : {A : Type 0} (xs : List A) (a b : A) → xs ++ a ∷ [] ≡ xs ++ b ∷ [] → a ≡ b
last-injective [] a b e = cc e
last-injective (x ∷ xs) a b e = last-injective xs a b (cc e)

publish_frame :
    (subject body frame : Bytes) (context_done write_fails : Bool) (c : Client)
    → publish subject body context_done write_fails c
      ≡ (record c { written = c.written ++ frame ∷ [] }, none)
    → (frame ≡ encode (new_message_cmd cmd_pub subject body))
      × IsSendable (new_message_cmd cmd_pub subject body)
unfolding publish
publish_frame subject body frame context_done write_fails c e =
    let sent = publish subject body context_done write_fails c in
    let ok : sent.1 ≡ none = ap (λ (p : Client × Option PublishError). p.1) e in
    let first : sent.0.written ≡ c.written ++ frame ∷ [] =
      ap (λ (p : Client × Option PublishError). p.0.written) e in
    let second : sent.0.written ≡ c.written ++ encode (new_message_cmd cmd_pub subject body) ∷ [] =
      ground (arith, ok) in
    (last-injective c.written frame _ (sym first ∙ second), ground (arith, ok))

module _ (describe : HandleError → Bytes) (from to : SessionId) (id : SubId) where
  Step-IsOrdered :
      {s t : System} → Step describe from to id s t → IsOrdered to id s → IsOrdered to id t
  Step-IsOrdered {s} (publishes subject body context_done write_fails frame e e') v =
      let (encoded, fits) =
        publish_frame subject body frame context_done write_fails s.publisher e in
      let m = new_message_cmd cmd_pub subject body in
      let c = record s.publisher { written = s.publisher.written ++ frame ∷ [] } in
      subst (IsOrdered to id)
        (ap
            (λ f. record s {
              publisher = c;
              up = s.up ++ f;
              published = s.published ++ delivered m ∷ [];
            })
            (sym encoded)
          ∙ sym e')
        (sends describe from to id s m c fits refl v)
  Step-IsOrdered {s} (changes_publisher c e) v = subst (IsOrdered to id) (sym e) (record {
    sent = v.sent;
    queue = v.queue;
    flying = v.flying;
    sent_fits = v.sent_fits;
    queue_fits = v.queue_fits;
    flying_fits = v.flying_fits;
    up = v.up;
    queued = v.queued;
    down = v.down;
    distinct = v.distinct;
    order = v.order;
  })
  Step-IsOrdered {s} (writes_other msg fits other e) v = subst (IsOrdered to id) (sym e) (record {
    sent = v.sent ++ msg ∷ [];
    queue = v.queue;
    flying = v.flying;
    sent_fits = All-append IsSendable v.sent (msg ∷ []) v.sent_fits (fits, tt);
    queue_fits = v.queue_fits;
    flying_fits = v.flying_fits;
    up = ap (λ b. b ++ encode msg) v.up ∙ stream-snoc v.sent msg;
    queued = v.queued;
    down = v.down;
    distinct = v.distinct;
    order = rw (contents-snoc_other cmd_pub v.sent msg other) v.order;
  })
  Step-IsOrdered {s} (reads r r' msg at parse e) v =
      subst (IsOrdered to id) (sym e) (server_reads describe from to id s r r' msg at parse v)
  Step-IsOrdered {s} (handles j msg other e) v = subst (IsOrdered to id) (sym e) (
      requeued describe from to id s (handle_and_report describe msg j s.server)
        (handle_and_report-Replied describe msg j to s.server other) v)
  Step-IsOrdered {s} (accepts j other e) v = subst (IsOrdered to id) (sym e) (
      requeued describe from to id s (accept j s.server) (inl (accept_queue j to s.server other)) v)
  Step-IsOrdered {s} (closes j e) v = subst (IsOrdered to id) (sym e) (
      requeued describe from to id s (close_session j s.server)
        (inl (close_session_queue j to s.server)) v)
  Step-IsOrdered {s} (limits max_queued_bytes out_chan_cap e) v = subst (IsOrdered to id) (sym e) (
      requeued describe from to id s
        (set_session_backpressure max_queued_bytes out_chan_cap s.server)
        (inl (set_session_backpressure_queue max_queued_bytes out_chan_cap to s.server)) v)
  Step-IsOrdered {s} (writes_elsewhere j other e) v =
      subst (IsOrdered to id) (sym e)
        (requeued describe from to id s _ (inl (ground (arith, other))) v)
  Step-IsOrdered {s} (writes frame some_frame e) v =
      subst (IsOrdered to id) (sym e) (session_writes to id s frame some_frame v)
  Step-IsOrdered {s} (receives r r' msg at parse e) v =
      subst (IsOrdered to id) (sym e) (client_reads to id s r r' msg at parse v)
  Step-IsOrdered {s} (calls e) v = subst (IsOrdered to id) (sym e) (callback_runs to id s v)
  Step-IsOrdered {s} (changes_subscriber c same distinct e) v =
      subst (IsOrdered to id) (sym e) (record {
        sent = v.sent;
        queue = v.queue;
        flying = v.flying;
        sent_fits = v.sent_fits;
        queue_fits = v.queue_fits;
        flying_fits = v.flying_fits;
        up = v.up;
        queued = v.queued;
        down = v.down;
        distinct = distinct;
        order = rw same v.order;
      })

  Reach-IsOrdered :
      {s t : System} → IsOrdered to id s → Reach describe from to id s t → IsOrdered to id t
  Reach-IsOrdered v here = v
  Reach-IsOrdered v (next r st) = Step-IsOrdered st (Reach-IsOrdered v r)

-- Nothing is on its way, and the subscriber lists no subscription twice.
pub record IsQuiet (to : SessionId) (id : SubId) (s : System) : Type 0 where
  pub up : s.up ≡ []
  pub queue : (s.server.session to).out_chan ≡ []
  pub down : s.down ≡ []
  pub channel : (s.subscriber.sub id).msg_chan ≡ []
  pub called : s.called ≡ []
  pub distinct : Distinct s.subscriber.subscriptions

-- From a state in which nothing is on its way, with one client that publishes: however the actions of
-- the two clients, of the server and of other sessions that do not publish come between one another,
-- however the streams are cut, and whatever is dropped because a queue is full, a session is closed or
-- a subscription ends, the callback of a subscription has been called with publications in the order
-- in which they were made, and with none more often than it was made.
pub called_in_order :
    (describe : HandleError → Bytes) (from to : SessionId) (id : SubId) {s t : System}
    → IsQuiet to id s
    → Reach describe from to id s t
    → Subsequence t.called t.published
called_in_order describe from to id {s} {t} q r =
    let v = Reach-IsOrdered describe from to id start r in
    Subsequence-trans v.order (front t.called _)
  where
    start : IsOrdered to id s
    start = record {
      sent = [];
      queue = [];
      flying = [];
      sent_fits = tt;
      queue_fits = tt;
      flying_fits = tt;
      up = q.up;
      queued = q.queue;
      down = q.down;
      distinct = q.distinct;
      order =
          let none_yet : [] ≡ s.called ++ ((s.subscriber.sub id).msg_chan ++ []) =
            ground (arith, q.called, q.channel) in
          subst (λ l. Subsequence l s.published) none_yet (nothing s.published);
    }
