-- ===== src/EndToEnd/Ordering/Upstream.antt =====
-- client/client.go, server/session.go: from the publisher to the queue of the subscriber's session.
use kcpq.EndToEnd.Ordering.{System}
use kcpq.EndToEnd.Ordering.Invariant.{
  contents, IsOrdered, contents-snoc_kept, contents-snoc_other, stream-snoc, frames-snoc,
  read_first,
}
use kcpq.EndToEnd.Ordering.Subsequence.{
  Subsequence, line, Subsequence-trans, Subsequence-snoc, line-snoc, line_fourth,
  line_without_fifth,
}
use kcpq.Client.{Client, ClientMessage, SubId}
use kcpq.Client.Delivery.{delivered}
use kcpq.Server.{Server, HandleError, handle_and_report}
use kcpq.Server.Publish.{msg_frame}
use kcpq.Server.Replies.{Grown, handle_and_report_publishes, handle_and_report-Replied}
use kcpq.Subscriptions.{SessionId}
use kcpq.Protocol.{
  Message, new_message_cmd, encode, cmd_pub, cmd_msg, parsed, Reader, parse_from_reader,
}
use kcpq.Protocol.RoundTrip.{IsSendable}
use kcpq.Prelude.{
  ℕ, ◌≡◌, inl, inr, refl, sym, ap, subst, ◌∙◌, ◌==◌, true, List, [], ◌∷◌, ◌++◌, Bytes, concat, map,
  All, All-append, arith, Bool-cases,
}

without_sent :
    (a b c d p : List ClientMessage) (k : ℕ) (m : Message) (rest : List Message)
    → Subsequence (line a b c d (contents k (m ∷ rest))) p
    → Subsequence (line a b c d (contents k rest)) p
without_sent a b c d p k m rest o = elim (Bool-cases (m.command == k)) [
  | inl kept ↦
      let o' : Subsequence (line a b c d (delivered m ∷ contents k rest)) p =
        subst (λ l. Subsequence (line a b c d l) p) (ground (arith, kept)) o in
      Subsequence-trans o' (line_without_fifth a b c d (contents k rest) (delivered m))
  | inr other ↦ subst (λ l. Subsequence (line a b c d l) p) (ground (arith, other)) o
]

forwarded : Message → Message
forwarded m = new_message_cmd cmd_msg m.subject m.payload

module _ (describe : HandleError → Bytes) (from to : SessionId) (id : SubId) where
  -- A queue that got no message, or one that is no MSG.
  pub requeued :
      (s : System) (w : Server)
      → Grown (s.server.session to).out_chan (w.session to).out_chan
      → IsOrdered to id s
      → IsOrdered to id (record s { server = w })
  requeued s w (inl same) v = record {
    sent = v.sent;
    queue = v.queue;
    flying = v.flying;
    sent_fits = v.sent_fits;
    queue_fits = v.queue_fits;
    flying_fits = v.flying_fits;
    up = v.up;
    queued = same ∙ v.queued;
    down = v.down;
    distinct = v.distinct;
    order = v.order;
  }
  requeued s w (inr (a, fits, other, more)) v = record {
    sent = v.sent;
    queue = v.queue ++ a ∷ [];
    flying = v.flying;
    sent_fits = v.sent_fits;
    queue_fits = All-append IsSendable v.queue (a ∷ []) v.queue_fits (fits, tt);
    flying_fits = v.flying_fits;
    up = v.up;
    queued = more ∙ ap (λ q. q ++ encode a ∷ []) v.queued ∙ frames-snoc v.queue a;
    down = v.down;
    distinct = v.distinct;
    order = rw (contents-snoc_other cmd_msg v.queue a other) v.order;
  }

  -- A publication.
  pub sends :
      (s : System) (m : Message) (c : Client)
      → IsSendable m
      → (m.command == cmd_pub) ≡ true
      → IsOrdered to id s
      → IsOrdered to id (record s {
        publisher = c;
        up = s.up ++ encode m;
        published = s.published ++ delivered m ∷ [];
      })
  sends s m c fits is_pub v = record {
    sent = v.sent ++ m ∷ [];
    queue = v.queue;
    flying = v.flying;
    sent_fits = All-append IsSendable v.sent (m ∷ []) v.sent_fits (fits, tt);
    queue_fits = v.queue_fits;
    flying_fits = v.flying_fits;
    up = ap (λ b. b ++ encode m) v.up ∙ stream-snoc v.sent m;
    queued = v.queued;
    down = v.down;
    distinct = v.distinct;
    order =
        subst (λ l. Subsequence l (s.published ++ delivered m ∷ []))
          (sym (
              line-snoc s.called (s.subscriber.sub id).msg_chan (contents cmd_msg v.flying)
                (contents cmd_msg v.queue) (contents cmd_pub v.sent) (delivered m))
            ∙ ap
                (λ e.
                  line s.called (s.subscriber.sub id).msg_chan (contents cmd_msg v.flying)
                    (contents cmd_msg v.queue) e)
                (sym (contents-snoc_kept cmd_pub v.sent m is_pub)))
          (Subsequence-snoc (delivered m) v.order);
  }

  -- The first message of the publisher's stream is taken, and forgotten.
  forgets :
      (s : System) (r' : Reader) (msg : Message) (rest : List Message) (v : IsOrdered to id s)
      → v.sent ≡ msg ∷ rest
      → concat r' ≡ concat (map encode rest)
      → IsOrdered to id (record s { up = concat r' })
  forgets s r' msg rest v first left = record {
    sent = rest;
    queue = v.queue;
    flying = v.flying;
    sent_fits = (subst (All IsSendable) first v.sent_fits).1;
    queue_fits = v.queue_fits;
    flying_fits = v.flying_fits;
    up = left;
    queued = v.queued;
    down = v.down;
    distinct = v.distinct;
    order =
        without_sent s.called (s.subscriber.sub id).msg_chan (contents cmd_msg v.flying)
          (contents cmd_msg v.queue) s.published cmd_pub msg rest
          (subst
            (λ ms.
              Subsequence
                (line s.called (s.subscriber.sub id).msg_chan (contents cmd_msg v.flying)
                  (contents cmd_msg v.queue) (contents cmd_pub ms))
                s.published)
            first v.order);
  }

  -- It is taken, and put into the session's queue.
  passes :
      (s : System) (r' : Reader) (msg : Message) (rest : List Message) (w : Server)
      (v : IsOrdered to id s)
      → (msg.command == cmd_pub) ≡ true
      → v.sent ≡ msg ∷ rest
      → concat r' ≡ concat (map encode rest)
      → (w.session to).out_chan ≡ (s.server.session to).out_chan ++ msg_frame msg ∷ []
      → IsOrdered to id (record s { server = w; up = concat r' })
  unfolding forwarded
  passes s r' msg rest w v is_pub first left more =
      let (fits, rest_fits) = subst (All IsSendable) first v.sent_fits in
      let a = s.called in
      let b = (s.subscriber.sub id).msg_chan in
      let c = contents cmd_msg v.flying in
      let moved : line a b c (contents cmd_msg v.queue) (contents cmd_pub v.sent)
          ≡ line a b c (contents cmd_msg (v.queue ++ forwarded msg ∷ [])) (contents cmd_pub rest) =
        ap (λ ms. line a b c (contents cmd_msg v.queue) (contents cmd_pub ms)) first
        ∙ ap (λ l. line a b c (contents cmd_msg v.queue) l)
            {y = delivered msg ∷ contents cmd_pub rest} (ground (arith, is_pub))
        ∙ sym (line_fourth a b c (contents cmd_msg v.queue) (contents cmd_pub rest) (delivered msg))
        ∙ ap (λ d. line a b c d (contents cmd_pub rest))
            (sym (contents-snoc_kept cmd_msg v.queue (forwarded msg) refl)) in
      record {
        sent = rest;
        queue = v.queue ++ forwarded msg ∷ [];
        flying = v.flying;
        sent_fits = rest_fits;
        queue_fits =
            All-append IsSendable v.queue (forwarded msg ∷ []) v.queue_fits
              (ground (arith, fits), tt);
        flying_fits = v.flying_fits;
        up = left;
        queued =
            more ∙ ap (λ q. q ++ msg_frame msg ∷ []) v.queued ∙ frames-snoc v.queue (forwarded msg);
        down = v.down;
        distinct = v.distinct;
        order = subst (λ l. Subsequence l s.published) moved v.order;
      }

  -- The server reads the first message of the publisher's stream.
  pub server_reads :
      (s : System) (r r' : Reader) (msg : Message)
      → concat r ≡ s.up
      → parse_from_reader r ≡ parsed msg r'
      → IsOrdered to id s
      → IsOrdered to id
          (record s { server = handle_and_report describe msg from s.server; up = concat r' })
  server_reads s r r' msg e h v =
      let (rest, first, left) = read_first v.sent r r' msg v.sent_fits (e ∙ v.up) h in
      let w = handle_and_report describe msg from s.server in
      let taken = record s { up = concat r' } in
      let lost = forgets s r' msg rest v first left in
      elim (Bool-cases (msg.command == cmd_pub)) [
        | inl is_pub ↦ elim (handle_and_report_publishes describe msg from to s.server is_pub) [
          | inl same ↦ requeued taken w (inl same) lost
          | inr more ↦ passes s r' msg rest w v is_pub first left more
        ]
        | inr other ↦
            requeued taken w (handle_and_report-Replied describe msg from to s.server other) lost
      ]
