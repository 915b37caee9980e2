-- ===== src/EndToEnd/Ordering/Downstream.antt =====
-- server/session.go, client/client.go, client/subscription.go: from that queue to the callback.
use kcpq.EndToEnd.Ordering.{System, handed}
use kcpq.EndToEnd.Ordering.Invariant.{
  contents, IsOrdered, contents-snoc_kept, contents-snoc_other, stream-snoc, read_first,
}
use kcpq.EndToEnd.Ordering.Subsequence.{
  Subsequence, line, Subsequence-trans, line_third, line_second, line_without_third,
}
use kcpq.Client.{ClientMessage, SubId, update, handle_message, Subscription}
use kcpq.Client.Delivery.{delivered, handle_message_queues}
use kcpq.Client.Keeping.{Flags, handle_message-Same}
use kcpq.Client.Processing.{process_next}
use kcpq.Server
use kcpq.Server.{
  Server, HandleError, handle_and_report, close_session, accept, set_session_backpressure,
}
use kcpq.Router.Relation.{Distinct}
use kcpq.Session.{Session, write_next}
use kcpq.Subscriptions.{SessionId}
use kcpq.Protocol.{Message, encode, cmd_pub, cmd_msg, parsed, Reader, parse_from_reader}
use kcpq.Protocol.RoundTrip.{IsSendable}
use kcpq.Prelude.{
  ℕ, ◌≡◌, inl, inr, refl, sym, ap, ap₂, subst, ◌∙◌, ◌==◌, some, List, [], ◌∷◌, ◌++◌, Bytes, concat,
  map, All, All-append, append_assoc, arith, Bool-cases,
}

written_first :
    (b : Session) (q : List Message) (frame : Bytes)
    → b.out_chan ≡ map encode q
    → (write_next b).1 ≡ some frame
    → (m : Message) × (rest : List Message) × (q ≡ m ∷ rest)
      × (frame ≡ encode m)
      × ((write_next b).0.out_chan ≡ map encode rest)
unfolding write_next
written_first b [] frame e h = absurd (ground arith)
written_first b (m ∷ q) frame e h = (m, q, refl, ground arith, ground arith)

handed-process_next :
    (b : Subscription) → handed (process_next b).1 ++ (process_next b).0.msg_chan ≡ b.msg_chan
unfolding process_next
handed-process_next b = ground arith

without_flying :
    (a b d e p : List ClientMessage) (k : ℕ) (m : Message) (rest : List Message)
    → Subsequence (line a b (contents k (m ∷ rest)) d e) p
    → Subsequence (line a b (contents k rest) d e) p
without_flying a b d e p k m rest o = elim (Bool-cases (m.command == k)) [
  | inl kept ↦
      let o' : Subsequence (line a b (delivered m ∷ contents k rest) d e) p =
        subst (λ l. Subsequence (line a b l d e) p) {y = delivered m ∷ contents k rest}
          (ground (arith, kept)) o in
      Subsequence-trans o' (line_without_third a b (contents k rest) d e (delivered m))
  | inr other ↦
      subst (λ l. Subsequence (line a b l d e) p) {y = contents k rest} (ground (arith, other)) o
]

module _ (to : SessionId) (id : SubId) where
  -- The subscriber reads the first message of its stream.
  pub client_reads :
      (s : System) (r r' : Reader) (msg : Message)
      → concat r ≡ s.down
      → parse_from_reader r ≡ parsed msg r'
      → IsOrdered to id s
      → IsOrdered to id
          (record s { subscriber = handle_message msg s.subscriber; down = concat r' })
  client_reads s r r' msg e h v =
      let (rest, first, left) = read_first v.flying r r' msg v.flying_fits (e ∙ v.down) h in
      let a = s.called in
      let b = (s.subscriber.sub id).msg_chan in
      let c' = handle_message msg s.subscriber in
      let d = contents cmd_msg v.queue in
      let f = contents cmd_pub v.sent in
      let o : Subsequence (line a b (contents cmd_msg (msg ∷ rest)) d f) s.published =
        subst (λ ms. Subsequence (line a b (contents cmd_msg ms) d f) s.published) first v.order in
      let order : Subsequence (line a (c'.sub id).msg_chan (contents cmd_msg rest) d f)
          s.published =
        elim (handle_message_queues msg s.subscriber id v.distinct) [
          | inl same ↦
              subst (λ l. Subsequence (line a l (contents cmd_msg rest) d f) s.published) (sym same)
                (without_flying a b d f s.published cmd_msg msg rest o)
          | inr (is_msg, more) ↦
              let moved : line a b (contents cmd_msg (msg ∷ rest)) d f
                  ≡ line a (c'.sub id).msg_chan (contents cmd_msg rest) d f =
                ap (λ l. line a b l d f) {y = delivered msg ∷ contents cmd_msg rest}
                  (ground (arith, is_msg))
                ∙ sym (line_second a b (contents cmd_msg rest) d f (delivered msg))
                ∙ ap (λ l. line a l (contents cmd_msg rest) d f) (sym more) in
              subst (λ l. Subsequence l s.published) moved o
        ] in
      record {
        sent = v.sent;
        queue = v.queue;
        flying = rest;
        sent_fits = v.sent_fits;
        queue_fits = v.queue_fits;
        flying_fits = (subst (All IsSendable) first v.flying_fits).1;
        up = v.up;
        queued = v.queued;
        down = left;
        distinct =
            subst Distinct
              (sym (ap (λ (g : Flags). g.listed) (handle_message-Same msg id s.subscriber).0))
              v.distinct;
        order = order;
      }

  pub session_writes :
      (s : System) (frame : Bytes)
      → (write_next (s.server.session to)).1 ≡ some frame
      → IsOrdered to id s
      → IsOrdered to id (record s {
        server = record s.server {
          session = Server.update s.server.session to (write_next (s.server.session to)).0;
        };
        down = s.down ++ frame;
      })
  session_writes s frame e v =
      let (m, rest, first, encoded, left) =
        written_first (s.server.session to) v.queue frame v.queued e in
      let (fits, rest_fits) = subst (All IsSendable) first v.queue_fits in
      let a = s.called in
      let b = (s.subscriber.sub id).msg_chan in
      let f = contents cmd_pub v.sent in
      record {
        sent = v.sent;
        queue = rest;
        flying = v.flying ++ m ∷ [];
        sent_fits = v.sent_fits;
        queue_fits = rest_fits;
        flying_fits = All-append IsSendable v.flying (m ∷ []) v.flying_fits (fits, tt);
        up = v.up;
        queued = ground (arith, left);
        down = ap₂ ◌++◌ v.down encoded ∙ stream-snoc v.flying m;
        distinct = v.distinct;
        order = elim (Bool-cases (m.command == cmd_msg)) [
          | inl is_msg ↦
              let moved : line a b (contents cmd_msg v.flying) (contents cmd_msg v.queue) f
                  ≡ line a b (contents cmd_msg (v.flying ++ m ∷ [])) (contents cmd_msg rest) f =
                ap (λ q. line a b (contents cmd_msg v.flying) (contents cmd_msg q) f) first
                ∙ ap (λ l. line a b (contents cmd_msg v.flying) l f)
                    {y = delivered m ∷ contents cmd_msg rest} (ground (arith, is_msg))
                ∙ sym (
                    line_third a b (contents cmd_msg v.flying) (contents cmd_msg rest) f
                      (delivered m))
                ∙ ap (λ c. line a b c (contents cmd_msg rest) f)
                    (sym (contents-snoc_kept cmd_msg v.flying m is_msg)) in
              subst (λ l. Subsequence l s.published) moved v.order
          | inr other ↦
              let same : line a b (contents cmd_msg v.flying) (contents cmd_msg v.queue) f
                  ≡ line a b (contents cmd_msg (v.flying ++ m ∷ [])) (contents cmd_msg rest) f =
                ap (λ q. line a b (contents cmd_msg v.flying) (contents cmd_msg q) f) first
                ∙ ap (λ l. line a b (contents cmd_msg v.flying) l f) {y = contents cmd_msg rest}
                    (ground (arith, other))
                ∙ ap (λ c. line a b c (contents cmd_msg rest) f)
                    (sym (contents-snoc_other cmd_msg v.flying m other)) in
              subst (λ l. Subsequence l s.published) same v.order
        ];
      }

  pub callback_runs :
      (s : System)
      → IsOrdered to id s
      → IsOrdered to id (record s {
        subscriber = record s.subscriber {
          sub = update s.subscriber.sub id (process_next (s.subscriber.sub id)).0;
        };
        called = s.called ++ handed (process_next (s.subscriber.sub id)).1;
      })
  callback_runs s v =
      let b = s.subscriber.sub id in
      let h = handed (process_next b).1 in
      let left = (process_next b).0.msg_chan in
      let rest =
        contents cmd_msg v.flying ++ (contents cmd_msg v.queue ++ contents cmd_pub v.sent) in
      let moved : s.called ++ (b.msg_chan ++ rest)
          ≡ (s.called ++ h)
            ++ ((update s.subscriber.sub id (process_next b).0 id).msg_chan ++ rest) =
        ap (λ l. s.called ++ (l ++ rest)) (sym (handed-process_next b))
        ∙ ap (λ l. s.called ++ l) (append_assoc h left rest)
        ∙ sym (append_assoc s.called h (left ++ rest))
        ∙ ap (λ l. (s.called ++ h) ++ (l ++ rest)) (ground arith) in
      record {
        sent = v.sent;
        queue = v.queue;
        flying = v.flying;
        sent_fits = v.sent_fits;
        queue_fits = v.queue_fits;
        flying_fits = v.flying_fits;
        up = v.up;
        queued = v.queued;
        down = v.down;
        distinct = v.distinct;
        order = subst (λ l. Subsequence l s.published) moved v.order;
      }
