-- ===== src/Server/Races/Whole.antt =====
-- server/session.go: a handler whose actions nothing comes between is the whole handler of Server.
use kcpq.Server.Races.{
  Activity, resting, entering, leaving, answering, sending, reporting, is_unborn, Racing, move,
  replace, begin, go_on_from, Step, begins, goes_on, Reach, here, next,
}
use kcpq.Server.{
  Server, HandleError, unknown_command, send_failed, has_subject, other_subjects, send_to_all,
  handle_subscribe, handle_unsubscribe, handle_publish, handle_ping, handle_message,
  handle_and_report,
}
use kcpq.Router
use kcpq.Subscriptions.{SessionId}
use kcpq.Session.{send_pong}
use kcpq.Protocol.{Message, new_message_cmd, encode, cmd_sub, cmd_unsub, cmd_pub, cmd_ping, cmd_msg}
use kcpq.Protocol.RoundTrip.{IsSendable}
use kcpq.Prelude.{
  ◌≡◌, inl, inr, refl, sym, subst, ◌∙◌, false, List, [], ◌∷◌, ◌++◌, Bytes, codes, ◌==◌, arith,
  Bool-cases, Option-cases,
}

-- The state is that of the server `w`, the read loop of `id` rests, and what `r` says of the others holds.
pub record IsAfter (w : Server) (id : SessionId) (r t : Racing) : Type 0 where
  pub router : t.server.router ≡ w.router
  pub sessions : t.server.sessions ≡ w.sessions
  pub limits : t.server.limits ≡ w.limits
  pub done : t.server.done ≡ w.done
  pub session : (j : SessionId) → t.server.session j ≡ w.session j
  pub idle : t.activity id ≡ resting
  pub others : (j : SessionId) → (id == j) ≡ false → t.activity j ≡ r.activity j
  pub stage : (j : SessionId) → t.stage j ≡ r.stage j

module _ (describe : HandleError → Bytes) (id : SessionId) where
  -- From a state on, the read loop can come to rest with the server as `w`.
  abbrev Ends : Server → Racing → Type 0
  Ends w r = (t : Racing) × Reach describe r t × IsAfter w id r t

  first_step : {r s t : Racing} → Step describe r s → Reach describe s t → Reach describe r t
  first_step st here = next here st
  first_step st (next q u) = next (first_step st q) u

  go_on :
      (a : Activity) (r : Racing) → r.activity id ≡ a → Step describe r (go_on_from describe a id r)
  go_on a r e = goes_on id a e refl

  before :
      (w : Server) {r s t : Racing}
      → ((j : SessionId) → (id == j) ≡ false → s.activity j ≡ r.activity j)
      → ((j : SessionId) → s.stage j ≡ r.stage j)
      → IsAfter w id s t
      → IsAfter w id r t
  before w acts stages a = record {
    router = a.router;
    sessions = a.sessions;
    limits = a.limits;
    done = a.done;
    session = a.session;
    idle = a.idle;
    others = λ j h. a.others j h ∙ acts j h;
    stage = λ j. a.stage j ∙ stages j;
  }

  -- After a first step that leads to `s`.
  Ends-after :
      (w : Server) (r s : Racing)
      → Step describe r s
      → ((j : SessionId) → (id == j) ≡ false → s.activity j ≡ r.activity j)
      → ((j : SessionId) → s.stage j ≡ r.stage j)
      → Ends w s
      → Ends w r
  Ends-after w r s st acts stages (t, q, a) = (t, first_step st q, before w acts stages a)

  Ends-sending :
      (encoded : Bytes) (ids : List SessionId) (r : Racing)
      → r.activity id ≡ sending encoded ids
      → Ends (record r.server { session = send_to_all encoded ids r.server.session }) r
  unfolding send_to_all
  Ends-sending encoded [] r e =
      (go_on_from describe (sending encoded []) id r, next here (go_on _ r e), ground arith)
  Ends-sending encoded (k ∷ ks) r e =
      let s = go_on_from describe (sending encoded (k ∷ ks)) id r in
      Ends-after _ r s (go_on _ r e) (λ j h. ground arith) (λ j. refl)
        (Ends-sending encoded ks s (ground arith))

  module _ (msg : Message) (r : Racing) (known : is_unborn (r.stage id) ≡ false)
      (rests : r.activity id ≡ resting) (fits : IsSendable msg) where
    begun : Step describe r (begin msg id r)
    begun = begins id msg known rests fits refl

    Ends-publish : msg.command ≡ cmd_pub → Ends (handle_publish msg r.server) r
    unfolding handle_publish begin
    Ends-publish e =
        let encoded = encode (new_message_cmd cmd_msg msg.subject msg.payload) in
        let ids = Router.find_subscribers msg.subject r.server.router in
        let s = move id (sending encoded ids) r in
        let same : s ≡ begin msg id r = ground (arith, e) in
        Ends-after _ r s (subst (Step describe r) (sym same) begun) (λ j h. ground arith)
          (λ j. refl) (Ends-sending encoded ids s (ground arith))

    Ends-subscribe : msg.command ≡ cmd_sub → Ends (handle_subscribe msg id r.server) r
    unfolding handle_subscribe begin
    Ends-subscribe e =
        let text = codes "subscribed to " ++ msg.subject in
        let f = r.server.session id in
        elim (Bool-cases (has_subject msg.subject f.subjects)) [
          | inl old ↦
              let s = move id (answering text) r in
              let same : begin msg id r ≡ s = ground (arith, e, old) in
              (
                go_on_from describe (answering text) id s,
                next (next here (subst (Step describe r) same begun))
                    (go_on (answering text) s (ground arith)),
                ground (arith, old),
              )
          | inr new ↦
              let s =
                replace id (record f { subjects = f.subjects ++ msg.subject ∷ [] }) id
                  (entering msg.subject) r in
              let same : begin msg id r ≡ s = ground (arith, e, new) in
              let u = go_on_from describe (entering msg.subject) id s in
              (
                go_on_from describe (answering text) id u,
                next
                    (next (next here (subst (Step describe r) same begun))
                      (go_on (entering msg.subject) s (ground arith)))
                    (go_on (answering text) u (ground arith)),
                ground (arith, new),
              )
        ]

    Ends-unsubscribe : msg.command ≡ cmd_unsub → Ends (handle_unsubscribe msg id r.server) r
    unfolding handle_unsubscribe begin
    Ends-unsubscribe e =
        let text = codes "unsubscribed from " ++ msg.subject in
        let f = r.server.session id in
        let s =
          replace id (record f { subjects = other_subjects msg.subject f.subjects }) id
            (leaving msg.subject) r in
        let same : begin msg id r ≡ s = ground (arith, e) in
        let u = go_on_from describe (leaving msg.subject) id s in
        (
          go_on_from describe (answering text) id u,
          next
              (next (next here (subst (Step describe r) same begun))
                (go_on (leaving msg.subject) s (ground arith)))
              (go_on (answering text) u (ground arith)),
          ground arith,
        )

    Ends-ping : msg.command ≡ cmd_ping → Ends (handle_and_report describe msg id r.server) r
    unfolding handle_and_report handle_message handle_ping begin
    Ends-ping e =
        let f = r.server.session id in
        elim (Option-cases (send_pong f).1) [
          | inl sent ↦
              let s = replace id (send_pong f).0 id resting r in
              let same : begin msg id r ≡ s = ground (arith, e, sent) in
              (s, next here (subst (Step describe r) same begun), ground (arith, e, sent))
          | inr (x, failed) ↦
              let s = replace id (send_pong f).0 id (reporting (send_failed x)) r in
              let same : begin msg id r ≡ s = ground (arith, e, failed) in
              (
                go_on_from describe (reporting (send_failed x)) id s,
                next (next here (subst (Step describe r) same begun))
                    (go_on (reporting (send_failed x)) s (ground arith)),
                ground (arith, e, failed),
              )
        ]

    Ends-other :
        (msg.command == cmd_sub) ≡ false
        → (msg.command == cmd_unsub) ≡ false
        → (msg.command == cmd_pub) ≡ false
        → (msg.command == cmd_ping) ≡ false
        → Ends (handle_and_report describe msg id r.server) r
    unfolding handle_and_report handle_message begin
    Ends-other e1 e2 e3 e4 =
        let s = move id (reporting (unknown_command msg.command)) r in
        let same : begin msg id r ≡ s = ground (arith, e1, e2, e3, e4) in
        (
          go_on_from describe (reporting (unknown_command msg.command)) id s,
          next (next here (subst (Step describe r) same begun))
              (go_on (reporting (unknown_command msg.command)) s (ground arith)),
          ground (arith, e1, e2, e3, e4),
        )

-- Every handler, in a session that rests, can run to its end with nothing between, whatever the message,
-- and then the server is as the undivided handler, with its report of an error, leaves it: the same router,
-- set of sessions, limits and every session. The read loop rests again, the others stand where they stood,
-- and no session is closed or accepted.
pub begin-handle_and_report :
    (describe : HandleError → Bytes) (id : SessionId) (msg : Message) (r : Racing)
    → is_unborn (r.stage id) ≡ false
    → r.activity id ≡ resting
    → IsSendable msg
    → (t : Racing) × Reach describe r t
      × IsAfter (handle_and_report describe msg id r.server) id r t
unfolding handle_and_report handle_message
begin-handle_and_report describe id msg r known rests fits =
    let whole = handle_and_report describe msg id r.server in
    elim (Bool-cases (msg.command == cmd_sub)) [
      | inl sub ↦
          let e : handle_subscribe msg id r.server ≡ whole = ground (arith, sub) in
          subst (λ w. Ends describe id w r) e
            (Ends-subscribe describe id msg r known rests fits (ground arith))
      | inr not_sub ↦ elim (Bool-cases (msg.command == cmd_unsub)) [
        | inl unsub ↦
            let e : handle_unsubscribe msg id r.server ≡ whole = ground (arith, not_sub, unsub) in
            subst (λ w. Ends describe id w r) e
              (Ends-unsubscribe describe id msg r known rests fits (ground arith))
        | inr not_unsub ↦ elim (Bool-cases (msg.command == cmd_pub)) [
          | inl is_pub ↦
              let e : handle_publish msg r.server ≡ whole =
                ground (arith, not_sub, not_unsub, is_pub) in
              subst (λ w. Ends describe id w r) e
                (Ends-publish describe id msg r known rests fits (ground arith))
          | inr not_pub ↦ elim (Bool-cases (msg.command == cmd_ping)) [
            | inl ping ↦ Ends-ping describe id msg r known rests fits (ground arith)
            | inr not_ping ↦
                Ends-other describe id msg r known rests fits not_sub not_unsub not_pub not_ping
          ]
        ]
      ]
    ]
