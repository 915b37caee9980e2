-- ===== src/Server/Replies.antt =====
-- server/session.go: what a message of one session puts into the queue of another.
use kcpq.Server.{
  Server, HandleError, unknown_command, send_failed, update, has_subject, other_subjects,
  handle_subscribe, handle_unsubscribe, handle_publish, handle_ping, handle_message,
  handle_and_report, accept, close_session, set_session_backpressure,
}
use kcpq.Server.Publish.{msg_frame, send_to_all_lem}
use kcpq.Router
use kcpq.Router.Delivery.{find_subscribers-Distinct}
use kcpq.Session.{Session, SendError, enqueue_encoded, send_ok, send_error, send_pong, send_encoded}
use kcpq.Session.Utf8.{truncate_utf8, length-truncate_utf8}
use kcpq.Subscriptions.{SessionId}
use kcpq.Protocol.{
  Message, new_message_cmd, encode, cmd_sub, cmd_unsub, cmd_pub, cmd_ping, cmd_msg, cmd_ok, cmd_err,
  cmd_pong, max_subject_len,
}
use kcpq.Protocol.RoundTrip.{IsSendable}
use kcpq.Prelude.{
  ℕ, ◌≡◌, ◌⊎◌, inl, inr, refl, subst, Bool, true, false, not, Option, none, some, List, [], ◌∷◌,
  ◌++◌, Bytes, codes, ◌==◌, if◌then◌else◌, arith, Bool-cases,
}

-- The queue is as it was, or has one frame more, of a message that is no MSG.
abbrev pub Grown : List Bytes → List Bytes → Type 0
Grown q q' =
    (q' ≡ q)
    ⊎ ((a : Message) × IsSendable a × ((a.command == cmd_msg) ≡ false) × (q' ≡ q ++ encode a ∷ []))

abbrev Replied : Session → Session → Type 0
Replied s s' = Grown s.out_chan s'.out_chan

enqueue_encoded_grows :
    (frame : Bytes) (s : Session)
    → ((enqueue_encoded frame s).0.out_chan ≡ s.out_chan)
      ⊎ ((enqueue_encoded frame s).0.out_chan ≡ s.out_chan ++ frame ∷ [])
unfolding enqueue_encoded
enqueue_encoded_grows frame s = ground arith

enqueue-Replied :
    (a : Message) (s : Session)
    → IsSendable a
    → (a.command == cmd_msg) ≡ false
    → Replied s (enqueue_encoded (encode a) s).0
enqueue-Replied a s fits other = elim (enqueue_encoded_grows (encode a) s) [
  | inl same ↦ inl same
  | inr more ↦ inr (a, fits, other, more)
]

unless-Replied :
    (closed : Bool) (s : Session) (e : Option SendError) (t : Session × Option SendError)
    → Replied s t.0
    → Replied s (if closed then (s, e) else t).0
unless-Replied true s e t h = inl refl
unless-Replied false s e t h = h

text-IsSendable :
    (command : ℕ) (text : Bytes)
    → IsSendable (new_message_cmd command (truncate_utf8 text max_subject_len) [])
text-IsSendable command text = omega (arith, length-truncate_utf8 text max_subject_len)

send_ok-Replied : (text : Bytes) (s : Session) → Replied s (send_ok text s).0
unfolding send_ok
send_ok-Replied text s =
    unless-Replied s.closed s _ _ (enqueue-Replied _ s (text-IsSendable cmd_ok text) refl)

send_error-Replied : (text : Bytes) (s : Session) → Replied s (send_error text s).0
unfolding send_error
send_error-Replied text s =
    unless-Replied s.closed s _ _ (enqueue-Replied _ s (text-IsSendable cmd_err text) refl)

send_pong-Replied : (s : Session) → Replied s (send_pong s).0
unfolding send_pong
send_pong-Replied s =
    unless-Replied s.closed s _ _
      (enqueue-Replied (new_message_cmd cmd_pong [] []) s (omega arith) refl)

-- A PONG that cannot be sent leaves the queue.
send_pong_fails :
    (s : Session) (e : SendError) → (send_pong s).1 ≡ some e → (send_pong s).0.out_chan ≡ s.out_chan
unfolding send_pong enqueue_encoded
send_pong_fails s e h = ground arith

update-Replied :
    (f : SessionId → Session) (id : SessionId) (s : Session)
    → Replied (f id) s
    → (to : SessionId) → Replied (f to) (update f id s to)
update-Replied f id s h to = elim (Bool-cases (id == to)) [
  | inl same ↦ rw same (subst (λ j. Replied (f j) s) (ground arith) h)
  | inr other ↦ rw other (inl refl)
]

twice-Replied :
    (f : SessionId → Session) (id to : SessionId) (s t : Session)
    → Replied (f id) t
    → Replied (f to) (update (update f id s) id t to)
twice-Replied f id to s t h = elim (Bool-cases (id == to)) [
  | inl at ↦ rw at (subst (λ j. Grown (f j).out_chan t.out_chan) (ground arith) h)
  | inr other ↦ rw other (inl refl)
]

handle_subscribe-Replied :
    (msg : Message) (id to : SessionId) (w : Server)
    → Replied (w.session to) ((handle_subscribe msg id w).session to)
unfolding handle_subscribe
handle_subscribe-Replied msg id to w =
    let s = w.session id in
    let s' : Session =
      if not (has_subject msg.subject s.subjects)
      then record s { subjects = s.subjects ++ msg.subject ∷ [] }
      else s in
    let text = codes "subscribed to " ++ msg.subject in
    let same : s'.out_chan ≡ s.out_chan = ground arith in
    update-Replied w.session id _
      (subst (λ q. Grown q (send_ok text s').0.out_chan) same (send_ok-Replied text s')) to

handle_unsubscribe-Replied :
    (msg : Message) (id to : SessionId) (w : Server)
    → Replied (w.session to) ((handle_unsubscribe msg id w).session to)
unfolding handle_unsubscribe
handle_unsubscribe-Replied msg id to w =
    update-Replied w.session id _
      (send_ok-Replied _
        (record (w.session id) { subjects = other_subjects msg.subject (w.session id).subjects }))
      to

-- The server after a PING, with the report of a PONG that could not be sent.
after_pong : (HandleError → Bytes) → SessionId → Server → Session → Option SendError → Server
after_pong describe id w s none = record w { session = update w.session id s }
after_pong describe id w s (some x) =
    let pinged = update w.session id s in
    let text = codes "handle error: " ++ describe (send_failed x) in
    record w { session = update pinged id (send_error text (pinged id)).0 }

after_pong-Replied :
    (describe : HandleError → Bytes) (id to : SessionId) (w : Server) (s : Session)
    (e : Option SendError)
    → Replied (w.session id) s
    → ((x : SendError) → e ≡ some x → s.out_chan ≡ (w.session id).out_chan)
    → Replied (w.session to) ((after_pong describe id w s e).session to)
unfolding after_pong
after_pong-Replied describe id to w s none h kept = update-Replied w.session id s h to
after_pong-Replied describe id to w s (some x) h kept =
    let pinged = update w.session id s id in
    let text = codes "handle error: " ++ describe (send_failed x) in
    let same : pinged.out_chan ≡ (w.session id).out_chan = ground (arith, kept x refl) in
    twice-Replied w.session id to s (send_error text pinged).0 (
      subst (λ q. Grown q (send_error text pinged).0.out_chan) same
        (send_error-Replied text pinged))

-- A message of another command puts at most one frame into a queue, and no MSG.
pub handle_and_report-Replied :
    (describe : HandleError → Bytes) (msg : Message) (id to : SessionId) (w : Server)
    → (msg.command == cmd_pub) ≡ false
    → Grown (w.session to).out_chan ((handle_and_report describe msg id w).session to).out_chan
unfolding handle_and_report handle_message handle_ping after_pong
handle_and_report-Replied describe msg id to w other = elim (Bool-cases (msg.command == cmd_sub)) [
  | inl sub ↦
      by (handle_subscribe msg id w) (ground (arith, sub)) (handle_subscribe-Replied msg id to w)
  | inr not_sub ↦ elim (Bool-cases (msg.command == cmd_unsub)) [
    | inl unsub ↦
        by (handle_unsubscribe msg id w) (ground (arith, not_sub, unsub))
          (handle_unsubscribe-Replied msg id to w)
    | inr not_unsub ↦ elim (Bool-cases (msg.command == cmd_ping)) [
      | inl ping ↦
          let pong = send_pong (w.session id) in
          by (after_pong describe id w pong.0 pong.1)
            (ground (arith, not_sub, not_unsub, other, ping))
            (after_pong-Replied describe id to w pong.0 pong.1 (send_pong-Replied (w.session id))
              (send_pong_fails (w.session id)))
      | inr unknown ↦
          let s =
            (send_error (codes "handle error: " ++ describe (unknown_command msg.command))
              (w.session id)).0 in
          by (record w { session = update w.session id s })
            (ground (arith, not_sub, not_unsub, other, unknown))
            (update-Replied w.session id s (send_error-Replied _ (w.session id)) to)
    ]
  ]
]
  where
    by :
        (u : Server)
        → u ≡ handle_and_report describe msg id w
        → Replied (w.session to) (u.session to)
        → Replied (w.session to) ((handle_and_report describe msg id w).session to)
    by u e h = subst (λ v. Replied (w.session to) (v.session to)) e h

send_encoded_grows :
    (frame : Bytes) (s : Session)
    → ((send_encoded frame s).0.out_chan ≡ s.out_chan)
      ⊎ ((send_encoded frame s).0.out_chan ≡ s.out_chan ++ frame ∷ [])
unfolding send_encoded
send_encoded_grows frame s = ground (arith, enqueue_encoded_grows frame s)

-- A PUB message puts at most its own frame into a queue.
pub handle_and_report_publishes :
    (describe : HandleError → Bytes) (msg : Message) (id to : SessionId) (w : Server)
    → (msg.command == cmd_pub) ≡ true
    → let q' = ((handle_and_report describe msg id w).session to).out_chan in
      (q' ≡ (w.session to).out_chan) ⊎ (q' ≡ (w.session to).out_chan ++ msg_frame msg ∷ [])
unfolding handle_and_report handle_message handle_publish
handle_and_report_publishes describe msg id to w is_pub = ground (
  arith,
  is_pub,
  send_to_all_lem (msg_frame msg) (Router.find_subscribers msg.subject w.router) w.session to
      (find_subscribers-Distinct w.router msg.subject),
  send_encoded_grows (msg_frame msg) (w.session to),
)

pub accept_queue :
    (j to : SessionId) (w : Server)
    → (j == to) ≡ false
    → ((accept j w).session to).out_chan ≡ (w.session to).out_chan
unfolding accept
accept_queue j to w other = ground arith

pub close_session_queue :
    (j to : SessionId) (w : Server)
    → ((close_session j w).session to).out_chan ≡ (w.session to).out_chan
unfolding close_session
close_session_queue j to w = ground arith

pub set_session_backpressure_queue :
    (max_queued_bytes out_chan_cap : ℕ) (to : SessionId) (w : Server)
    → ((set_session_backpressure max_queued_bytes out_chan_cap w).session to).out_chan
      ≡ (w.session to).out_chan
unfolding set_session_backpressure
set_session_backpressure_queue max_queued_bytes out_chan_cap to w = refl
