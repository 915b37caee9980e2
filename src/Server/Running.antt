-- ===== src/Server/Running.antt =====
-- server/server.go and server/session.go: the whole server, one action at a time, in any order: a
-- connection is accepted, an open session handles a message that it has read, writes a frame, or is
-- closed, and the limits of later sessions are set.
use kcpq.Server.{
  Server, HandleError, update, has_subject, handle_subscribe, handle_unsubscribe, handle_publish,
  handle_ping, handle_message, handle_and_report, close_session, accept, fresh_server, new_server,
  set_session_backpressure,
}
use kcpq.Server.Sync.{IsSynced, handle_message-IsSynced, close_session-IsSynced, send_error-Keeps}
use kcpq.Server.Queues.{
  IsFit, new_session-IsFit, no_server-IsFit, update-IsFit, send_error-IsFit, write_next-IsFit,
  handle_message-IsFit,
}
use kcpq.Server.Flags.{closed-handle_message}
use kcpq.Server.Lifecycle.{close_session_lem}
use kcpq.Router
use kcpq.Router.Validity.{new_router-IsValid}
use kcpq.Crypto.{new_aes256_block_crypt}
use kcpq.Router.Relation.{is_subscribed, is_subscribed-subscribe, is_subscribed-unsubscribe}
use kcpq.Subscriptions.{SessionId, sessions_at, lookup, contains}
use kcpq.Session.{Session, new_session, send_error, write_next}
use kcpq.Protocol.{Message}
use kcpq.Protocol.RoundTrip.{IsSendable}
use kcpq.Prelude.{
  ℕ, ◌≡◌, inl, inr, refl, sym, subst, ◌∙◌, Bool, true, false, some, [], ◌++◌, Bytes, codes, ◌==◌,
  arith, Bool-cases, Option-cases,
}

module _ (describe : HandleError → Bytes) where
  pub data Step (s t : Server) : Type 0 where
    accepts :
        (id : SessionId)
        → ((subject : Bytes) → is_subscribed s.router subject id ≡ false)
        → t ≡ accept id s
        → Step s t
    handles :
        (id : SessionId) (msg : Message)
        → (s.session id).closed ≡ false
        → IsSendable msg
        → t ≡ handle_and_report describe msg id s
        → Step s t
    writes :
        (id : SessionId)
        → t ≡ record s { session = update s.session id (write_next (s.session id)).0 }
        → Step s t
    closes : (id : SessionId) → t ≡ close_session id s → Step s t
    limits :
        (max_queued_bytes out_chan_cap : ℕ)
        → t ≡ set_session_backpressure max_queued_bytes out_chan_cap s
        → Step s t

  pub data Reach (s : Server) : Server → Type 0 where
    here : Reach s s
    next : {t u : Server} → Reach s t → Step t u → Reach s u

-- The router agrees with the open sessions and holds no closed one, and every queue is fit.
pub record IsSound (w : Server) : Type 0 where
  pub synced : IsSynced w
  pub gone :
      (id : SessionId) (t : Bytes)
      → (w.session id).closed ≡ true
      → is_subscribed w.router t id ≡ false
  pub fit : (id : SessionId) → IsFit (w.session id)

handle_message-other :
    (msg : Message) (id j : SessionId) (t : Bytes) (w : Server)
    → (id == j) ≡ false
    → is_subscribed (handle_message msg id w).0.router t j ≡ is_subscribed w.router t j
unfolding handle_message handle_subscribe handle_unsubscribe handle_publish handle_ping
handle_message-other msg id j t w other = ground (
  arith,
  is_subscribed-subscribe w.router msg.subject t id j,
  is_subscribed-unsubscribe w.router msg.subject t id j,
)

handle_message-IsSound :
    (msg : Message) (id : SessionId) (w : Server)
    → (w.session id).closed ≡ false
    → IsSendable msg
    → IsSound w
    → IsSound (handle_message msg id w).0
handle_message-IsSound msg id w is_open h v = record {
  synced = handle_message-IsSynced msg id w is_open v.synced;
  gone = λ j t closed. elim (Bool-cases (id == j)) [
    | inl same ↦ ground (arith, closed-handle_message msg id j w)
    | inr other ↦
        handle_message-other msg id j t w other
        ∙ v.gone j t (sym (closed-handle_message msg id j w) ∙ closed)
  ];
  fit = handle_message-IsFit msg id w h v.fit;
}

-- A session is replaced by one with the same subjects and flag.
replaced-IsSound :
    (id : SessionId) (s : Session) (w : Server)
    → s.subjects ≡ (w.session id).subjects
    → s.closed ≡ (w.session id).closed
    → IsFit s
    → IsSound w
    → IsSound (record w { session = update w.session id s })
replaced-IsSound id s w same_subjects same_flag f v = record {
  synced = record { router = v.synced.router; agree = λ j t h. ground (arith, v.synced.agree j t) };
  gone = λ j t closed. ground (arith, v.gone j t);
  fit = update-IsFit w.session id s f v.fit;
}

handle_and_report-IsSound :
    (describe : HandleError → Bytes) (msg : Message) (id : SessionId) (w : Server)
    → (w.session id).closed ≡ false
    → IsSendable msg
    → IsSound w
    → IsSound (handle_and_report describe msg id w)
unfolding handle_and_report
handle_and_report-IsSound describe msg id w is_open h v =
    elim (Option-cases (handle_message msg id w).1) [
      | inl fine ↦ rw (fine, handle_and_report) handled
      | inr (e, failed) ↦
          rw (failed, handle_and_report)
            (replaced-IsSound id (send_error (codes "handle error: " ++ describe e) s).0
              (handle_message msg id w).0
              (send_error-Keeps (codes "handle error: " ++ describe e) s).0
              (send_error-Keeps (codes "handle error: " ++ describe e) s).1
              (send_error-IsFit (codes "handle error: " ++ describe e) s (handled.fit id)) handled)
    ]
  where
    s : Session
    s = (handle_message msg id w).0.session id

    handled : IsSound (handle_message msg id w).0
    handled = handle_message-IsSound msg id w is_open h v

close_session-IsSound : (id : SessionId) (w : Server) → IsSound w → IsSound (close_session id w)
close_session-IsSound id w v = elim (Bool-cases (w.session id).closed) [
  | inl old ↦ unfold close_session in rw old v
  | inr is_open ↦ record {
    synced = close_session-IsSynced id w v.synced;
    gone = λ j t closed.
        let (out, set) = close_session_lem id j t w v.synced is_open in
        ground (arith, out, set, v.gone j t);
    fit = λ j.
        let (out, set) = close_session_lem id j [] w v.synced is_open in
        rw set (elim (Bool-cases (id == j)) [
          | inl same ↦ rw same (shut j)
          | inr other ↦ rw other (v.fit j)
        ]);
  }
]
  where
    shut : (j : SessionId) → IsFit (record (w.session j) { closed = true })
    shut j = let f = v.fit j in record { bounded = ground (arith, f.bounded); frames = f.frames }

accept-IsSound :
    (id : SessionId) (w : Server)
    → ((subject : Bytes) → is_subscribed w.router subject id ≡ false)
    → IsSound w
    → IsSound (accept id w)
unfolding accept new_session has_subject
accept-IsSound id w unused v = record {
  synced = record {
    router = v.synced.router;
    agree = λ j t h. ground (arith, v.synced.agree j t, unused t);
  };
  gone = λ j t closed. ground (arith, v.gone j t);
  fit = update-IsFit w.session id (new_session (some w.limits)) (new_session-IsFit w.limits) v.fit;
}

fresh_server-IsSound : IsSound fresh_server
unfolding new_session has_subject is_subscribed Router.new_router sessions_at lookup contains
fresh_server-IsSound = record {
  synced = record { router = new_router-IsValid; agree = λ id t h. refl };
  gone = λ id t h. refl;
  fit = λ id. no_server-IsFit;
}

module _ (describe : HandleError → Bytes) where
  Step-IsSound : {s t : Server} → Step describe s t → IsSound s → IsSound t
  unfolding write_next set_session_backpressure
  Step-IsSound {s} (accepts id unused e) v = rw e (accept-IsSound id s unused v)
  Step-IsSound {s} (handles id msg is_open h e) v =
      rw e (handle_and_report-IsSound describe msg id s is_open h v)
  Step-IsSound {s} (writes id e) v = rw e (
      replaced-IsSound id (write_next (s.session id)).0 s (ground arith) (ground arith)
        (write_next-IsFit (s.session id) (v.fit id)) v)
  Step-IsSound {s} (closes id e) v = rw e (close_session-IsSound id s v)
  Step-IsSound {s} (limits a b e) v = rw e (record {
    synced = record { router = v.synced.router; agree = v.synced.agree };
    gone = v.gone;
    fit = v.fit;
  })

  Reach-IsSound : {s t : Server} → IsSound s → Reach describe s t → IsSound t
  Reach-IsSound v here = v
  Reach-IsSound v (next r st) = Step-IsSound st (Reach-IsSound v r)

  -- Whatever a server that `NewServer` returned has done, with its actions in any order, each handler
  -- being one action of a session that is open: the router knows of every open session exactly the
  -- subjects that the session lists, and nothing of a closed one; it stays well formed; and every
  -- session's queue is counted right, within both its limits, and holds only whole messages within the
  -- limits of the protocol.
  pub new_server-IsSound :
      (key : Bytes) (key_refused : Bool) (s t : Server)
      → new_server key key_refused ≡ inl s
      → Reach describe s t
      → IsSound t
  unfolding new_server new_aes256_block_crypt
  new_server-IsSound key key_refused s t e r =
      let same : fresh_server ≡ s = ground arith in
      Reach-IsSound (subst IsSound same fresh_server-IsSound) r
