-- ===== src/Server/Races/Handling.antt =====
-- server/session.go: the actions of the handlers keep the invariant.
use kcpq.Server.Races.{
  Activity, resting, entering, leaving, answering, sending, reporting, is_unborn, Racing, move,
  replace, begin, enter, leave, go_on_from,
}
use kcpq.Server.{HandleError, unknown_command, send_failed, has_subject, other_subjects}
use kcpq.Server.Sync.{
  send_ok-Keeps, send_error-Keeps, send_pong-Keeps, send_encoded-Keeps, has_subject-append,
  has_subject-other_subjects,
}
use kcpq.Server.Queues.{send_ok-IsFit, send_error-IsFit, send_pong-IsFit, send_encoded-IsFit}
use kcpq.Router.Relation.{is_subscribed-subscribe, is_subscribed-unsubscribe}
use kcpq.Router.Validity.{subscribe-IsValid, unsubscribe-IsValid}
use kcpq.Subscriptions.{SessionId}
use kcpq.Session.{Session, send_ok, send_error, send_pong, send_encoded}
use kcpq.Session.Replies.{IsFrame}
use kcpq.Protocol.{Message, new_message_cmd, cmd_sub, cmd_unsub, cmd_pub, cmd_ping, cmd_msg}
use kcpq.Protocol.RoundTrip.{IsSendable}
use kcpq.Prelude.{
  ◌≡◌, ◌≢◌, inl, inr, refl, ap, subst, true, false, [], ◌∷◌, ◌++◌, Bytes, codes, beq_iff, beq_refl,
  ◌==◌, arith, Bool-cases, Option-cases,
}
use kcpq.Server.Races.Invariant.{
  is_busy_with, Fits, IsSound, move-Fits, move-IsSound, replace-IsSound, relist-IsSound,
}

pub begin-IsSound :
    (msg : Message) (id : SessionId) (r : Racing)
    → is_unborn (r.stage id) ≡ false
    → r.activity id ≡ resting
    → IsSendable msg
    → IsSound r
    → IsSound (begin msg id r)
unfolding begin
begin-IsSound msg id r born idle sendable v = elim (Bool-cases (msg.command == cmd_sub)) [
  | inl sub ↦ rw sub (elim (Bool-cases (has_subject msg.subject s.subjects)) [
    | inl old ↦ rw old (kept (answering (codes "subscribed to " ++ msg.subject)) tt)
    | inr new ↦ rw new (
        relist-IsSound msg.subject (s.subjects ++ msg.subject ∷ []) id (entering msg.subject) r
          (λ t ne. ground (arith, has_subject-append t msg.subject s.subjects)) (λ t. refl) born
          idle
          (ground
            (arith, has_subject-append msg.subject msg.subject s.subjects, beq_refl msg.subject))
          v)
  ])
  | inr not_sub ↦ rw not_sub (elim (Bool-cases (msg.command == cmd_unsub)) [
    | inl unsub ↦ rw unsub (
        relist-IsSound msg.subject (other_subjects msg.subject s.subjects) id (leaving msg.subject)
          r (λ t ne. ground (arith, has_subject-other_subjects t msg.subject s.subjects))
          (λ t. refl) born idle
          (ground (
            arith,
            has_subject-other_subjects msg.subject msg.subject s.subjects,
            beq_refl msg.subject,
          ))
          v)
    | inr not_unsub ↦ rw not_unsub (elim (Bool-cases (msg.command == cmd_pub)) [
      | inl pub_ ↦ rw pub_ (
          kept (sending _ _) (record {
            message = new_message_cmd cmd_msg msg.subject msg.payload;
            sendable = ground (arith, sendable);
            encoded = refl;
          }))
      | inr not_pub ↦ rw not_pub (elim (Bool-cases (msg.command == cmd_ping)) [
        | inl ping ↦ rw ping (elim (Option-cases (send_pong s).1) [
          | inl sent ↦ rw sent (ponged resting tt)
          | inr (e, failed) ↦ rw failed (ponged (reporting (send_failed e)) tt)
        ])
        | inr other ↦ rw other (kept (reporting (unknown_command msg.command)) tt)
      ])
    ])
  ])
]
  where
    s : Session
    s = r.server.session id

    calm :
        (a : Activity) (t : Bytes)
        → is_busy_with t a ≡ false
        → is_busy_with t (r.activity id) ≡ false
    calm a t h = rw idle

    kept : (a : Activity) → Fits s a → IsSound (move id a r)
    kept a f = move-IsSound id a r born (calm a) f v

    ponged : (a : Activity) → Fits s a → IsSound (replace id (send_pong s).0 id a r)
    ponged a f =
        replace-IsSound id id (send_pong s).0 a r (send_pong-Keeps s) (send_pong-IsFit s (v.fit id))
          born (calm a) f v

-- The router takes a subscription that the session lists.
enter-IsSound :
    (subject : Bytes) (id : SessionId) (r : Racing)
    → r.activity id ≡ entering subject
    → IsSound r
    → IsSound (enter subject id r)
enter-IsSound subject id r busy v = record {
  router = subscribe-IsValid subject id r.server.router v.router;
  agree = λ j t open_yet calm. ground (
    arith,
    v.agree j t,
    ap (is_busy_with t) busy,
    is_subscribed-subscribe r.server.router subject t id j,
    beq_iff subject t,
    relied,
  );
  gone = λ j t out on_time.
      ground (arith, v.gone j t, is_subscribed-subscribe r.server.router subject t id j);
  unused = λ j t h. ground (
    arith,
    v.unused j t,
    v.unused id t,
    busy,
    is_subscribed-subscribe r.server.router subject t id j,
  );
  flag = v.flag;
  listed = v.listed;
  fit = v.fit;
  fits = move-Fits r.server.session r.activity id (answering _) tt v.fits;
}
  where
    relied : has_subject subject (r.server.session id).subjects ≡ true
    relied = subst (Fits (r.server.session id)) busy (v.fits id)

-- The router drops a subscription that the session no longer lists.
leave-IsSound :
    (subject : Bytes) (id : SessionId) (r : Racing)
    → r.activity id ≡ leaving subject
    → IsSound r
    → IsSound (leave subject id r)
leave-IsSound subject id r busy v = record {
  router = unsubscribe-IsValid subject id r.server.router v.router;
  agree = λ j t open_yet calm. ground (
    arith,
    v.agree j t,
    ap (is_busy_with t) busy,
    is_subscribed-unsubscribe r.server.router subject t id j,
    beq_iff subject t,
    relied,
  );
  gone = λ j t out on_time.
      ground (arith, v.gone j t, is_subscribed-unsubscribe r.server.router subject t id j);
  unused = λ j t h. ground (
    arith,
    v.unused j t,
    v.unused id t,
    busy,
    is_subscribed-unsubscribe r.server.router subject t id j,
  );
  flag = v.flag;
  listed = v.listed;
  fit = v.fit;
  fits = move-Fits r.server.session r.activity id (answering _) tt v.fits;
}
  where
    relied : has_subject subject (r.server.session id).subjects ≡ false
    relied = subst (Fits (r.server.session id)) busy (v.fits id)

born :
    (id : SessionId) (r : Racing)
    → r.activity id ≢ resting
    → IsSound r
    → is_unborn (r.stage id) ≡ false
born id r acts v = elim (Bool-cases (is_unborn (r.stage id))) [
  | inl h ↦ absurd (acts (v.unused id [] h).0)
  | inr h ↦ h
]

pub go_on-IsSound :
    (describe : HandleError → Bytes) (a : Activity) (id : SessionId) (r : Racing)
    → r.activity id ≡ a
    → IsSound r
    → IsSound (go_on_from describe a id r)
go_on-IsSound describe resting id r e v = v
go_on-IsSound describe (entering subject) id r e v = enter-IsSound subject id r e v
go_on-IsSound describe (leaving subject) id r e v = leave-IsSound subject id r e v
go_on-IsSound describe (answering text) id r e v =
    replace-IsSound id id (send_ok text (r.server.session id)).0 resting r
      (send_ok-Keeps text (r.server.session id))
      (send_ok-IsFit text (r.server.session id) (v.fit id)) (born id r (λ h. cc (e, h)) v)
      (λ t h. rw e) tt v
go_on-IsSound describe (sending encoded []) id r e v =
    move-IsSound id resting r (born id r (λ h. cc (e, h)) v) (λ t h. rw e) tt v
go_on-IsSound describe (sending encoded (k ∷ ks)) id r e v =
    let whole : IsFrame encoded = subst (Fits (r.server.session id)) e (v.fits id) in
    replace-IsSound k id (send_encoded encoded (r.server.session k)).0 (sending encoded ks) r
      (send_encoded-Keeps encoded (r.server.session k))
      (send_encoded-IsFit encoded (r.server.session k) whole (v.fit k))
      (born id r (λ h. cc (e, h)) v) (λ t h. rw e) whole v
go_on-IsSound describe (reporting x) id r e v =
    let text = codes "handle error: " ++ describe x in
    replace-IsSound id id (send_error text (r.server.session id)).0 resting r
      (send_error-Keeps text (r.server.session id))
      (send_error-IsFit text (r.server.session id) (v.fit id)) (born id r (λ h. cc (e, h)) v)
      (λ t h. rw e) tt v
