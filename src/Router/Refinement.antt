-- ===== src/Router/Refinement.antt =====
-- server/router.go: any sequence of calls, against a specification that keeps no map: who is subscribed to
-- what is decided by the last call that concerns the pair.
use kcpq.Router.{Router, new_router, subscribe, unsubscribe, remove_session, find_subscribers}
use kcpq.Router.Relation.{
  IsValid, is_subscribed, Distinct, is_subscribed-subscribe, is_subscribed-unsubscribe,
  is_subscribed-remove_session,
}
use kcpq.Router.Validity.{new_router-IsValid, methods-IsValid}
use kcpq.Router.Matching.{Admits}
use kcpq.Router.Delivery.{find_subscribers_iff, find_subscribers-Distinct}
use kcpq.Subscriptions.{SessionId, sessions_at, lookup, contains}
use kcpq.Prelude.{
  ◌≡◌, ◌↔◌, refl, sym, ap, ◌∙◌, Bool, true, false, ◌&&◌, List, [], ◌∷◌, Bytes, beq, ◌==◌,
  if◌then◌else◌,
}

pub data Call : Type 0 where
  subscribes unsubscribes : Bytes → SessionId → Call
  removes : SessionId → Call

abbrev pub perform : Call → Router → Router
perform (subscribes subject session) r = subscribe subject session r
perform (unsubscribes subject session) r = unsubscribe subject session r
perform (removes session) r = remove_session session r

-- The last call stands first.
pub perform_all : List Call → Router
perform_all [] = new_router
perform_all (call ∷ calls) = perform call (perform_all calls)

-- The specification: whether a session is subscribed to a subject after the calls.
pub subscribed_after : List Call → Bytes → SessionId → Bool
subscribed_after [] j t = false
subscribed_after (subscribes subject session ∷ calls) j t =
    if beq subject j && session == t then true else subscribed_after calls j t
subscribed_after (unsubscribes subject session ∷ calls) j t =
    if beq subject j && session == t then false else subscribed_after calls j t
subscribed_after (removes session ∷ calls) j t =
    if session == t then false else subscribed_after calls j t

perform_all-IsValid : (calls : List Call) → IsValid (perform_all calls)
unfolding perform_all
perform_all-IsValid [] = new_router-IsValid
perform_all-IsValid (subscribes subject session ∷ calls) =
    (methods-IsValid subject session (perform_all calls) (perform_all-IsValid calls)).0
perform_all-IsValid (unsubscribes subject session ∷ calls) =
    (methods-IsValid subject session (perform_all calls) (perform_all-IsValid calls)).1
perform_all-IsValid (removes session ∷ calls) =
    (methods-IsValid [] session (perform_all calls) (perform_all-IsValid calls)).2

is_subscribed-perform_all :
    (calls : List Call) (j : Bytes) (t : SessionId)
    → is_subscribed (perform_all calls) j t ≡ subscribed_after calls j t
unfolding perform_all subscribed_after
is_subscribed-perform_all [] j t =
    unfold is_subscribed new_router sessions_at lookup contains in refl
is_subscribed-perform_all (subscribes subject session ∷ calls) j t =
    is_subscribed-subscribe (perform_all calls) subject j session t
    ∙ ap (λ b. if beq subject j && session == t then true else b)
        (is_subscribed-perform_all calls j t)
is_subscribed-perform_all (unsubscribes subject session ∷ calls) j t =
    is_subscribed-unsubscribe (perform_all calls) subject j session t
    ∙ ap (λ b. if beq subject j && session == t then false else b)
        (is_subscribed-perform_all calls j t)
is_subscribed-perform_all (removes session ∷ calls) j t =
    is_subscribed-remove_session (perform_all calls) j session t (perform_all-IsValid calls)
    ∙ ap (λ b. if session == t then false else b) (is_subscribed-perform_all calls j t)

-- After any calls on a new router: the router is well formed; a session is subscribed to a subject
-- exactly where the specification says so, that is, where the last call that concerns the two is a
-- `Subscribe`; and `FindSubscribers` returns, each once, exactly the sessions that are subscribed to
-- some pattern that admits the subject.
pub perform_all_refines :
    (calls : List Call) (subject : Bytes) (t : SessionId)
    → let r = perform_all calls in
      IsValid r
      × ((j : Bytes) → is_subscribed r j t ≡ subscribed_after calls j t)
      × Distinct (find_subscribers subject r)
      × ((contains t (find_subscribers subject r) ≡ true)
          ↔ ((p : Bytes) × (subscribed_after calls p t ≡ true) × Admits p subject))
perform_all_refines calls subject t = (
  perform_all-IsValid calls,
  λ j. is_subscribed-perform_all calls j t,
  find_subscribers-Distinct (perform_all calls) subject,
  (
    λ h.
        let (p, held, admits) = found.0 h in
        (p, sym (is_subscribed-perform_all calls p t) ∙ held, admits),
    λ h.
        let (p, held, admits) = h in
        found.1 (p, is_subscribed-perform_all calls p t ∙ held, admits),
  ),
)
  where
    found :
        (contains t (find_subscribers subject (perform_all calls)) ≡ true)
        ↔ ((p : Bytes) × (is_subscribed (perform_all calls) p t ≡ true) × Admits p subject)
    found = find_subscribers_iff (perform_all calls) subject t (perform_all-IsValid calls)
