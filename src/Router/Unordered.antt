-- ===== src/Router/Unordered.antt =====
-- server/router.go: the router with the order of the map and of its sets forgotten, as the quotient of the
-- well-formed routers by the relation "who is subscribed to what".
use mathlib.Core.Quot
use mathlib.Core.Quot.{Quot, Quot-set}
use mathlib.Core.Bool.{Bool-set}
use kcpq.Router.{Router, find_subscribers}
use kcpq.Router.Relation.{
  IsValid, is_subscribed, is_subscribed-subscribe, is_subscribed-unsubscribe,
  is_subscribed-remove_session,
}
use kcpq.Router.Validity.{subscribe-IsValid, unsubscribe-IsValid, remove_session-IsValid}
use kcpq.Router.Refinement.{Call, subscribes, unsubscribes, removes, perform}
use kcpq.Router.Delivery.{find_subscribers_iff}
use kcpq.Subscriptions.{SessionId, contains}
use kcpq.Prelude.{
  ◌≡◌, refl, sym, ◌∙◌, Bool, true, false, ◌&&◌, Bytes, beq, beq_iff, ◌==◌, if◌then◌else◌, arith,
}

abbrev pub GoodRouter : Type 0
GoodRouter = (r : Router) × IsValid r

abbrev pub SameHolders : GoodRouter → GoodRouter → Type 0
SameHolders a b = (p : Bytes) (s : SessionId) → is_subscribed a.0 p s ≡ is_subscribed b.0 p s

abbrev pub Unordered : Type 0
Unordered = Quot SameHolders

recipients_respect :
    (subject : Bytes) (id : SessionId) (a b : GoodRouter)
    → SameHolders a b
    → contains id (find_subscribers subject a.0) ≡ true
    → contains id (find_subscribers subject b.0) ≡ true
recipients_respect subject id (r, v) (s, w) same found =
    let (p, held, admits) = (find_subscribers_iff r subject id v).0 found in
    (find_subscribers_iff s subject id w).1 (p, sym (same p id) ∙ held, admits)

-- Whether a session gets what is published on a subject.
pub gets : Bytes → SessionId → Unordered → Bool
gets subject id =
    Quot.lift Bool-set (λ a. contains id (find_subscribers subject a.0))
      (λ a b same. ground (
        arith,
        recipients_respect subject id a b same,
        recipients_respect subject id b a (λ p s. sym (same p s)),
      ))

pub gets-mk :
    (subject : Bytes) (id : SessionId) (a : GoodRouter)
    → gets subject id (Quot.mk a) ≡ contains id (find_subscribers subject a.0)
unfolding gets
gets-mk subject id a = refl

perform-IsValid : (c : Call) (r : Router) → IsValid r → IsValid (perform c r)
perform-IsValid (subscribes p s) r v = subscribe-IsValid p s r v
perform-IsValid (unsubscribes p s) r v = unsubscribe-IsValid p s r v
perform-IsValid (removes s) r v = remove_session-IsValid s r v

-- What a call makes of the answer for a pair.
abbrev after : Call → Bytes → SessionId → Bool → Bool
after (subscribes p s) q t b = if beq p q && s == t then true else b
after (unsubscribes p s) q t b = if beq p q && s == t then false else b
after (removes s) q t b = if s == t then false else b

is_subscribed-perform :
    (c : Call) (r : Router) (q : Bytes) (t : SessionId)
    → IsValid r
    → is_subscribed (perform c r) q t ≡ after c q t (is_subscribed r q t)
is_subscribed-perform (subscribes p s) r q t v = is_subscribed-subscribe r p q s t
is_subscribed-perform (unsubscribes p s) r q t v = is_subscribed-unsubscribe r p q s t
is_subscribed-perform (removes s) r q t v = is_subscribed-remove_session r q s t v

-- A call of a router of which the order is forgotten.
pub perform_unordered : Call → Unordered → Unordered
perform_unordered c =
    Quot.lift Quot-set (λ a. Quot.mk (perform c a.0, perform-IsValid c a.0 a.1))
      (λ a b same. Quot.sound (λ p s. ground (
        arith,
        same p s,
        is_subscribed-perform c a.0 p s a.1,
        is_subscribed-perform c b.0 p s b.1,
      )))

-- One call subscribes a session to the subject that the other ends its subscription to.
abbrev pub clash : Call → Call → Bool
clash (subscribes p s) (subscribes q t) = false
clash (subscribes p s) (unsubscribes q t) = beq p q && s == t
clash (subscribes p s) (removes t) = s == t
clash (unsubscribes p s) (subscribes q t) = beq p q && s == t
clash (unsubscribes p s) (unsubscribes q t) = false
clash (unsubscribes p s) (removes t) = false
clash (removes s) (subscribes q t) = s == t
clash (removes s) (unsubscribes q t) = false
clash (removes s) (removes t) = false

after_comm :
    (c d : Call)
    → clash c d ≡ false
    → (q : Bytes) (t : SessionId) (b : Bool)
    → after c q t (after d q t b) ≡ after d q t (after c q t b)
after_comm (subscribes p s) (subscribes p' s') e q t b = ground arith
after_comm (subscribes p s) (unsubscribes p' s') e q t b =
    ground (arith, beq_iff p q, beq_iff p' q, beq_iff p p')
after_comm (subscribes p s) (removes s') e q t b = ground arith
after_comm (unsubscribes p s) (subscribes p' s') e q t b =
    ground (arith, beq_iff p q, beq_iff p' q, beq_iff p p')
after_comm (unsubscribes p s) (unsubscribes p' s') e q t b = ground arith
after_comm (unsubscribes p s) (removes s') e q t b = ground arith
after_comm (removes s) (subscribes p' s') e q t b = ground arith
after_comm (removes s) (unsubscribes p' s') e q t b = ground arith
after_comm (removes s) (removes s') e q t b = ground arith

-- Two calls commute on a router of which the order is forgotten, unless one of them subscribes a
-- session to a subject and the other ends that subscription.
pub perform_unordered_comm :
    (c d : Call)
    → clash c d ≡ false
    → (u : Unordered)
    → perform_unordered c (perform_unordered d u) ≡ perform_unordered d (perform_unordered c u)
unfolding perform_unordered
perform_unordered_comm c d apart =
    Quot.ind (λ u. Quot-set {r = SameHolders} _ _) (λ a. Quot.sound (same a.0 a.1))
  where
    same :
        (r : Router)
        → IsValid r
        → (p : Bytes) (s : SessionId)
        → is_subscribed (perform c (perform d r)) p s ≡ is_subscribed (perform d (perform c r)) p s
    same r v p s = ground (
      arith,
      after_comm c d apart p s (is_subscribed r p s),
      is_subscribed-perform c (perform d r) p s (perform-IsValid d r v),
      is_subscribed-perform d (perform c r) p s (perform-IsValid c r v),
      is_subscribed-perform c r p s v,
      is_subscribed-perform d r p s v,
    )
