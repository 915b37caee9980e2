-- ===== src/Router/Delivery.antt =====
-- `FindSubscribers` of server/router.go: who receives a message.
use kcpq.Router.{Router, match, add_unique, add_all, collect, find_subscribers}
use kcpq.Router.Relation.{Distinct, Distinct-snoc, IsValid, is_subscribed}
use kcpq.Router.Matching.{Admits, match_iff}
use kcpq.Subscriptions.{SessionId, SubMap, lookup, sessions_at, contains}
use kcpq.Subscriptions.Laws.{contains-append, sessions_at-none, DistinctKeys}
use mathlib.Core.Bool.{false≢true}
use kcpq.Prelude.{
  ◌≡◌, ◌↔◌, inl, inr, refl, sym, ap, subst, ◌∙◌, Bool, true, false, ◌||◌, ◌&&◌, none, List, [], ◌∷◌,
  Bytes, beq, beq_refl, beq_iff, ◌==◌, arith, Bool-cases,
}

contains-add_unique :
    (s t : SessionId) (u : List SessionId) → contains t (add_unique s u) ≡ (s == t || contains t u)
unfolding add_unique contains
contains-add_unique s t u = ground (arith, contains-append t u (s ∷ []))

contains-add_all :
    (ss u : List SessionId) (t : SessionId)
    → contains t (add_all ss u) ≡ (contains t ss || contains t u)
unfolding add_all contains
contains-add_all [] u t = refl
contains-add_all (s ∷ ss) u t =
    ground (arith, contains-add_all ss (add_unique s u) t, contains-add_unique s t u)

-- Some entry whose pattern matches holds the session.
reaches : Bytes → SessionId → SubMap → Bool
reaches subject s [] = false
reaches subject s ((p, ss) ∷ m) = (match p subject && contains s ss) || reaches subject s m

contains-collect :
    (subject : Bytes) (t : SessionId) (m : SubMap) (u : List SessionId)
    → contains t (collect subject m u) ≡ (contains t u || reaches subject t m)
unfolding collect reaches
contains-collect subject t [] u = ground arith
contains-collect subject t ((p, ss) ∷ m) u = ground (
  arith,
  contains-collect subject t m (add_all ss u),
  contains-collect subject t m u,
  contains-add_all ss u t,
)

reaches_sound :
    (subject : Bytes) (s : SessionId) (m : SubMap)
    → DistinctKeys m
    → reaches subject s m ≡ true
    → (p : Bytes) × (contains s (sessions_at p m) ≡ true) × (match p subject ≡ true)
unfolding reaches sessions_at lookup contains
reaches_sound subject s [] h e = absurd (cc e)
reaches_sound subject s ((p, ss) ∷ m) (fresh, h) e =
    elim (Bool-cases (match p subject && contains s ss)) [
      | inl here ↦ (p, ground (arith, beq_refl p), ground arith)
      | inr below ↦
          let (q, held, matched) = reaches_sound subject s m h (ground arith) in
          (q, ground (arith, other q held), matched)
    ]
  where
    other : (q : Bytes) → contains s (sessions_at q m) ≡ true → beq p q ≡ false
    other q held = elim (Bool-cases (beq p q)) [
      | inr ne ↦ ne
      | inl same ↦
          let gone : lookup q m ≡ none =
            subst (λ k. lookup k m ≡ none) ((beq_iff p q).0 same) fresh in
          absurd (false≢true (sym (ap (contains s) (sessions_at-none q m gone)) ∙ held))
    ]

reaches_complete :
    (subject p : Bytes) (s : SessionId) (m : SubMap)
    → contains s (sessions_at p m) ≡ true
    → match p subject ≡ true
    → reaches subject s m ≡ true
unfolding reaches sessions_at lookup contains
reaches_complete subject p s [] held matched = absurd (cc held)
reaches_complete subject p s ((q, ss) ∷ m) held matched =
    ground (arith, beq_iff q p, reaches_complete subject p s m)

-- In a well-formed router, a message to a subject goes to a session exactly when the session is
-- subscribed to some pattern that admits the subject.
pub find_subscribers_iff :
    (r : Router) (subject : Bytes) (s : SessionId)
    → IsValid r
    → (contains s (find_subscribers subject r) ≡ true)
      ↔ ((p : Bytes) × (is_subscribed r p s ≡ true) × Admits p subject)
unfolding find_subscribers is_subscribed
find_subscribers_iff r subject s v = (
  λ e.
      let (p, held, matched) =
        reaches_sound subject s r.subscriptions v.keys
          (unfold contains in (sym (contains-collect subject s r.subscriptions []) ∙ e)) in
      (p, held, (match_iff p subject).0 matched),
  λ w.
      unfold contains in
      (contains-collect subject s r.subscriptions []
        ∙ reaches_complete subject w.0 s r.subscriptions w.1 ((match_iff w.0 subject).1 w.2)),
)

Distinct-add_all : (ss u : List SessionId) → Distinct u → Distinct (add_all ss u)
unfolding add_all
Distinct-add_all [] u d = d
Distinct-add_all (s ∷ ss) u d = Distinct-add_all ss (add_unique s u) one
  where
    one : Distinct (add_unique s u)
    one = unfold add_unique in ground (arith, Distinct-snoc s u d)

Distinct-collect :
    (subject : Bytes) (m : SubMap) (u : List SessionId)
    → Distinct u
    → Distinct (collect subject m u)
unfolding collect
Distinct-collect subject [] u d = d
Distinct-collect subject ((p, ss) ∷ m) u d =
    Distinct-collect subject m _ (ground (arith, Distinct-add_all ss u d))

-- However many patterns of a session admit the subject, and whatever the map holds, the session stands
-- in the result of `FindSubscribers` once.
pub find_subscribers-Distinct :
    (r : Router) (subject : Bytes) → Distinct (find_subscribers subject r)
unfolding find_subscribers
find_subscribers-Distinct r subject = Distinct-collect subject r.subscriptions [] tt
