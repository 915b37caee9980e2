-- ===== src/Router/Relation.antt =====
-- server/router.go: the subscriptions as a relation between subjects and sessions, and what each
-- operation makes of it.
use kcpq.Router.{Router, subscribe, unsubscribe, without, remove_from, remove_session}
use kcpq.Subscriptions.{SessionId, SubMap, lookup, sessions_at, insert, contains}
use kcpq.Subscriptions.Laws.{
  sessions_at-insert, sessions_at-delete, eq-nil, lookup→sessions_at, sessions_at-none,
  contains-append, DistinctKeys,
}
use kcpq.Prelude.{
  ◌≡◌, ◌≢◌, inl, inr, refl, Bool, true, false, ◌&&◌, not, none, List, [], ◌∷◌, ◌++◌, Bytes, beq,
  beq_iff, ◌==◌, if◌then◌else◌, length, arith, Option-cases, All,
}

unfoldable pub is_subscribed : Router → Bytes → SessionId → Bool
is_subscribed r subject session = contains session (sessions_at subject r.subscriptions)

-- No session twice in a list.
abbrev pub Distinct : List SessionId → Type 0
Distinct [] = Unit
Distinct (s ∷ ss) = (contains s ss ≡ false) × Distinct ss

pub Distinct-snoc :
    (s : SessionId) (u : List SessionId)
    → Distinct u
    → contains s u ≡ false
    → Distinct (u ++ s ∷ [])
unfolding contains
Distinct-snoc s [] d h = (refl, tt)
Distinct-snoc s (t ∷ u) (h, d) e =
    (ground (arith, contains-append t u (s ∷ [])), Distinct-snoc s u d (ground arith))

-- An entry holds at least one session, and none twice.
abbrev pub GoodEntry : Bytes × List SessionId → Type 0
GoodEntry (k, v) = (v ≢ []) × Distinct v

pub record IsValid (r : Router) : Type 0 where
  pub keys : DistinctKeys r.subscriptions
  pub entries : All GoodEntry r.subscriptions

pub contains-without :
    (s t : SessionId) (ss : List SessionId)
    → contains t (without s ss) ≡ (not (s == t) && contains t ss)
unfolding contains without
contains-without s t [] = ground arith
contains-without s t (u ∷ ss) = ground (arith, contains-without s t ss)

contains_nil : (ss : List SessionId) (s : SessionId) → length ss ≡ 0 → contains s ss ≡ false
contains_nil [] s e = unfold contains in refl
contains_nil (x ∷ ss) s e = absurd (omega arith)

-- After `Subscribe` the session is subscribed to the subject, and nothing else has changed.
pub is_subscribed-subscribe :
    (r : Router) (subject j : Bytes) (session t : SessionId)
    → is_subscribed (subscribe subject session r) j t
      ≡ (if beq subject j && session == t then true else is_subscribed r j t)
unfolding is_subscribed subscribe contains
is_subscribed-subscribe r subject j session t = ground (
  arith,
  sessions_at-insert subject j (sessions_at subject r.subscriptions ++ session ∷ [])
      r.subscriptions,
  contains-append t (sessions_at subject r.subscriptions) (session ∷ []),
  beq_iff subject j,
)

sessions_at-unsubscribe :
    (r : Router) (subject j : Bytes) (session : SessionId)
    → sessions_at j (unsubscribe subject session r).subscriptions ≡ (
        if beq subject j
        then without session (sessions_at subject r.subscriptions)
        else sessions_at j r.subscriptions)
unfolding unsubscribe
sessions_at-unsubscribe r subject j session = elim (Option-cases (lookup subject r.subscriptions)) [
  | inl missing ↦
      unfold without in
      ground (arith, missing, sessions_at-none subject r.subscriptions missing, beq_iff subject j)
  | inr (v, found) ↦ ground (
    arith,
    found,
    lookup→sessions_at subject r.subscriptions v found,
    sessions_at-insert subject j (without session v) r.subscriptions,
    sessions_at-delete subject j (insert subject (without session v) r.subscriptions),
    eq-nil (without session v),
  )
]

-- After `Unsubscribe` the session is not subscribed to the subject, and nothing else has changed.
pub is_subscribed-unsubscribe :
    (r : Router) (subject j : Bytes) (session t : SessionId)
    → is_subscribed (unsubscribe subject session r) j t
      ≡ (if beq subject j && session == t then false else is_subscribed r j t)
unfolding is_subscribed
is_subscribed-unsubscribe r subject j session t = ground (
  arith,
  sessions_at-unsubscribe r subject j session,
  contains-without session t (sessions_at subject r.subscriptions),
  beq_iff subject j,
)

pub lookup-remove_from :
    (session : SessionId) (j : Bytes) (m : SubMap)
    → lookup j m ≡ none
    → lookup j (remove_from session m) ≡ none
unfolding remove_from lookup
lookup-remove_from session j [] e = refl
lookup-remove_from session j ((k, v) ∷ m) e = ground (arith, lookup-remove_from session j m)

sessions_at-remove_from :
    (session : SessionId) (j : Bytes) (m : SubMap)
    → DistinctKeys m
    → sessions_at j (remove_from session m) ≡ without session (sessions_at j m)
unfolding remove_from lookup sessions_at
sessions_at-remove_from session j [] h = unfold without in refl
sessions_at-remove_from session j ((k, v) ∷ m) (fresh, h) = ground (
  arith,
  sessions_at-remove_from session j m h,
  beq_iff k j,
  lookup-remove_from session k m fresh,
  eq-nil (without session v),
)

-- In a well-formed router, after `RemoveSession` the session is subscribed to nothing, and nothing has
-- changed for the others.
pub is_subscribed-remove_session :
    (r : Router) (j : Bytes) (session t : SessionId)
    → IsValid r
    → is_subscribed (remove_session session r) j t
      ≡ (if session == t then false else is_subscribed r j t)
unfolding is_subscribed remove_session
is_subscribed-remove_session r j session t v = ground (
  arith,
  sessions_at-remove_from session j r.subscriptions v.keys,
  contains-without session t (sessions_at j r.subscriptions),
)
