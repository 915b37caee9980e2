-- ===== src/Optimized/Counts.antt =====
-- server/router_optimized.go: its lists may hold a session more than once, so the subscriptions are
-- counted: how often a session stands at a subject, and what each operation makes of that number.
use kcpq.Optimized.{
  OptimizedRouter, subscribe, remove_first, unsubscribe_in, unsubscribe, remove_from,
  remove_session, is_wildcard_pattern,
}
use kcpq.Subscriptions.{SessionId, SubMap, lookup, sessions_at, insert, contains}
use kcpq.Subscriptions.Laws.{sessions_at-insert, sessions_at-delete, eq-nil, DistinctKeys}
use kcpq.Prelude.{
  ℕ, ◌+◌, ◌-◌, ◌<◌, ◌≡◌, refl, false, ◌&&◌, none, List, [], ◌∷◌, ◌++◌, Bytes, beq, beq_iff, ◌==◌,
  if◌then◌else◌, arith,
}

unfoldable pub count : SessionId → List SessionId → ℕ
count s [] = 0
count s (t ∷ ts) = (if t == s then 1 else 0) + count s ts

-- The map that `subject` is kept in.
abbrev pub target : OptimizedRouter → Bytes → SubMap
target r subject = if is_wildcard_pattern subject then r.wildcard_patterns else r.exact_matches

-- How often the session stands at the subject.
unfoldable pub held : OptimizedRouter → Bytes → SessionId → ℕ
held r subject s = count s (sessions_at subject (target r subject))

-- Both maps are Go maps.
pub record IsMap (r : OptimizedRouter) : Type 0 where
  pub exact : DistinctKeys r.exact_matches
  pub wild : DistinctKeys r.wildcard_patterns

count-snoc :
    (s t : SessionId) (ss : List SessionId)
    → count t (ss ++ s ∷ []) ≡ count t ss + (if s == t then 1 else 0)
unfolding count
count-snoc s t [] = omega arith
count-snoc s t (u ∷ ss) = omega (arith, count-snoc s t ss)

count-remove_first :
    (s t : SessionId) (ss : List SessionId)
    → count t (remove_first s ss) ≡ count t ss - (if s == t then 1 else 0)
unfolding count remove_first
count-remove_first s t [] = ground arith
count-remove_first s t (u ∷ ss) = ground (arith, count-remove_first s t ss)

remove_first_absent :
    (s : SessionId) (ss : List SessionId) → contains s ss ≡ false → remove_first s ss ≡ ss
unfolding remove_first contains
remove_first_absent s [] h = refl
remove_first_absent s (t ∷ ss) h = ground (arith, remove_first_absent s ss)

sessions_at-unsubscribe_in :
    (k j : Bytes) (s : SessionId) (m : SubMap)
    → sessions_at j (unsubscribe_in k s m)
      ≡ (if beq k j then remove_first s (sessions_at k m) else sessions_at j m)
unfolding unsubscribe_in
sessions_at-unsubscribe_in k j s m = ground (
  arith,
  beq_iff k j,
  remove_first_absent s (sessions_at k m),
  eq-nil (remove_first s (sessions_at k m)),
  sessions_at-insert k j (remove_first s (sessions_at k m)) m,
  sessions_at-delete k j (insert k (remove_first s (sessions_at k m)) m),
)

-- `Subscribe` adds one to the number of the session at the subject, and leaves every other number:
-- it does not look whether the session is there already.
pub held-subscribe :
    (r : OptimizedRouter) (k j : Bytes) (s t : SessionId)
    → held (subscribe k s r) j t ≡ held r j t + (if beq k j && s == t then 1 else 0)
unfolding held subscribe
held-subscribe r k j s t = ground (
  arith,
  beq_iff k j,
  count-snoc s t (sessions_at k r.exact_matches),
  count-snoc s t (sessions_at k r.wildcard_patterns),
  sessions_at-insert k j (sessions_at k r.exact_matches ++ s ∷ []) r.exact_matches,
  sessions_at-insert k j (sessions_at k r.wildcard_patterns ++ s ∷ []) r.wildcard_patterns,
)

-- `Unsubscribe` takes one from the number of the session at the subject, where it is not 0, and leaves
-- every other number.
pub held-unsubscribe :
    (r : OptimizedRouter) (k j : Bytes) (s t : SessionId)
    → held (unsubscribe k s r) j t ≡ held r j t - (if beq k j && s == t then 1 else 0)
unfolding held unsubscribe
held-unsubscribe r k j s t = ground (
  arith,
  beq_iff k j,
  count-remove_first s t (sessions_at k r.exact_matches),
  count-remove_first s t (sessions_at k r.wildcard_patterns),
  sessions_at-unsubscribe_in k j s r.exact_matches,
  sessions_at-unsubscribe_in k j s r.wildcard_patterns,
)

pub lookup-remove_from :
    (s : SessionId) (j : Bytes) (m : SubMap) → lookup j m ≡ none → lookup j (remove_from s m) ≡ none
unfolding remove_from lookup
lookup-remove_from s j [] e = refl
lookup-remove_from s j ((k, v) ∷ m) e = ground (arith, lookup-remove_from s j m)

sessions_at-remove_from :
    (s : SessionId) (j : Bytes) (m : SubMap)
    → DistinctKeys m
    → sessions_at j (remove_from s m) ≡ remove_first s (sessions_at j m)
unfolding remove_from lookup sessions_at
sessions_at-remove_from s j [] h = unfold remove_first in refl
sessions_at-remove_from s j ((k, v) ∷ m) (fresh, h) = ground (
  arith,
  sessions_at-remove_from s j m h,
  beq_iff k j,
  lookup-remove_from s k m fresh,
  remove_first_absent s v,
  eq-nil (remove_first s v),
)

-- `RemoveSession` takes one from the number of the session at each subject, where it is not 0, and
-- leaves the numbers of the other sessions.
pub held-remove_session :
    (r : OptimizedRouter) (j : Bytes) (s t : SessionId)
    → IsMap r
    → held (remove_session s r) j t ≡ held r j t - (if s == t then 1 else 0)
unfolding held remove_session
held-remove_session r j s t v = ground (
  arith,
  count-remove_first s t (sessions_at j r.exact_matches),
  count-remove_first s t (sessions_at j r.wildcard_patterns),
  sessions_at-remove_from s j r.exact_matches v.exact,
  sessions_at-remove_from s j r.wildcard_patterns v.wild,
)

-- A session that subscribed to a subject twice is still subscribed to it when it has been removed.
pub removed_session_stays :
    (r : OptimizedRouter) (j : Bytes) (s : SessionId)
    → IsMap r
    → 1 < held r j s
    → 0 < held (remove_session s r) j s
removed_session_stays r j s v h = ground (arith, held-remove_session r j s s v)
