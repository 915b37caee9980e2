-- ===== src/Optimized/Cache.antt =====
-- server/router_optimized.go: the cache of compiled patterns does not show in any answer, and whom
-- `FindSubscribers` finds.
use kcpq.Optimized.{
  CompiledPattern, PatternCache, OptimizedRouter, compile, cached, compile_pattern, matches,
  add_unseen, collect, find_subscribers,
}
use kcpq.Subscriptions.{SessionId, SubMap, lookup, sessions_at, contains}
use kcpq.Subscriptions.Laws.{contains-append, DistinctKeys, sessions_at-none}
use mathlib.Core.Bool.{false≢true}
use kcpq.Prelude.{
  ◌≡◌, ◌↔◌, ◌⊎◌, inl, inr, refl, sym, ap, subst, ◌∙◌, Bool, true, false, ◌&&◌, ◌||◌, none, some,
  List, [], ◌∷◌, ◌++◌, Bytes, beq, beq_iff, beq_refl, if◌then◌else◌, arith, Bool-cases,
  Option-cases,
}

-- Every cached value is what its pattern compiles to.
abbrev pub IsCoherent : PatternCache → Type 0
IsCoherent [] = Unit
IsCoherent ((p, c) ∷ cache) = (c ≡ compile p) × IsCoherent cache

cached-compile :
    (p : Bytes) (cache : PatternCache) (c : CompiledPattern)
    → IsCoherent cache
    → cached p cache ≡ some c
    → c ≡ compile p
unfolding cached
cached-compile p [] c h e = cc
cached-compile p ((q, d) ∷ cache) c (here, h) e = elim (Bool-cases (beq q p)) [
  | inl same ↦ ground (arith, (beq_iff q p).0 same)
  | inr other ↦ cached-compile p cache c h (ground arith)
]

pub compile_pattern_lem :
    (p : Bytes) (cache : PatternCache)
    → IsCoherent cache
    → ((compile_pattern p cache).0 ≡ compile p) × IsCoherent (compile_pattern p cache).1
unfolding compile_pattern
compile_pattern_lem p cache h = elim (Option-cases (cached p cache)) [
  | inl miss ↦ rw (miss, compile_pattern) (refl, (refl, h))
  | inr (c, hit) ↦ rw (hit, compile_pattern) (cached-compile p cache c h hit, h)
]

contains-add_unseen :
    (ss u : List SessionId) (t : SessionId)
    → contains t (add_unseen ss u) ≡ (contains t ss || contains t u)
unfolding add_unseen contains
contains-add_unseen [] u t = refl
contains-add_unseen (s ∷ ss) u t = ground (
  arith,
  contains-add_unseen ss u t,
  contains-add_unseen ss (u ++ s ∷ []) t,
  contains-append t u (s ∷ []),
)

-- Some entry whose compiled pattern matches holds the session.
reaches : Bytes → SessionId → SubMap → Bool
reaches subject s [] = false
reaches subject s ((p, ss) ∷ m) =
    (matches (compile p) subject && contains s ss) || reaches subject s m

collect_lem :
    (subject : Bytes) (t : SessionId) (m : SubMap) (cache : PatternCache) (u : List SessionId)
    → IsCoherent cache
    → (contains t (collect subject m cache u).0 ≡ (contains t u || reaches subject t m))
      × IsCoherent (collect subject m cache u).1
unfolding collect reaches
collect_lem subject t [] cache u h = (ground arith, h)
collect_lem subject t ((p, ss) ∷ m) cache u h =
    let (value, kept) = compile_pattern_lem p cache h in
    let next =
      collect_lem subject t m (compile_pattern p cache).1
        (if matches (compile_pattern p cache).0 subject then add_unseen ss u else u) kept in
    (ground (arith, next.0, contains-add_unseen ss u t, ap (λ c. matches c subject) value), next.1)

reaches_sound :
    (subject : Bytes) (s : SessionId) (m : SubMap)
    → DistinctKeys m
    → reaches subject s m ≡ true
    → (p : Bytes) × (contains s (sessions_at p m) ≡ true) × (matches (compile p) subject ≡ true)
unfolding reaches sessions_at lookup contains
reaches_sound subject s [] h e = absurd (cc e)
reaches_sound subject s ((p, ss) ∷ m) (fresh, h) e =
    elim (Bool-cases (matches (compile p) subject && contains s ss)) [
      | inl here ↦ (p, ground (arith, beq_refl p), ground arith)
      | inr below ↦
          let (q, there, matched) = reaches_sound subject s m h (ground arith) in
          (q, ground (arith, other q there), matched)
    ]
  where
    other : (q : Bytes) → contains s (sessions_at q m) ≡ true → beq p q ≡ false
    other q there = elim (Bool-cases (beq p q)) [
      | inr ne ↦ ne
      | inl same ↦
          let gone : lookup q m ≡ none =
            subst (λ k. lookup k m ≡ none) ((beq_iff p q).0 same) fresh in
          absurd (false≢true (sym (ap (contains s) (sessions_at-none q m gone)) ∙ there))
    ]

reaches_complete :
    (subject p : Bytes) (s : SessionId) (m : SubMap)
    → contains s (sessions_at p m) ≡ true
    → matches (compile p) subject ≡ true
    → reaches subject s m ≡ true
unfolding reaches sessions_at lookup contains
reaches_complete subject p s [] there matched = absurd (cc there)
reaches_complete subject p s ((q, ss) ∷ m) there matched =
    ground (arith, beq_iff q p, reaches_complete subject p s m)

-- Whatever has been cached, as long as every cached value is what its pattern compiles to,
-- `FindSubscribers` finds a session exactly when it is subscribed to the subject itself in the exact
-- map, or in the wildcard map to a pattern whose compiled form matches; and the cache stays so.
pub find_subscribers_optimized_iff :
    (r : OptimizedRouter) (subject : Bytes) (s : SessionId)
    → IsCoherent r.cache
    → DistinctKeys r.wildcard_patterns
    → ((contains s (find_subscribers subject r).0 ≡ true) ↔ (
        (contains s (sessions_at subject r.exact_matches) ≡ true)
        ⊎ ((p : Bytes) × (contains s (sessions_at p r.wildcard_patterns) ≡ true)
            × (matches (compile p) subject ≡ true))))
      × IsCoherent (find_subscribers subject r).1.cache
unfolding find_subscribers
find_subscribers_optimized_iff r subject s h k = ((sound, complete), (collected.1))
  where
    found : List SessionId
    found = add_unseen (sessions_at subject r.exact_matches) []

    collected :
        (contains s (collect subject r.wildcard_patterns r.cache found).0
          ≡ (contains s found || reaches subject s r.wildcard_patterns))
        × IsCoherent (collect subject r.wildcard_patterns r.cache found).1
    collected = collect_lem subject s r.wildcard_patterns r.cache found h

    in_exact : contains s found ≡ contains s (sessions_at subject r.exact_matches)
    in_exact =
        unfold contains in
        ground (arith, contains-add_unseen (sessions_at subject r.exact_matches) [] s)

    sound :
        contains s (find_subscribers subject r).0 ≡ true
        → (contains s (sessions_at subject r.exact_matches) ≡ true)
          ⊎ ((p : Bytes) × (contains s (sessions_at p r.wildcard_patterns) ≡ true)
              × (matches (compile p) subject ≡ true))
    sound e = elim (Bool-cases (contains s found)) [
      | inl exact ↦ inl (sym in_exact ∙ exact)
      | inr wild ↦ inr (reaches_sound subject s r.wildcard_patterns k (ground (arith, collected.0)))
    ]

    complete :
        (contains s (sessions_at subject r.exact_matches) ≡ true)
          ⊎ ((p : Bytes) × (contains s (sessions_at p r.wildcard_patterns) ≡ true)
              × (matches (compile p) subject ≡ true))
        → contains s (find_subscribers subject r).0 ≡ true
    complete (inl exact) = ground (arith, collected.0, in_exact)
    complete (inr (p, there, matched)) =
        ground (arith, collected.0, reaches_complete subject p s r.wildcard_patterns there matched)
