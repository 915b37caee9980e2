-- ===== src/Optimized/Tests.antt =====
-- server/router_optimized.go: a session that subscribes to "a.*" twice.
use kcpq.Optimized.{
  OptimizedRouter, new_optimized_router, compile, matches, subscribe, find_subscribers,
  is_wildcard_pattern, compile_pattern, cached,
}
use kcpq.Optimized.Matching.{is_wild}
use kcpq.Optimized.Counts.{held, count, IsMap}
use kcpq.Optimized.Cache.{IsCoherent, find_subscribers_optimized_iff}
use kcpq.Optimized.Agreement.{has_gt_segment, matches-compile-match}
use kcpq.Router
use kcpq.Subject.{dot, split, contains_byte, has_star_segment}
use kcpq.Subscriptions.{sessions_at, contains, insert, lookup}
use kcpq.Subscriptions.Laws.{DistinctKeys}
use kcpq.Prelude.{◌≡◌, ◌↔◌, ◌⊎◌, refl, true, false, [], ◌∷◌, ◌++◌, Bytes, codes, beq}

abbrev twice : OptimizedRouter
twice = subscribe (codes "a.*") 1 (subscribe (codes "a.*") 1 (new_optimized_router []))

twice-IsMap : IsMap twice
unfolding subscribe new_optimized_router is_wildcard_pattern contains_byte insert sessions_at lookup
    beq
twice-IsMap = record { exact = tt; wild = (refl, tt) }

held-twice : held twice (codes "a.*") 1 ≡ 2
unfolding beq held count subscribe new_optimized_router insert sessions_at lookup
    is_wildcard_pattern contains_byte
held-twice = refl

star-is_wild : is_wild (split (codes "a.*")) ≡ true
unfolding is_wild split beq
star-is_wild = refl

ab-literal : is_wild (split (codes "a" ++ dot ∷ codes "b")) ≡ false
unfolding is_wild split beq
ab-literal = refl

once-DistinctKeys : DistinctKeys twice.wildcard_patterns
once-DistinctKeys = twice-IsMap.wild

twice-IsCoherent : IsCoherent twice.cache
unfolding subscribe new_optimized_router compile_pattern cached is_wildcard_pattern contains_byte
    beq
twice-IsCoherent = (refl, tt)

find_subscribers_optimized_iff_example :
    ((contains 1 (find_subscribers (codes "a.b") twice).0 ≡ true) ↔ (
      (contains 1 (sessions_at (codes "a.b") twice.exact_matches) ≡ true)
      ⊎ ((p : Bytes) × (contains 1 (sessions_at p twice.wildcard_patterns) ≡ true)
          × (matches (compile p) (codes "a.b") ≡ true))))
    × IsCoherent (find_subscribers (codes "a.b") twice).1.cache
find_subscribers_optimized_iff_example =
    find_subscribers_optimized_iff twice (codes "a.b") 1 twice-IsCoherent once-DistinctKeys

star-segments :
    (has_star_segment (split (codes "a.*")) ≡ true) × (has_gt_segment (split (codes "a.*")) ≡ false)
unfolding has_star_segment has_gt_segment split beq
star-segments = (refl, refl)

matches-compile-match_example :
    (matches (compile (codes "a.*")) (codes "a.b") ≡ true)
    ↔ (Router.match (codes "a.*") (codes "a.b") ≡ true)
matches-compile-match_example =
    matches-compile-match (codes "a.*") (codes "a.b") star-segments.0 star-segments.1
