-- ===== src/Optimized/Agreement.antt =====
-- server/router_optimized.go and server/router.go: patterns on which the two routers agree.
use kcpq.Optimized.{compile, matches}
use kcpq.Optimized.Matching.{Covers, done, any, same, tail, is_wild, matches-compile_iff, split-gt}
use kcpq.Router
use kcpq.Router.Matching.{Admits, base, below, fits, equal, match_iff}
use kcpq.Subject.{gt, dot_gt, split, has_star_segment}
use kcpq.Subject.Segments
use kcpq.Subject.Segments.{Fits, Fits-refl}
use kcpq.Subject.Splitting.{split-append_dot}
use kcpq.Prelude.{
  ◌≡◌, ◌↔◌, ap, subst, ◌∙◌, Bool, true, false, ◌||◌, List, [], ◌∷◌, ◌++◌, Bytes, beq, beq_iff,
  beq_refl, arith,
}

unfoldable pub has_gt_segment : List Bytes → Bool
has_gt_segment [] = false
has_gt_segment (w ∷ ws) = beq w gt || has_gt_segment ws

has_gt_segment-append : (ws : List Bytes) → has_gt_segment (ws ++ gt ∷ []) ≡ true
unfolding has_gt_segment
has_gt_segment-append [] = ground (arith, beq_refl gt)
has_gt_segment-append (w ∷ ws) = ground (arith, has_gt_segment-append ws)

has_gt_segment-dot_gt : (b : Bytes) → has_gt_segment (split (b ++ dot_gt)) ≡ true
has_gt_segment-dot_gt b =
    ap has_gt_segment (split-append_dot b gt ∙ ap (λ x. split b ++ x) split-gt)
    ∙ has_gt_segment-append (split b)

is_wild-star : (ws : List Bytes) → has_star_segment ws ≡ true → is_wild ws ≡ true
unfolding is_wild has_star_segment
is_wild-star [] h = cc
is_wild-star (w ∷ ws) h = ground (arith, is_wild-star ws)

Covers-Fits : {ps ss : List Bytes} → Fits ps ss → has_gt_segment ps ≡ false → Covers ps ss
unfolding has_gt_segment
Covers-Fits Segments.done h = done
Covers-Fits (Segments.any s f) h = any s (Covers-Fits f (ground arith))
Covers-Fits (Segments.same s f) h =
    same s (λ e. absurd (ground (arith, (beq_iff s gt).1 e))) (Covers-Fits f (ground arith))

Fits-Covers : {ps ss : List Bytes} → Covers ps ss → has_gt_segment ps ≡ false → Fits ps ss
unfolding has_gt_segment
Fits-Covers done h = Segments.done
Fits-Covers (any s c) h = Segments.any s (Fits-Covers c (ground arith))
Fits-Covers (same s ne c) h = Segments.same s (Fits-Covers c (ground arith))
Fits-Covers (tail s ss) h = absurd (ground (arith, beq_refl gt))

Covers-Admits :
    (p s : Bytes) → has_gt_segment (split p) ≡ false → Admits p s → Covers (split p) (split s)
Covers-Admits p s h (base e) = absurd (ground (arith, has_gt_segment-dot_gt s, e))
Covers-Admits p s h (below b t e e') = absurd (ground (arith, has_gt_segment-dot_gt b, e))
Covers-Admits p s h (fits ne f) = Covers-Fits f h
Covers-Admits p s h (equal e) =
    subst (λ q. Covers (split p) (split q)) e (Covers-Fits (Fits-refl (split p)) h)

-- The two routers agree on every pattern that has a segment "*" and no segment ">": one matches a subject
-- exactly when the other does.
pub matches-compile-match :
    (p s : Bytes)
    → has_star_segment (split p) ≡ true
    → has_gt_segment (split p) ≡ false
    → (matches (compile p) s ≡ true) ↔ (Router.match p s ≡ true)
matches-compile-match p s stars h = (
  λ m. (match_iff p s).1 (
      fits (λ t e. cc (has_gt_segment-dot_gt t, ap (λ q. has_gt_segment (split q)) e, h))
        (Fits-Covers ((matches-compile_iff p s (is_wild-star (split p) stars)).0 m) h)),
  λ m.
      (matches-compile_iff p s (is_wild-star (split p) stars)).1
        (Covers-Admits p s h ((match_iff p s).0 m)),
)
