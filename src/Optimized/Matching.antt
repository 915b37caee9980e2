-- ===== src/Optimized/Matching.antt =====
-- The compiled matcher of server/router_optimized.go against the meaning of the wildcards.
use kcpq.Optimized.{CompiledPattern, set_flags, compile, matches_segments, first_segment, matches}
use kcpq.Router
use kcpq.Router.Matching.{base, match_iff}
use kcpq.Subject.{star, gt, dot, dot_gt, split, contains_byte, onto_head}
use kcpq.Subject.Splitting.{split-append_dot, split-cons, split-cases}
use kcpq.Prelude.{
  ◌<◌, ◌≡◌, ◌≢◌, ◌↔◌, inl, inr, refl, sym, ap, subst, ◌∙◌, Bool, true, false, ◌||◌, List, [], ◌∷◌,
  ◌++◌, Bytes, beq, beq_iff, beq_refl, if◌then◌else◌, length, arith, Bool-cases,
}

-- "*" stands for one segment, a last ">" for one or more, and any other segment for itself.
pub data Covers : List Bytes → List Bytes → Type 0 where
  done : Covers [] []
  any : {ps ss : List Bytes} (s : Bytes) → Covers ps ss → Covers (star ∷ ps) (s ∷ ss)
  same : {ps ss : List Bytes} (s : Bytes) → s ≢ gt → Covers ps ss → Covers (s ∷ ps) (s ∷ ss)
  tail : (s : Bytes) (ss : List Bytes) → Covers (gt ∷ []) (s ∷ ss)

matches_segments_sound : (ps ss : List Bytes) → matches_segments ps ss ≡ true → Covers ps ss
unfolding matches_segments
matches_segments_sound [] [] h = done
matches_segments_sound [] (s ∷ ss) h = absurd (ground arith)
matches_segments_sound (p ∷ ps) [] h = absurd (ground arith)
matches_segments_sound (p ∷ ps) (s ∷ ss) h = elim (Bool-cases (beq p gt)) [
  | inl is_gt ↦ tail_here ps ((beq_iff p gt).0 is_gt) (ground arith)
  | inr not_gt ↦ elim (Bool-cases (beq p star)) [
    | inl is_star ↦
        subst (λ q. Covers (q ∷ ps) (s ∷ ss)) (sym ((beq_iff p star).0 is_star))
          (any s (matches_segments_sound ps ss (ground arith)))
    | inr plain ↦ elim (Bool-cases (beq p s)) [
      | inl eq ↦
          subst (λ q. Covers (q ∷ ps) (s ∷ ss)) (sym ((beq_iff p s).0 eq))
            (same s (λ e. ground (arith, (beq_iff p s).0 eq, (beq_iff p gt).1))
              (matches_segments_sound ps ss (ground arith)))
      | inr ne ↦ absurd (ground arith)
    ]
  ]
]
  where
    tail_here : (qs : List Bytes) → p ≡ gt → length qs ≡ 0 → Covers (p ∷ qs) (s ∷ ss)
    tail_here [] e z = subst (λ q. Covers (q ∷ []) (s ∷ ss)) (sym e) (tail s ss)
    tail_here (q ∷ qs) e z = absurd (omega arith)

star-gt : beq star gt ≡ false
unfolding beq
star-gt = refl

gt_self : beq gt gt ≡ true
unfolding beq
gt_self = refl

matches_segments_complete : {ps ss : List Bytes} → Covers ps ss → matches_segments ps ss ≡ true
unfolding matches_segments
matches_segments_complete done = refl
matches_segments_complete (any s c) =
    ground (arith, star-gt, beq_refl star, matches_segments_complete c)
matches_segments_complete (same s ne c) =
    ground (arith, beq_iff s gt, beq_refl s, matches_segments_complete c)
matches_segments_complete (tail s ss) = ground (arith, gt_self)

-- Some segment is a wildcard.
unfoldable pub is_wild : List Bytes → Bool
is_wild [] = false
is_wild (w ∷ ws) = (beq w star || beq w gt) || is_wild ws

set_flags_lem :
    (segs : List Bytes) (c : CompiledPattern)
    → ((set_flags segs c).segments ≡ c.segments)
      × ((set_flags segs c).has_wildcard || (set_flags segs c).has_multi_wildcard
          ≡ ((c.has_wildcard || c.has_multi_wildcard) || is_wild segs))
unfolding set_flags is_wild
set_flags_lem [] c = (refl, ground arith)
set_flags_lem (seg ∷ segs) c = ground (
  arith,
  set_flags_lem segs (record c { has_wildcard = true }),
  set_flags_lem segs (record c { has_multi_wildcard = true }),
  set_flags_lem segs c,
)

compile_lem :
    (p : Bytes)
    → ((compile p).segments ≡ split p)
      × ((compile p).has_wildcard || (compile p).has_multi_wildcard ≡ is_wild (split p))
unfolding compile
compile_lem p =
    set_flags_lem (split p)
      (record { segments = split p; has_wildcard = false; has_multi_wildcard = false })

matches-compile :
    (p s : Bytes)
    → matches (compile p) s ≡ (
        if is_wild (split p)
        then matches_segments (split p) (split s)
        else beq s (first_segment (split p)))
unfolding matches
matches-compile p s = ground (arith, compile_lem p)

-- A compiled pattern that has a wildcard segment matches exactly the subjects that its segments cover.
pub matches-compile_iff :
    (p s : Bytes)
    → is_wild (split p) ≡ true
    → (matches (compile p) s ≡ true) ↔ Covers (split p) (split s)
matches-compile_iff p s w = (
  λ h. matches_segments_sound (split p) (split s) (ground (arith, matches-compile p s)),
  λ c. ground (arith, matches-compile p s, matches_segments_complete c),
)

-- A compiled pattern that has no wildcard segment is compared by its first segment alone.
pub matches-compile_literal :
    (p s : Bytes)
    → is_wild (split p) ≡ false
    → (matches (compile p) s ≡ true) ↔ (s ≡ first_segment (split p))
matches-compile_literal p s w = (
  λ h. (beq_iff s (first_segment (split p))).0 (ground (arith, matches-compile p s)),
  λ e. ground (arith, matches-compile p s, (beq_iff s (first_segment (split p))).1 e),
)

contains_byte-first_segment : (s : Bytes) → contains_byte (first_segment (split s)) dot ≡ false
contains_byte-first_segment [] = unfold contains_byte split first_segment in refl
contains_byte-first_segment (c ∷ s) = elim (split-cases c s) [
  | inl (at_dot, e) ↦ rw e (empty (split s))
  | inr (other, e) ↦
      let (w, ws, es) = split-cons s in
      rw (e, es) (longer w ws other (rw (← es) (contains_byte-first_segment s)))
]
  where
    empty : (ws : List Bytes) → contains_byte (first_segment ([] ∷ ws)) dot ≡ false
    empty ws = unfold contains_byte first_segment in refl

    longer :
        (w : Bytes) (ws : List Bytes)
        → c ≢ dot
        → contains_byte (first_segment (w ∷ ws)) dot ≡ false
        → contains_byte (first_segment (onto_head c (w ∷ ws))) dot ≡ false
    longer w ws ne h = unfold contains_byte first_segment in ground arith

contains_byte-append_dot : (a b : Bytes) → contains_byte (a ++ dot ∷ b) dot ≡ true
unfolding contains_byte
contains_byte-append_dot [] b = refl
contains_byte-append_dot (c ∷ a) b = ground (arith, contains_byte-append_dot a b)

-- A literal pattern of more than one segment does not match itself, and matches its first segment.
pub literal_pattern_misses_itself :
    (a b : Bytes)
    → is_wild (split (a ++ dot ∷ b)) ≡ false
    → (matches (compile (a ++ dot ∷ b)) (a ++ dot ∷ b) ≡ false)
      × (matches (compile (a ++ dot ∷ b)) (first_segment (split (a ++ dot ∷ b))) ≡ true)
literal_pattern_misses_itself a b w =
    (not_itself, (matches-compile_literal (a ++ dot ∷ b) _ w).1 refl)
  where
    not_itself : matches (compile (a ++ dot ∷ b)) (a ++ dot ∷ b) ≡ false
    not_itself = elim (Bool-cases (matches (compile (a ++ dot ∷ b)) (a ++ dot ∷ b))) [
      | inr h ↦ h
      | inl h ↦
          let e = (matches-compile_literal (a ++ dot ∷ b) (a ++ dot ∷ b) w).0 h in
          cc (
            contains_byte-first_segment (a ++ dot ∷ b),
            contains_byte-append_dot a b,
            ap (λ t. contains_byte t dot) e,
          )
    ]

Covers-tail :
    {ps ss : List Bytes} (ws : List Bytes)
    → Covers ps ss
    → ps ≡ ws ++ gt ∷ []
    → length ws < length ss
Covers-tail [] done e = cc
Covers-tail (w ∷ ws) done e = cc
Covers-tail [] (any s c) e = omega arith
Covers-tail (w ∷ ws) (any s c) e = omega (arith, Covers-tail ws c (cc))
Covers-tail [] (same s ne c) e = omega arith
Covers-tail (w ∷ ws) (same s ne c) e = omega (arith, Covers-tail ws c (cc))
Covers-tail [] (tail s ss) e = omega arith
Covers-tail (w ∷ []) (tail s ss) e = cc
Covers-tail (w ∷ v ∷ ws) (tail s ss) e = cc

pub split-gt : split gt ≡ gt ∷ []
unfolding split
split-gt = refl

is_wild-append_gt : (ws : List Bytes) → is_wild (ws ++ gt ∷ []) ≡ true
unfolding is_wild
is_wild-append_gt [] = ground (arith, gt_self)
is_wild-append_gt (w ∷ ws) = ground (arith, is_wild-append_gt ws)

-- The two routers differ on every pattern that ends in ".>": the one that the server uses lets it match
-- its own base, and the compiled matcher does not.
pub routers_differ_at_base :
    (b : Bytes)
    → (Router.match (b ++ dot_gt) b ≡ true) × (matches (compile (b ++ dot_gt)) b ≡ false)
routers_differ_at_base b = ((match_iff (b ++ dot_gt) b).1 (base refl), no_match)
  where
    segs : split (b ++ dot_gt) ≡ split b ++ gt ∷ []
    segs = split-append_dot b gt ∙ ap (λ x. split b ++ x) split-gt

    no_match : matches (compile (b ++ dot_gt)) b ≡ false
    no_match = elim (Bool-cases (matches (compile (b ++ dot_gt)) b)) [
      | inr h ↦ h
      | inl h ↦
          let wild : is_wild (split (b ++ dot_gt)) ≡ true = rw segs (is_wild-append_gt (split b)) in
          let covered = (matches-compile_iff (b ++ dot_gt) b wild).0 h in
          absurd (omega (arith, Covers-tail (split b) covered segs))
    ]
