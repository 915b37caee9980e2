-- ===== src/Client/Matching.antt =====
-- client/client.go: `matchSubject`, and its agreement with the server's `Router.Match`.
use kcpq.Client.{match_subject}
use kcpq.Router
use kcpq.Router.Matching.{Admits, base, below, fits, equal, match_iff}
use kcpq.Subject.{
  dot, dot_gt, split, has_prefix, has_suffix, trim_suffix, contains_byte, segments_match,
  has_star_segment,
}
use kcpq.Subject.Splitting.{has_prefix_iff, has_suffix_iff, trim_suffix-append, split-injective}
use kcpq.Subject.Segments.{
  Fits, length-Fits, segments_match_sound, segments_match_complete, Fits-eq,
  contains_byte-has_star_segment,
}
use kcpq.Prelude.{
  ◌≡◌, ◌↔◌, ◌⊎◌, inl, inr, refl, sym, ap, ◌∙◌, Bool, true, false, ◌||◌, ◌&&◌, [], ◌∷◌, ◌++◌,
  append_assoc, Bytes, beq, beq_iff, ◌==◌, length, arith, Bool-cases,
}

-- The second test: the pattern is a base and ".>", and the subject is the base or lies below it.
tail_test : Bytes → Bytes → Bool
tail_test pattern subject =
    has_suffix pattern dot_gt
    && (has_prefix subject (trim_suffix pattern dot_gt ++ dot ∷ [])
        || beq subject (trim_suffix pattern dot_gt))

tail_test_sound : (p s : Bytes) → tail_test p s ≡ true → Admits p s
unfolding tail_test
tail_test_sound p s h =
    let (b, e) = (has_suffix_iff p dot_gt).0 (ground arith) in
    let trimmed : trim_suffix p dot_gt ≡ b =
      ap (λ x. trim_suffix x dot_gt) e ∙ trim_suffix-append b dot_gt in
    elim (Bool-cases (beq s b)) [
      | inl same ↦ base (e ∙ ap (λ x. x ++ dot_gt) (sym ((beq_iff s b).0 same)))
      | inr other ↦
          let (t, e') = (has_prefix_iff s (b ++ dot ∷ [])).0 (ground arith) in
          below b t e (e' ∙ append_assoc b (dot ∷ []) t)
    ]

tail_test_complete :
    (p s b : Bytes)
    → p ≡ b ++ dot_gt
    → (s ≡ b) ⊎ ((t : Bytes) × (s ≡ b ++ dot ∷ t))
    → tail_test p s ≡ true
unfolding tail_test
tail_test_complete p s b e (inl same) = ground (
  arith,
  (has_suffix_iff p dot_gt).1 (b, e),
  ap (λ x. trim_suffix x dot_gt) e ∙ trim_suffix-append b dot_gt,
  (beq_iff s b).1 same,
)
tail_test_complete p s b e (inr (t, below_b)) = ground (
  arith,
  (has_suffix_iff p dot_gt).1 (b, e),
  ap (λ x. trim_suffix x dot_gt) e ∙ trim_suffix-append b dot_gt,
  (has_prefix_iff s (b ++ dot ∷ [])).1 (t, below_b ∙ sym (append_assoc b (dot ∷ []) t)),
)

match_subject_lem :
    (p s : Bytes)
    → match_subject p s ≡ (
        beq p s
        || (tail_test p s
            || ((contains_byte p b'*' && length (split p) == length (split s))
                && segments_match (split p) (split s))))
unfolding match_subject tail_test
match_subject_lem p s = ground arith

Fits→match_subject : (p s : Bytes) → Fits (split p) (split s) → match_subject p s ≡ true
Fits→match_subject p s f = elim (Bool-cases (has_star_segment (split p))) [
  | inl starred ↦ ground (
    arith,
    match_subject_lem p s,
    contains_byte-has_star_segment p starred,
    length-Fits f,
    segments_match_complete f,
  )
  | inr plain ↦
      ground (arith, match_subject_lem p s, (beq_iff p s).1 (split-injective p s (Fits-eq f plain)))
]

-- The client accepts a message for a subscription exactly when the server's router admits its subject, or
-- the pattern fits it segment by segment (also where the pattern ends in ".>").
pub match_subject_iff :
    (p s : Bytes) → (match_subject p s ≡ true) ↔ (Admits p s ⊎ Fits (split p) (split s))
match_subject_iff p s = (sound, complete)
  where
    sound : match_subject p s ≡ true → Admits p s ⊎ Fits (split p) (split s)
    sound h = elim (Bool-cases (beq p s)) [
      | inl same ↦ inl (equal ((beq_iff p s).0 same))
      | inr other ↦ elim (Bool-cases (tail_test p s)) [
        | inl tail ↦ inl (tail_test_sound p s tail)
        | inr no_tail ↦ inr (
            segments_match_sound (split p) (split s) (ground (arith, match_subject_lem p s))
              (ground (arith, match_subject_lem p s)))
      ]
    ]

    complete : Admits p s ⊎ Fits (split p) (split s) → match_subject p s ≡ true
    complete (inl (base e)) =
        ground (arith, match_subject_lem p s, tail_test_complete p s s e (inl refl))
    complete (inl (below b t e e')) =
        ground (arith, match_subject_lem p s, tail_test_complete p s b e (inr (t, e')))
    complete (inl (fits ne f)) = Fits→match_subject p s f
    complete (inl (equal e)) = ground (arith, match_subject_lem p s, (beq_iff p s).1 e)
    complete (inr f) = Fits→match_subject p s f

-- Whatever the server routes to a client for one of its patterns, the client's own test accepts for that
-- pattern; and for a pattern that does not end in ".>" the two tests agree.
pub match_subject-match :
    (p s : Bytes)
    → (Router.match p s ≡ true → match_subject p s ≡ true)
      × (has_suffix p dot_gt ≡ false → match_subject p s ≡ Router.match p s)
match_subject-match p s = (accepts, agrees)
  where
    accepts : Router.match p s ≡ true → match_subject p s ≡ true
    accepts h = (match_subject_iff p s).1 (inl ((match_iff p s).0 h))

    agrees : has_suffix p dot_gt ≡ false → match_subject p s ≡ Router.match p s
    agrees no_tail = elim (Bool-cases (match_subject p s)) [
      | inr no_match ↦ elim (Bool-cases (Router.match p s)) [
        | inl routed ↦ cc (accepts routed)
        | inr not_routed ↦ no_match ∙ sym not_routed
      ]
      | inl matched ↦
          matched
          ∙ sym (
              (match_iff p s).1 (elim ((match_subject_iff p s).0 matched) [
                | inl admitted ↦ admitted
                | inr f ↦ fits (λ t e. cc ((has_suffix_iff p dot_gt).1 (t, e))) f
              ]))
    ]
