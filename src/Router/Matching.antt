-- ===== src/Router/Matching.antt =====
-- `Router.Match` of server/router.go, decided by an independent description.
use kcpq.Router.{match}
use kcpq.Subject.{
  dot, dot_gt, split, has_prefix, has_suffix, trim_suffix, segments_match, has_star_segment,
}
use kcpq.Subject.Splitting.{has_prefix_iff, has_suffix_iff, trim_suffix-append, split-injective}
use kcpq.Subject.Segments.{
  Fits, length-Fits, segments_match_sound, segments_match_complete, Fits-eq,
}
use kcpq.Prelude.{
  ◌≡◌, ◌≢◌, ◌↔◌, inl, inr, refl, sym, ap, ◌∙◌, true, false, ◌||◌, not, [], ◌∷◌, ◌++◌, append_assoc,
  Bytes, beq, beq_iff, ◌==◌, if◌then◌else◌, length, arith, Bool-cases,
}

-- A pattern "base.>" admits `base` itself and everything below it, read literally; any other pattern
-- admits what fits it segment by segment.
pub data Admits (pattern subject : Bytes) : Type 0 where
  base : pattern ≡ subject ++ dot_gt → Admits pattern subject
  below : (b t : Bytes) → pattern ≡ b ++ dot_gt → subject ≡ b ++ dot ∷ t → Admits pattern subject
  fits :
      ((t : Bytes) → pattern ≢ t ++ dot_gt)
      → Fits (split pattern) (split subject)
      → Admits pattern subject
  equal : pattern ≡ subject → Admits pattern subject

module _ (pattern subject : Bytes) where
  match_tail :
      (b : Bytes)
      → pattern ≡ b ++ dot_gt
      → match pattern subject
        ≡ (beq pattern subject || (has_prefix subject (b ++ dot ∷ []) || beq subject b))
  unfolding match
  match_tail b e = ground (
    arith,
    (has_suffix_iff pattern dot_gt).1 (b, e),
    ap (λ p. trim_suffix p dot_gt) e ∙ trim_suffix-append b dot_gt,
  )

  match_plain :
      has_suffix pattern dot_gt ≡ false
      → match pattern subject ≡ (
          if beq pattern subject
          then true
          else if not (length (split pattern) == length (split subject))
          then false
          else if not (has_star_segment (split pattern))
          then false
          else segments_match (split pattern) (split subject))
  unfolding match
  match_plain e = rw e

  tail_sound :
      (b : Bytes) → pattern ≡ b ++ dot_gt → match pattern subject ≡ true → Admits pattern subject
  tail_sound b e h = elim (Bool-cases (beq pattern subject)) [
    | inl same ↦ equal ((beq_iff pattern subject).0 same)
    | inr other ↦ elim (Bool-cases (beq subject b)) [
      | inl at_base ↦ base (e ∙ ap (λ s. s ++ dot_gt) (sym ((beq_iff subject b).0 at_base)))
      | inr lower ↦
          let (t, e') =
            (has_prefix_iff subject (b ++ dot ∷ [])).0 (ground (arith, match_tail b e)) in
          below b t e (e' ∙ append_assoc b (dot ∷ []) t)
    ]
  ]

  no_suffix : ((t : Bytes) → pattern ≢ t ++ dot_gt) → has_suffix pattern dot_gt ≡ false
  no_suffix ne = elim (Bool-cases (has_suffix pattern dot_gt)) [
    | inl h ↦ let (t, e) = (has_suffix_iff pattern dot_gt).0 h in absurd (ne t e)
    | inr h ↦ h
  ]

  plain_sound :
      has_suffix pattern dot_gt ≡ false → match pattern subject ≡ true → Admits pattern subject
  plain_sound e h = elim (Bool-cases (beq pattern subject)) [
    | inl same ↦ equal ((beq_iff pattern subject).0 same)
    | inr other ↦
        fits (λ t eq. cc ((has_suffix_iff pattern dot_gt).1 (t, eq)))
          (segments_match_sound (split pattern) (split subject) (ground (arith, match_plain e))
            (ground (arith, match_plain e)))
  ]

-- `Match` answers true exactly when the pattern admits the subject: the two are equal, or the pattern
-- is a base and ".>" and the subject is that base or begins with it and a dot, or the pattern does not
-- end in ".>" and each of its segments is "*" or the subject's segment at that place.
pub match_iff : (pattern subject : Bytes) → (match pattern subject ≡ true) ↔ Admits pattern subject
match_iff pattern subject = (sound, complete)
  where
    sound : match pattern subject ≡ true → Admits pattern subject
    sound h = elim (Bool-cases (has_suffix pattern dot_gt)) [
      | inl e ↦
          let (b, e') = (has_suffix_iff pattern dot_gt).0 e in tail_sound pattern subject b e' h
      | inr e ↦ plain_sound pattern subject e h
    ]

    complete : Admits pattern subject → match pattern subject ≡ true
    complete (base e) =
        ground (arith, match_tail pattern subject subject e, (beq_iff subject subject).1 refl)
    complete (below b t e e') = ground (
      arith,
      match_tail pattern subject b e,
      (has_prefix_iff subject (b ++ dot ∷ [])).1 (t, e' ∙ sym (append_assoc b (dot ∷ []) t)),
    )
    complete (equal e) = unfold match in ground (arith, (beq_iff pattern subject).1 e)
    complete (fits ne f) = elim (Bool-cases (has_star_segment (split pattern))) [
      | inl starred ↦ ground (
        arith,
        match_plain pattern subject (no_suffix pattern subject ne),
        length-Fits f,
        segments_match_complete f,
        starred,
      )
      | inr plain ↦
          unfold match in
          ground
            (arith, (beq_iff pattern subject).1 (split-injective pattern subject (Fits-eq f plain)))
    ]
