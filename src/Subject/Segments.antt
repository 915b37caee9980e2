-- ===== src/Subject/Segments.antt =====
-- What the segment loop of `Router.Match` and `matchSubject` decides, as a relation.
use kcpq.Subject.{star, segments_match, has_star_segment, contains_byte, split, onto_head}
use kcpq.Subject.Splitting.{split-cases}
use kcpq.Prelude.{
  ℕ, suc, ◌≡◌, ◌⊎◌, inl, inr, refl, sym, ap, ◌∙◌, true, false, List, [], ◌∷◌, Bytes, beq, beq_iff,
  length, arith, Bool-cases, subst,
}

-- Segment by segment, "*" stands for any one segment, and any other segment for itself.
pub data Fits : List Bytes → List Bytes → Type 0 where
  done : Fits [] []
  any : {ps ss : List Bytes} (s : Bytes) → Fits ps ss → Fits (star ∷ ps) (s ∷ ss)
  same : {ps ss : List Bytes} (s : Bytes) → Fits ps ss → Fits (s ∷ ps) (s ∷ ss)

pub Fits-refl : (ss : List Bytes) → Fits ss ss
Fits-refl [] = done
Fits-refl (s ∷ ss) = same s (Fits-refl ss)

pub length-Fits : {ps ss : List Bytes} → Fits ps ss → length ps ≡ length ss
length-Fits done = refl
length-Fits (any s f) = ap suc (length-Fits f)
length-Fits (same s f) = ap suc (length-Fits f)

pub segments_match_sound :
    (ps ss : List Bytes) → length ps ≡ length ss → segments_match ps ss ≡ true → Fits ps ss
unfolding segments_match
segments_match_sound [] [] e h = done
segments_match_sound [] (s ∷ ss) e h = absurd (omega arith)
segments_match_sound (p ∷ ps) [] e h = cc
segments_match_sound (p ∷ ps) (s ∷ ss) e h = elim (Bool-cases (beq p star)) [
  | inl is_star ↦
      subst (λ q. Fits (q ∷ ps) (s ∷ ss)) (sym ((beq_iff p star).0 is_star))
        (any s (segments_match_sound ps ss (omega arith) (ground arith)))
  | inr plain ↦ elim (Bool-cases (beq p s)) [
    | inl eq ↦
        subst (λ q. Fits (q ∷ ps) (s ∷ ss)) (sym ((beq_iff p s).0 eq))
          (same s (segments_match_sound ps ss (omega arith) (ground arith)))
    | inr ne ↦ absurd (ground arith)
  ]
]

pub segments_match_complete : {ps ss : List Bytes} → Fits ps ss → segments_match ps ss ≡ true
unfolding segments_match
segments_match_complete done = refl
segments_match_complete (any s f) = rw ((beq_iff star star).1 refl) (segments_match_complete f)
segments_match_complete (same s f) = ground (arith, (beq_iff s s).1 refl, segments_match_complete f)

-- With no segment equal to "*" a fit is an equality.
pub Fits-eq : {ps ss : List Bytes} → Fits ps ss → has_star_segment ps ≡ false → ps ≡ ss
unfolding has_star_segment
Fits-eq done h = refl
Fits-eq (any s f) h = absurd (ground (arith, (beq_iff star star).1 refl))
Fits-eq (same s f) h = ap (◌∷◌ s) (Fits-eq f (ground arith))

-- A segment "*" is a byte '*' of the pattern.
has_star_segment-onto_head :
    (c : ℕ) (ws : List Bytes)
    → has_star_segment (onto_head c ws) ≡ true
    → (c ≡ b'*') ⊎ (has_star_segment ws ≡ true)
unfolding has_star_segment beq
has_star_segment-onto_head c [] h = ground arith
has_star_segment-onto_head c (w ∷ ws) h = ground arith

pub contains_byte-has_star_segment :
    (s : Bytes) → has_star_segment (split s) ≡ true → contains_byte s b'*' ≡ true
unfolding contains_byte
contains_byte-has_star_segment [] h = unfold split has_star_segment beq in cc
contains_byte-has_star_segment (c ∷ s) h = elim (split-cases c s) [
  | inl (at_dot, e) ↦ ground (
    arith,
    contains_byte-has_star_segment s
        (unfold has_star_segment beq in (sym (ap has_star_segment e) ∙ h)),
  )
  | inr (other, e) ↦ ground (
    arith,
    has_star_segment-onto_head c (split s) (sym (ap has_star_segment e) ∙ h),
    contains_byte-has_star_segment s,
  )
]
