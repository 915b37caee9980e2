-- ===== src/Subject/Splitting.antt =====
-- Laws of `Split`, `HasSuffix`, `TrimSuffix` and `HasPrefix`.
use kcpq.Subject.{dot, onto_head, split, has_prefix, has_suffix, trim_suffix}
use kcpq.Prelude.{
  ℕ, ◌≡◌, ◌≢◌, ◌↔◌, ◌⊎◌, inl, inr, refl, sym, subst, ap, ap₂, ◌∙◌, true, List, [], ◌∷◌, ◌++◌, Bytes,
  beq, beq_iff, beq_refl, length, take, arith, Bool-cases, length-append, take-append_length,
}

-- `strings.Join(parts, ".")`
unfoldable pub join : List Bytes → Bytes
join [] = []
join (w ∷ []) = w
join (w ∷ v ∷ ws) = w ++ (dot ∷ join (v ∷ ws))

pub split-cases :
    (c : ℕ) (s : Bytes)
    → ((c ≡ dot) × (split (c ∷ s) ≡ [] ∷ split s))
      ⊎ ((c ≢ dot) × (split (c ∷ s) ≡ onto_head c (split s)))
unfolding split
split-cases c s = ground arith

onto_head-cons :
    (c : ℕ) (ws : List Bytes) → (v : Bytes) × (vs : List Bytes) × (onto_head c ws ≡ v ∷ vs)
onto_head-cons c [] = (c ∷ [], [], refl)
onto_head-cons c (w ∷ ws) = (c ∷ w, ws, refl)

pub split-cons : (s : Bytes) → (w : Bytes) × (ws : List Bytes) × (split s ≡ w ∷ ws)
split-cons [] = ([], [], unfold split in refl)
split-cons (c ∷ s) = elim (split-cases c s) [
  | inl (at_dot, e) ↦ ([], split s, e)
  | inr (other, e) ↦ let (v, vs, e') = onto_head-cons c (split s) in (v, vs, e ∙ e')
]

join-onto_head :
    (c : ℕ) (w : Bytes) (ws : List Bytes) → join (onto_head c (w ∷ ws)) ≡ c ∷ join (w ∷ ws)
unfolding join
join-onto_head c w [] = refl
join-onto_head c w (v ∷ ws) = refl

join-nil_cons : (w : Bytes) (ws : List Bytes) → join ([] ∷ w ∷ ws) ≡ dot ∷ join (w ∷ ws)
unfolding join
join-nil_cons w ws = refl

-- Joining the segments of a subject gives the subject back.
pub join-split : (s : Bytes) → join (split s) ≡ s
join-split [] = unfold split join in refl
join-split (c ∷ s) =
    let (w, ws, e) = split-cons s in
    let ih = join-split s in
    elim (split-cases c s) [
      | inl (at_dot, e') ↦
          rw e' (rw e (join-nil_cons w ws ∙ ap₂ ◌∷◌ (sym at_dot) (ap join (sym e) ∙ ih)))
      | inr (other, e') ↦ rw e' (rw e (join-onto_head c w ws ∙ ap (◌∷◌ c) (ap join (sym e) ∙ ih)))
    ]

-- Two subjects with the same segments are the same.
pub split-injective : (s t : Bytes) → split s ≡ split t → s ≡ t
split-injective s t e = sym (join-split s) ∙ ap join e ∙ join-split t

onto_head-append :
    (c : ℕ) (s : Bytes) (vs : List Bytes)
    → onto_head c (split s ++ vs) ≡ onto_head c (split s) ++ vs
onto_head-append c s vs = let (w, ws, e) = split-cons s in rw e

pub split-append_dot : (s t : Bytes) → split (s ++ (dot ∷ t)) ≡ split s ++ split t
split-append_dot [] t = unfold split in refl
split-append_dot (c ∷ s) t = elim (split-cases c s) [
  | inl (at_dot, e) ↦ elim (split-cases c (s ++ (dot ∷ t))) [
    | inl (_, e') ↦ rw (e, e') (ap (◌∷◌ []) (split-append_dot s t))
    | inr (ne, _) ↦ absurd (ne at_dot)
  ]
  | inr (other, e) ↦ elim (split-cases c (s ++ (dot ∷ t))) [
    | inl (eq, _) ↦ absurd (other eq)
    | inr (_, e') ↦
        rw (e, e') (ap (onto_head c) (split-append_dot s t) ∙ onto_head-append c s (split t))
  ]
]

pub has_prefix_iff : (s p : Bytes) → (has_prefix s p ≡ true) ↔ ((t : Bytes) × (s ≡ p ++ t))
unfolding has_prefix
has_prefix_iff s [] = (λ _. (s, refl), λ _. refl)
has_prefix_iff [] (c ∷ p) = (λ h. absurd (cc h), λ w. absurd (cc w.1))
has_prefix_iff (d ∷ s) (c ∷ p) = (
  λ h. let (t, e) = (has_prefix_iff s p).0 (ground arith) in (t, ap₂ ◌∷◌ (ground arith) e),
  λ w. ground (arith, (has_prefix_iff s p).1 (w.0, cc w.1), w.1),
)

has_suffix-true : (s p : Bytes) → has_suffix s p ≡ true → (t : Bytes) × (s ≡ t ++ p)
unfolding has_suffix
has_suffix-true [] p h = ([], (beq_iff [] p).0 h)
has_suffix-true (c ∷ s) p h = elim (Bool-cases (beq (c ∷ s) p)) [
  | inl same ↦ ([], (beq_iff (c ∷ s) p).0 same)
  | inr other ↦ let (t, e) = has_suffix-true s p (ground arith) in (c ∷ t, ap (◌∷◌ c) e)
]

has_suffix_self : (p : Bytes) → has_suffix p p ≡ true
unfolding has_suffix
has_suffix_self [] = beq_refl []
has_suffix_self (c ∷ p) = rw (beq_refl (c ∷ p))

pub has_suffix-append : (t p : Bytes) → has_suffix (t ++ p) p ≡ true
unfolding has_suffix
has_suffix-append [] p = has_suffix_self p
has_suffix-append (c ∷ t) p = ground (arith, has_suffix-append t p)

pub has_suffix_iff : (s p : Bytes) → (has_suffix s p ≡ true) ↔ ((t : Bytes) × (s ≡ t ++ p))
has_suffix_iff s p = (
  has_suffix-true s p,
  λ w. subst (λ u. has_suffix u p ≡ true) (sym w.1) (has_suffix-append w.0 p),
)

pub trim_suffix-append : (t p : Bytes) → trim_suffix (t ++ p) p ≡ t
unfolding trim_suffix
trim_suffix-append t p =
    ap (λ n. take n (t ++ p)) {y = length t} (omega (arith, length-append t p))
    ∙ take-append_length t p
