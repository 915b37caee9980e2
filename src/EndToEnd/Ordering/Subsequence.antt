-- ===== src/EndToEnd/Ordering/Subsequence.antt =====
-- Lists that keep the order of another one, and five queues that stand one behind the other.
use kcpq.Prelude.{◌≡◌, sym, ap, ◌∙◌, List, [], ◌∷◌, ◌++◌, append_assoc}

pub data Subsequence {ℓ} {A : Type ℓ} : List A → List A → Type ℓ where
  end : Subsequence [] []
  skip : {xs ys : List A} (y : A) → Subsequence xs ys → Subsequence xs (y ∷ ys)
  keep : {xs ys : List A} (x : A) → Subsequence xs ys → Subsequence (x ∷ xs) (x ∷ ys)

-- What the first queue holds has gone furthest.
abbrev pub line {ℓ} : {A : Type ℓ} → List A → List A → List A → List A → List A → List A
line a b c d e = a ++ (b ++ (c ++ (d ++ e)))

module _ {ℓ} {A : Type ℓ} where
  Subsequence-refl : (xs : List A) → Subsequence xs xs
  Subsequence-refl [] = end
  Subsequence-refl (x ∷ xs) = keep x (Subsequence-refl xs)

  pub Subsequence-trans :
      {ys zs : List A} → Subsequence ys zs → {xs : List A} → Subsequence xs ys → Subsequence xs zs
  Subsequence-trans end s = s
  Subsequence-trans (skip z t) s = skip z (Subsequence-trans t s)
  Subsequence-trans (keep _ t) (skip y s) = skip y (Subsequence-trans t s)
  Subsequence-trans (keep _ t) (keep x s) = keep x (Subsequence-trans t s)

  behind : (a : List A) {xs ys : List A} → Subsequence xs ys → Subsequence (a ++ xs) (a ++ ys)
  behind [] s = s
  behind (x ∷ a) s = keep x (behind a s)

  pub Subsequence-snoc :
      (x : A) {xs ys : List A} → Subsequence xs ys → Subsequence (xs ++ x ∷ []) (ys ++ x ∷ [])
  Subsequence-snoc x end = keep x end
  Subsequence-snoc x (skip y s) = skip y (Subsequence-snoc x s)
  Subsequence-snoc x (keep y s) = keep y (Subsequence-snoc x s)

  pub line-snoc :
      (a b c d e : List A) (x : A) → line a b c d (e ++ x ∷ []) ≡ line a b c d e ++ x ∷ []
  line-snoc a b c d e x =
      ap (λ l. a ++ (b ++ (c ++ l))) (sym (append_assoc d e (x ∷ [])))
      ∙ ap (λ l. a ++ (b ++ l)) (sym (append_assoc c (d ++ e) (x ∷ [])))
      ∙ ap (λ l. a ++ l) (sym (append_assoc b (c ++ (d ++ e)) (x ∷ [])))
      ∙ sym (append_assoc a (b ++ (c ++ (d ++ e))) (x ∷ []))

  -- The first of a queue becomes the last of the one before.
  pub line_fourth : (a b c d e : List A) (x : A) → line a b c (d ++ x ∷ []) e ≡ line a b c d (x ∷ e)
  line_fourth a b c d e x = ap (λ l. a ++ (b ++ (c ++ l))) (append_assoc d (x ∷ []) e)

  pub line_third : (a b c d e : List A) (x : A) → line a b (c ++ x ∷ []) d e ≡ line a b c (x ∷ d) e
  line_third a b c d e x = ap (λ l. a ++ (b ++ l)) (append_assoc c (x ∷ []) (d ++ e))

  pub line_second : (a b c d e : List A) (x : A) → line a (b ++ x ∷ []) c d e ≡ line a b (x ∷ c) d e
  line_second a b c d e x = ap (λ l. a ++ l) (append_assoc b (x ∷ []) (c ++ (d ++ e)))

  pub line_first : (a b c d e : List A) (x : A) → line (a ++ x ∷ []) b c d e ≡ line a (x ∷ b) c d e
  line_first a b c d e x = append_assoc a (x ∷ []) (b ++ (c ++ (d ++ e)))

  -- The first of a queue is lost.
  pub line_without_fifth :
      (a b c d e : List A) (x : A) → Subsequence (line a b c d e) (line a b c d (x ∷ e))
  line_without_fifth a b c d e x =
      behind a (behind b (behind c (behind d (skip x (Subsequence-refl e)))))

  pub line_without_third :
      (a b c d e : List A) (x : A) → Subsequence (line a b c d e) (line a b (x ∷ c) d e)
  line_without_third a b c d e x = behind a (behind b (skip x (Subsequence-refl (c ++ (d ++ e)))))

  pub nothing : (xs : List A) → Subsequence [] xs
  nothing [] = end
  nothing (x ∷ xs) = skip x (nothing xs)

  pub front : (xs ys : List A) → Subsequence xs (xs ++ ys)
  front [] ys = nothing ys
  front (x ∷ xs) ys = keep x (front xs ys)
