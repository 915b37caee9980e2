-- ===== src/PingPong/Sorting.antt =====
-- examples/ping_pong/main.go: the exchange sort of `printStats`.
use kcpq.PingPong.{pass, sort_rounds, sort}
use kcpq.Prelude.{
  ℕ, zero, suc, ◌+◌, ◌≤◌, ◌≡◌, refl, true, false, List, [], ◌∷◌, ◌==◌, ltb, if◌then◌else◌, length,
  arith, All,
}

abbrev pub IsSorted : List ℕ → Type 0
IsSorted [] = Unit
IsSorted (x ∷ xs) = All (λ y. x ≤ y) xs × IsSorted xs

unfoldable pub occurrences : ℕ → List ℕ → ℕ
occurrences a [] = 0
occurrences a (x ∷ xs) = (if x == a then 1 else 0) + occurrences a xs

All-weaken : (a b : ℕ) (xs : List ℕ) → a ≤ b → All (λ y. b ≤ y) xs → All (λ y. a ≤ y) xs
All-weaken a b [] h v = tt
All-weaken a b (x ∷ xs) h (p, v) = (omega arith, All-weaken a b xs h v)

-- A round puts the least item in front, and loses none.
pass_lem :
    (x : ℕ) (xs : List ℕ)
    → let r = pass x xs in All (λ y. r.0 ≤ y) r.1 × (r.0 ≤ x) × (length r.1 ≡ length xs)
unfolding pass
pass_lem x [] = ground arith
pass_lem x (y ∷ ys) = ground (arith, pass_lem (if ltb y x then y else x) ys)

pub occurrences-pass :
    (a x : ℕ) (xs : List ℕ)
    → let r = pass x xs in
      (if r.0 == a then 1 else 0) + occurrences a r.1 ≡ (if x == a then 1 else 0) + occurrences a xs
unfolding pass occurrences
occurrences-pass a x [] = refl
occurrences-pass a x (y ∷ ys) = ground (arith, occurrences-pass a (if ltb y x then y else x) ys)

pub All-pass :
    (P : ℕ → Type 0) (x : ℕ) (xs : List ℕ) → P x → All P xs → P (pass x xs).0 × All P (pass x xs).1
unfolding pass
All-pass P x [] h v = (h, tt)
All-pass P x (y ∷ ys) h (p, v) =
    elim (ltb y x)
      as (λ b.
        let r = pass (if b then y else x) ys in P r.0 × (P (if b then x else y) × All P r.1)) [
          | true ↦ let (l, r) = All-pass P y ys p v in (l, (h, r))
          | false ↦ let (l, r) = All-pass P x ys h v in (l, (p, r))
        ]

All-sort_rounds : (P : ℕ → Type 0) (n : ℕ) (xs : List ℕ) → All P xs → All P (sort_rounds n xs)
unfolding sort_rounds
All-sort_rounds P zero xs v = v
All-sort_rounds P (suc n) [] v = tt
All-sort_rounds P (suc n) (x ∷ xs) (p, v) =
    let (l, r) = All-pass P x xs p v in (l, All-sort_rounds P n (pass x xs).1 r)

pub All-sort : (P : ℕ → Type 0) (xs : List ℕ) → All P xs → All P (sort xs)
unfolding sort
All-sort P xs v = All-sort_rounds P (length xs) xs v

sort_rounds_lem :
    (n : ℕ) (xs : List ℕ)
    → length xs ≤ n
    → IsSorted (sort_rounds n xs) × (length (sort_rounds n xs) ≡ length xs)
unfolding sort_rounds
sort_rounds_lem zero [] h = (tt, refl)
sort_rounds_lem zero (x ∷ xs) h = absurd (omega arith)
sort_rounds_lem (suc n) [] h = (tt, refl)
sort_rounds_lem (suc n) (x ∷ xs) h =
    let (least, below, same) = pass_lem x xs in
    let (sorted, size) = sort_rounds_lem n (pass x xs).1 (omega (arith, same)) in
    (
      (All-sort_rounds (λ y. (pass x xs).0 ≤ y) n (pass x xs).1 least, sorted),
      omega (arith, size, same),
    )

occurrences-sort_rounds :
    (a n : ℕ) (xs : List ℕ) → occurrences a (sort_rounds n xs) ≡ occurrences a xs
unfolding sort_rounds occurrences
occurrences-sort_rounds a zero xs = refl
occurrences-sort_rounds a (suc n) [] = refl
occurrences-sort_rounds a (suc n) (x ∷ xs) =
    omega (arith, occurrences-sort_rounds a n (pass x xs).1, occurrences-pass a x xs)

-- The exchange sort returns the same times, each as often, in ascending order.
pub sort_lem :
    (xs : List ℕ)
    → IsSorted (sort xs)
      × (length (sort xs) ≡ length xs)
      × ((a : ℕ) → occurrences a (sort xs) ≡ occurrences a xs)
unfolding sort
sort_lem xs =
    let (sorted, size) = sort_rounds_lem (length xs) xs (omega arith) in
    (sorted, size, λ a. occurrences-sort_rounds a (length xs) xs)
