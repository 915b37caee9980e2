-- ===== src/PingPong/Percentiles.antt =====
-- examples/ping_pong/main.go: the summary of the round-trip times.
use kcpq.PingPong.{min_of, max_of, sum_of, average, sort, get_elem?, percentile, Summary, summarize}
use kcpq.PingPong.Sorting.{IsSorted, sort_lem, All-sort}
use native.Mathlib.Nat.{le-div_iff_mul-le, div-lt_iff_lt-mul}
use kcpq.Prelude.{
  ℕ, zero, suc, ◌*◌, ◌/◌, ◌≤◌, ◌<◌, ◌≡◌, refl, ap, sym, ◌∙◌, ◌+◌, ◌^◌, subst, some, List, [], ◌∷◌,
  ltb, if◌then◌else◌, length, arith, All,
}

get_elem?_total : (xs : List ℕ) (i : ℕ) → i < length xs → (v : ℕ) × (get_elem? xs i ≡ some v)
get_elem?_total [] i h = absurd (omega arith)
get_elem?_total (x ∷ xs) zero h = (x, refl)
get_elem?_total (x ∷ xs) (suc i) h = get_elem?_total xs i (omega arith)

get_elem?-All : (P : ℕ → Type 0) (xs : List ℕ) (i a : ℕ) → All P xs → get_elem? xs i ≡ some a → P a
get_elem?-All P [] i a v e = cc
get_elem?-All P (x ∷ xs) zero a (p, v) e = subst P (cc) p
get_elem?-All P (x ∷ xs) (suc i) a (p, v) e = get_elem?-All P xs i a v e

get_elem?_mono :
    (xs : List ℕ) (i j a b : ℕ)
    → IsSorted xs
    → i ≤ j
    → get_elem? xs i ≡ some a
    → get_elem? xs j ≡ some b
    → a ≤ b
get_elem?_mono [] i j a b s h e e' = cc
get_elem?_mono (x ∷ xs) zero zero a b s h e e' = ground arith
get_elem?_mono (x ∷ xs) zero (suc j) a b (least, s) h e e' =
    ground (arith, get_elem?-All (λ y. x ≤ y) xs j b least e')
get_elem?_mono (x ∷ xs) (suc i) zero a b s h e e' = absurd (omega arith)
get_elem?_mono (x ∷ xs) (suc i) (suc j) a b (least, s) h e e' =
    get_elem?_mono xs i j a b s (omega arith) e e'

min_of_lem : (m : ℕ) (xs : List ℕ) → (min_of m xs ≤ m) × All (λ y. min_of m xs ≤ y) xs
unfolding min_of
min_of_lem m [] = ground arith
min_of_lem m (x ∷ xs) = ground (arith, min_of_lem (if ltb x m then x else m) xs)

max_of_lem : (m : ℕ) (xs : List ℕ) → (m ≤ max_of m xs) × All (λ y. y ≤ max_of m xs) xs
unfolding max_of
max_of_lem m [] = ground arith
max_of_lem m (x ∷ xs) = ground (arith, max_of_lem (if ltb m x then x else m) xs)

-- The sum of the times, which does not wrap.
unfoldable pub total : List ℕ → ℕ
total [] = 0
total (x ∷ xs) = x + total xs

total_bounds :
    (lo hi : ℕ) (xs : List ℕ)
    → All (λ y. lo ≤ y) xs
    → All (λ y. y ≤ hi) xs
    → (lo * length xs ≤ total xs) × (total xs ≤ hi * length xs)
unfolding total
total_bounds lo hi [] v w = ground arith
total_bounds lo hi (x ∷ xs) (p, v) (q, w) = grind (arith, total_bounds lo hi xs v w)

sum_of-total : (xs : List ℕ) → total xs < 2 ^ 63 → sum_of xs ≡ total xs
unfolding sum_of total
sum_of-total [] h = refl
sum_of-total (x ∷ xs) h = ground (arith, sum_of-total xs)

average_lem : (sum n : ℕ) → sum < 2 ^ 63 → average sum n ≡ sum / n
unfolding average
average_lem sum n h = ground arith

avg_bounds :
    (lo hi sum n : ℕ) → 0 < n → lo * n ≤ sum → sum ≤ hi * n → (lo ≤ sum / n) × (sum / n ≤ hi)
avg_bounds lo hi sum n pos low high = (
  (le-div_iff_mul-le pos).1 low,
  grind (arith, (div-lt_iff_lt-mul {k = n} {x = sum} {y = suc hi} pos).1 (grind arith)),
)

-- Of at least one response, with times whose sum is below 2 ^ 63 nanoseconds (292 years), the summary
-- never reads out of range: the three percentiles are there, and in order; they, the average and all
-- the times lie between the least and the greatest.
pub summarize_lem :
    (x : ℕ) (xs : List ℕ)
    → total (x ∷ xs) < 2 ^ 63
    → (s : Summary) × (a : ℕ) × (b : ℕ) × (c : ℕ) × (summarize (x ∷ xs) ≡ some s)
      × (s.p50 ≡ some a)
      × (s.p95 ≡ some b)
      × (s.p99 ≡ some c)
      × (s.least ≤ a)
      × (a ≤ b)
      × (b ≤ c)
      × (c ≤ s.greatest)
      × (s.least ≤ s.avg)
      × (s.avg ≤ s.greatest)
      × All (λ y. s.least ≤ y) (x ∷ xs)
      × All (λ y. y ≤ s.greatest) (x ∷ xs)
unfolding summarize percentile
summarize_lem x xs bounded =
    let all = x ∷ xs in
    let (sorted, size, same) = sort_lem all in
    let (lower, low) = min_of_lem x all in
    let (upper, high) = max_of_lem x all in
    let (a, ea) = get_elem?_total (sort all) (length (sort all) * 50 / 100) (omega (arith, size)) in
    let (b, eb) = get_elem?_total (sort all) (length (sort all) * 95 / 100) (omega (arith, size)) in
    let (c, ec) = get_elem?_total (sort all) (length (sort all) * 99 / 100) (omega (arith, size)) in
    let (total_low, total_high) = total_bounds (min_of x all) (max_of x all) all low high in
    let (avg_low, avg_high) =
      avg_bounds (min_of x all) (max_of x all) (total all) (length all) (omega arith) total_low
        total_high in
    let mean =
      average_lem (sum_of all) (length all)
        (subst (λ n. n < 2 ^ 63) (sym (sum_of-total all bounded)) bounded)
      ∙ ap (λ n. n / length all) (sum_of-total all bounded) in
    (
      _,
      a,
      b,
      c,
      refl,
      ea,
      eb,
      ec,
      get_elem?-All (λ y. min_of x all ≤ y) (sort all) (length (sort all) * 50 / 100) a
          (All-sort _ all low) ea,
      get_elem?_mono (sort all) (length (sort all) * 50 / 100) (length (sort all) * 95 / 100) a b
          sorted (omega arith) ea eb,
      get_elem?_mono (sort all) (length (sort all) * 95 / 100) (length (sort all) * 99 / 100) b c
          sorted (omega arith) eb ec,
      get_elem?-All (λ y. y ≤ max_of x all) (sort all) (length (sort all) * 99 / 100) c
          (All-sort _ all high) ec,
      subst (λ n. min_of x all ≤ n) (sym mean) avg_low,
      subst (λ n. n ≤ max_of x all) (sym mean) avg_high,
      low,
      high,
    )
