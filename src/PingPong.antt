-- ===== src/PingPong.antt =====
-- examples/ping_pong/main.go: the statistics that `printStats` computes of the round-trip times. The loss
-- rate and the jitter, which are floating point, are left out. A time is a number of nanoseconds below
-- 2 ^ 63; the sum and the average are the bit patterns of an int64, which wraps.
pub mod Sorting
pub mod Percentiles
pub mod Echo
pub mod Rounds
mod Tests
use kcpq.Prelude.{
  ℕ, zero, suc, ◌+◌, ◌-◌, ◌*◌, ◌/◌, ◌%◌, ◌^◌, Bool, true, false, Option, none, some, List, [], ◌∷◌,
  ltb, if◌then◌else◌, length,
}

-- `if rtt < min { min = rtt }` over the results
unfoldable pub min_of : ℕ → List ℕ → ℕ
min_of m [] = m
min_of m (x ∷ xs) = min_of (if ltb x m then x else m) xs

unfoldable pub max_of : ℕ → List ℕ → ℕ
max_of m [] = m
max_of m (x ∷ xs) = max_of (if ltb m x then x else m) xs

unfoldable pub sum_of : List ℕ → ℕ
sum_of [] = 0
sum_of (x ∷ xs) = (x + sum_of xs) % 2 ^ 64

-- `sum / time.Duration(len(ppt.Results))`: a signed division, which rounds towards 0.
unfoldable pub average : (sum n : ℕ) → ℕ
average sum n = if ltb sum (2 ^ 63) then sum / n else (2 ^ 64 - (2 ^ 64 - sum) / n) % 2 ^ 64

-- The loop over `j`: what stands at `i` in the end, and what stands behind it.
unfoldable pub pass : ℕ → List ℕ → ℕ × List ℕ
pass x [] = (x, [])
pass x (y ∷ ys) =
    let (least, rest) = pass (if ltb y x then y else x) ys in
    (least, (if ltb y x then x else y) ∷ rest)

-- The loop over `i`, for as many rounds as there are places.
unfoldable pub sort_rounds : ℕ → List ℕ → List ℕ
sort_rounds zero xs = xs
sort_rounds (suc n) [] = []
sort_rounds (suc n) (x ∷ xs) = let (least, rest) = pass x xs in least ∷ sort_rounds n rest

unfoldable pub sort : List ℕ → List ℕ
unfolding sort_rounds pass
sort xs = sort_rounds (length xs) xs

-- `none` is the panic of an index out of range.
abbrev pub get_elem? : List ℕ → ℕ → Option ℕ
get_elem? [] i = none
get_elem? (x ∷ xs) zero = some x
get_elem? (x ∷ xs) (suc i) = get_elem? xs i

unfoldable pub percentile : ℕ → List ℕ → Option ℕ
percentile k sorted = get_elem? sorted (length sorted * k / 100)

pub record Summary : Type 0 where
  pub least : ℕ
  pub greatest : ℕ
  pub avg : ℕ
  pub p50 : Option ℕ
  pub p95 : Option ℕ
  pub p99 : Option ℕ

-- `printStats`; `none` where no response has been received.
unfoldable pub summarize : List ℕ → Option Summary
unfolding sort percentile average
summarize [] = none
summarize (x ∷ xs) = some (record {
  least = min_of x (x ∷ xs);
  greatest = max_of x (x ∷ xs);
  avg = average (sum_of (x ∷ xs)) (length (x ∷ xs));
  p50 = percentile 50 (sort (x ∷ xs));
  p95 = percentile 95 (sort (x ∷ xs));
  p99 = percentile 99 (sort (x ∷ xs));
})
