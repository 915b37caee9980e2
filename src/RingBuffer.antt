-- ===== src/RingBuffer.antt =====
-- client/ringbuffer.go, and what client/client.go computes from it: the window of latencies. Its
-- lock is held through each method. A duration is a natural number of nanoseconds: latencies are not
-- negative, and their sums are taken to stay below 2 ^ 63.
pub mod Window
pub mod Latency
mod Tests
use kcpq.Prelude.{
  ℕ, suc, zero, ◌+◌, ◌-◌, ◌%◌, ◌/◌, Option, none, some, List, [], ◌∷◌, ◌++◌, ◌==◌, ltb,
  if◌then◌else◌, length, take, drop, min,
}

pub record RingBuffer : Type 0 where
  pub buf : List ℕ
  pub size : ℕ
  pub head : ℕ
  pub tail : ℕ
  pub count : ℕ

abbrev pub replicate : ℕ → ℕ → List ℕ
replicate zero a = []
replicate (suc n) a = a ∷ replicate n a

-- `xs[i] = v` in range
abbrev pub set : List ℕ → ℕ → ℕ → List ℕ
set [] i v = []
set (x ∷ xs) zero v = v ∷ xs
set (x ∷ xs) (suc i) v = x ∷ set xs i v

-- Go's `copy(dst, src)`: the new `dst`
abbrev pub copy : List ℕ → List ℕ → List ℕ
copy [] src = []
copy (d ∷ dst) [] = d ∷ dst
copy (d ∷ dst) (s ∷ src) = s ∷ copy dst src

pub new_ring_buffer : ℕ → RingBuffer
new_ring_buffer size = record { buf = replicate size 0; size = size; head = 0; tail = 0; count = 0 }

-- `none` is the panic of a buffer of size 0: a remainder by 0, before anything is written.
pub add : ℕ → RingBuffer → Option RingBuffer
add item rb =
    let moved : RingBuffer =
      if rb.count == rb.size
      then record rb { tail = (rb.tail + 1) % rb.size }
      else record rb { count = rb.count + 1 } in
    if rb.size == 0
    then none
    else some (record moved { buf = set rb.buf rb.head item; head = (rb.head + 1) % rb.size })

pub to_slice : RingBuffer → List ℕ
to_slice rb =
    let result = replicate rb.count 0 in
    let upper = drop rb.head rb.buf in
    let n = min (length result) (length upper) in
    let half = copy result upper in
    if rb.count == 0
    then []
    else if ltb rb.count rb.size
    then copy result (take rb.count rb.buf)
    else take n half ++ copy (drop n half) (take rb.tail rb.buf)

pub len : RingBuffer → ℕ
len rb = rb.count

pub reset : RingBuffer → RingBuffer
reset rb = record rb { head = 0; tail = 0; count = 0 }

pub sum : List ℕ → ℕ
sum [] = 0
sum (l ∷ ls) = l + sum ls

-- `calculateAvgLatencyLocked` of client/client.go
pub calculate_avg_latency : RingBuffer → ℕ
calculate_avg_latency rb =
    let latencies = to_slice rb in
    if length latencies == 0 then 0 else sum latencies / length latencies
