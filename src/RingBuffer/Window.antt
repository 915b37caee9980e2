-- ===== src/RingBuffer/Window.antt =====
-- client/ringbuffer.go: the buffer holds the last `size` items that were added, oldest first.
use kcpq.RingBuffer.{RingBuffer, replicate, set, copy, new_ring_buffer, add, to_slice}
use native.Mathlib.Decide.{dec_lt}
use native.Mathlib.Numerals.{add-one}
use native.Mathlib.Nat.{mod-eq_of_lt, mod_self}
use kcpq.Prelude.{
  ℕ, suc, zero, ◌+◌, ◌%◌, ◌≤◌, ◌<◌, ◌≡◌, ◌⊎◌, inl, inr, refl, sym, ap, ap₂, ◌∙◌, some, List, [],
  ◌∷◌, ◌++◌, append_assoc, append-nil, ◌==◌, ltb, if◌then◌else◌, length, take, drop, min, arith,
  length-take, length-drop, Bool-cases,
}

pub record IsValid (rb : RingBuffer) : Type 0 where
  pub sized : length rb.buf ≡ rb.size
  pub some_room : 0 < rb.size
  pub within : rb.count ≤ rb.size
  pub head_in : rb.head < rb.size
  pub filling : rb.count < rb.size → (rb.head ≡ rb.count) × (rb.tail ≡ 0)
  pub wrapped : rb.count ≡ rb.size → rb.tail ≡ rb.head

-- The items held, oldest first.
abbrev pub window : RingBuffer → List ℕ
window rb =
    if ltb rb.count rb.size
    then take rb.count rb.buf
    else drop rb.head rb.buf ++ take rb.head rb.buf

length-replicate : (n a : ℕ) → length (replicate n a) ≡ n
length-replicate zero a = refl
length-replicate (suc n) a = ap suc (length-replicate n a)

copy_whole : (dst src : List ℕ) → length src ≡ length dst → copy dst src ≡ src
copy_whole [] [] e = refl
copy_whole [] (s ∷ src) e = absurd (omega arith)
copy_whole (d ∷ dst) [] e = absurd (omega arith)
copy_whole (d ∷ dst) (s ∷ src) e = ap (◌∷◌ s) (copy_whole dst src (omega arith))

-- Two copies, one behind the other, fill the slice.
copy_two :
    (dst xs ys : List ℕ)
    → length dst ≡ length xs + length ys
    → let n = min (length dst) (length xs) in
      take n (copy dst xs) ++ copy (drop n (copy dst xs)) ys ≡ xs ++ ys
copy_two [] [] [] e = refl
copy_two [] [] (y ∷ ys) e = absurd (omega arith)
copy_two [] (x ∷ xs) ys e = absurd (omega arith)
copy_two (d ∷ dst) [] ys e =
    let m : min (suc (length dst)) 0 ≡ 0 = omega arith in
    rw m (copy_whole (d ∷ dst) ys (omega arith))
copy_two (d ∷ dst) (x ∷ xs) ys e = min_suc (copy_two dst xs ys (omega arith))
  where
    min_suc :
        take (min (length dst) (length xs)) (copy dst xs)
            ++ copy (drop (min (length dst) (length xs)) (copy dst xs)) ys
          ≡ xs ++ ys
        → take (min (suc (length dst)) (suc (length xs))) (x ∷ copy dst xs)
            ++ copy (drop (min (suc (length dst)) (suc (length xs))) (x ∷ copy dst xs)) ys
          ≡ x ∷ (xs ++ ys)
    min_suc ih =
        let m : min (suc (length dst)) (suc (length xs)) ≡ suc (min (length dst) (length xs)) =
          omega arith in
        rw m (ap (◌∷◌ x) ih)

take_none : (n : ℕ) (xs : List ℕ) → n ≡ 0 → take n xs ≡ []
take_none zero xs e = refl
take_none (suc n) xs e = absurd (omega arith)

-- `ToSlice` returns the items held, oldest first.
pub to_slice-window : (rb : RingBuffer) → IsValid rb → to_slice rb ≡ window rb
unfolding to_slice
to_slice-window rb v = elim (Bool-cases (ltb rb.count rb.size)) [
  | inl room ↦ ground (
    arith,
    copy_whole (replicate rb.count 0) (take rb.count rb.buf),
    length-replicate rb.count 0,
    length-take rb.count rb.buf,
    take_none rb.count rb.buf,
  )
  | inr full ↦ ground (
    arith,
    copy_two (replicate rb.count 0) (drop rb.head rb.buf) (take rb.head rb.buf),
    length-replicate rb.count 0,
    length-take rb.head rb.buf,
    length-drop rb.head rb.buf,
  )
]

length-set : (xs : List ℕ) (i v : ℕ) → length (set xs i v) ≡ length xs
length-set [] i v = refl
length-set (x ∷ xs) zero v = refl
length-set (x ∷ xs) (suc i) v = ap suc (length-set xs i v)

-- Every operation keeps the shape.
pub new_ring_buffer-IsValid : (n : ℕ) → 0 < n → IsValid (new_ring_buffer n)
unfolding new_ring_buffer
new_ring_buffer-IsValid n h = record {
  sized = length-replicate n 0;
  some_room = h;
  within = omega arith;
  head_in = h;
  filling = λ _. (refl, refl);
  wrapped = λ _. refl;
}

-- The state that `Add` leaves.
abbrev pub next : ℕ → RingBuffer → RingBuffer
next item rb = record rb {
  buf = set rb.buf rb.head item;
  head = (rb.head + 1) % rb.size;
  tail = if rb.count == rb.size then (rb.tail + 1) % rb.size else rb.tail;
  count = if rb.count == rb.size then rb.count else rb.count + 1;
}

pub add-next : (item : ℕ) (rb : RingBuffer) → IsValid rb → add item rb ≡ some (next item rb)
unfolding add
add-next item rb v = ground arith

-- One step round the buffer.
step_mod :
    (i n : ℕ) → i < n → ((i + 1 < n) × ((i + 1) % n ≡ i + 1)) ⊎ ((i + 1 ≡ n) × ((i + 1) % n ≡ 0))
step_mod i n h = elim (dec_lt (i + 1) n) [
  | yes p ↦ inl (p, mod-eq_of_lt p)
  | no p ↦ let e : i + 1 ≡ n = omega arith in inr (e, rw e (mod_self n))
]

pub next-IsValid : (item : ℕ) (rb : RingBuffer) → IsValid rb → IsValid (next item rb)
next-IsValid item rb v = record {
  sized = length-set rb.buf rb.head item ∙ v.sized;
  some_room = v.some_room;
  within = ground arith;
  head_in = elim (step_mod rb.head rb.size v.head_in) [
    | inl (p, m) ↦ omega (arith, m)
    | inr (p, m) ↦ omega (arith, m)
  ];
  filling = λ h. ground (arith, step_mod rb.head rb.size v.head_in);
  wrapped = λ h. ground (arith, step_mod rb.head rb.size v.head_in, step_mod rb.tail rb.size);
}

take-set : (i v : ℕ) (xs : List ℕ) → i < length xs → take (suc i) (set xs i v) ≡ take i xs ++ v ∷ []
take-set i v [] h = absurd (omega arith)
take-set zero v (x ∷ xs) h = refl
take-set (suc i) v (x ∷ xs) h = ap (◌∷◌ x) (take-set i v xs (omega arith))

take_all : (n : ℕ) (xs : List ℕ) → length xs ≤ n → take n xs ≡ xs
take_all zero [] h = refl
take_all zero (x ∷ xs) h = absurd (omega arith)
take_all (suc n) [] h = refl
take_all (suc n) (x ∷ xs) h = ap (◌∷◌ x) (take_all n xs (omega arith))

drop-set : (i v : ℕ) (xs : List ℕ) → drop (suc i) (set xs i v) ≡ drop (suc i) xs
drop-set i v [] = refl
drop-set zero v (x ∷ xs) = refl
drop-set (suc i) v (x ∷ xs) = drop-set i v xs

drop_all : (n : ℕ) (xs : List ℕ) → length xs ≤ n → drop n xs ≡ []
drop_all zero [] h = refl
drop_all zero (x ∷ xs) h = absurd (omega arith)
drop_all (suc n) [] h = refl
drop_all (suc n) (x ∷ xs) h = drop_all n xs (omega arith)

drop_one :
    (h : ℕ) (xs ys : List ℕ) → h < length xs → drop 1 (drop h xs ++ ys) ≡ drop (suc h) xs ++ ys
drop_one h [] ys p = absurd (omega arith)
drop_one zero (x ∷ xs) ys p = refl
drop_one (suc h) (x ∷ xs) ys p = drop_one h xs ys (omega arith)

-- Writing at `i` in the window that begins behind `i`.
turn :
    (i v : ℕ) (xs : List ℕ)
    → i < length xs
    → let k = (i + 1) % length xs in
      drop k (set xs i v) ++ take k (set xs i v) ≡ drop (suc i) xs ++ (take i xs ++ v ∷ [])
turn i v xs h = elim (step_mod i (length xs) h) [
  | inl (p, m) ↦
      let k : (i + 1) % length xs ≡ suc i = omega (arith, m) in
      rw k (ap₂ ◌++◌ (drop-set i v xs) (take-set i v xs h))
  | inr (p, m) ↦ rw m (
      append-nil (set xs i v)
      ∙ sym (take_all (suc i) (set xs i v) (omega (arith, length-set xs i v)))
      ∙ take-set i v xs h
      ∙ ap (λ r. r ++ (take i xs ++ v ∷ [])) (sym (drop_all (suc i) xs (omega arith))))
]

pub window-next :
    (item : ℕ) (rb : RingBuffer)
    → IsValid rb
    → window (next item rb)
      ≡ (if rb.count == rb.size then drop 1 (window rb) else window rb) ++ item ∷ []
window-next item rb v = ground (
  arith,
  step_mod rb.head rb.size v.head_in,
  turn rb.head item rb.buf,
  take-set rb.head item rb.buf,
  drop_one rb.head rb.buf (take rb.head rb.buf),
  append_assoc (drop (suc rb.head) rb.buf) (take rb.head rb.buf) (item ∷ []),
  drop_all (suc rb.head) rb.buf,
  add-one rb.head,
  v.sized,
)
