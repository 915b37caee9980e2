-- ===== src/RingBuffer/Latency.antt =====
-- client/ringbuffer.go and the latency statistics of client/client.go, over whole histories.
use kcpq.RingBuffer.{RingBuffer, new_ring_buffer, add, to_slice, sum, calculate_avg_latency}
use kcpq.RingBuffer.Window.{
  IsValid, window, to_slice-window, new_ring_buffer-IsValid, next, add-next, next-IsValid,
  window-next,
}
use native.Mathlib.Nat.{div-zero}
use kcpq.Prelude.{
  ℕ, ◌-◌, ◌/◌, ◌<◌, ◌≡◌, refl, ap, ◌∙◌, Option, none, some, List, [], ◌∷◌, ◌++◌, append_assoc,
  append-nil, ◌==◌, if◌then◌else◌, length, drop, min, arith, length-append, length-drop,
  drop-append_le, drop-drop, drop-nil,
}

-- The calls of `recordLatency`, one for each latency.
unfoldable pub add_all : List ℕ → RingBuffer → Option RingBuffer
add_all [] rb = some rb
add_all (x ∷ xs) rb = elim (add x rb) [ none ↦ none | some rb' ↦ add_all xs rb' ]

-- The last `n` items.
abbrev pub last : ℕ → List ℕ → List ℕ
last n xs = drop (length xs - n) xs

last-snoc :
    (n x : ℕ) (h : List ℕ)
    → 0 < n
    → last n (h ++ x ∷ [])
      ≡ (if min (length h) n == n then drop 1 (last n h) else last n h) ++ x ∷ []
last-snoc n x h p = ground (
  arith,
  length-append h (x ∷ []),
  drop-append_le (length (h ++ x ∷ []) - n) h (x ∷ []),
  drop-drop (length h - n) 1 h,
)

module _ (size : ℕ) where
  -- The buffer holds the last items of a history.
  record Holds (h : List ℕ) (rb : RingBuffer) : Type 0 where
    valid : IsValid rb
    same_size : rb.size ≡ size
    items : window rb ≡ last size h
    number : rb.count ≡ min (length h) size

  next-Holds : (h : List ℕ) (x : ℕ) (rb : RingBuffer) → Holds h rb → Holds (h ++ x ∷ []) (next x rb)
  next-Holds h x rb v = record {
    valid = next-IsValid x rb v.valid;
    same_size = v.same_size;
    items = ground (
      arith,
      window-next x rb v.valid,
      last-snoc size x h (omega (arith, v.valid.some_room, v.same_size)),
      v.items,
      v.number,
      v.same_size,
    );
    number = ground (arith, length-append h (x ∷ []), v.number, v.same_size);
  }

  add_all-Holds :
      (h xs : List ℕ) (rb : RingBuffer)
      → Holds h rb
      → (rb' : RingBuffer) × (add_all xs rb ≡ some rb') × Holds (h ++ xs) rb'
  unfolding add_all
  add_all-Holds h [] rb v = (rb, refl, rw append-nil v)
  add_all-Holds h (x ∷ xs) rb v =
      let (rb', e, v') = add_all-Holds (h ++ x ∷ []) xs (next x rb) (next-Holds h x rb v) in
      (rb', rw (add-next x rb v.valid, add_all) e, rw append_assoc at v')

-- Whatever is added to a fresh buffer of a positive size, no `Add` fails, and afterwards `ToSlice`
-- returns the last items that were added, as many as the size at most, oldest first.
pub to_slice-add_all :
    (size : ℕ) (xs : List ℕ)
    → 0 < size
    → (rb : RingBuffer) × (add_all xs (new_ring_buffer size) ≡ some rb)
      × (to_slice rb ≡ last size xs)
to_slice-add_all size xs h =
    let (rb, e, v) = add_all-Holds size [] xs (new_ring_buffer size) start in
    (rb, e, to_slice-window rb v.valid ∙ v.items)
  where
    start : Holds size [] (new_ring_buffer size)
    start =
        unfold new_ring_buffer in
        record {
          valid = new_ring_buffer-IsValid size h;
          same_size = refl;
          items = ground (arith, drop-nil {A = ℕ} (0 - size));
          number = omega arith;
        }

-- The average latency is that of the last latencies recorded, as many as the size at most, and 0 where
-- none has been recorded.
pub calculate_avg_latency-add_all :
    (size : ℕ) (xs : List ℕ) (rb : RingBuffer)
    → 0 < size
    → add_all xs (new_ring_buffer size) ≡ some rb
    → calculate_avg_latency rb ≡ sum (last size xs) / min (length xs) size
unfolding calculate_avg_latency
calculate_avg_latency-add_all size xs rb h e =
    let (rb', e', items) = to_slice-add_all size xs h in
    let same : to_slice rb ≡ last size xs = ap to_slice {x = rb} {y = rb'} (cc) ∙ items in
    let size_eq : length (last size xs) ≡ min (length xs) size =
      omega (arith, length-drop (length xs - size) xs) in
    rw same (average (last size xs) (min (length xs) size) size_eq)
  where
    average :
        (ls : List ℕ) (n : ℕ)
        → length ls ≡ n
        → (if length ls == 0 then 0 else sum ls / length ls) ≡ sum ls / n
    average ls n e = ground (arith, div-zero (sum ls))
