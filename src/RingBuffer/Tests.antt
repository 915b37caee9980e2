-- ===== src/RingBuffer/Tests.antt =====
-- client/ringbuffer.go: runs of a ring buffer of three latencies.
use kcpq.RingBuffer.{RingBuffer, new_ring_buffer, to_slice}
use kcpq.RingBuffer.Latency.{add_all, last, to_slice-add_all}
use kcpq.Prelude.{ℕ, ◌≡◌, some, List, [], ◌∷◌, arith}

abbrev latencies : List ℕ
latencies = 10 ∷ 20 ∷ 30 ∷ 40 ∷ []

abbrev after : RingBuffer
after = record { buf = 40 ∷ 20 ∷ 30 ∷ []; size = 3; head = 1; tail = 1; count = 3 }

to_slice-add_all_example :
    (rb : RingBuffer) × (add_all latencies (new_ring_buffer 3) ≡ some rb)
    × (to_slice rb ≡ last 3 latencies)
to_slice-add_all_example = to_slice-add_all 3 latencies (omega arith)
