-- ===== src/PerfTest/Tests.antt =====
-- examples/perf_test/main.go: one frame of ten bytes, and two messages that are recorded.
use kcpq.PerfTest.Racing.{
  Recording, begin, fresh_recording, advance, loading, swapping, here, next, begins, advances,
  IsExact, Reach-IsExact,
}
use kcpq.PerfTest.{new_stats, record_message, Publisher, publish_frame, on_message}
use kcpq.PerfTest.Latencies.{published_frame_is_recorded}
use kcpq.Client.Reconnecting.{connected_client}
use kcpq.Relay.{count}
use kcpq.Protocol.{Message, parsed, parse_with_remaining}
use kcpq.Prelude.{◌≡◌, ◌+◌, ◌-◌, refl, false, some, [], ◌∷◌, ◌++◌, Bytes, arith}

abbrev publisher : Publisher
publisher = record {
  cli = connected_client [];
  stats = new_stats;
  frame_num = 0;
  published_count = 0;
  published_bytes = 0;
}

two_recorded : record_message 8 30 (record_message 9 20 new_stats) ≡ record {
  total_messages = 2;
  total_bytes = 17;
  total_latency = 50;
  min_latency = 20;
  max_latency = 30;
  error_count = 0;
}
unfolding record_message
two_recorded = refl

published_frame_is_recorded_example :
    (p' : Publisher) × (frame : Bytes) × (m : Message) × (publish_frame 10 7 false publisher
      ≡ some p')
    × (p'.cli ≡ record publisher.cli { written = publisher.cli.written ++ frame ∷ [] })
    × (p'.published_count ≡ count publisher.published_count 1)
    × (p'.published_bytes ≡ count publisher.published_bytes (10 + 8))
    × (parse_with_remaining (frame ++ []) ≡ parsed m [])
    × (on_message 9 m.payload new_stats ≡ record_message (10 + 8) (9 - 7) new_stats)
published_frame_is_recorded_example =
    published_frame_is_recorded 10 7 9 [] publisher new_stats (omega arith) (omega arith)
      (omega arith) (omega arith) refl

-- A call that has found its latency to be above the maximum.
abbrev one_call : Recording
one_call = advance (loading 7) 1 (begin 9 7 1 fresh_recording)

Reach-IsExact_example : IsExact (advance (swapping 7 0) 1 one_call)
unfolding advance
Reach-IsExact_example = Reach-IsExact (
    next (next (next here (begins 9 7 1 refl refl)) (advances 1 (loading 7) refl refl))
      (advances 1 (swapping 7 0) refl refl))
