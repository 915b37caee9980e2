-- ===== src/PerfTest.antt =====
-- examples/perf_test/main.go: the statistics, the frames, and what the publisher and a subscriber do with
-- them. The counters are `uint64`; `RecordMessage` is one step here. The printed rates are left out.
pub mod Latencies
pub mod Racing
mod Tests
use kcpq.Client.{Client}
use kcpq.Client.Lifecycle.{publish}
use kcpq.Relay.{count, stamped}
use kcpq.Protocol.Words.{uint64}
use kcpq.Prelude.{
  ℕ, zero, suc, ◌+◌, ◌-◌, ◌%◌, ◌^◌, Bool, true, false, ◌||◌, Option, none, some, List, [], ◌∷◌,
  Bytes, codes, ltb, ◌==◌, if◌then◌else◌, length,
}

pub record Stats : Type 0 where
  pub total_messages : ℕ
  pub total_bytes : ℕ
  pub total_latency : ℕ
  pub min_latency : ℕ
  pub max_latency : ℕ
  pub error_count : ℕ

abbrev pub new_stats : Stats
new_stats = record {
  total_messages = 0;
  total_bytes = 0;
  total_latency = 0;
  min_latency = 0;
  max_latency = 0;
  error_count = 0;
}

-- `RecordMessage`
unfoldable pub record_message : (size latency : ℕ) → Stats → Stats
record_message size latency s = record s {
  total_messages = count s.total_messages 1;
  total_bytes = count s.total_bytes size;
  max_latency = if ltb s.max_latency latency then latency else s.max_latency;
  min_latency = if ltb latency s.min_latency || s.min_latency == 0 then latency else s.min_latency;
  total_latency = count s.total_latency latency;
}

-- `RecordError`
abbrev pub record_error : Stats → Stats
record_error s = record s { error_count = count s.error_count 1 }

-- `byte(i % 256)` from `i` on
unfoldable pub filler : (left i : ℕ) → Bytes
filler zero i = []
filler (suc left) i = i % 256 ∷ filler left (i + 1)

-- `generateH264Frame`; `none` is the panic of an index out of range.
unfoldable pub generate_h264_frame : (size frame_num : ℕ) → Option Bytes
generate_h264_frame size frame_num =
    let content = filler (size - 6) 6 in
    if frame_num % 30 == 0
    then (if ltb size 6 then none else some (0 ∷ 0 ∷ 0 ∷ 1 ∷ 0x67 ∷ 0x42 ∷ content))
    else if ltb size 5
    then none
    else if size == 5
    then some (0 ∷ 0 ∷ 0 ∷ 1 ∷ 0x41 ∷ [])
    else some (0 ∷ 0 ∷ 0 ∷ 1 ∷ 0x41 ∷ 0 ∷ content)

pub record Publisher : Type 0 where
  pub cli : Client
  pub stats : Stats
  pub frame_num : ℕ
  pub published_count : ℕ
  pub published_bytes : ℕ

abbrev pub video_stream : Bytes
video_stream = codes "video.stream"

-- One tick of `startPublishing`.
unfoldable pub publish_frame : (size now : ℕ) → (write_fails : Bool) → Publisher → Option Publisher
publish_frame size now write_fails p = elim (generate_h264_frame size (p.frame_num + 1)) [
  | none ↦ none
  | some frame ↦
      let message = stamped now frame in
      let (c, e) = publish video_stream message false write_fails p.cli in
      let p' = record p { cli = c; frame_num = p.frame_num + 1 } in
      elim e [
        | some err ↦ some (record p' { stats = record_error p.stats })
        | none ↦ some (record p' {
          published_count = count p.published_count 1;
          published_bytes = count p.published_bytes (length message);
        })
      ]
]

-- The callback of a subscriber, for a message of at least eight bytes (of a shorter one it reads what lies
-- behind the message, or panics); the latency is a difference of 64 bits.
unfoldable pub on_message : (now : ℕ) → Bytes → Stats → Stats
on_message now bytes s =
    let timestamp = uint64 bytes in
    record_message (length bytes) ((now + (2 ^ 64 - timestamp)) % 2 ^ 64) s
