-- ===== src/PerfTest/Latencies.antt =====
-- examples/perf_test/main.go: what a subscriber records of a frame.
use kcpq.PerfTest.{
  Stats, record_message, filler, generate_h264_frame, Publisher, video_stream, publish_frame,
  on_message,
}
use kcpq.Client.Lifecycle.{publish}
use kcpq.Relay.{count, stamped}
use kcpq.Protocol.{
  Message, new_message_cmd, encode, cmd_pub, parsed, parse_with_remaining, max_body_len,
}
use kcpq.Protocol.RoundTrip.{parse_with_remaining-encode}
use kcpq.Protocol.Words.{put_uint64, put_uint32, uint64, uint64-put_uint64}
use kcpq.Prelude.{
  ℕ, zero, suc, ◌+◌, ◌-◌, ◌%◌, ◌^◌, ◌≤◌, ◌<◌, ◌≡◌, refl, ap, ap₂, true, false, some, [], ◌∷◌, ◌++◌,
  Bytes, ◌==◌, length, arith, inl, inr, Bool-cases,
}

length-filler : (left i : ℕ) → length (filler left i) ≡ left
unfolding filler
length-filler zero i = refl
length-filler (suc left) i = ground (arith, length-filler left (i + 1))

-- A frame of at least six bytes has the size that is asked for.
generate_h264_frame_lem :
    (size frame_num : ℕ)
    → 6 ≤ size
    → (frame : Bytes) × (generate_h264_frame size frame_num ≡ some frame) × (length frame ≡ size)
unfolding generate_h264_frame
generate_h264_frame_lem size frame_num h =
    let sized = length-filler (size - 6) 6 in
    elim (Bool-cases (frame_num % 30 == 0)) [
      | inl key ↦
          (0 ∷ 0 ∷ 0 ∷ 1 ∷ 0x67 ∷ 0x42 ∷ filler (size - 6) 6, ground arith, omega (arith, sized))
      | inr other ↦
          (0 ∷ 0 ∷ 0 ∷ 1 ∷ 0x41 ∷ 0 ∷ filler (size - 6) 6, ground arith, omega (arith, sized))
    ]

-- A frame of six bytes or more, within the limit of a message, that is published through a connection at
-- one time and reaches the callback of a subscriber at a later one: one frame is written, which is read as
-- a message whose payload the callback records with its size of eight bytes more and exactly the time
-- between.
pub published_frame_is_recorded :
    (size now later : ℕ) (rest : Bytes) (p : Publisher) (s : Stats)
    → 6 ≤ size
    → size + 23 ≤ max_body_len
    → now ≤ later
    → later < 2 ^ 64
    → p.cli.has_conn ≡ true
    → (p' : Publisher) × (frame : Bytes) × (m : Message) × (publish_frame size now false p
        ≡ some p')
      × (p'.cli ≡ record p.cli { written = p.cli.written ++ frame ∷ [] })
      × (p'.published_count ≡ count p.published_count 1)
      × (p'.published_bytes ≡ count p.published_bytes (size + 8))
      × (parse_with_remaining (frame ++ rest) ≡ parsed m rest)
      × (on_message later m.payload s ≡ record_message (size + 8) (later - now) s)
unfolding publish_frame publish on_message
published_frame_is_recorded size now later rest p s h1 h2 h3 h4 h5 =
    let (frame, made, sized) = generate_h264_frame_lem size (p.frame_num + 1) h1 in
    let message = stamped now frame in
    let m = new_message_cmd cmd_pub video_stream message in
    let long : length message ≡ size + 8 =
      unfold stamped put_uint64 put_uint32 in omega (arith, sized) in
    let stamp : uint64 message ≡ now =
      unfold stamped in uint64-put_uint64 now frame (omega (arith, h3, h4)) in
    let elapsed : (later + (2 ^ 64 - uint64 message)) % 2 ^ 64 ≡ later - now =
      rw stamp (omega (arith, h3, h4)) in
    (
      record p {
        cli = record p.cli { written = p.cli.written ++ encode m ∷ [] };
        frame_num = p.frame_num + 1;
        published_count = count p.published_count 1;
        published_bytes = count p.published_bytes (length message);
      },
      encode m,
      m,
      ground (arith, made, long),
      refl,
      refl,
      ap (count p.published_bytes) long,
      parse_with_remaining-encode m rest (omega (arith, long)),
      ap₂ (λ a b. record_message a b s) long elapsed,
    )
