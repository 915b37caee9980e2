-- ===== src/Protocol/Framing.antt =====
-- protocol/protocol.go: what `ParseWithRemaining` does with part of a frame, and what it consumes.
use kcpq.Protocol.Words.{uint32, put_uint32, uint32-put_uint32}
use kcpq.Prelude.{
  ℕ, suc, ◌+◌, ◌≤◌, ◌<◌, ◌≡◌, ap, sym, ◌∙◌, Bytes, ltb, length, take, drop, length-take,
  length-drop, arith, if◌then◌else◌, Bool-cases, inl, inr, false,
}
use kcpq.Protocol.{
  Message, encode, parsed, refused, parse_with_remaining, ParseError, data_too_short,
  incomplete_message, bad_body_len,
}
use kcpq.Protocol.RoundTrip.{
  IsSendable, body_len, length-body_of, good_lengths, parse_with_remaining-Accepted,
}

pub length-encode : (m : Message) → length (encode m) ≡ 4 + body_len m
unfolding encode put_uint32
length-encode m = omega (arith, length-body_of m)

-- The prefix survives where at least its four bytes have come.
take_prefix :
    (j : ℕ) (m : Message) → 7 ≤ j → IsSendable m → uint32 (take 4 (take j (encode m))) ≡ body_len m
unfolding encode put_uint32 uint32
take_prefix (suc (suc (suc (suc j)))) m h s = uint32-put_uint32 (body_len m) (omega arith)
take_prefix j m h s = absurd (omega arith)

refuses_incomplete :
    (bytes : Bytes) (n : ℕ)
    → 7 ≤ length bytes
    → uint32 (take 4 bytes) ≡ n
    → bad_body_len n ≡ false
    → length bytes < n + 4
    → parse_with_remaining bytes ≡ refused (incomplete_message (n + 4) (length bytes)) bytes
unfolding parse_with_remaining
refuses_incomplete bytes n h e hb hl = ground arith

refuses_short :
    (bytes : Bytes) → length bytes < 7 → parse_with_remaining bytes ≡ refused data_too_short bytes
unfolding parse_with_remaining
refuses_short bytes h = ground arith

-- Of a sendable message's encoding, any proper prefix is refused as incomplete (as too short below
-- seven bytes), with the number of bytes that are needed and had, and all of the prefix is handed back.
pub parse_with_remaining-take :
    (m : Message) (j : ℕ)
    → IsSendable m
    → j < length (encode m)
    → parse_with_remaining (take j (encode m))
      ≡ refused
          (if ltb j 7 then data_too_short else incomplete_message (length (encode m)) j)
          (take j (encode m))
parse_with_remaining-take m j s h = elim (Bool-cases (ltb j 7)) [
  | inl few ↦ rw few (refuses_short (take j (encode m)) (ground (arith, had)))
  | inr many ↦ rw many (
      refuses_incomplete (take j (encode m)) (body_len m) (ground (arith, had))
        (take_prefix j m (ground arith) s) (good_lengths m s).0
        (omega (arith, had, length-encode m))
      ∙ ap (λ e. refused e (take j (encode m))) (ground (arith, had, length-encode m)))
]
  where
    had : length (take j (encode m)) ≡ j
    had = omega (arith, length-take j (encode m))

-- A refusal hands every byte back; a success consumes at least the seven bytes of a header, and hands
-- back a suffix of the input.
pub parse_with_remaining_progress :
    (bytes : Bytes)
    → ((e : ParseError) (rest : Bytes) → parse_with_remaining bytes ≡ refused e rest → rest ≡ bytes)
      × ((m : Message) (rest : Bytes)
          → parse_with_remaining bytes ≡ parsed m rest
          → (length rest + 7 ≤ length bytes) × ((n : ℕ) × (rest ≡ drop n bytes)))
parse_with_remaining_progress bytes = (unchanged, consumed)
  where
    unchanged :
        (e : ParseError) (rest : Bytes) → parse_with_remaining bytes ≡ refused e rest → rest ≡ bytes
    unchanged e rest h = unfold parse_with_remaining in ground arith

    consumed :
        (m : Message) (rest : Bytes)
        → parse_with_remaining bytes ≡ parsed m rest
        → (length rest + 7 ≤ length bytes) × ((n : ℕ) × (rest ≡ drop n bytes))
    consumed m rest h =
        let acc = parse_with_remaining-Accepted bytes m rest h in
        (
          ground (
            arith,
            ap length acc.remaining,
            length-drop (acc.n + 4) bytes,
            acc.complete,
            acc.subject_ok,
            length-take acc.n (drop 4 bytes),
          ),
          (acc.n + 4, sym acc.remaining),
        )
