-- ===== src/Session/Replies.antt =====
-- server/session.go: what the frames in a session's queue hold.
use kcpq.Session.{
  Session, enqueue_encoded, send_message, send_encoded, send_ok, send_error, send_pong, write_next,
}
use kcpq.Session.Utf8.{truncate_utf8, length-truncate_utf8}
use kcpq.Protocol.{
  Message, new_message_cmd, encode, max_subject_len, max_body_len, cmd_msg, cmd_ok, cmd_err,
  cmd_pong, parsed, parse_with_remaining,
}
use kcpq.Protocol.RoundTrip.{IsSendable, parse_with_remaining-encode}
use kcpq.Prelude.{
  ℕ, ◌+◌, ◌≡◌, inl, inr, refl, sym, ap, subst, ◌∙◌, some, List, [], ◌∷◌, ◌++◌, Bytes, ltb, length,
  arith, Bool-cases, All, All-append,
}

-- The bytes are one whole message, within the limits of both parsers.
pub record IsFrame (frame : Bytes) : Type 0 where
  pub message : Message
  pub sendable : IsSendable message
  pub encoded : frame ≡ encode message

abbrev pub HoldsFrames : Session → Type 0
HoldsFrames s = All IsFrame s.out_chan

encode-IsFrame : (m : Message) → IsSendable m → IsFrame (encode m)
encode-IsFrame m h = record { message = m; sendable = h; encoded = refl }

enqueue_encoded-HoldsFrames :
    (frame : Bytes) (s : Session)
    → IsFrame frame
    → HoldsFrames s
    → HoldsFrames (enqueue_encoded frame s).0
unfolding enqueue_encoded
enqueue_encoded-HoldsFrames frame s f h =
    ground (arith, All-append IsFrame s.out_chan (frame ∷ []) h (f, tt))

encode_text-IsFrame :
    (command : ℕ) (text : Bytes)
    → IsFrame (encode (new_message_cmd command (truncate_utf8 text max_subject_len) []))
encode_text-IsFrame command text =
    encode-IsFrame (new_message_cmd command (truncate_utf8 text max_subject_len) [])
      (omega (arith, length-truncate_utf8 text max_subject_len))

-- Where the queue holds only whole messages within the protocol's limits, every send keeps it so: of any
-- message, any such frame, and answers of any text.
pub sends-HoldsFrames :
    (s : Session)
    → HoldsFrames s
    → ((subject payload : Bytes) → HoldsFrames (send_message subject payload s).0)
      × ((frame : Bytes) → IsFrame frame → HoldsFrames (send_encoded frame s).0)
      × ((text : Bytes) → HoldsFrames (send_ok text s).0)
      × ((text : Bytes) → HoldsFrames (send_error text s).0)
      × HoldsFrames (send_pong s).0
unfolding send_message send_encoded send_ok send_error send_pong
sends-HoldsFrames s h = (
  λ subject payload. message subject payload,
  λ frame f. ground (arith, enqueue_encoded-HoldsFrames frame s f h),
  λ text. ground (arith, enqueue_encoded-HoldsFrames _ s (encode_text-IsFrame cmd_ok text) h),
  λ text. ground (arith, enqueue_encoded-HoldsFrames _ s (encode_text-IsFrame cmd_err text) h),
  ground (
    arith,
    enqueue_encoded-HoldsFrames _ s (encode-IsFrame (new_message_cmd cmd_pong [] []) (omega arith))
        h,
  ),
)
  where
    message : (subject payload : Bytes) → HoldsFrames (send_message subject payload s).0
    message subject payload = elim (Bool-cases (ltb max_subject_len (length subject))) [
      | inl long ↦ ground arith
      | inr fits ↦ elim (Bool-cases (ltb max_body_len (1 + 2 + length subject + length payload))) [
        | inl large ↦ ground arith
        | inr small ↦ ground (
          arith,
          enqueue_encoded-HoldsFrames _ s
              (encode-IsFrame (new_message_cmd cmd_msg subject payload) (ground arith)) h,
        )
      ]
    ]

-- Where the queue holds only whole messages within the protocol's limits, the bytes that the write loop
-- hands to the connection are read by the peer as the message that was queued first, whatever follows on
-- the stream.
pub write_next-parses :
    (s : Session) (frame rest : Bytes)
    → HoldsFrames s
    → (write_next s).1 ≡ some frame
    → (m : Message) × (parse_with_remaining (frame ++ rest) ≡ parsed m rest)
      × (s.out_chan ≡ encode m ∷ (write_next s).0.out_chan)
unfolding write_next
write_next-parses s frame rest h e = go s.out_chan refl
  where
    go :
        (q : List Bytes)
        → s.out_chan ≡ q
        → (m : Message) × (parse_with_remaining (frame ++ rest) ≡ parsed m rest)
          × (s.out_chan ≡ encode m ∷ (write_next s).0.out_chan)
    go [] eq = ground arith
    go (first ∷ others) eq =
        let (f, fs) = subst (λ x. All IsFrame x) eq h in
        let same : first ≡ frame = ground arith in
        (
          f.message,
          ap (λ b. parse_with_remaining (b ++ rest)) (sym same ∙ f.encoded)
              ∙ parse_with_remaining-encode f.message rest f.sendable,
          ground (arith, f.encoded),
        )
