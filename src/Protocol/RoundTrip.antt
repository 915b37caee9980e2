-- ===== src/Protocol/RoundTrip.antt =====
-- protocol/protocol.go: what `Encode` writes, `ParseWithRemaining` reads back, and the converse.
use kcpq.Protocol.Words.{
  put_uint32, put_uint16, uint32, uint16, first_byte, uint32-put_uint32, uint16-put_uint16,
  put_uint32-uint32, put_uint16-uint16,
}
use native.Mathlib.Numerals.{towards_suc}
use kcpq.Prelude.{
  ℕ, suc, ◌+◌, ◌≤◌, ◌≡◌, refl, ap, ap₂, sym, subst, ◌∙◌, false, List, [], ◌∷◌, ◌++◌, Bytes,
  AreBytes, length, take, drop, length-append, length-take, length-drop, take-append-drop,
  take-append_length, drop-append_length, arith,
}
use kcpq.Protocol.{
  Message, max_subject_len, max_body_len, encode, body_of, parsed, bad_body_len, bad_subject_len,
  message_in, parse_with_remaining,
}

-- The limits that the publishing side checks before it encodes.
pub record IsSendable (m : Message) : Type 0 where
  pub subject_fits : length m.subject ≤ max_subject_len
  pub body_fits : 3 + length m.subject + length m.payload ≤ max_body_len

abbrev pub body_len : Message → ℕ
body_len m = 1 + 2 + length m.subject + length m.payload

pub length-body_of : (m : Message) → length (body_of m) ≡ body_len m
unfolding put_uint16
length-body_of m = omega (arith, length-append m.subject m.payload)

-- The body of a sendable message is read back as that message.
pub message_in-body_of : (m : Message) → message_in (length m.subject) (body_of m) ≡ m
unfolding put_uint16 first_byte
message_in-body_of m = λ i. record {
  command = m.command;
  subject = take-append_length m.subject m.payload i;
  payload = drop-append_length m.subject m.payload i;
}

pub good_lengths :
    (m : Message)
    → IsSendable m
    → (bad_body_len (body_len m) ≡ false) × (bad_subject_len (length m.subject) (body_of m) ≡ false)
good_lengths m h = ground (arith, length-body_of m)

-- All the tests of `ParseWithRemaining` passed.
pub parse_accepts :
    (bytes : Bytes) (n k : ℕ)
    → uint32 (take 4 bytes) ≡ n
    → uint16 (take 2 (drop 5 bytes)) ≡ k
    → 7 ≤ length bytes
    → bad_body_len n ≡ false
    → n + 4 ≤ length bytes
    → bad_subject_len k (take n (drop 4 bytes)) ≡ false
    → parse_with_remaining bytes
      ≡ parsed (message_in k (take n (drop 4 bytes))) (drop (n + 4) bytes)
unfolding parse_with_remaining
parse_accepts bytes n k en ek h7 hn h4 hk = ground arith

pub drop-add_four {ℓ} :
    {A : Type ℓ} (n : ℕ) (a b c d : A) (xs : List A) → drop (n + 4) (a ∷ b ∷ c ∷ d ∷ xs) ≡ drop n xs
drop-add_four n a b c d xs = simp towards_suc

-- What the parser does with a body behind a length prefix that is its length.
parse_body_at :
    (a b c d : ℕ) (m : Message) (rest : Bytes)
    → IsSendable m
    → uint32 (a ∷ b ∷ c ∷ d ∷ []) ≡ body_len m
    → parse_with_remaining (a ∷ b ∷ c ∷ d ∷ (body_of m ++ rest)) ≡ parsed m rest
unfolding put_uint16
parse_body_at a b c d m rest h e =
    parse_accepts bytes n (length m.subject) (e ∙ sym (length-body_of m))
      (uint16-put_uint16 (length m.subject) (omega arith)) (omega arith)
      (rw (length-body_of m) (good_lengths m h).0)
      (omega (arith, length-append (m.subject ++ m.payload) rest))
      (ap (bad_subject_len (length m.subject)) body_first ∙ (good_lengths m h).1)
    ∙ ap₂ parsed (ap (message_in _) body_first ∙ message_in-body_of m)
        (drop-add_four n a b c d (body_of m ++ rest) ∙ drop-append_length (body_of m) rest)
  where
    bytes : Bytes
    bytes = a ∷ b ∷ c ∷ d ∷ (body_of m ++ rest)

    n : ℕ
    n = length (body_of m)

    body_first : take n (body_of m ++ rest) ≡ body_of m
    body_first = take-append_length (body_of m) rest

-- A sendable message in front of any bytes is parsed as that message, and those bytes remain.
pub parse_with_remaining-encode :
    (m : Message) (rest : Bytes)
    → IsSendable m
    → parse_with_remaining (encode m ++ rest) ≡ parsed m rest
unfolding encode put_uint32
parse_with_remaining-encode m rest h =
    parse_body_at _ _ _ _ m rest h (uint32-put_uint32 (body_len m) (omega arith))

-- What a success of the parser has established.
pub record Accepted (bytes : Bytes) (m : Message) (rest : Bytes) : Type 0 where
  pub n : ℕ
  pub k : ℕ
  pub len_field : uint32 (take 4 bytes) ≡ n
  pub sub_field : uint16 (take 2 (drop 5 bytes)) ≡ k
  pub long_enough : 7 ≤ length bytes
  pub body_ok : bad_body_len n ≡ false
  pub complete : n + 4 ≤ length bytes
  pub subject_ok : bad_subject_len k (take n (drop 4 bytes)) ≡ false
  pub message : message_in k (take n (drop 4 bytes)) ≡ m
  pub remaining : drop (n + 4) bytes ≡ rest

pub parse_with_remaining-Accepted :
    (bytes : Bytes) (m : Message) (rest : Bytes)
    → parse_with_remaining bytes ≡ parsed m rest
    → Accepted bytes m rest
unfolding parse_with_remaining
parse_with_remaining-Accepted bytes m rest e = record {
  n = uint32 (take 4 bytes);
  k = uint16 (take 2 (drop 5 bytes));
  len_field = refl;
  sub_field = refl;
  long_enough = ground arith;
  body_ok = ground arith;
  complete = ground arith;
  subject_ok = ground arith;
  message = ground arith;
  remaining = ground arith;
}

-- A frame, taken apart by its fields and put together again.
canonical :
    (a b c d e f g q : ℕ) (t : Bytes)
    → AreBytes (a ∷ b ∷ c ∷ d ∷ e ∷ f ∷ g ∷ [])
    → uint32 (a ∷ b ∷ c ∷ d ∷ []) ≡ suc (suc (suc q))
    → uint16 (f ∷ g ∷ []) ≤ q
    → q ≤ length t
    → encode (message_in (uint16 (f ∷ g ∷ [])) (e ∷ f ∷ g ∷ take q t)) ++ drop q t
      ≡ a ∷ b ∷ c ∷ d ∷ e ∷ f ∷ g ∷ t
unfolding encode first_byte
canonical a b c d e f g q t (ha, (hb, (hc, (hd, (he, (hf, (hg, _))))))) hn hk hq =
    rw (total, same_k)
      (rw (put_uint32-uint32 a b c d [] ha hb hc hd, put_uint16-uint16 f g [] hf hg)
        (ap (λ r. a ∷ b ∷ c ∷ d ∷ e ∷ f ∷ g ∷ r)
          (ap (λ r. r ++ drop q t) (take-append-drop k (take q t)) ∙ take-append-drop q t)))
  where
    k : ℕ
    k = uint16 (f ∷ g ∷ [])

    same_k : length (take k (take q t)) ≡ k
    same_k = omega (arith, length-take k (take q t), length-take q t)

    total :
        1 + 2 + length (take k (take q t)) + length (drop k (take q t))
        ≡ uint32 (a ∷ b ∷ c ∷ d ∷ [])
    total = omega (arith, hn, length-take k (take q t), length-drop k (take q t), length-take q t)

-- The same for a frame that passed the tests.
canonical_of_tests :
    (a b c d e f g n : ℕ) (t : Bytes) (m : Message) (rest : Bytes)
    → AreBytes (a ∷ b ∷ c ∷ d ∷ e ∷ f ∷ g ∷ [])
    → uint32 (a ∷ b ∷ c ∷ d ∷ []) ≡ n
    → bad_body_len n ≡ false
    → n ≤ 3 + length t
    → bad_subject_len (uint16 (f ∷ g ∷ [])) (take n (e ∷ f ∷ g ∷ t)) ≡ false
    → message_in (uint16 (f ∷ g ∷ [])) (take n (e ∷ f ∷ g ∷ t)) ≡ m
    → drop n (e ∷ f ∷ g ∷ t) ≡ rest
    → IsSendable m × (encode m ++ rest ≡ a ∷ b ∷ c ∷ d ∷ e ∷ f ∷ g ∷ t)
canonical_of_tests a b c d e f g (suc (suc (suc q))) t m rest h hn hb hl hs em er =
    rw (← em, ← er)
      (
        record { subject_fits = fits.0; body_fits = fits.1 },
        canonical a b c d e f g q t h hn room (omega arith),
      )
  where
    k : ℕ
    k = uint16 (f ∷ g ∷ [])

    room : k ≤ q
    room = ground (arith, length-take q t)

    fits :
        (length (take k (take q t)) ≤ max_subject_len)
        × (3 + length (take k (take q t)) + length (drop k (take q t)) ≤ max_body_len)
    fits = ground (arith, length-take k (take q t), length-drop k (take q t), length-take q t)
canonical_of_tests a b c d e f g n t m rest h hn hb hl hs em er = ground arith

-- Reading is the inverse of writing: the parser accepts a list of bytes only where it is an encoding
-- of the message that it returns, in front of the bytes that it returns as remaining, and that message
-- keeps the limits.
pub encode-parse_with_remaining :
    (bytes : Bytes) (m : Message) (rest : Bytes)
    → AreBytes bytes
    → parse_with_remaining bytes ≡ parsed m rest
    → IsSendable m × (encode m ++ rest ≡ bytes)
unfolding uint32 uint16
encode-parse_with_remaining (a ∷ b ∷ c ∷ d ∷ x ∷ f ∷ g ∷ t) m rest
      (ha, (hb, (hc, (hd, (hx, (hf, (hg, _))))))) e =
    let acc = parse_with_remaining-Accepted _ m rest e in
    canonical_of_tests a b c d x f g acc.n t m rest (ha, (hb, (hc, (hd, (hx, (hf, (hg, tt)))))))
      acc.len_field acc.body_ok (omega (arith, acc.complete))
      (subst (λ j. bad_subject_len j (take acc.n (x ∷ f ∷ g ∷ t)) ≡ false) (sym acc.sub_field)
        acc.subject_ok)
      (ap (λ j. message_in j (take acc.n (x ∷ f ∷ g ∷ t))) acc.sub_field ∙ acc.message)
      (sym (drop-add_four acc.n a b c d (x ∷ f ∷ g ∷ t)) ∙ acc.remaining)
encode-parse_with_remaining bytes m rest h e =
    absurd (omega (arith, (parse_with_remaining-Accepted _ m rest e).long_enough))
