-- ===== src/Protocol/Streams.antt =====
-- protocol/protocol.go: `ParseFromReader` against `ParseWithRemaining`, however the reads are cut.
use kcpq.Protocol.Words.{uint32, uint16}
use native.Mathlib.Decide.{dec_le}
use kcpq.Prelude.{
  ℕ, zero, suc, ◌+◌, ◌-◌, ◌≤◌, ◌<◌, ◌≡◌, refl, ap, ap₂, sym, ◌∙◌, false, List, [], ◌∷◌, ◌++◌, Bytes,
  leb, length, take, drop, concat, length-append, length-take, length-drop, take-append_le,
  drop-append_le, drop-drop, arith, Bool-cases, inl, inr, ◌⊎◌,
}
use kcpq.Protocol.{
  Message, encode, Parsed, parsed, refused, failed_to_read_length, bad_body_len, Reader, ReadFull,
  full, short, bad_subject_len, message_in, parse_with_remaining, read_full, parse_body,
  parse_from_reader,
}
use kcpq.Protocol.RoundTrip.{
  IsSendable, parse_accepts, parse_with_remaining-Accepted, parse_with_remaining-encode,
}

module _ {ℓ} {A : Type ℓ} where
  take-append_ge :
      (n : ℕ) (xs ys : List A) → length xs ≤ n → take n (xs ++ ys) ≡ xs ++ take (n - length xs) ys
  take-append_ge n [] ys h = ap (λ k. take k ys) (omega arith)
  take-append_ge (suc n) (x ∷ xs) ys h =
      ap (◌∷◌ x) (take-append_ge n xs ys (omega arith) ∙ ap (λ k. xs ++ take k ys) (omega arith))
  take-append_ge zero (x ∷ xs) ys h = absurd (omega arith)

  drop-append_ge :
      (n : ℕ) (xs ys : List A) → length xs ≤ n → drop n (xs ++ ys) ≡ drop (n - length xs) ys
  drop-append_ge n [] ys h = ap (λ k. drop k ys) (omega arith)
  drop-append_ge (suc n) (x ∷ xs) ys h =
      drop-append_ge n xs ys (omega arith) ∙ ap (λ k. drop k ys) (omega arith)
  drop-append_ge zero (x ∷ xs) ys h = absurd (omega arith)

-- Where the reader holds enough, `io.ReadFull` returns the first bytes and leaves the others.
read_full-full :
    (n : ℕ) (r : Reader)
    → n ≤ length (concat r)
    → (r' : Reader) × (read_full n r ≡ full (take n (concat r)) r')
      × (concat r' ≡ drop n (concat r))
unfolding read_full
read_full-full zero [] h = ([], refl, refl)
read_full-full (suc n) [] h = absurd (omega arith)
read_full-full n (chunk ∷ r) h = elim (Bool-cases (leb n (length chunk))) [
  | inl fits ↦ (
    drop n chunk ∷ r,
    rw fits (
        ap (λ x. full x (drop n chunk ∷ r))
          (sym (take-append_le n chunk (concat r) (ground arith)))),
    sym (drop-append_le n chunk (concat r) (ground arith)),
  )
  | inr more ↦
      let (r', got, left) =
        read_full-full (n - length chunk) r (omega (arith, length-append chunk (concat r))) in
      (
        r',
        rw (more, got)
            (ap (λ x. full x r') (sym (take-append_ge n chunk (concat r) (ground arith)))),
        left ∙ sym (drop-append_ge n chunk (concat r) (ground arith)),
      )
]

read_full-short : (n : ℕ) (r : Reader) → length (concat r) < n → read_full n r ≡ short
unfolding read_full
read_full-short zero r h = absurd (omega arith)
read_full-short (suc n) [] h = ground arith
read_full-short (suc n) (chunk ∷ r) h =
    ground (arith, length-append chunk (concat r), read_full-short (suc n - length chunk) r)

-- The two parsers test the same things of a body of `n` bytes.
parse_body_of_tests :
    (body : Bytes) (k : ℕ) (r : Reader)
    → uint16 (take 2 (drop 1 body)) ≡ k
    → bad_subject_len k body ≡ false
    → parse_body body r ≡ parsed (message_in k body) r
unfolding parse_body
parse_body_of_tests body k r hk hs = ground arith

ReadFull-cases : (x : ReadFull) → (x ≡ short) ⊎ ((b : Bytes) × (r : Reader) × (x ≡ full b r))
ReadFull-cases short = inl refl
ReadFull-cases (full b r) = inr (b, r, refl)

read_full-inv :
    (n : ℕ) (r : Reader) (b : Bytes) (r' : Reader)
    → read_full n r ≡ full b r'
    → (n ≤ length (concat r)) × (b ≡ take n (concat r)) × (concat r' ≡ drop n (concat r))
read_full-inv n r b r' e = elim (dec_le n (length (concat r))) [
  | yes p ↦
      let (s, got, left) = read_full-full n r p in (p, cc, ap concat {x = r'} {y = s} (cc) ∙ left)
  | no p ↦ absurd (cc (read_full-short n r (omega arith)))
]

parse_body-parsed :
    (body : Bytes) (r : Reader) (m : Message) (s : Reader)
    → parse_body body r ≡ parsed m s
    → (s ≡ r)
      × (bad_subject_len (uint16 (take 2 (drop 1 body))) body ≡ false)
      × (message_in (uint16 (take 2 (drop 1 body))) body ≡ m)
unfolding parse_body
parse_body-parsed body r m s e = ground arith

-- The subject length stands in the body, if the body is long enough.
subject_field :
    (n : ℕ) (bytes : Bytes)
    → 3 ≤ n
    → take 2 (drop 1 (take n (drop 4 bytes))) ≡ take 2 (drop 5 bytes)
subject_field n bytes h = inside n (drop 4 bytes) h ∙ ap (take 2) (drop-drop 4 1 bytes)
  where
    inside : (k : ℕ) (xs : Bytes) → 3 ≤ k → take 2 (drop 1 (take k xs)) ≡ take 2 (drop 1 xs)
    inside (suc (suc (suc k))) [] p = refl
    inside (suc (suc (suc k))) (a ∷ []) p = refl
    inside (suc (suc (suc k))) (a ∷ b ∷ []) p = refl
    inside (suc (suc (suc k))) (a ∷ b ∷ c ∷ xs) p = refl
    inside k xs p = absurd (omega arith)

-- The stream parser has read a head, then a body, and accepted it.
module _ (r mid r' : Reader) (head body : Bytes) (m : Message) where
  accepted_reads :
      read_full 4 r ≡ full head mid
      → bad_body_len (uint32 head) ≡ false
      → read_full (uint32 head) mid ≡ full body r'
      → bad_subject_len (uint16 (take 2 (drop 1 body))) body ≡ false
      → message_in (uint16 (take 2 (drop 1 body))) body ≡ m
      → parse_with_remaining (concat r) ≡ parsed m (concat r')
  accepted_reads e1 hb e2 hs em =
      let (h4, head_eq, mid_eq) = read_full-inv 4 r head mid e1 in
      let (hn, body_eq, r'_eq) = read_full-inv (uint32 head) mid body r' e2 in
      let size : length (concat mid) ≡ length (concat r) - 4 =
        ap length mid_eq ∙ length-drop 4 (concat r) in
      let body_at : body ≡ take (uint32 head) (drop 4 (concat r)) =
        body_eq ∙ ap (take (uint32 head)) mid_eq in
      let three : 3 ≤ uint32 head =
        ground (arith, ap length body_eq, length-take (uint32 head) (concat mid)) in
      let field : take 2 (drop 1 body) ≡ take 2 (drop 5 (concat r)) =
        ap (λ b. take 2 (drop 1 b)) body_at ∙ subject_field (uint32 head) (concat r) three in
      parse_accepts (concat r) (uint32 head) (uint16 (take 2 (drop 1 body)))
        (ap uint32 (sym head_eq)) (ap uint16 (sym field)) (omega arith) hb (omega arith)
        (ap (bad_subject_len (uint16 (take 2 (drop 1 body)))) (sym body_at) ∙ hs)
      ∙ ap₂ parsed (ap (message_in (uint16 (take 2 (drop 1 body)))) (sym body_at) ∙ em) (
          ap (λ k. drop k (concat r)) {x = uint32 head + 4} (omega arith)
          ∙ sym (drop-drop 4 (uint32 head) (concat r))
          ∙ ap (drop (uint32 head)) (sym mid_eq)
          ∙ sym r'_eq)

-- A success of the stream parser is one of the reads and tests above.
parse_from_reader-reads :
    (r : Reader) (m : Message) (r' : Reader)
    → parse_from_reader r ≡ parsed m r'
    → (head : Bytes) × (mid : Reader) × (body : Bytes) × (read_full 4 r ≡ full head mid)
      × (bad_body_len (uint32 head) ≡ false)
      × (read_full (uint32 head) mid ≡ full body r')
      × (bad_subject_len (uint16 (take 2 (drop 1 body))) body ≡ false)
      × (message_in (uint16 (take 2 (drop 1 body))) body ≡ m)
unfolding parse_from_reader
parse_from_reader-reads r m r' e = elim (ReadFull-cases (read_full 4 r)) [
  | inl no_head ↦ ground arith
  | inr (head, mid, got) ↦ elim (ReadFull-cases (read_full (uint32 head) mid)) [
    | inl no_body ↦ ground arith
    | inr (body, rest, got') ↦
        let (same, hs, em) = parse_body-parsed body rest m r' (ground arith) in
        (head, mid, body, got, ground arith, ground arith, hs, em)
  ]
]

-- What the stream parser accepts, the buffer parser accepts on the bytes of all the reads.
pub parse_from_reader_sound :
    (r : Reader) (m : Message) (r' : Reader)
    → parse_from_reader r ≡ parsed m r'
    → parse_with_remaining (concat r) ≡ parsed m (concat r')
parse_from_reader_sound r m r' e =
    let (head, mid, body, e1, hb, e2, hs, em) = parse_from_reader-reads r m r' e in
    accepted_reads r mid r' head body m e1 hb e2 hs em

-- The stream parser through its reads.
parse_from_reader_steps :
    (r mid r' : Reader) (head body : Bytes) (n : ℕ) (out : Parsed Reader)
    → read_full 4 r ≡ full head mid
    → uint32 head ≡ n
    → bad_body_len n ≡ false
    → read_full n mid ≡ full body r'
    → parse_body body r' ≡ out
    → parse_from_reader r ≡ out
unfolding parse_from_reader
parse_from_reader_steps r mid r' head body n out e1 en hb e2 e3 = ground arith

-- What the buffer parser accepts, the stream parser accepts too, and the reads that are left hold the
-- bytes that remain.
pub parse_from_reader_complete :
    (r : Reader) (m : Message) (rest : Bytes)
    → parse_with_remaining (concat r) ≡ parsed m rest
    → (r' : Reader) × (parse_from_reader r ≡ parsed m r') × (concat r' ≡ rest)
parse_from_reader_complete r m rest e =
    let acc = parse_with_remaining-Accepted (concat r) m rest e in
    let (mid, got, mid_eq) = read_full-full 4 r (omega (arith, acc.long_enough)) in
    let size : length (concat mid) ≡ length (concat r) - 4 =
      ap length mid_eq ∙ length-drop 4 (concat r) in
    let (r', got', left) = read_full-full acc.n mid (omega (arith, acc.complete)) in
    let body_at : take acc.n (concat mid) ≡ take acc.n (drop 4 (concat r)) =
      ap (take acc.n) mid_eq in
    let three : 3 ≤ acc.n = ground (arith, acc.subject_ok, length-take acc.n (drop 4 (concat r))) in
    let field : uint16 (take 2 (drop 1 (take acc.n (concat mid)))) ≡ acc.k =
      ap (λ b. uint16 (take 2 (drop 1 b))) body_at
      ∙ ap uint16 (subject_field acc.n (concat r) three)
      ∙ acc.sub_field in
    (
      r',
      parse_from_reader_steps r mid r' _ _ acc.n (parsed m r') got acc.len_field acc.body_ok got' (
          parse_body_of_tests (take acc.n (concat mid)) acc.k r' field
            (ap (bad_subject_len acc.k) body_at ∙ acc.subject_ok)
          ∙ ap (λ x. parsed x r') (ap (message_in acc.k) body_at ∙ acc.message)),
      left
          ∙ ap (drop acc.n) mid_eq
          ∙ drop-drop 4 acc.n (concat r)
          ∙ ap (λ k. drop k (concat r)) {x = 4 + acc.n} (omega arith)
          ∙ acc.remaining,
    )

-- However the reads cut the stream, an encoded message at its front is read as that message, and the
-- reads that are left hold exactly the bytes behind it.
pub parse_from_reader-encode :
    (r : Reader) (m : Message) (rest : Bytes)
    → IsSendable m
    → concat r ≡ encode m ++ rest
    → (r' : Reader) × (parse_from_reader r ≡ parsed m r') × (concat r' ≡ rest)
parse_from_reader-encode r m rest h e =
    parse_from_reader_complete r m rest
      (ap parse_with_remaining e ∙ parse_with_remaining-encode m rest h)

-- A stream that has ended is refused.
pub parse_from_reader_end :
    (r : Reader) → concat r ≡ [] → parse_from_reader r ≡ refused failed_to_read_length []
unfolding parse_from_reader
parse_from_reader_end r e = rw (read_full-short 4 r (omega (arith, ap length e)), parse_from_reader)
