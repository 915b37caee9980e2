-- ===== src/Session/Interleaving.antt =====
-- server/session.go: `enqueueEncoded` and the write loop, taken apart into their atomic steps, with any
-- number of senders. A sender first reserves its bytes (the compare-and-swap that succeeds), then puts
-- the frame into the channel or, if that is full, gives the bytes back. The writer first takes a frame
-- out of the channel, then subtracts its bytes.
use kcpq.Session.Queue.{bytes_of, bytes_of-append}
use kcpq.Prelude.{
  ℕ, ◌+◌, ◌-◌, ◌≤◌, ◌<◌, ◌≡◌, ap, List, [], ◌∷◌, ◌++◌, Bytes, length, arith, length-append,
}

pub record Shared : Type 0 where
  pub queued_bytes : ℕ
  pub out_chan : List Bytes
  -- frames whose bytes are reserved, and that are not in the channel yet
  pub reserved : List Bytes
  -- frames taken by the writer, whose bytes are not subtracted yet
  pub taken : List Bytes

module _ (max_queued out_cap : ℕ) where
  pub data Step (s t : Shared) : Type 0 where
    reserve :
        (frame : Bytes)
        → s.queued_bytes + length frame ≤ max_queued
        → t
          ≡ record s { queued_bytes = s.queued_bytes + length frame; reserved = frame ∷ s.reserved }
        → Step s t
    put :
        (xs ys : List Bytes) (frame : Bytes)
        → s.reserved ≡ xs ++ frame ∷ ys
        → length s.out_chan < out_cap
        → t ≡ record s { reserved = xs ++ ys; out_chan = s.out_chan ++ frame ∷ [] }
        → Step s t
    give_back :
        (xs ys : List Bytes) (frame : Bytes)
        → s.reserved ≡ xs ++ frame ∷ ys
        → t ≡ record s { reserved = xs ++ ys; queued_bytes = s.queued_bytes - length frame }
        → Step s t
    take_out :
        (frame : Bytes) (rest : List Bytes)
        → s.out_chan ≡ frame ∷ rest
        → t ≡ record s { out_chan = rest; taken = frame ∷ s.taken }
        → Step s t
    subtract :
        (xs ys : List Bytes) (frame : Bytes)
        → s.taken ≡ xs ++ frame ∷ ys
        → t ≡ record s { taken = xs ++ ys; queued_bytes = s.queued_bytes - length frame }
        → Step s t

  pub data Reach (s : Shared) : Shared → Type 0 where
    here : Reach s s
    next : {t u : Shared} → Reach s t → Step t u → Reach s u

  -- The counter is exactly the bytes that are reserved, queued or being written, within the limit.
  pub record IsAccounted (s : Shared) : Type 0 where
    pub counted : s.queued_bytes ≡ bytes_of s.reserved + bytes_of s.out_chan + bytes_of s.taken
    pub limited : s.queued_bytes ≤ max_queued
    pub slots : length s.out_chan ≤ out_cap

  bytes_of_middle :
      (xs ys : List Bytes) (frame : Bytes)
      → bytes_of (xs ++ frame ∷ ys) ≡ length frame + bytes_of (xs ++ ys)
  bytes_of_middle xs ys frame =
      unfold bytes_of in omega (arith, bytes_of-append xs (frame ∷ ys), bytes_of-append xs ys)

  Step-IsAccounted : {s t : Shared} → Step s t → IsAccounted s → IsAccounted t
  Step-IsAccounted (reserve frame room e) v = unfold bytes_of in ground arith
  Step-IsAccounted {s} (put xs ys frame e room e') v =
      unfold bytes_of in
      ground (
        arith,
        bytes_of_middle xs ys frame,
        ap bytes_of e,
        bytes_of-append s.out_chan (frame ∷ []),
        length-append s.out_chan (frame ∷ []),
      )
  Step-IsAccounted (give_back xs ys frame e e') v =
      ground (arith, bytes_of_middle xs ys frame, ap bytes_of e)
  Step-IsAccounted (take_out frame rest e e') v = unfold bytes_of in ground arith
  Step-IsAccounted (subtract xs ys frame e e') v =
      ground (arith, bytes_of_middle xs ys frame, ap bytes_of e)

  -- However senders and the writer interleave, the counter stays the number of bytes reserved, queued or
  -- being written, never above the limit, and the channel never holds more frames than its capacity.
  pub Reach-IsAccounted : {s t : Shared} → IsAccounted s → Reach s t → IsAccounted t
  Reach-IsAccounted v here = v
  Reach-IsAccounted v (next r st) = Step-IsAccounted st (Reach-IsAccounted v r)
