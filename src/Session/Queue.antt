-- ===== src/Session/Queue.antt =====
-- server/session.go: the byte count of the queue, its limits, and what each send does.
use kcpq.Session.{
  Session, new_session, Limits, enqueue_encoded, backpressure_limit_exceeded, send_queue_full,
  session_closed,
}
use kcpq.Prelude.{
  ℕ, ◌+◌, ◌≤◌, ◌<◌, ◌≡◌, ◌⊎◌, true, false, Option, none, some, List, [], ◌∷◌, ◌++◌, Bytes, length,
  arith, length-append,
}

unfoldable pub bytes_of : List Bytes → ℕ
bytes_of [] = 0
bytes_of (frame ∷ frames) = length frame + bytes_of frames

pub bytes_of-append : (xs ys : List Bytes) → bytes_of (xs ++ ys) ≡ bytes_of xs + bytes_of ys
unfolding bytes_of
bytes_of-append [] ys = omega arith
bytes_of-append (x ∷ xs) ys = omega (arith, bytes_of-append xs ys)

-- The counter is the size of the queue, within both limits.
pub record IsBounded (s : Session) : Type 0 where
  pub counted : s.queued_bytes ≡ bytes_of s.out_chan
  pub limited : s.queued_bytes ≤ s.max_queued_bytes
  pub some_limit : 0 < s.max_queued_bytes
  pub slots : length s.out_chan ≤ s.out_cap

pub new_session-IsBounded : (server : Option Limits) → IsBounded (new_session server)
unfolding new_session bytes_of
new_session-IsBounded none = ground arith
new_session-IsBounded (some l) = ground arith

-- On every branch of `enqueueEncoded` the byte count stays the size of the queue, within the limits: either
-- the frame is put last, or the session is closed and left alone, or one of the two limits is reached, and
-- the session is left as it was but marked as closing.
pub enqueue_encoded_cases :
    (encoded : Bytes) (s : Session)
    → IsBounded s
    → let (s', e) = enqueue_encoded encoded s in
      IsBounded s'
      × (((e ≡ none)
            × (s.closed ≡ false)
            × (s'.out_chan ≡ s.out_chan ++ encoded ∷ [])
            × (s'.closing ≡ s.closing))
          ⊎ ((e ≡ some session_closed) × (s.closed ≡ true) × (s' ≡ s))
          ⊎ ((e ≡ some backpressure_limit_exceeded)
              × (s.closed ≡ false)
              × (s.max_queued_bytes < s.queued_bytes + length encoded)
              × (s' ≡ record s { closing = true }))
          ⊎ ((e ≡ some send_queue_full)
              × (s.closed ≡ false)
              × (s.out_cap ≡ length s.out_chan)
              × (s' ≡ record s { closing = true })))
unfolding enqueue_encoded bytes_of
enqueue_encoded_cases encoded s v =
    ground
      (arith, bytes_of-append s.out_chan (encoded ∷ []), length-append s.out_chan (encoded ∷ []))
