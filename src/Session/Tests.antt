-- ===== src/Session/Tests.antt =====
-- server/session.go: a session with room for two frames of at most 16 bytes together.
use kcpq.Session.{
  Session, Limits, new_session, enqueue_encoded, session_closed, backpressure_limit_exceeded,
  send_queue_full,
}
use kcpq.Session.Queue.{IsBounded, new_session-IsBounded, enqueue_encoded_cases, bytes_of}
use kcpq.Session.Interleaving.{
  Shared, Reach, IsAccounted, Reach-IsAccounted, reserve, put, here, next,
}
use kcpq.Prelude.{
  ℕ, ◌+◌, ◌<◌, ◌≡◌, ◌⊎◌, refl, true, false, none, some, [], ◌∷◌, ◌++◌, length, arith,
}

abbrev small : Limits
small = record { session_out_chan_cap = 2; max_session_queued_bytes = 16 }

abbrev fresh : Session
fresh = new_session (some small)

enqueue_encoded_cases_example :
    let (s', e) = enqueue_encoded (1 ∷ 2 ∷ []) fresh in
    IsBounded s'
    × (((e ≡ none)
          × (fresh.closed ≡ false)
          × (s'.out_chan ≡ fresh.out_chan ++ (1 ∷ 2 ∷ []) ∷ [])
          × (s'.closing ≡ fresh.closing))
        ⊎ ((e ≡ some session_closed) × (fresh.closed ≡ true) × (s' ≡ fresh))
        ⊎ ((e ≡ some backpressure_limit_exceeded)
            × (fresh.closed ≡ false)
            × (fresh.max_queued_bytes < fresh.queued_bytes + length {A = ℕ} (1 ∷ 2 ∷ []))
            × (s' ≡ record fresh { closing = true }))
        ⊎ ((e ≡ some send_queue_full)
            × (fresh.closed ≡ false)
            × (fresh.out_cap ≡ length fresh.out_chan)
            × (s' ≡ record fresh { closing = true })))
enqueue_encoded_cases_example =
    enqueue_encoded_cases (1 ∷ 2 ∷ []) fresh (new_session-IsBounded (some small))

abbrev idle : Shared
idle = record { queued_bytes = 0; out_chan = []; reserved = []; taken = [] }

abbrev queued : Shared
queued = record idle { queued_bytes = 2; out_chan = (1 ∷ 2 ∷ []) ∷ [] }

idle-queued : Reach 16 2 idle queued
idle-queued =
    next (next here (reserve (1 ∷ 2 ∷ []) (omega arith) refl))
      (put [] [] (1 ∷ 2 ∷ []) refl (omega arith) refl)

idle-IsAccounted : IsAccounted 16 2 idle
unfolding bytes_of
idle-IsAccounted = omega arith

Reach-IsAccounted_example : IsAccounted 16 2 queued
Reach-IsAccounted_example = Reach-IsAccounted 16 2 idle-IsAccounted idle-queued

-- "é" cut after its first byte
