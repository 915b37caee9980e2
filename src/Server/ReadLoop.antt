-- ===== src/Server/ReadLoop.antt =====
-- server/session.go: the read loop of `Start` over a whole connection.
use kcpq.Server.{
  Server, HandleError, handle_and_report, close_session, Round, close_started, read_loop,
}
use kcpq.Server.Flags.{closed-handle_and_report}
use kcpq.Subscriptions.{SessionId}
use kcpq.Protocol.{Message, encode, parsed, Reader, parse_from_reader}
use kcpq.Protocol.RoundTrip.{IsSendable}
use kcpq.Protocol.Streams.{parse_from_reader-encode, parse_from_reader_end}
use kcpq.Prelude.{
  ℕ, suc, zero, ◌<◌, ◌≡◌, ◌⊎◌, inl, inr, refl, ap, ◌∙◌, true, false, ◌&&◌, List, [], ◌∷◌, ◌++◌,
  Bytes, length, concat, All, map, arith, Bool-cases,
}

-- The messages handled in order.
pub handle_all : (HandleError → Bytes) → List Message → SessionId → Server → Server
handle_all describe [] id w = w
handle_all describe (msg ∷ msgs) id w =
    handle_all describe msgs id (handle_and_report describe msg id w)

-- How the loop goes from `w` to `v` on these messages. It handles the first of them, in order, and closes
-- the session, after all of them or where a full queue has started `go s.Close()`; or that `Close` comes
-- between reading the next message and handling it.
pub IsReadUntil : (HandleError → Bytes) → SessionId → List Message → (w v : Server) → Type 0
IsReadUntil describe id msgs w v =
    (handled : List Message) × (rest : List Message) × (msgs ≡ handled ++ rest)
    × ((v ≡ close_session id (handle_all describe handled id w))
          × ((rest ≡ []) ⊎ (((handle_all describe handled id w).session id).closing ≡ true))
        ⊎ ((late : Message) × (after : List Message) × (rest ≡ late ∷ after)
            × (((handle_all describe handled id w).session id).closing ≡ true)
            × (v
                ≡ handle_and_report describe late id
                    (close_session id (handle_all describe handled id w)))))

closed-close_session :
    (id : SessionId) (w : Server) → ((close_session id w).session id).closed ≡ true
unfolding close_session
closed-close_session id w = ground arith

module _ (rounds : ℕ → Round) (describe : HandleError → Bytes) (id : SessionId) where
  -- A loop on a closed session ends.
  read_loop_closed :
      (fuel : ℕ) (r : Reader) (w : Server)
      → 0 < fuel
      → (w.session id).closed ≡ true
      → read_loop fuel rounds describe id r w ≡ w
  unfolding read_loop close_started close_session
  read_loop_closed zero r w pos shut = absurd (omega arith)
  read_loop_closed (suc fuel) r w pos shut = ground arith

  -- The started `Close` has run when the loop looks.
  read_loop_shut :
      (fuel : ℕ) (r : Reader) (w : Server)
      → ((w.session id).closing && (rounds fuel).at_look) ≡ true
      → read_loop (suc fuel) rounds describe id r w ≡ close_session id w
  unfolding read_loop close_started
  read_loop_shut fuel r w runs = ground (arith, closed-close_session id w)

  read_loop_end :
      (fuel : ℕ) (r : Reader) (w : Server)
      → (w.session id).closed ≡ false
      → ((w.session id).closing && (rounds fuel).at_look) ≡ false
      → concat r ≡ []
      → read_loop (suc fuel) rounds describe id r w ≡ close_session id w
  unfolding read_loop close_started
  read_loop_end fuel r w is_open waits e = ground (arith, parse_from_reader_end r e)

  read_loop_step :
      (fuel : ℕ) (r r' : Reader) (msg : Message) (w : Server)
      → (w.session id).closed ≡ false
      → ((w.session id).closing && (rounds fuel).at_look) ≡ false
      → parse_from_reader r ≡ parsed msg r'
      → read_loop (suc fuel) rounds describe id r w
        ≡ read_loop fuel rounds describe id r'
            (handle_and_report describe msg id (close_started (rounds fuel).after_read id w))
  unfolding read_loop
  read_loop_step fuel r r' msg w is_open waits e = unfold close_started in ground arith

  -- The message was read before the started `Close` ran, and is handled after it.
  read_loop_late :
      (fuel : ℕ) (r' : Reader) (msg : Message) (w : Server)
      → 0 < fuel
      → ((w.session id).closing && (rounds fuel).after_read) ≡ true
      → read_loop fuel rounds describe id r'
          (handle_and_report describe msg id (close_started (rounds fuel).after_read id w))
        ≡ handle_and_report describe msg id (close_session id w)
  unfolding close_started
  read_loop_late fuel r' msg w pos runs = ground (
    arith,
    closed-close_session id w,
    closed-handle_and_report msg id id (close_session id w) describe,
    read_loop_closed fuel r' (handle_and_report describe msg id (close_session id w)) pos,
  )

  -- No started `Close` runs: the message is handled, and the loop goes on.
  read_loop_on :
      (fuel : ℕ) (r' : Reader) (msg : Message) (w : Server)
      → ((w.session id).closing && (rounds fuel).after_read) ≡ false
      → read_loop fuel rounds describe id r'
          (handle_and_report describe msg id (close_started (rounds fuel).after_read id w))
        ≡ read_loop fuel rounds describe id r' (handle_and_report describe msg id w)
  unfolding close_started
  read_loop_on fuel r' msg w still = ground (arith, still)

  -- However the connection cuts the stream of a peer that sends sendable messages and then hangs up, and
  -- whenever the `Close` that a full queue starts runs: the read loop of an open session, on more fuel than
  -- messages, handles the messages in order and closes the session when the stream ends, unless the
  -- session's queue was full after some of them; then it may close the session there and handle no
  -- more, but for at most one message that was read before the `Close` ran and is handled after it.
  pub read_loop_messages :
      (msgs : List Message) (fuel : ℕ) (r : Reader) (w : Server)
      → (w.session id).closed ≡ false
      → All IsSendable msgs
      → concat r ≡ concat (map encode msgs)
      → length msgs < fuel
      → IsReadUntil describe id msgs w (read_loop fuel rounds describe id r w)
  unfolding handle_all IsReadUntil
  read_loop_messages msgs zero r w is_open h e enough = absurd (omega arith)
  read_loop_messages [] (suc fuel) r w is_open h e enough =
      elim (Bool-cases ((w.session id).closing && (rounds fuel).at_look)) [
        | inl runs ↦ ([], [], refl, inl (read_loop_shut fuel r w runs, inl refl))
        | inr waits ↦ ([], [], refl, inl (read_loop_end fuel r w is_open waits e, inl refl))
      ]
  read_loop_messages (msg ∷ msgs) (suc fuel) r w is_open (s, h) e enough =
      let (r', got, left) = parse_from_reader-encode r msg (concat (map encode msgs)) s e in
      let w' = handle_and_report describe msg id w in
      let (handled, rest, split, outcome) =
        read_loop_messages msgs fuel r' w' (closed-handle_and_report msg id id w describe ∙ is_open)
          h left (omega (arith, enough)) in
      elim (Bool-cases ((w.session id).closing && (rounds fuel).at_look)) [
        | inl runs ↦
            ([], msg ∷ msgs, refl, inl (read_loop_shut fuel r w runs, inr (ground (arith, runs))))
        | inr waits ↦
            let step = read_loop_step fuel r r' msg w is_open waits got in
            elim (Bool-cases ((w.session id).closing && (rounds fuel).after_read)) [
              | inl runs ↦
                  let late = read_loop_late fuel r' msg w (omega (arith, enough)) runs in
                  ([], msg ∷ msgs, refl, inr (msg, msgs, refl, ground (arith, runs), step ∙ late))
              | inr still ↦
                  let on = step ∙ read_loop_on fuel r' msg w still in
                  (
                    msg ∷ handled,
                    rest,
                    ap (λ l. msg ∷ l) split,
                    elim outcome [
                      | inl (same, why) ↦ inl (on ∙ same, why)
                      | inr (late, after, first, full, same) ↦
                          inr (late, after, first, full, on ∙ same)
                    ],
                  )
            ]
      ]
