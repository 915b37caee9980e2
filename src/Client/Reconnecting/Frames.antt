-- ===== src/Client/Reconnecting/Frames.antt =====
-- client/client.go: the frames that `sendSubWithAck` and `restoreOneSubscription` write.
use kcpq.Client.Reconnecting.{RestoreAttempt, add_pending, send_sub_with_ack, restore_loop}
use kcpq.Client.{Client, SubId, receive}
use kcpq.Client.Attempts.{clear_pending}
use kcpq.Client.Subscribing.{receive-SameList}
use kcpq.Client.Keeping.{Flags, Same, role, receive-Same, clear_pending-Same}
use kcpq.Protocol.{new_message_cmd, encode, cmd_sub}
use kcpq.Prelude.{
  All, ℕ, zero, suc, ◌+◌, ◌≤◌, ◌≡◌, ◌⊎◌, inl, inr, refl, ap, sym, ◌∙◌, Bool, true, false, ◌||◌,
  none, List, [], ◌∷◌, ◌++◌, append_assoc, append-nil, Bytes, arith, Bool-cases, Option-cases,
}

abbrev pub replicate : ℕ → Bytes → List Bytes
replicate zero frame = []
replicate (suc n) frame = frame ∷ replicate n frame

-- The SUB frame of a subject.
abbrev pub sub_frame : Bytes → Bytes
sub_frame subject = encode (new_message_cmd cmd_sub subject [])

abbrev prepared : Bytes → Client → Client
prepared subject c = add_pending subject (clear_pending subject c)

abbrev waiting : Bytes → RestoreAttempt → Client → Client
waiting subject a c = receive a.inbox (record (prepared subject c) {
  written = (prepared subject c).written ++ encode (new_message_cmd cmd_sub subject []) ∷ [];
})

send_sub_with_ack-Same :
    (subject : Bytes) (a : RestoreAttempt) (id : SubId) (c : Client)
    → Same id c (send_sub_with_ack subject a c).0
unfolding send_sub_with_ack
send_sub_with_ack-Same subject a id c = ground (
  arith,
  clear_pending-Same subject id c,
  receive-Same a.inbox id (record (prepared subject c) {
    written = (prepared subject c).written ++ encode (new_message_cmd cmd_sub subject []) ∷ [];
  }),
)

pub restore_loop-Same :
    (left k : ℕ) (subject : Bytes) (env : ℕ → RestoreAttempt) (id : SubId) (c : Client)
    → Same id c (restore_loop left k subject env c).0
unfolding restore_loop
restore_loop-Same zero k subject env id c = (refl, refl)
restore_loop-Same (suc left) k subject env id c = ground (
  arith,
  send_sub_with_ack-Same subject (env k) id c,
  restore_loop-Same left (k + 1) subject env id (send_sub_with_ack subject (env k) c).0,
)

-- One attempt writes the SUB frame of the subject once or nothing, and once if it succeeds, which takes a
-- connection.
send_sub_with_ack-written :
    (subject : Bytes) (a : RestoreAttempt) (c : Client)
    → let r = send_sub_with_ack subject a c in
      (r.1 ≡ none → (r.0.written ≡ c.written ++ sub_frame subject ∷ []) × (c.has_conn ≡ true))
      × ((r.0.written ≡ c.written)
          ⊎ (r.0.written ≡ c.written ++ sub_frame subject ∷ []) × (c.has_conn ≡ true))
unfolding send_sub_with_ack clear_pending
send_sub_with_ack-written subject a c = ground (
  arith,
  clear_pending-Same subject 0 c,
  (receive-SameList a.inbox (record (prepared subject c) {
    written = (prepared subject c).written ++ encode (new_message_cmd cmd_sub subject []) ∷ [];
  })).1,
)

-- From one list of frames to another: `n` times the same frame is added.
abbrev pub Adds : ℕ → Bytes → List Bytes → List Bytes → Type 0
Adds n frame before after = after ≡ before ++ replicate n frame

Adds-zero : (frame : Bytes) (x y : List Bytes) → y ≡ x → Adds 0 frame x y
Adds-zero frame x y e = e ∙ sym (append-nil x)

Adds-suc :
    (n : ℕ) (frame : Bytes) (x y z : List Bytes)
    → y ≡ x ++ frame ∷ []
    → Adds n frame y z
    → Adds (suc n) frame x z
Adds-suc n frame x y z e h =
    h ∙ ap (λ l. l ++ replicate n frame) e ∙ append_assoc x (frame ∷ []) (replicate n frame)

-- What several attempts write: at most as many frames as there are attempts, at least one where they
-- succeed, and none without a connection.
pub restore_loop-written :
    (left k : ℕ) (subject : Bytes) (env : ℕ → RestoreAttempt) (c : Client)
    → let r = restore_loop left k subject env c in
      (n : ℕ) × Adds n (sub_frame subject) c.written r.0.written
      × (n ≤ left)
      × (r.1 ≡ none → (1 ≤ n) × (c.has_conn ≡ true))
      × (c.has_conn ≡ false → n ≡ 0)
unfolding restore_loop
restore_loop-written zero k subject env c = (
  0,
  Adds-zero (sub_frame subject) c.written c.written refl,
  omega arith,
  ground arith,
  ground arith,
)
restore_loop-written (suc left) k subject env c =
    let r = send_sub_with_ack subject (env k) c in
    let (good, cases) = send_sub_with_ack-written subject (env k) c in
    let (n, adds, few, ok, off) = restore_loop-written left (k + 1) subject env r.0 in
    let conn = ap (λ (f : Flags). f.conn) (send_sub_with_ack-Same subject (env k) 0 c).0 in
    let last = (restore_loop (suc left) k subject env c).0 in
    let frame = sub_frame subject in
    let stop = r.0.done || (r.0.cancelled || (env k).stopped) in
    elim (Option-cases r.1) [
      | inl done ↦ (
        1,
        ground (arith, done, good),
        omega arith,
        ground (arith, done, good),
        ground (arith, done, good),
      )
      | inr (e, failed) ↦ elim (Bool-cases stop) [
        | inl stops ↦ elim cases [
          | inl same ↦ (
            0,
            Adds-zero frame c.written last.written (ground (arith, failed, stops, same)),
            omega arith,
            ground (arith, failed, stops),
            ground arith,
          )
          | inr (one, has) ↦ (
            1,
            ground (arith, failed, stops, one),
            omega arith,
            ground (arith, failed, stops),
            ground (arith, has),
          )
        ]
        | inr goes ↦ elim cases [
          | inl same ↦ (
            n,
            ground (arith, failed, goes, same, adds),
            omega (arith, few),
            ground (arith, failed, goes, ok, conn),
            ground (arith, off, conn),
          )
          | inr (one, has) ↦ (
            suc n,
            ground (
              arith,
              failed,
              goes,
              Adds-suc n frame c.written r.0.written last.written one,
              adds,
            ),
            omega (arith, few),
            ground (arith, failed, goes, has),
            ground (arith, has),
          )
        ]
      ]
    ]

-- The frames written while the client goes from `c` to `d`: for each subscription in turn, only SUB
-- frames of its subject, at most three, at least one where it is active at the end, and none where it
-- was inactive or there is no connection.
abbrev pub AreResent : Client → Client → List SubId → List Bytes → Type 0
AreResent c d [] frames = frames ≡ []
AreResent c d (id ∷ ids) frames =
    (n : ℕ) × (rest : List Bytes) × (frames
      ≡ replicate n (encode (new_message_cmd cmd_sub (c.sub id).subject [])) ++ rest)
    × (n ≤ 3)
    × ((c.sub id).active ≡ false → n ≡ 0)
    × ((d.sub id).active ≡ true → 1 ≤ n)
    × (c.has_conn ≡ false → n ≡ 0)
    × AreResent c d ids rest

pub AreResent-from :
    (c b d : Client) (ids : List SubId) (frames : List Bytes)
    → b.has_conn ≡ c.has_conn
    → All (λ j. role (b.sub j) ≡ role (c.sub j)) ids
    → AreResent b d ids frames
    → AreResent c d ids frames
AreResent-from c b d [] frames conn same r = r
AreResent-from c b d (id ∷ ids) frames conn (e, same) (n, rest, cut, few, off, on, idle, r) =
    let subject = ap (λ (p : Bytes × Bool × Bool × Bool). p.0) e in
    let active = ap (λ (p : Bytes × Bool × Bool × Bool). p.1) e in
    (
      n,
      rest,
      cut ∙ ap (λ s. replicate n (encode (new_message_cmd cmd_sub s [])) ++ rest) subject,
      few,
      λ h. off (active ∙ h),
      on,
      λ h. idle (conn ∙ h),
      AreResent-from c b d ids rest conn same r,
    )
