-- ===== src/Client/Publishing.antt =====
-- client/client.go: what `PublishWithContext` writes, and what a lost connection sets off.
use kcpq.Client.{Client}
use kcpq.Client.Lifecycle.{
  publish, PublishError, context_error, failed_to_publish, trigger_connection_lost, reconnect,
  reconnect_delay,
}
use kcpq.Protocol.{Message, new_message_cmd, encode, cmd_pub, parsed, parse_with_remaining}
use kcpq.Protocol.RoundTrip.{IsSendable, parse_with_remaining-encode}
use native.Mathlib.Nat.{pow-le-pow_right, mul-le-mul_left}
use kcpq.Prelude.{
  ℕ, ◌+◌, ◌*◌, ◌^◌, ◌≤◌, ◌<◌, ◌≡◌, ◌⊎◌, Bool, true, false, none, some, [], ◌∷◌, ◌++◌, Bytes, ltb,
  if◌then◌else◌, min, arith,
}

abbrev published : Bytes → Bytes → Message
published subject body = new_message_cmd cmd_pub subject body

-- A publication that returns no error has written one frame behind all that was written before, changed
-- nothing else of the client, and the peer reads that frame as the PUB message of the subject and the body.
pub publish_succeeds :
    (subject body rest : Bytes) (context_done write_fails : Bool) (c : Client)
    → (publish subject body context_done write_fails c).1 ≡ none
    → (frame : Bytes) × ((publish subject body context_done write_fails c).0
        ≡ record c { written = c.written ++ frame ∷ [] })
      × (parse_with_remaining (frame ++ rest) ≡ parsed (published subject body) rest)
      × (c.has_conn ≡ true)
unfolding publish
publish_succeeds subject body rest context_done write_fails c e = (
  encode (published subject body),
  ground arith,
  parse_with_remaining-encode (published subject body) rest (ground arith),
  ground arith,
)

-- A publication whose context is done changes nothing. One that fails for any other reason writes nothing
-- and is counted as one error; where the connection was there and the message within the limits, it failed
-- in the write, and afterwards the connection counts as lost unless the client is closed.
pub publish_fails :
    (subject body : Bytes) (context_done write_fails : Bool) (c : Client) (err : PublishError)
    → (publish subject body context_done write_fails c).1 ≡ some err
    → let c' = (publish subject body context_done write_fails c).0 in
      ((err ≡ context_error) × (c' ≡ c))
      ⊎ ((c'.publish_errors ≡ c.publish_errors + 1)
          × (c'.written ≡ c.written)
          × (c.has_conn ≡ true
              → IsSendable (published subject body)
              → (err ≡ failed_to_publish)
                × (c.done ≡ false → c.cancelled ≡ false → c'.connection_lost ≡ true)))
unfolding publish trigger_connection_lost reconnect
publish_fails subject body context_done write_fails c err e = ground arith

-- However often the loss of the connection is noticed, only the first time changes the client: a second
-- one finds the loss recorded, and no second loop of reconnecting is started.
pub trigger_connection_lost_twice :
    (c : Client) → trigger_connection_lost (trigger_connection_lost c) ≡ trigger_connection_lost c
unfolding trigger_connection_lost reconnect
trigger_connection_lost_twice c = ground arith

delay_of : ℕ → ℕ → ℕ
delay_of base attempt = if ltb 0 attempt then base * 2 ^ min attempt 10 else base

delay_of_grows : (base i j : ℕ) → i ≤ j → delay_of base i ≤ delay_of base j
unfolding delay_of
delay_of_grows base i j h =
    ground (arith, grows (min i 10) (min j 10) (omega arith), grows 0 (min j 10) (omega arith))
  where
    grows : (a b : ℕ) → a ≤ b → base * 2 ^ a ≤ base * 2 ^ b
    grows a b le = mul-le-mul_left base (pow-le-pow_right (omega arith) le)

delay_of_small : (base i : ℕ) → base < 2 ^ 53 → delay_of base i < 2 ^ 63
unfolding delay_of
delay_of_small base i h = ground (arith, mul-le-mul_left base (bound i))
  where
    bound : (k : ℕ) → 2 ^ min k 10 ≤ 2 ^ 10
    bound k = pow-le-pow_right (omega arith) {j = 10} (omega arith)

-- For an interval of less than 2 ^ 53 nanoseconds (104 days) the delays between the attempts to
-- reconnect, before the random factor, do not overflow: they are not negative, never shrink from one
-- attempt to the next, and stay within the maximum where there is one.
pub reconnect_delay_bounds :
    (base max_backoff i j : ℕ)
    → base < 2 ^ 53
    → i ≤ j
    → (reconnect_delay base max_backoff i ≤ reconnect_delay base max_backoff j)
      × (reconnect_delay base max_backoff j < 2 ^ 63)
      × (0 < max_backoff → reconnect_delay base max_backoff j ≤ max_backoff)
unfolding reconnect_delay delay_of
reconnect_delay_bounds base max_backoff i j small h =
    ground
      (arith, delay_of_grows base i j h, delay_of_small base i small, delay_of_small base j small)

-- At 2 ^ 53 nanoseconds the eleventh delay is negative, whatever the maximum: the loop dials at once.
pub reconnect_delay_overflows :
    (max_backoff k : ℕ) → reconnect_delay (2 ^ 53) max_backoff (k + 10) ≡ 2 ^ 63
unfolding reconnect_delay
reconnect_delay_overflows max_backoff k =
    let e : min (k + 10) 10 ≡ 10 = omega arith in ground (arith, e)
