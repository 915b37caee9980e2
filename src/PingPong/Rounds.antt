-- ===== src/PingPong/Rounds.antt =====
-- examples/ping_pong/main.go: the loop of `Run` that sends pings and waits for answers, and the
-- callback that puts answers into its channel. A time is a reading of the monotonic clock; nothing in
-- an answer says which ping it belongs to.
use kcpq.PingPong.Echo.{ping_request}
use kcpq.Client.{Client, ClientMessage}
use kcpq.Client.Lifecycle.{publish}
use kcpq.Protocol.Words.{put_uint64, put_uint32}
use kcpq.Prelude.{
  ℕ, zero, suc, ◌+◌, ◌*◌, ◌-◌, ◌≤◌, ◌<◌, ◌≡◌, inl, inr, refl, sym, Bool, false, Option, none, some,
  List, [], ◌∷◌, ◌++◌, Bytes, ltb, if◌then◌else◌, arith, length, length-append, take, second, ◌⊎◌,
  subst, Option-cases, Bool-cases,
}

-- Where the loop stands: before the ping of that number, or waiting for its answer since that time.
pub data Place : Type 0 where
  ready : (i : ℕ) → Place
  waiting : (i sent : ℕ) → Place

pub record PingPongTest : Type 0 where
  pub cli : Client
  pub resp_chan : List ClientMessage
  pub results : List ℕ
  pub received_count : ℕ
  pub place : Place

abbrev pub new_ping_pong_test : Client → PingPongTest
new_ping_pong_test c = record {
  cli = c;
  resp_chan = [];
  results = [];
  received_count = 0;
  place = ready 0;
}

-- `make([]byte, n)`
abbrev zeros : ℕ → Bytes
zeros zero = []
zeros (suc n) = 0 ∷ zeros n

-- The ping of number `i`; `none` is the panic of a slice out of range.
unfoldable pub ping_message : (size time i : ℕ) → Bytes → Option Bytes
ping_message size time i id =
    if ltb size 12
    then none
    else some
        (take size (put_uint64 time ++ (put_uint32 i ++ (id ++ zeros (size - 12 - length id)))))

-- The first half of a round.
unfoldable pub send_ping :
    Bytes → (size time i sent : ℕ) → (write_fails : Bool) → PingPongTest → Option PingPongTest
unfolding ping_message
send_ping id size time i sent write_fails p = elim (ping_message size time i id) [
  | none ↦ none
  | some ping ↦
      let (c, e) = publish (ping_request id) ping false write_fails p.cli in
      elim e [
        | some err ↦ some (record p { cli = c; place = ready (i + 1) })
        | none ↦ some (record p { cli = c; place = waiting i sent })
      ]
]

-- The second half, where an answer is received at `now`.
abbrev pub take_response : (i sent now : ℕ) → List ClientMessage → PingPongTest → PingPongTest
take_response i sent now rest p = record p {
  resp_chan = rest;
  results = p.results ++ (now - sent) ∷ [];
  received_count = p.received_count + 1;
  place = ready (i + 1);
}

abbrev pub timeout : ℕ
timeout = 5 * second

-- What the receive loop and other calls of the client do.
pub data Outside (p q : PingPongTest) : Type 0 where
  -- the callback of the subscription, which blocks while the channel is full
  arrives :
      (m : ClientMessage)
      → length p.resp_chan < 100
      → q ≡ record p { resp_chan = p.resp_chan ++ m ∷ [] }
      → Outside p q
  changes : (c : Client) → q ≡ record p { cli = c } → Outside p q

module _ (id : Bytes) (message_count message_size : ℕ) where
  -- What the loop does.
  pub data Turn (p q : PingPongTest) : Type 0 where
    pings :
        (time i sent : ℕ) (write_fails : Bool)
        → p.place ≡ ready i
        → i < message_count
        → send_ping id message_size time i sent write_fails p ≡ some q
        → Turn p q
    takes :
        (i sent now : ℕ) (m : ClientMessage) (rest : List ClientMessage)
        → p.place ≡ waiting i sent
        → sent ≤ now
        → p.resp_chan ≡ m ∷ rest
        → q ≡ take_response i sent now rest p
        → Turn p q
    times_out :
        (i sent now : ℕ)
        → p.place ≡ waiting i sent
        → sent + timeout ≤ now
        → q ≡ record p { place = ready (i + 1) }
        → Turn p q

  -- The number counts the turns of the loop.
  pub data Reach (p : PingPongTest) : ℕ → PingPongTest → Type 0 where
    here : Reach p 0 p
    outside : {n : ℕ} {q r : PingPongTest} → Reach p n q → Outside q r → Reach p n r
    turn : {n : ℕ} {q r : PingPongTest} → Reach p n q → Turn q r → Reach p (n + 1) r

-- Twice the rounds that are over, and one for a ping that is out.
abbrev pub half_rounds : Place → ℕ
half_rounds (ready i) = 2 * i
half_rounds (waiting i sent) = 2 * i + 1

abbrev pub rounds : Place → ℕ
rounds (ready i) = i
rounds (waiting i sent) = i

abbrev pub pending : Place → ℕ
pending (ready i) = 0
pending (waiting i sent) = 1

pub record IsTallied (message_count n : ℕ) (p : PingPongTest) : Type 0 where
  pub received : length p.results ≡ p.received_count
  pub answered : p.received_count ≤ rounds p.place
  pub asked : rounds p.place + pending p.place ≤ message_count
  pub room : length p.resp_chan ≤ 100
  pub turns : n ≤ half_rounds p.place

Outside-IsTallied :
    (message_count n : ℕ) (p q : PingPongTest)
    → Outside p q
    → IsTallied message_count n p
    → IsTallied message_count n q
Outside-IsTallied message_count n p q (arrives m open_yet e) v =
    subst (IsTallied message_count n) (sym e) (record {
      received = v.received;
      answered = v.answered;
      asked = v.asked;
      room = omega (arith, length-append p.resp_chan (m ∷ []));
      turns = v.turns;
    })
Outside-IsTallied message_count n p q (changes c e) v =
    subst (IsTallied message_count n) (sym e) (record {
      received = v.received;
      answered = v.answered;
      asked = v.asked;
      room = v.room;
      turns = v.turns;
    })

Turn-IsTallied :
    (id : Bytes) (message_count message_size n : ℕ) (p q : PingPongTest)
    → Turn id message_count message_size p q
    → IsTallied message_count n p
    → IsTallied message_count (n + 1) q
unfolding send_ping
Turn-IsTallied id message_count message_size n p q (pings time i sent write_fails at below e) v =
    ground (arith, v.received, v.answered, v.asked, v.room, v.turns)
Turn-IsTallied id message_count message_size n p q
      (takes i sent now m rest at later some_response e) v =
    subst (IsTallied message_count (n + 1)) (sym e) (
      ground (
        arith,
        v.received,
        v.answered,
        v.asked,
        v.room,
        v.turns,
        length-append p.results ((now - sent) ∷ []),
      ))
Turn-IsTallied id message_count message_size n p q (times_out i sent now at late e) v =
    subst (IsTallied message_count (n + 1)) (sym e)
      (ground (arith, v.received, v.answered, v.asked, v.room, v.turns))

Reach-IsTallied :
    (id : Bytes) (message_count message_size : ℕ) (c : Client) (n : ℕ) (p : PingPongTest)
    → Reach id message_count message_size (new_ping_pong_test c) n p
    → IsTallied message_count n p
Reach-IsTallied id message_count message_size c _ _ here = record {
  received = refl;
  answered = omega arith;
  asked = omega arith;
  room = omega arith;
  turns = omega arith;
}
Reach-IsTallied id message_count message_size c n p (outside {q = q} r o) =
    Outside-IsTallied message_count n q p o (Reach-IsTallied id message_count message_size c n q r)
Reach-IsTallied id message_count message_size c _ p (turn {n = n} {q = q} r t) =
    Turn-IsTallied id message_count message_size n q p t
      (Reach-IsTallied id message_count message_size c n q r)

send_ping_sends :
    (id : Bytes) (message_size i : ℕ) (p : PingPongTest)
    → 12 ≤ message_size
    → (q : PingPongTest) × (send_ping id message_size 0 i 0 false p ≡ some q)
unfolding send_ping ping_message
send_ping_sends id message_size i p h =
    let ping =
      take message_size
        (put_uint64 0 ++ (put_uint32 i ++ (id ++ zeros (message_size - 12 - length id)))) in
    let (c, e) = publish (ping_request id) ping false false p.cli in
    elim (Option-cases e) [
      | inl sent ↦ (record p { cli = c; place = waiting i 0 }, ground (arith, sent))
      | inr (err, failed) ↦ (record p { cli = c; place = ready (i + 1) }, ground (arith, failed))
    ]

Place-cases :
    (x : Place) → ((i : ℕ) × (x ≡ ready i)) ⊎ ((i : ℕ) × (sent : ℕ) × (x ≡ waiting i sent))
Place-cases (ready i) = inl (i, refl)
Place-cases (waiting i sent) = inr (i, sent, refl)

-- The loop of `Run`, for messages of at least twelve bytes: whatever arrives meanwhile, it takes at
-- most two turns for each ping, and short of the end a turn is possible, so it ends after the last
-- ping. At any time there are as many times as answers were received, not more than there were pings,
-- and the channel holds at most 100.
pub Run-ends :
    (id : Bytes) (message_count message_size n : ℕ) (c : Client) (p : PingPongTest)
    → 12 ≤ message_size
    → Reach id message_count message_size (new_ping_pong_test c) n p
    → IsTallied message_count n p
      × (n ≤ 2 * message_count)
      × ((p.place ≡ ready message_count)
          ⊎ ((q : PingPongTest) × Turn id message_count message_size p q))
Run-ends id message_count message_size n c p h r = (v, few, go (Place-cases p.place))
  where
    v : IsTallied message_count n p
    v = Reach-IsTallied id message_count message_size c n p r

    few : n ≤ 2 * message_count
    few = elim (Place-cases p.place) [
      | inl (i, e) ↦ ground (arith, v.asked, v.turns, e)
      | inr (i, sent, e) ↦ ground (arith, v.asked, v.turns, e)
    ]

    go :
        ((i : ℕ) × (p.place ≡ ready i)) ⊎ ((i : ℕ) × (sent : ℕ) × (p.place ≡ waiting i sent))
        → (p.place ≡ ready message_count)
          ⊎ ((q : PingPongTest) × Turn id message_count message_size p q)
    go (inr (i, sent, e)) =
        inr (
          record p { place = ready (i + 1) },
          times_out i sent (sent + timeout) e (omega arith) refl,
        )
    go (inl (i, e)) = elim (Bool-cases (ltb i message_count)) [
      | inl below ↦
          let (q, sends) = send_ping_sends id message_size i p h in
          inr (q, pings 0 i 0 false e (ground arith) sends)
      | inr over ↦ inl (ground (arith, v.asked, e))
    ]
