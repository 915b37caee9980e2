-- ===== src/PingPong/Tests.antt =====
-- examples/ping_pong/main.go: three round-trip times.
use kcpq.PingPong.Echo.{ping_request, ping_response, echo, ping_is_answered}
use kcpq.PingPong.Rounds.{
  PingPongTest, Reach, here, turn, pings, ready, new_ping_pong_test, send_ping, ping_message,
  IsTallied, Turn, Run-ends,
}
use kcpq.Client.{Client}
use kcpq.Client.Lifecycle.{publish}
use kcpq.Client.Reconnecting.{connected_client}
use kcpq.Router.{match}
use kcpq.Subject.{contains_byte}
use kcpq.Protocol.{new_message_cmd, encode, cmd_pub}
use kcpq.Protocol.RoundTrip.{IsSendable}
use kcpq.PingPong.{
  min_of, max_of, sum_of, average, sort, sort_rounds, pass, percentile, Summary, summarize,
}
use kcpq.PingPong.Percentiles.{total, summarize_lem}
use kcpq.Protocol.Words.{put_uint64, put_uint32}
use kcpq.Prelude.{
  ℕ, ◌*◌, ◌≡◌, ◌≤◌, ◌<◌, ◌^◌, ◌⊎◌, refl, some, Bool, true, false, List, [], ◌∷◌, ◌++◌, Bytes, codes,
  arith, All,
}

abbrev times : List ℕ
times = 30 ∷ 10 ∷ 20 ∷ []

three_sorted : sort times ≡ 10 ∷ 20 ∷ 30 ∷ []
unfolding sort sort_rounds pass
three_sorted = refl

three_summarized :
    summarize times
    ≡ some (record {
      least = 10;
      greatest = 30;
      avg = 20;
      p50 = some 20;
      p95 = some 30;
      p99 = some 30;
    })
unfolding summarize sort sort_rounds pass percentile min_of max_of sum_of average
three_summarized = refl

summarize_lem_example :
    (s : Summary) × (a : ℕ) × (b : ℕ) × (c : ℕ) × (summarize times ≡ some s)
    × (s.p50 ≡ some a)
    × (s.p95 ≡ some b)
    × (s.p99 ≡ some c)
    × (s.least ≤ a)
    × (a ≤ b)
    × (b ≤ c)
    × (c ≤ s.greatest)
    × (s.least ≤ s.avg)
    × (s.avg ≤ s.greatest)
    × All (λ y. s.least ≤ y) times
    × All (λ y. y ≤ s.greatest) times
summarize_lem_example = summarize_lem 30 (10 ∷ 20 ∷ []) small
  where
    small : total times < 2 ^ 63
    small = unfold total in omega arith

abbrev online : Client
online = connected_client []

response_fits : IsSendable (new_message_cmd cmd_pub (ping_response (codes "client-7")) (1 ∷ 2 ∷ []))
unfolding ping_response
response_fits = omega arith

ping_is_answered_example :
    (match (codes "ping.>") (ping_request (codes "client-7")) ≡ true)
    × (echo false (record { subject = ping_request (codes "client-7"); body = 1 ∷ 2 ∷ [] }) online
        ≡ record online {
          written =
              online.written
              ++ encode (new_message_cmd cmd_pub (ping_response (codes "client-7")) (1 ∷ 2 ∷ []))
                ∷ [];
        })
    × (match (codes "ping.>") (ping_response (codes "client-7")) ≡ true)
    × ((write_fails : Bool) (answer : Bytes) (d : Client)
        → echo write_fails (record { subject = ping_response (codes "client-7"); body = answer }) d
          ≡ d)
ping_is_answered_example =
    ping_is_answered (codes "client-7") (1 ∷ 2 ∷ []) online (unfold contains_byte in refl) refl
      response_fits

-- A ping that could not be written.
abbrev one_failed : PingPongTest
one_failed = record (new_ping_pong_test online) {
  cli =
      (publish (ping_request (codes "x")) (0 ∷ 0 ∷ 0 ∷ 0 ∷ 0 ∷ 0 ∷ 0 ∷ 5 ∷ 0 ∷ 0 ∷ 0 ∷ 0 ∷ []) false
        true online).0;
  place = ready 1;
}

one_failed-Reach : Reach (codes "x") 3 12 (new_ping_pong_test online) 1 one_failed
unfolding send_ping ping_message publish ping_request put_uint64 put_uint32
one_failed-Reach = turn here (pings 5 0 9 true refl (omega arith) refl)

Run-ends_example :
    IsTallied 3 1 one_failed
    × (1 ≤ 2 * 3)
    × ((one_failed.place ≡ ready 3) ⊎ ((q : PingPongTest) × Turn (codes "x") 3 12 one_failed q))
Run-ends_example = Run-ends (codes "x") 3 12 1 online one_failed (omega arith) one_failed-Reach
