-- ===== src/PingPong/Echo.antt =====
-- examples/ping_server/main.go: the server that answers pings, and the subjects that it and
-- examples/ping_pong/main.go use.
use kcpq.Client.{Client, ClientMessage}
use kcpq.Client.Lifecycle.{publish}
use kcpq.Subject.{dot, split, has_suffix, contains_byte}
use kcpq.Subject.Splitting.{split-append_dot, has_suffix_iff}
use kcpq.Router.{match}
use kcpq.Router.Matching.{below, match_iff}
use kcpq.Protocol.{new_message_cmd, encode, cmd_pub}
use kcpq.Protocol.RoundTrip.{IsSendable}
use kcpq.Prelude.{
  ◌≡◌, refl, sym, ap, ◌∙◌, Bool, true, false, Option, none, some, List, [], ◌∷◌, ◌++◌, append_assoc,
  Bytes, codes, beq, if◌then◌else◌, arith, length, length-append, ◌<◌,
}

-- `fmt.Sprintf("ping.%s.request", id)`
unfoldable pub ping_request : Bytes → Bytes
ping_request id = codes "ping." ++ (id ++ codes ".request")

-- `fmt.Sprintf("ping.%s.response", id)`
unfoldable pub ping_response : Bytes → Bytes
ping_response id = codes "ping." ++ (id ++ codes ".response")

-- `parts[1]`, where there are at least three parts.
unfoldable pub client_part : List Bytes → Option Bytes
client_part (ping ∷ id ∷ request ∷ more) = some id
client_part (ping ∷ id ∷ []) = none
client_part (ping ∷ []) = none
client_part [] = none

-- The callback of the subscription to "ping.>"; an error of `Publish` is only logged.
unfoldable pub echo : (write_fails : Bool) → ClientMessage → Client → Client
unfolding client_part
echo write_fails msg c =
    if has_suffix msg.subject (codes ".request")
    then elim (client_part (split msg.subject)) [
      | none ↦ c
      | some id ↦ (publish (ping_response id) msg.body false write_fails c).0
    ]
    else c

split_plain : (id : Bytes) → contains_byte id dot ≡ false → split id ≡ id ∷ []
unfolding contains_byte split
split_plain [] h = refl
split_plain (b ∷ id) h = ground (arith, split_plain id)

split_three :
    (a id z : Bytes) → split (a ++ (dot ∷ (id ++ (dot ∷ z)))) ≡ split a ++ (split id ++ split z)
split_three a id z =
    split-append_dot a (id ++ (dot ∷ z)) ∙ ap (λ ws. split a ++ ws) (split-append_dot id z)

split-ping_request :
    (id : Bytes)
    → contains_byte id dot ≡ false
    → split (ping_request id) ≡ codes "ping" ∷ id ∷ codes "request" ∷ []
unfolding ping_request split
split-ping_request id h =
    split_three (codes "ping") id (codes "request")
    ∙ ap (λ ws. codes "ping" ∷ ws ++ (codes "request" ∷ [])) (split_plain id h)

has_suffix-ping_request : (id : Bytes) → has_suffix (ping_request id) (codes ".request") ≡ true
unfolding ping_request
has_suffix-ping_request id =
    (has_suffix_iff (codes "ping." ++ (id ++ codes ".request")) (codes ".request")).1
      (codes "ping." ++ id, sym (append_assoc (codes "ping.") id (codes ".request")))

beq_longer : (s t : Bytes) → length t < length s → beq s t ≡ false
unfolding beq
beq_longer [] t h = absurd (omega arith)
beq_longer (a ∷ s) [] h = refl
beq_longer (a ∷ s) (b ∷ t) h = ground (arith, beq_longer s t)

has_suffix-response : (s : Bytes) → has_suffix (s ++ codes ".response") (codes ".request") ≡ false
unfolding has_suffix
has_suffix-response [] = unfold beq in refl
has_suffix-response (b ∷ s) = ground (
  arith,
  has_suffix-response s,
  beq_longer (b ∷ (s ++ codes ".response")) (codes ".request")
      (omega (arith, length-append s (codes ".response"))),
)

-- The subscription of the server admits whatever begins with "ping.".
match-ping : (t : Bytes) → match (codes "ping.>") (codes "ping." ++ t) ≡ true
match-ping t =
    (match_iff (codes "ping.>") (codes "ping." ++ t)).1 (below (codes "ping") t refl refl)

-- For a client id without a dot, a connected server whose write succeeds, and a body with which the
-- answer is within the limits of the protocol: the router passes a ping request on to the server's
-- subscription; the server answers it with one publication, of the same body, on the subject that the
-- client of that id has subscribed to; and of an answer, which the router passes on to it as well, the
-- server takes no notice.
pub ping_is_answered :
    (id body : Bytes) (c : Client)
    → contains_byte id dot ≡ false
    → c.has_conn ≡ true
    → IsSendable (new_message_cmd cmd_pub (ping_response id) body)
    → (match (codes "ping.>") (ping_request id) ≡ true)
      × (echo false (record { subject = ping_request id; body = body }) c ≡ record c {
        written = c.written ++ encode (new_message_cmd cmd_pub (ping_response id) body) ∷ [];
      })
      × (match (codes "ping.>") (ping_response id) ≡ true)
      × ((write_fails : Bool) (answer : Bytes) (d : Client)
          → echo write_fails (record { subject = ping_response id; body = answer }) d ≡ d)
unfolding echo publish
ping_is_answered id body c plain online fits = (
  unfold ping_request in match-ping (id ++ codes ".request"),
  ground (
    arith,
    has_suffix-ping_request id,
    split-ping_request id plain,
    fits.subject_fits,
    fits.body_fits,
  ),
  unfold ping_response in match-ping (id ++ codes ".response"),
  λ write_fails answer d. ground (arith, quiet),
)
  where
    quiet : has_suffix (ping_response id) (codes ".request") ≡ false
    quiet = unfold ping_response in has_suffix-response (codes "ping." ++ id)
