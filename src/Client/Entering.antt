-- ===== src/Client/Entering.antt =====
-- client/client.go: the subscription that `SubscribeWithOptionsContext` returns.
use kcpq.Client.{Client, SubId}
use kcpq.Client.Attempts.{
  Attempt, subscribed, register, abandon, try_subscribe, subscribe_loop, subscribe,
}
use kcpq.Client.Subscribing.{prepared, prepared-SameList, sent, try_subscribe_succeeds}
use kcpq.Client.Keeping.{Flags, flags, role, receive-Same, clear_pending-Same}
use kcpq.Subscriptions.{contains}
use kcpq.Subscriptions.Laws.{contains-append}
use kcpq.Prelude.{
  ℕ, zero, suc, ◌≡◌, refl, ap, Bool, true, false, List, [], ◌∷◌, Bytes, if◌then◌else◌, leb, arith,
}

-- A subscription that is listed, active and open, for the subject.
pub record IsEntered (subject : Bytes) (id : SubId) (c : Client) : Type 0 where
  pub listed : contains id c.subscriptions ≡ true
  pub role_of : role (c.sub id) ≡ (subject, true, false, false)
  pub online : c.has_conn ≡ true

prepared-Flags :
    (subject : Bytes) (again : Bool) (c : Client) → flags (prepared subject again c) ≡ flags c
prepared-Flags subject true c = (clear_pending-Same subject 0 c).0
prepared-Flags subject false c = refl

try_subscribe-IsEntered :
    (subject : Bytes) (capacity : ℕ) (again : Bool) (a : Attempt) (c : Client) (id : SubId)
    → (try_subscribe subject capacity again a c).1 ≡ subscribed id
    → IsEntered subject id (try_subscribe subject capacity again a c).0
unfolding try_subscribe register contains
try_subscribe-IsEntered subject capacity again a c id e =
    let b = prepared subject again c in
    ground (
      arith,
      try_subscribe_succeeds subject capacity again a c id e,
      contains-append id c.subscriptions (id ∷ []),
      receive-Same a.inbox id (sent subject (register subject capacity b)),
      prepared-SameList subject again c,
    )

-- What subscribing leaves alone.
abbrev pub Kept : Client → Client → Type 0
Kept c d = (d.auto_reconnect ≡ c.auto_reconnect) × (d.closed_once ≡ c.closed_once)

try_subscribe_keeps :
    (subject : Bytes) (capacity : ℕ) (again : Bool) (a : Attempt) (c : Client)
    → Kept c (try_subscribe subject capacity again a c).0
unfolding try_subscribe register abandon
try_subscribe_keeps subject capacity again a c =
    let b = prepared subject again c in
    ground (
      arith,
      ap (λ (f : Flags). f.once) (prepared-Flags subject again c),
      ap (λ (f : Flags). f.once)
          (receive-Same a.inbox 0 (sent subject (register subject capacity b))).0,
      ap (λ (f : Flags). f.automatic) (prepared-Flags subject again c),
      ap (λ (f : Flags). f.automatic)
          (receive-Same a.inbox 0 (sent subject (register subject capacity b))).0,
    )

subscribe_loop_lem :
    (left : ℕ) (subject : Bytes) (capacity : ℕ) (again : Bool) (attempts : List Attempt)
    (c : Client)
    → let r = subscribe_loop left subject capacity again attempts c in
      Kept c r.0 × ((id : SubId) → r.1 ≡ subscribed id → IsEntered subject id r.0)
unfolding subscribe_loop
subscribe_loop_lem zero subject capacity again attempts c = ((refl, refl), λ id e. cc)
subscribe_loop_lem (suc left) subject capacity again [] c = ((refl, refl), λ id e. cc)
subscribe_loop_lem (suc left) subject capacity again (a ∷ attempts) c =
    let kept = try_subscribe_keeps subject capacity again a c in
    let (later, entered) =
      subscribe_loop_lem left subject capacity true attempts
        (try_subscribe subject capacity again a c).0 in
    (
      ground (arith, kept, later),
      λ id e. ground (arith, entered id, try_subscribe-IsEntered subject capacity again a c id),
    )

-- The subscription that `SubscribeWithOptionsContext` returns is listed, active and open, for its subject.
pub subscribe-IsEntered :
    (subject : Bytes) (capacity : ℕ) (attempts : List Attempt) (c : Client)
    → let r = subscribe subject capacity attempts c in
      Kept c r.0 × ((id : SubId) → r.1 ≡ subscribed id → IsEntered subject id r.0)
unfolding subscribe
subscribe-IsEntered subject capacity attempts c =
    let (kept, entered) =
      subscribe_loop_lem 3 subject (if leb capacity 0 then 100 else capacity) false attempts c in
    (ground (arith, kept), λ id e. ground (arith, entered id))
