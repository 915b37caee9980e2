-- ===== src/Client/Leaking.antt =====
-- client/client.go: what `SubscribeWithOptionsContext` leaves behind without a connection.
use kcpq.Client.{Client, SubId}
use kcpq.Client.Attempts.{
  Attempt, failed, retry, failed_after_attempts, clear_pending, register, try_subscribe,
  subscribe_loop, subscribe,
}
use kcpq.Protocol.{max_subject_len}
use kcpq.Prelude.{
  ℕ, ◌≤◌, ◌<◌, ◌≡◌, refl, sym, ap, subst, ◌∙◌, Bool, true, false, List, [], ◌∷◌, ◌++◌, append_assoc,
  Bytes, leb, if◌then◌else◌, length, arith, All, All-append, append-nil,
}
use kcpq.Client.Subscribing.{SameList, prepared, prepared-SameList, register_lem}

-- A round without a connection does nothing but enter its subscription.
try_subscribe_off :
    (subject : Bytes) (capacity : ℕ) (again : Bool) (a : Attempt) (c : Client)
    → c.has_conn ≡ false
    → try_subscribe subject capacity again a c
      ≡ (register subject capacity (prepared subject again c), retry)
unfolding try_subscribe
try_subscribe_off subject capacity again a c off = ground (
  arith,
  prepared-SameList subject again c,
  register_lem subject capacity (prepared subject again c),
)

-- What `n` rounds without a connection leave behind.
pub record Leaked (c d : Client) (ids : List SubId) : Type 0 where
  pub listed : d.subscriptions ≡ c.subscriptions ++ ids
  pub are_active : All (λ id. (d.sub id).active ≡ true) ids
  pub below : All (λ id. id < d.next_sub) ids
  pub off : d.has_conn ≡ false

sub-prepared :
    (subject : Bytes) (again : Bool) (c : Client) → (prepared subject again c).sub ≡ c.sub
unfolding clear_pending
sub-prepared subject again c = ground arith

All-map :
    (P Q : SubId → Type 0) (ids : List SubId) → ((id : SubId) → P id → Q id) → All P ids → All Q ids
All-map P Q [] f h = tt
All-map P Q (id ∷ ids) f (p, h) = (f id p, All-map P Q ids f h)

All-both :
    (P Q : SubId → Type 0) (ids : List SubId) → All P ids → All Q ids → All (λ id. P id × Q id) ids
All-both P Q [] h k = tt
All-both P Q (id ∷ ids) (p, h) (q, k) = ((p, q), All-both P Q ids h k)

register-Leaked :
    (subject : Bytes) (capacity : ℕ) (again : Bool) (c d : Client) (ids : List SubId)
    → Leaked c d ids
    → Leaked c (register subject capacity (prepared subject again d)) (ids ++ d.next_sub ∷ [])
unfolding register
register-Leaked subject capacity again c d ids v = record {
  listed =
      ap (λ ss. ss ++ b.next_sub ∷ []) (same.0 ∙ v.listed)
      ∙ append_assoc c.subscriptions ids (b.next_sub ∷ [])
      ∙ ap (λ n. c.subscriptions ++ (ids ++ n ∷ [])) same.2;
  are_active =
      All-append (λ id. (d'.sub id).active ≡ true) ids (d.next_sub ∷ [])
        (All-map (λ id. ((d.sub id).active ≡ true) × (id < d.next_sub))
          (λ id. (d'.sub id).active ≡ true) ids
          (λ id h. ground (arith, sub-prepared subject again d, same.2))
          (All-both (λ id. (d.sub id).active ≡ true) (λ id. id < d.next_sub) ids v.are_active
            v.below))
        (ground (arith, same.2), tt);
  below =
      All-append (λ id. id < d'.next_sub) ids (d.next_sub ∷ [])
        (All-map (λ id. id < d.next_sub) (λ id. id < d'.next_sub) ids
          (λ id h. omega (arith, same.2)) v.below)
        (omega (arith, same.2), tt);
  off = same.3 ∙ v.off;
}
  where
    b : Client
    b = prepared subject again d

    d' : Client
    d' = register subject capacity b

    same : SameList d b
    same = prepared-SameList subject again d

-- Without a connection, for a subject within the limit and a context that is never cancelled, `Subscribe`
-- fails after its three attempts, and leaves three new subscriptions behind that are listed and active.
pub subscribe_leaks :
    (subject : Bytes) (capacity : ℕ) (a1 a2 a3 : Attempt) (c : Client)
    → length subject ≤ max_subject_len
    → c.has_conn ≡ false
    → (a1.cancelled_before ≡ false) × (a2.cancelled_before ≡ false) × (a3.cancelled_before ≡ false)
    → let r = subscribe subject capacity (a1 ∷ a2 ∷ a3 ∷ []) c in
      (r.1 ≡ failed failed_after_attempts)
      × ((ids : List SubId) × (length ids ≡ 3) × Leaked c r.0 ids)
subscribe_leaks subject capacity a1 a2 a3 c fits off (h1, h2, h3) =
    (out, (ids, refl, subst (λ d. Leaked c d ids) (sym end) v3))
  where
    cap : ℕ
    cap = if leb capacity 0 then 100 else capacity

    c0 : Client
    c0 = c

    c1 : Client
    c1 = register subject cap c0

    c2 : Client
    c2 = register subject cap (prepared subject true c1)

    c3 : Client
    c3 = register subject cap (prepared subject true c2)

    ids : List SubId
    ids = c0.next_sub ∷ c1.next_sub ∷ c2.next_sub ∷ []

    v0 : Leaked c c []
    v0 = record {
      listed = sym (append-nil c.subscriptions);
      are_active = tt;
      below = tt;
      off = off;
    }

    v1 : Leaked c c1 (c0.next_sub ∷ [])
    v1 = register-Leaked subject cap false c c0 [] v0

    v2 : Leaked c c2 (c0.next_sub ∷ c1.next_sub ∷ [])
    v2 = register-Leaked subject cap true c c1 (c0.next_sub ∷ []) v1

    v3 : Leaked c c3 ids
    v3 = register-Leaked subject cap true c c2 (c0.next_sub ∷ c1.next_sub ∷ []) v2

    loop : subscribe subject capacity (a1 ∷ a2 ∷ a3 ∷ []) c ≡ (c3, failed failed_after_attempts)
    loop =
        unfold subscribe subscribe_loop in
        ground (
          arith,
          try_subscribe_off subject cap false a1 c0 off,
          try_subscribe_off subject cap true a2 c1 v1.off,
          try_subscribe_off subject cap true a3 c2 v2.off,
        )

    out : (subscribe subject capacity (a1 ∷ a2 ∷ a3 ∷ []) c).1 ≡ failed failed_after_attempts
    out = ap (λ r. r.1) loop

    end : (subscribe subject capacity (a1 ∷ a2 ∷ a3 ∷ []) c).0 ≡ c3
    end = ap (λ r. r.0) loop
