-- ===== src/Client/Reconnecting/Restoring.antt =====
-- client/client.go: what `restoreSubscriptions` makes of the client.
use kcpq.Client.Reconnecting.{
  RestoreAttempt, restore_one_subscription, restore_sub, restore_subs, restore_subscriptions,
}
use kcpq.Client.Reconnecting.Frames.{
  replicate, sub_frame, AreResent, AreResent-from, Adds, restore_loop-Same, restore_loop-written,
}
use kcpq.Client.{Client, SubId}
use kcpq.Client.Stats.{active_count}
use kcpq.Client.Keeping.{Flags, flags, role}
use kcpq.Subscriptions.{contains}
use kcpq.Router.Relation.{Distinct}
use kcpq.Prelude.{
  ℕ, ◌+◌, ◌≤◌, ◌≡◌, ◌⊎◌, inl, inr, refl, ap, sym, ◌∙◌, Bool, true, false, List, [], ◌∷◌, ◌++◌,
  append_assoc, append-nil, Bytes, ◌==◌, arith, All, Bool-cases,
}

-- The same but for the count of errors.
abbrev pub SameButErrors : Client → Client → Type 0
SameButErrors c d = record (flags d) { errors = c.subscription_errors } ≡ flags c

-- One subscription: it keeps its subject, stays inactive if it was, and else is active exactly where
-- no error is counted.
pub restore_sub_lem :
    (env : ℕ → RestoreAttempt) (id : SubId) (c : Client)
    → let d = restore_sub env id c in
      SameButErrors c d
      × ((d.sub id).subject ≡ (c.sub id).subject)
      × ((c.sub id).active ≡ false → d ≡ c)
      × ((c.sub id).active ≡ true
          → ((d.sub id).active ≡ true)
              × (d.subscription_errors ≡ c.subscription_errors)
              × (c.has_conn ≡ true)
            ⊎ ((d.sub id).active ≡ false) × (d.subscription_errors ≡ c.subscription_errors + 1))
unfolding restore_sub restore_one_subscription
restore_sub_lem env id c = ground (
  arith,
  restore_loop-Same 3 0 (c.sub id).subject env id c,
  restore_loop-written 3 0 (c.sub id).subject env c,
)

-- The SUB frames that the restoration of one subscription writes.
restore_sub-written :
    (env : ℕ → RestoreAttempt) (id : SubId) (c : Client)
    → let d = restore_sub env id c in
      (n : ℕ) × Adds n (sub_frame (c.sub id).subject) c.written d.written
      × (n ≤ 3)
      × ((c.sub id).active ≡ false → n ≡ 0)
      × ((d.sub id).active ≡ true → 1 ≤ n)
      × (c.has_conn ≡ false → n ≡ 0)
unfolding restore_sub restore_one_subscription
restore_sub-written env id c =
    let (n, adds, few, ok, off) = restore_loop-written 3 0 (c.sub id).subject env c in
    elim (Bool-cases (c.sub id).active) [
      | inl active ↦ (
        n,
        ground (arith, active, adds),
        few,
        ground (arith, active),
        ground (arith, active, ok),
        off,
      )
      | inr inactive ↦ (
        0,
        ground (arith, inactive, append-nil c.written),
        omega arith,
        ground (arith, inactive),
        ground (arith, inactive),
        ground arith,
      )
    ]

restore_sub_other :
    (env : ℕ → RestoreAttempt) (id j : SubId) (c : Client)
    → (id == j) ≡ false
    → role ((restore_sub env id c).sub j) ≡ role (c.sub j)
unfolding restore_sub restore_one_subscription
restore_sub_other env id j c other =
    ground (arith, restore_loop-Same 3 0 (c.sub id).subject env j c)

restore_subs_other :
    (env : SubId → ℕ → RestoreAttempt) (ids : List SubId) (j : SubId) (c : Client)
    → contains j ids ≡ false
    → role ((restore_subs env ids c).sub j) ≡ role (c.sub j)
unfolding restore_subs contains
restore_subs_other env [] j c h = refl
restore_subs_other env (id ∷ ids) j c h = ground (
  arith,
  restore_subs_other env ids j (restore_sub (env id) id c),
  restore_sub_other (env id) id j c,
)

active_count-restore_sub :
    (env : ℕ → RestoreAttempt) (id : SubId) (ids : List SubId) (c : Client)
    → contains id ids ≡ false
    → active_count (restore_sub env id c) ids ≡ active_count c ids
unfolding active_count contains
active_count-restore_sub env id [] c h = refl
active_count-restore_sub env id (j ∷ ids) c h =
    ground (arith, active_count-restore_sub env id ids c, restore_sub_other env id j c)

restore_subs_lem :
    (env : SubId → ℕ → RestoreAttempt) (ids : List SubId) (c : Client)
    → Distinct ids
    → let d = restore_subs env ids c in
      SameButErrors c d
      × (d.subscription_errors + active_count d ids ≡ c.subscription_errors + active_count c ids)
      × (c.has_conn ≡ false → active_count d ids ≡ 0)
unfolding restore_subs active_count
restore_subs_lem env [] c h = ground arith
restore_subs_lem env (id ∷ ids) c (fresh, h) = ground (
  arith,
  restore_sub_lem (env id) id c,
  active_count-restore_sub (env id) id ids c fresh,
  restore_subs_other env ids id (restore_sub (env id) id c) fresh,
  restore_subs_lem env ids (restore_sub (env id) id c) h,
)

restore_sub_others :
    (env : ℕ → RestoreAttempt) (id : SubId) (c : Client) (ids : List SubId)
    → contains id ids ≡ false
    → All (λ j. role ((restore_sub env id c).sub j) ≡ role (c.sub j)) ids
unfolding contains
restore_sub_others env id c [] h = ground arith
restore_sub_others env id c (j ∷ ids) h =
    (restore_sub_other env id j c (ground arith), restore_sub_others env id c ids (ground arith))

restore_subs-written :
    (env : SubId → ℕ → RestoreAttempt) (ids : List SubId) (c : Client)
    → Distinct ids
    → let d = restore_subs env ids c in
      (frames : List Bytes) × (d.written ≡ c.written ++ frames) × AreResent c d ids frames
unfolding restore_subs
restore_subs-written env [] c h = ([], sym (append-nil c.written), refl)
restore_subs-written env (id ∷ ids) c (fresh, h) =
    let b = restore_sub (env id) id c in
    let d = restore_subs env ids b in
    let (n, adds, few, off, on, idle) = restore_sub-written (env id) id c in
    let (rest, written, resent) = restore_subs-written env ids b h in
    let first = replicate n (sub_frame (c.sub id).subject) in
    let still =
      ap (λ (p : Bytes × Bool × Bool × Bool). p.1) (restore_subs_other env ids id b fresh) in
    let conn = ap (λ (f : Flags). f.conn) (restore_sub_lem (env id) id c).0 in
    (
      first ++ rest,
      written ∙ ap (λ l. l ++ rest) adds ∙ append_assoc c.written first rest,
      (
        n,
        rest,
        refl,
        few,
        off,
        λ e. on (sym still ∙ e),
        idle,
        AreResent-from c b d ids rest conn (restore_sub_others (env id) id c ids fresh) resent,
      ),
    )

restore_subs_role :
    (env : SubId → ℕ → RestoreAttempt) (ids : List SubId) (j : SubId) (c : Client)
    → let d = restore_subs env ids c in
      ((d.sub j).subject ≡ (c.sub j).subject)
      × ((c.sub j).active ≡ false → (d.sub j).active ≡ false)
unfolding restore_subs
restore_subs_role env [] j c = (refl, λ h. h)
restore_subs_role env (id ∷ ids) j c = ground (
  arith,
  restore_sub_lem (env id) id c,
  restore_sub_other (env id) id j c,
  restore_subs_role env ids j (restore_sub (env id) id c),
)

-- `restoreSubscriptions`, for a list that holds each subscription once, whatever befalls the attempts:
-- what it writes is, for each subscription in the order of the list, one to three SUB frames of its
-- subject where it is active afterwards, at most three where it was active and is no more, and none
-- where it was inactive or where there is no connection; each subscription that was active is
-- afterwards active or is counted as one error; what was inactive stays so; without a connection none
-- stays active; and nothing else of the flags and the list of the client changes.
pub restore_subscriptions_lem :
    (env : SubId → ℕ → RestoreAttempt) (c : Client)
    → Distinct c.subscriptions
    → let d = restore_subscriptions env c in
      ((frames : List Bytes) × (d.written ≡ c.written ++ frames)
        × AreResent c d c.subscriptions frames)
      × SameButErrors c d
      × (d.subscription_errors + active_count d c.subscriptions
          ≡ c.subscription_errors + active_count c c.subscriptions)
      × (c.has_conn ≡ false → active_count d c.subscriptions ≡ 0)
      × ((j : SubId)
          → ((d.sub j).subject ≡ (c.sub j).subject)
            × ((c.sub j).active ≡ false → (d.sub j).active ≡ false))
unfolding restore_subscriptions
restore_subscriptions_lem env c h =
    let (same, errors, off) = restore_subs_lem env c.subscriptions c h in
    (
      restore_subs-written env c.subscriptions c h,
      same,
      errors,
      off,
      λ j. restore_subs_role env c.subscriptions j c,
    )
