-- ===== src/PerfTest/Racing.antt =====
-- examples/perf_test/main.go: `RecordMessage` called from several goroutines, at its atomic operations.
use kcpq.PerfTest.{Stats, new_stats}
use kcpq.Relay.{count}
use kcpq.Client.{update}
use kcpq.Prelude.{
  ℕ, ◌+◌, ◌^◌, ◌%◌, ◌<◌, ◌≡◌, refl, sym, subst, List, [], ◌∷◌, ltb, ◌==◌, if◌then◌else◌, arith,
  Bool-cases, inl, inr,
}

-- Where a call of `RecordMessage` stands, with its latency: before the load of the maximum, before the
-- compare-and-swap, before the first and the second look at the minimum, before its store, and before the
-- last addition.
pub data Doing : Type 0 where
  resting : Doing
  loading : (latency : ℕ) → Doing
  swapping : (latency old : ℕ) → Doing
  lowering checking storing adding : (latency : ℕ) → Doing

pub record Recording : Type 0 where
  pub stats : Stats
  pub doing : ℕ → Doing
  -- the latencies of the calls that have left the loop over the maximum, and of those that have returned
  pub passed : List ℕ
  pub returned : List ℕ
  pub calls : ℕ

abbrev pub fresh_recording : Recording
fresh_recording = record {
  stats = new_stats;
  doing = λ id. resting;
  passed = [];
  returned = [];
  calls = 0;
}

-- The additions at the start of a call.
abbrev pub begin : (size latency id : ℕ) → Recording → Recording
begin size latency id r = record r {
  stats = record r.stats {
    total_messages = count r.stats.total_messages 1;
    total_bytes = count r.stats.total_bytes size;
  };
  doing = update r.doing id (loading latency);
  calls = r.calls + 1;
}

abbrev move : ℕ → Doing → Recording → Recording
move id d r = record r { doing = update r.doing id d }

-- The call leaves the loop over the maximum.
abbrev pass : ℕ → ℕ → Recording → Recording
pass latency id r = record r {
  doing = update r.doing id (lowering latency);
  passed = latency ∷ r.passed;
}

-- The next atomic operation of a call.
unfoldable pub advance : Doing → ℕ → Recording → Recording
advance resting id r = r
advance (loading latency) id r =
    if ltb r.stats.max_latency latency
    then move id (swapping latency r.stats.max_latency) r
    else pass latency id r
advance (swapping latency old) id r =
    if r.stats.max_latency == old
    then pass latency id (record r { stats = record r.stats { max_latency = latency } })
    else move id (loading latency) r
advance (lowering latency) id r =
    if ltb latency r.stats.min_latency
    then move id (storing latency) r
    else move id (checking latency) r
advance (checking latency) id r =
    if r.stats.min_latency == 0 then move id (storing latency) r else move id (adding latency) r
advance (storing latency) id r =
    move id (adding latency) (record r { stats = record r.stats { min_latency = latency } })
advance (adding latency) id r = record r {
  stats = record r.stats { total_latency = count r.stats.total_latency latency };
  doing = update r.doing id resting;
  returned = latency ∷ r.returned;
}

pub data Step (r s : Recording) : Type 0 where
  begins : (size latency id : ℕ) → r.doing id ≡ resting → s ≡ begin size latency id r → Step r s
  advances : (id : ℕ) (d : Doing) → r.doing id ≡ d → s ≡ advance d id r → Step r s

pub data Reach (r : Recording) : Recording → Type 0 where
  here : Reach r r
  next : {s t : Recording} → Reach r s → Step s t → Reach r t

abbrev pub greatest : List ℕ → ℕ
greatest [] = 0
greatest (x ∷ xs) = let g = greatest xs in if ltb g x then x else g

abbrev pub total : List ℕ → ℕ
total [] = 0
total (x ∷ xs) = x + total xs

-- A compare-and-swap that is still to come was found worth while.
abbrev IsHigher : Doing → Type 0
IsHigher resting = Unit
IsHigher (loading latency) = Unit
IsHigher (swapping latency old) = old < latency
IsHigher (lowering latency) = Unit
IsHigher (checking latency) = Unit
IsHigher (storing latency) = Unit
IsHigher (adding latency) = Unit

pub record IsExact (r : Recording) : Type 0 where
  pub messages : r.stats.total_messages ≡ r.calls % 2 ^ 64
  pub latency : r.stats.total_latency ≡ total r.returned % 2 ^ 64
  pub maximum : r.stats.max_latency ≡ greatest r.passed
  pub higher : (id : ℕ) → IsHigher (r.doing id)

update-IsHigher :
    (f : ℕ → Doing) (id : ℕ) (d : Doing)
    → IsHigher d
    → ((j : ℕ) → IsHigher (f j))
    → (j : ℕ) → IsHigher (update f id d j)
update-IsHigher f id d h v j = elim (Bool-cases (id == j)) [
  | inl same ↦ rw same h
  | inr other ↦ rw other (v j)
]

move-IsExact : (id : ℕ) (d : Doing) (r : Recording) → IsHigher d → IsExact r → IsExact (move id d r)
move-IsExact id d r h v = record {
  messages = v.messages;
  latency = v.latency;
  maximum = v.maximum;
  higher = update-IsHigher r.doing id d h v.higher;
}

advance-IsExact :
    (d : Doing) (id : ℕ) (r : Recording) → r.doing id ≡ d → IsExact r → IsExact (advance d id r)
unfolding advance
advance-IsExact resting id r e v = v
advance-IsExact (loading latency) id r e v = elim (Bool-cases (ltb r.stats.max_latency latency)) [
  | inl above ↦ rw above (move-IsExact id (swapping latency r.stats.max_latency) r (ground arith) v)
  | inr below ↦ rw below (record {
    messages = v.messages;
    latency = v.latency;
    maximum = ground (arith, v.maximum);
    higher = update-IsHigher r.doing id (lowering latency) tt v.higher;
  })
]
advance-IsExact (swapping latency old) id r e v =
    let above : old < latency = subst IsHigher e (v.higher id) in
    elim (Bool-cases (r.stats.max_latency == old)) [
      | inl same ↦ rw same (record {
        messages = v.messages;
        latency = v.latency;
        maximum = ground (arith, v.maximum);
        higher = update-IsHigher r.doing id (lowering latency) tt v.higher;
      })
      | inr other ↦ rw other (move-IsExact id (loading latency) r tt v)
    ]
advance-IsExact (lowering latency) id r e v = elim (Bool-cases (ltb latency r.stats.min_latency)) [
  | inl below ↦ rw below (move-IsExact id (storing latency) r tt v)
  | inr above ↦ rw above (move-IsExact id (checking latency) r tt v)
]
advance-IsExact (checking latency) id r e v = elim (Bool-cases (r.stats.min_latency == 0)) [
  | inl unset ↦ rw unset (move-IsExact id (storing latency) r tt v)
  | inr old ↦ rw old (move-IsExact id (adding latency) r tt v)
]
advance-IsExact (storing latency) id r e v = record {
  messages = v.messages;
  latency = v.latency;
  maximum = v.maximum;
  higher = update-IsHigher r.doing id (adding latency) tt v.higher;
}
advance-IsExact (adding latency) id r e v = record {
  messages = v.messages;
  latency = ground (arith, v.latency);
  maximum = v.maximum;
  higher = update-IsHigher r.doing id resting tt v.higher;
}

-- However calls of `RecordMessage` come between one another, from new statistics on: the number of
-- messages is that of the calls, and the sum of the latencies that of the calls that have returned,
-- modulo 2 ^ 64; the maximum is exactly the greatest latency of the calls that have left the loop over
-- it; and a call that is about to compare and swap has a latency above the maximum that it loaded.
pub Reach-IsExact : {r : Recording} → Reach fresh_recording r → IsExact r
Reach-IsExact here = record { messages = refl; latency = refl; maximum = refl; higher = λ id. tt }
Reach-IsExact (next {s = s} q (begins size latency id rests e)) =
    let v = Reach-IsExact q in
    subst IsExact (sym e) (record {
      messages = ground (arith, v.messages);
      latency = v.latency;
      maximum = v.maximum;
      higher = update-IsHigher s.doing id (loading latency) tt v.higher;
    })
Reach-IsExact (next {s = s} q (advances id d at e)) =
    subst IsExact (sym e) (advance-IsExact d id s at (Reach-IsExact q))

-- Of two calls on new statistics with different latencies, none zero, the greater may be left as the
-- minimum: both find no minimum yet, and the smaller one stores first.
pub smaller_latency_is_overwritten :
    (a b size : ℕ)
    → 0 < a
    → a < b
    → (r : Recording) × Reach fresh_recording r
      × ((id : ℕ) → r.doing id ≡ resting)
      × (r.returned ≡ b ∷ a ∷ [])
      × (r.stats.min_latency ≡ b)
unfolding advance
smaller_latency_is_overwritten a b size pos less =
    let s1 = begin size a 1 fresh_recording in
    let s2 = move 1 (swapping a 0) s1 in
    let s3 = pass a 1 (record s2 { stats = record s2.stats { max_latency = a } }) in
    let s4 = move 1 (checking a) s3 in
    let s5 = move 1 (storing a) s4 in
    let t1 = begin size b 2 s5 in
    let t2 = move 2 (swapping b a) t1 in
    let t3 = pass b 2 (record t2 { stats = record t2.stats { max_latency = b } }) in
    let t4 = move 2 (checking b) t3 in
    let t5 = move 2 (storing b) t4 in
    let u1 = advance (storing a) 1 t5 in
    let u2 = advance (adding a) 1 u1 in
    let u3 = advance (storing b) 2 u2 in
    let u4 = advance (adding b) 2 u3 in
    let q1 : Reach fresh_recording s1 = next here (begins size a 1 refl refl) in
    let q2 : Reach fresh_recording s2 = next q1 (advances 1 (loading a) refl (ground arith)) in
    let q3 : Reach fresh_recording s3 = next q2 (advances 1 (swapping a 0) refl (ground arith)) in
    let q4 : Reach fresh_recording s4 = next q3 (advances 1 (lowering a) refl (ground arith)) in
    let q5 : Reach fresh_recording s5 = next q4 (advances 1 (checking a) refl (ground arith)) in
    let p1 : Reach fresh_recording t1 = next q5 (begins size b 2 refl refl) in
    let p2 : Reach fresh_recording t2 = next p1 (advances 2 (loading b) refl (ground arith)) in
    let p3 : Reach fresh_recording t3 = next p2 (advances 2 (swapping b a) refl (ground arith)) in
    let p4 : Reach fresh_recording t4 = next p3 (advances 2 (lowering b) refl (ground arith)) in
    let p5 : Reach fresh_recording t5 = next p4 (advances 2 (checking b) refl (ground arith)) in
    let l1 : Reach fresh_recording u1 = next p5 (advances 1 (storing a) refl refl) in
    let l2 : Reach fresh_recording u2 = next l1 (advances 1 (adding a) refl refl) in
    let l3 : Reach fresh_recording u3 = next l2 (advances 2 (storing b) refl refl) in
    let l4 : Reach fresh_recording u4 = next l3 (advances 2 (adding b) refl refl) in
    (u4, l4, λ id. ground arith, refl, refl)
