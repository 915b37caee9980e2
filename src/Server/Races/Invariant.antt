-- ===== src/Server/Races/Invariant.antt =====
-- server/session.go and server/server.go: the invariant of the server with its handlers cut, and the steps
-- that change one session.
use kcpq.Server.Races.{
  Activity, resting, entering, leaving, answering, sending, reporting, is_marked, is_removed,
  is_listed, is_unborn, Racing, set, move, replace,
}
use kcpq.Server.{update, has_subject}
use kcpq.Server.Sync.{Keeps}
use kcpq.Server.Queues.{IsFit, update-IsFit, subjects-IsFit}
use kcpq.Router.Relation.{IsValid, is_subscribed}
use kcpq.Subscriptions.{SessionId, contains}
use kcpq.Session.{Session}
use kcpq.Session.Replies.{IsFrame}
use kcpq.Prelude.{
  ◌≡◌, inl, inr, subst, Bool, true, false, List, Bytes, beq, ◌==◌, arith, Bool-cases,
}

-- The subject about which the session and the router may differ.
abbrev pub is_busy_with : Bytes → Activity → Bool
is_busy_with t resting = false
is_busy_with t (entering subject) = beq subject t
is_busy_with t (leaving subject) = beq subject t
is_busy_with t (answering text) = false
is_busy_with t (sending encoded ids) = false
is_busy_with t (reporting e) = false

-- What a handler relies on across its actions.
abbrev pub Fits : Session → Activity → Type 0
Fits s resting = Unit
Fits s (entering subject) = has_subject subject s.subjects ≡ true
Fits s (leaving subject) = has_subject subject s.subjects ≡ false
Fits s (answering text) = Unit
Fits s (sending encoded ids) = IsFrame encoded
Fits s (reporting e) = Unit

pub record IsSound (r : Racing) : Type 0 where
  pub router : IsValid r.server.router
  pub agree :
      (id : SessionId) (t : Bytes)
      → is_marked (r.stage id) ≡ false
      → is_busy_with t (r.activity id) ≡ false
      → is_subscribed r.server.router t id ≡ has_subject t (r.server.session id).subjects
  pub gone :
      (id : SessionId) (t : Bytes)
      → is_removed (r.stage id) ≡ true
      → r.late id ≡ false
      → is_subscribed r.server.router t id ≡ false
  pub unused :
      (id : SessionId) (t : Bytes)
      → is_unborn (r.stage id) ≡ true
      → (r.activity id ≡ resting) × (is_subscribed r.server.router t id ≡ false)
  pub flag : (id : SessionId) → (r.server.session id).closed ≡ is_marked (r.stage id)
  pub listed : (id : SessionId) → contains id r.server.sessions ≡ is_listed (r.stage id)
  pub fit : (id : SessionId) → IsFit (r.server.session id)
  pub fits : (id : SessionId) → Fits (r.server.session id) (r.activity id)

pub closed-IsFit : (s : Session) → IsFit s → IsFit (record s { closed = true })
closed-IsFit s f = record { bounded = ground (arith, f.bounded); frames = f.frames }

pub Fits-Keeps : (a : Activity) (s s' : Session) → s'.subjects ≡ s.subjects → Fits s a → Fits s' a
Fits-Keeps resting s s' e f = tt
Fits-Keeps (entering subject) s s' e f = cc
Fits-Keeps (leaving subject) s s' e f = cc
Fits-Keeps (answering text) s s' e f = tt
Fits-Keeps (sending encoded ids) s s' e f = f
Fits-Keeps (reporting x) s s' e f = tt

pub move-Fits :
    (f : SessionId → Session) (acts : SessionId → Activity) (id : SessionId) (a : Activity)
    → Fits (f id) a
    → ((j : SessionId) → Fits (f j) (acts j))
    → (j : SessionId) → Fits (f j) (set acts id a j)
move-Fits f acts id a h v j = elim (Bool-cases (id == j)) [
  | inl same_id ↦
      rw same_id (let e : id ≡ j = ground (arith, same_id) in subst (λ i. Fits (f i) a) e h)
  | inr other ↦ rw other (v j)
]

pub set-Fits :
    (f : SessionId → Session) (acts : SessionId → Activity) (k id : SessionId) (s : Session)
    (a : Activity)
    → s.subjects ≡ (f k).subjects
    → Fits (f id) a
    → ((j : SessionId) → Fits (f j) (acts j))
    → (j : SessionId) → Fits (update f k s j) (set acts id a j)
set-Fits f acts k id s a same h v j =
    Fits-Keeps (set acts id a j) (f j) (update f k s j) (ground (arith, same))
      (move-Fits f acts id a h v j)

-- A read loop goes on.
pub move-IsSound :
    (id : SessionId) (a : Activity) (r : Racing)
    → is_unborn (r.stage id) ≡ false
    → ((t : Bytes) → is_busy_with t a ≡ false → is_busy_with t (r.activity id) ≡ false)
    → Fits (r.server.session id) a
    → IsSound r
    → IsSound (move id a r)
move-IsSound id a r born calmer fits v = record {
  router = v.router;
  agree = λ j t alive calm. ground (arith, v.agree j t, calmer t);
  gone = v.gone;
  unused = λ j t h. ground (arith, v.unused j t);
  flag = v.flag;
  listed = v.listed;
  fit = v.fit;
  fits = move-Fits r.server.session r.activity id a fits v.fits;
}

-- A session is replaced by one with the same subjects and flag, and a read loop goes on.
pub replace-IsSound :
    (k id : SessionId) (s : Session) (a : Activity) (r : Racing)
    → Keeps (r.server.session k) s
    → IsFit s
    → is_unborn (r.stage id) ≡ false
    → ((t : Bytes) → is_busy_with t a ≡ false → is_busy_with t (r.activity id) ≡ false)
    → Fits (r.server.session id) a
    → IsSound r
    → IsSound (replace k s id a r)
replace-IsSound k id s a r same fit born calmer fits v = record {
  router = v.router;
  agree = λ j t alive calm. ground (arith, same, v.agree j t, calmer t);
  gone = v.gone;
  unused = λ j t h. ground (arith, v.unused j t);
  flag = λ j. ground (arith, same, v.flag j);
  listed = v.listed;
  fit = update-IsFit r.server.session k s fit v.fit;
  fits = set-Fits r.server.session r.activity k id s a same.0 fits v.fits;
}

-- A session lists other subjects, which differ from those before in one, and its read loop is busy with it.
pub relist-IsSound :
    (subject : Bytes) (subs : List Bytes) (id : SessionId) (a : Activity) (r : Racing)
    → ((t : Bytes)
        → beq subject t ≡ false
        → has_subject t subs ≡ has_subject t (r.server.session id).subjects)
    → ((t : Bytes) → is_busy_with t a ≡ beq subject t)
    → is_unborn (r.stage id) ≡ false
    → r.activity id ≡ resting
    → Fits (record (r.server.session id) { subjects = subs }) a
    → IsSound r
    → IsSound (replace id (record (r.server.session id) { subjects = subs }) id a r)
relist-IsSound subject subs id a r rest busy born idle fits v = record {
  router = v.router;
  agree = λ j t alive calm. ground (arith, v.agree j t, busy t, rest t);
  gone = v.gone;
  unused = λ j t h. ground (arith, v.unused j t);
  flag = λ j. ground (arith, v.flag j);
  listed = v.listed;
  fit =
      update-IsFit r.server.session id _ (subjects-IsFit subs (r.server.session id) (v.fit id))
        v.fit;
  fits = λ j. elim (Bool-cases (id == j)) [
    | inl same_id ↦ rw same_id (
        let e : id ≡ j = ground (arith, same_id) in
        subst (λ i. Fits (record (r.server.session i) { subjects = subs }) a) e fits)
    | inr other ↦ rw other (v.fits j)
  ];
}
