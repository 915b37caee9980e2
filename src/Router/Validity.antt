-- ===== src/Router/Validity.antt =====
-- server/router.go: the shape of the map that the methods keep, and the count of subscriptions.
use kcpq.Router.{
  Router, new_router, subscribe, unsubscribe, without, remove_from, remove_session,
  get_total_subscriptions,
}
use kcpq.Router.Relation.{
  Distinct, Distinct-snoc, GoodEntry, IsValid, is_subscribed, contains-without, lookup-remove_from,
}
use kcpq.Subscriptions.{SessionId, SubMap, lookup, sessions_at, insert, delete, contains}
use kcpq.Subscriptions.Laws.{
  eq-nil, lookup→sessions_at, sessions_at-none, DistinctKeys, insert-DistinctKeys,
  delete-DistinctKeys, total-insert, total-delete,
}
use kcpq.Prelude.{
  ◌+◌, ◌≡◌, ◌≢◌, inl, inr, ap, subst, none, some, List, [], ◌∷◌, ◌++◌, Bytes, beq_refl, ◌⊎◌, ◌==◌,
  if◌then◌else◌, length, arith, Bool-cases, Option-cases, All, length-append,
}

Distinct-without : (s : SessionId) (ss : List SessionId) → Distinct ss → Distinct (without s ss)
unfolding without
Distinct-without s [] d = tt
Distinct-without s (t ∷ ss) (h, d) =
    ground (arith, Distinct-without s ss d, contains-without s t ss)

-- Filtering a list without repetitions removes one session or none.
length-without :
    (s : SessionId) (ss : List SessionId)
    → Distinct ss
    → length (without s ss) + (if contains s ss then 1 else 0) ≡ length ss
unfolding without contains
length-without s [] d = omega arith
length-without s (t ∷ ss) (h, d) = ground (arith, length-without s ss d)

sessions_at-Distinct : (k : Bytes) (m : SubMap) → All GoodEntry m → Distinct (sessions_at k m)
unfolding sessions_at lookup
sessions_at-Distinct k [] h = tt
sessions_at-Distinct k ((j, v) ∷ m) ((ne, d), h) = ground (arith, sessions_at-Distinct k m h)

insert-entries :
    (k : Bytes) (v : List SessionId) (m : SubMap)
    → GoodEntry (k, v)
    → All GoodEntry m
    → All GoodEntry (insert k v m)
unfolding insert
insert-entries k v [] g h = (g, tt)
insert-entries k v ((j, w) ∷ m) g (g', h) = ground (arith, insert-entries k v m g h)

delete-entries : (k : Bytes) (m : SubMap) → All GoodEntry m → All GoodEntry (delete k m)
unfolding delete
delete-entries k [] h = tt
delete-entries k ((j, w) ∷ m) (g, h) = ground (arith, delete-entries k m h)

delete-insert : (k : Bytes) (v : List SessionId) (m : SubMap) → delete k (insert k v m) ≡ delete k m
unfolding delete insert
delete-insert k v [] = ground (arith, beq_refl k)
delete-insert k v ((j, w) ∷ m) = ground (arith, delete-insert k v m, beq_refl k)

snoc-ne-nil : (s : SessionId) (ss : List SessionId) → (ss ++ s ∷ []) ≢ []
snoc-ne-nil s [] e = cc
snoc-ne-nil s (t ∷ ss) e = cc

pub new_router-IsValid : IsValid new_router
unfolding new_router
new_router-IsValid = record { keys = tt; entries = tt }

pub subscribe-IsValid :
    (subject : Bytes) (session : SessionId) (r : Router)
    → IsValid r
    → IsValid (subscribe subject session r)
unfolding subscribe
subscribe-IsValid subject session r v = elim (Bool-cases (contains session here)) [
  | inl old ↦ rw old v
  | inr new ↦ rw new (record {
    keys = insert-DistinctKeys subject (here ++ session ∷ []) r.subscriptions v.keys;
    entries =
        insert-entries subject (here ++ session ∷ []) r.subscriptions
          (
            snoc-ne-nil session here,
            Distinct-snoc session here (sessions_at-Distinct subject r.subscriptions v.entries) new,
          )
          v.entries;
  })
]
  where
    here : List SessionId
    here = sessions_at subject r.subscriptions

-- The three outcomes of `Unsubscribe`: no entry, an entry deleted, an entry filtered.
unsubscribe-cases :
    (subject : Bytes) (session : SessionId) (r : Router)
    → ((lookup subject r.subscriptions ≡ none) × (unsubscribe subject session r ≡ r))
      ⊎ (((ss : List SessionId) × (lookup subject r.subscriptions ≡ some ss)
            × (without session ss ≡ [])
            × (unsubscribe subject session r
                ≡ record r { subscriptions = delete subject r.subscriptions }))
          ⊎ ((ss : List SessionId) × (lookup subject r.subscriptions ≡ some ss)
              × (without session ss ≢ [])
              × (unsubscribe subject session r ≡ record r {
                subscriptions = insert subject (without session ss) r.subscriptions;
              })))
unfolding unsubscribe
unsubscribe-cases subject session r = elim (Option-cases (lookup subject r.subscriptions)) [
  | inl missing ↦ inl (missing, ground arith)
  | inr (ss, found) ↦ elim (Bool-cases (length (without session ss) == 0)) [
    | inl empty ↦ inr (
        inl (
          ss,
          found,
          eq-nil (without session ss) (ground arith),
          ground (arith, delete-insert subject (without session ss) r.subscriptions),
        ))
    | inr some_left ↦ inr (inr (ss, found, λ e. ground (arith, ap length e), ground arith))
  ]
]

pub unsubscribe-IsValid :
    (subject : Bytes) (session : SessionId) (r : Router)
    → IsValid r
    → IsValid (unsubscribe subject session r)
unsubscribe-IsValid subject session r v = elim (unsubscribe-cases subject session r) [
  | inl (missing, e) ↦ rw e v
  | inr (inl (ss, found, empty, e)) ↦ rw e (record {
    keys = delete-DistinctKeys subject r.subscriptions v.keys;
    entries = delete-entries subject r.subscriptions v.entries;
  })
  | inr (inr (ss, found, left, e)) ↦ rw e (record {
    keys = insert-DistinctKeys subject (without session ss) r.subscriptions v.keys;
    entries =
        insert-entries subject (without session ss) r.subscriptions
          (
            left,
            Distinct-without session ss (
                subst Distinct (lookup→sessions_at subject r.subscriptions ss found)
                  (sessions_at-Distinct subject r.subscriptions v.entries)),
          )
          v.entries;
  })
]

remove_from-DistinctKeys :
    (session : SessionId) (m : SubMap) → DistinctKeys m → DistinctKeys (remove_from session m)
unfolding remove_from
remove_from-DistinctKeys session [] h = tt
remove_from-DistinctKeys session ((k, v) ∷ m) (fresh, h) =
    ground (arith, remove_from-DistinctKeys session m h, lookup-remove_from session k m fresh)

remove_from-entries :
    (session : SessionId) (m : SubMap) → All GoodEntry m → All GoodEntry (remove_from session m)
unfolding remove_from
remove_from-entries session [] h = tt
remove_from-entries session ((k, v) ∷ m) ((ne, d), h) =
    ground (arith, remove_from-entries session m h, Distinct-without session v d)

pub remove_session-IsValid :
    (session : SessionId) (r : Router) → IsValid r → IsValid (remove_session session r)
unfolding remove_session
remove_session-IsValid session r v = record {
  keys = remove_from-DistinctKeys session r.subscriptions v.keys;
  entries = remove_from-entries session r.subscriptions v.entries;
}

-- `GetTotalSubscriptions` counts the pairs of a subject and a session: `Subscribe` adds one exactly
-- where the session was not subscribed to the subject yet.
pub get_total_subscriptions-subscribe :
    (subject : Bytes) (session : SessionId) (r : Router)
    → get_total_subscriptions (subscribe subject session r)
      ≡ get_total_subscriptions r + (if is_subscribed r subject session then 0 else 1)
unfolding get_total_subscriptions subscribe is_subscribed
get_total_subscriptions-subscribe subject session r = ground (
  arith,
  total-insert subject (sessions_at subject r.subscriptions ++ session ∷ []) r.subscriptions,
  length-append (sessions_at subject r.subscriptions) (session ∷ []),
)

-- In a well-formed router, `Unsubscribe` takes one from the count of `GetTotalSubscriptions` exactly where
-- the session was subscribed to the subject.
pub get_total_subscriptions-unsubscribe :
    (subject : Bytes) (session : SessionId) (r : Router)
    → IsValid r
    → get_total_subscriptions (unsubscribe subject session r)
        + (if is_subscribed r subject session then 1 else 0)
      ≡ get_total_subscriptions r
unfolding get_total_subscriptions is_subscribed
get_total_subscriptions-unsubscribe subject session r v =
    elim (unsubscribe-cases subject session r) [
      | inl (missing, e) ↦
          unfold contains in rw (e, sessions_at-none subject r.subscriptions missing) (omega arith)
      | inr (inl (ss, found, empty, e)) ↦ rw e (
          ground (
            arith,
            total-delete subject r.subscriptions v.keys,
            removed,
            lookup→sessions_at subject r.subscriptions ss found,
            ap length empty,
          ))
      | inr (inr (ss, found, left, e)) ↦ rw e (
          ground (
            arith,
            total-insert subject (without session ss) r.subscriptions,
            removed,
            lookup→sessions_at subject r.subscriptions ss found,
          ))
    ]
  where
    removed :
        length (without session (sessions_at subject r.subscriptions))
          + (if contains session (sessions_at subject r.subscriptions) then 1 else 0)
        ≡ length (sessions_at subject r.subscriptions)
    removed =
        length-without session (sessions_at subject r.subscriptions)
          (sessions_at-Distinct subject r.subscriptions v.entries)

-- Every method of the router that changes it keeps its shape: keys are distinct, no entry is empty and
-- none holds a session twice.
pub methods-IsValid :
    (subject : Bytes) (session : SessionId) (r : Router)
    → IsValid r
    → IsValid (subscribe subject session r)
      × IsValid (unsubscribe subject session r)
      × IsValid (remove_session session r)
methods-IsValid subject session r v = (
  subscribe-IsValid subject session r v,
  unsubscribe-IsValid subject session r v,
  remove_session-IsValid session r v,
)
