-- ===== src/Router.antt =====
-- server/router.go: the router that the server uses. Its lock is held through each method, so a
-- method is one step on the map. `FindSubscribers` ranges over Go maps: its result is a set, whose
-- order here is that of the entries.
pub mod Matching
pub mod Relation
pub mod Validity
pub mod Delivery
pub mod Refinement
pub mod Unordered
mod Tests
use kcpq.Prelude.{
  ℕ, Bool, true, false, ◌||◌, not, Option, none, some, List, [], ◌∷◌, ◌++◌, Bytes, beq, ◌==◌,
  if◌then◌else◌, length,
}
use kcpq.Subject.{
  dot, dot_gt, split, has_prefix, has_suffix, trim_suffix, segments_match, has_star_segment,
}
use kcpq.Subscriptions.{SessionId, SubMap, lookup, sessions_at, insert, delete, contains, total}

pub record Router : Type 0 where
  pub subscriptions : SubMap

unfoldable pub new_router : Router
new_router = record { subscriptions = [] }

pub subscribe : Bytes → SessionId → Router → Router
subscribe subject session r =
    let sessions = sessions_at subject r.subscriptions in
    if contains session sessions
    then r
    else record r { subscriptions = insert subject (sessions ++ session ∷ []) r.subscriptions }

-- `filtered`: the sessions other than `session`, in order
pub without : SessionId → List SessionId → List SessionId
without session [] = []
without session (s ∷ ss) = if s == session then without session ss else s ∷ without session ss

pub unsubscribe : Bytes → SessionId → Router → Router
unsubscribe subject session r = elim (lookup subject r.subscriptions) [
  | none ↦ r
  | some sessions ↦
      let filtered = without session sessions in
      let stored = insert subject filtered r.subscriptions in
      record r { subscriptions = if length filtered == 0 then delete subject stored else stored }
]

-- The `range` of `RemoveSession`: each visited entry is filtered in place, or deleted if that
-- leaves it empty.
pub remove_from : SessionId → SubMap → SubMap
remove_from session [] = []
remove_from session ((subject, sessions) ∷ m) =
    let rest = remove_from session m in
    let filtered = without session sessions in
    if length filtered == 0 then rest else (subject, filtered) ∷ rest

pub remove_session : SessionId → Router → Router
remove_session session r = record r { subscriptions = remove_from session r.subscriptions }

unfoldable pub match : Bytes → Bytes → Bool
match pattern subject =
    if beq pattern subject
    then true
    else if has_suffix pattern dot_gt
    then (let prefix = trim_suffix pattern dot_gt in
        if has_prefix subject (prefix ++ dot ∷ []) || beq subject prefix then true else false)
    else (let pattern_parts = split pattern in
        let subject_parts = split subject in
        if not (length pattern_parts == length subject_parts)
        then false
        else if not (has_star_segment pattern_parts)
        then false
        else segments_match pattern_parts subject_parts)

-- `uniqueSessions[session] = true`
pub add_unique : SessionId → List SessionId → List SessionId
add_unique session unique = if contains session unique then unique else unique ++ session ∷ []

pub add_all : List SessionId → List SessionId → List SessionId
add_all [] unique = unique
add_all (s ∷ ss) unique = add_all ss (add_unique s unique)

pub collect : Bytes → SubMap → List SessionId → List SessionId
collect subject [] unique = unique
collect subject ((pattern, sessions) ∷ m) unique =
    collect subject m (if match pattern subject then add_all sessions unique else unique)

pub find_subscribers : Bytes → Router → List SessionId
find_subscribers subject r = collect subject r.subscriptions []

pub get_subject_count : Router → ℕ
get_subject_count r = length r.subscriptions

pub get_total_subscriptions : Router → ℕ
get_total_subscriptions r = total r.subscriptions
