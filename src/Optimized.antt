-- ===== src/Optimized.antt =====
-- server/router_optimized.go: the second router, with patterns compiled and cached. The package's
-- cache of compiled patterns is a field of the state here, beside the two maps of the router.
-- Its locks are held through each method; the order of a map's entries is that of `range`.
pub mod Matching
pub mod Counts
pub mod Cache
pub mod Agreement
mod Tests
use kcpq.Prelude.{
  ℕ, Bool, true, false, ◌||◌, ◌&&◌, not, Option, none, some, List, [], ◌∷◌, ◌++◌, Bytes, beq, ◌==◌,
  ◌+◌, if◌then◌else◌, length,
}
use kcpq.Subject.{star, gt, split, contains_byte}
use kcpq.Subscriptions.{SessionId, SubMap, lookup, sessions_at, insert, delete, contains, total}

pub record CompiledPattern : Type 0 where
  pub segments : List Bytes
  pub has_wildcard : Bool
  pub has_multi_wildcard : Bool

abbrev pub PatternCache : Type 0
PatternCache = List (Bytes × CompiledPattern)

pub record OptimizedRouter : Type 0 where
  pub exact_matches : SubMap
  pub wildcard_patterns : SubMap
  pub cache : PatternCache

pub new_optimized_router : PatternCache → OptimizedRouter
new_optimized_router cache = record { exact_matches = []; wildcard_patterns = []; cache = cache }

-- The loop that sets the two flags.
pub set_flags : List Bytes → CompiledPattern → CompiledPattern
set_flags [] compiled = compiled
set_flags (seg ∷ segs) compiled = set_flags segs (
    if beq seg star
    then record compiled { has_wildcard = true }
    else if beq seg gt
    then record compiled { has_multi_wildcard = true }
    else compiled)

unfoldable pub compile : Bytes → CompiledPattern
unfolding set_flags
compile pattern =
    let segments = split pattern in
    set_flags segments
      (record { segments = segments; has_wildcard = false; has_multi_wildcard = false })

pub cached : Bytes → PatternCache → Option CompiledPattern
cached pattern [] = none
cached pattern ((p, c) ∷ cache) = if beq p pattern then some c else cached pattern cache

-- `compilePattern`; the second look under the write lock sees the same cache.
pub compile_pattern : Bytes → PatternCache → CompiledPattern × PatternCache
compile_pattern pattern cache = elim (cached pattern cache) [
  | some c ↦ (c, cache)
  | none ↦ let c = compile pattern in (c, (pattern, c) ∷ cache)
]

unfoldable pub is_wildcard_pattern : Bytes → Bool
is_wildcard_pattern pattern = contains_byte pattern b'*' || contains_byte pattern b'>'

pub subscribe : Bytes → SessionId → OptimizedRouter → OptimizedRouter
subscribe subject session r =
    let added = λ (m : SubMap). insert subject (sessions_at subject m ++ session ∷ []) m in
    let r' : OptimizedRouter =
      if is_wildcard_pattern subject
      then record r { wildcard_patterns = added r.wildcard_patterns }
      else record r { exact_matches = added r.exact_matches } in
    record r' { cache = (compile_pattern subject r.cache).1 }

-- `append(sessions[:i], sessions[i+1:]...)` at the first `i` that holds the session
pub remove_first : SessionId → List SessionId → List SessionId
remove_first session [] = []
remove_first session (s ∷ ss) = if s == session then ss else s ∷ remove_first session ss

-- The body of `Unsubscribe` on `targetMap`.
pub unsubscribe_in : Bytes → SessionId → SubMap → SubMap
unsubscribe_in subject session target =
    let sessions = sessions_at subject target in
    let left = remove_first session sessions in
    let stored = insert subject left target in
    if contains session sessions
    then (if length left == 0 then delete subject stored else stored)
    else target

pub unsubscribe : Bytes → SessionId → OptimizedRouter → OptimizedRouter
unsubscribe subject session r =
    if is_wildcard_pattern subject
    then record r { wildcard_patterns = unsubscribe_in subject session r.wildcard_patterns }
    else record r { exact_matches = unsubscribe_in subject session r.exact_matches }

-- The loop of `matchesSegments`: `pi` and `si` advance together, so it walks both lists.
pub matches_segments : List Bytes → List Bytes → Bool
matches_segments [] subject_segments = length subject_segments == 0
matches_segments (p ∷ ps) [] = if beq p gt then false else false
matches_segments (p ∷ ps) (s ∷ ss) =
    let rest = matches_segments ps ss in
    if beq p gt
    then (if not (length ps == 0) then false else true)
    else if beq p star
    then rest
    else if not (beq p s)
    then false
    else rest

-- `cp.segments[0]`; a split has at least one segment
pub first_segment : List Bytes → Bytes
first_segment [] = []
first_segment (w ∷ ws) = w

pub matches : CompiledPattern → Bytes → Bool
matches cp subject =
    if not cp.has_wildcard && not cp.has_multi_wildcard
    then beq subject (first_segment cp.segments)
    else matches_segments cp.segments (split subject)

pub match : Bytes → PatternCache → Bytes → Bool
match pattern cache subject = matches (compile_pattern pattern cache).0 subject

-- `if !seen[session] { seen[session] = true; result = append(result, session) }`
pub add_unseen : List SessionId → List SessionId → List SessionId
add_unseen [] result = result
add_unseen (s ∷ ss) result = add_unseen ss (if contains s result then result else result ++ s ∷ [])

-- The loop over the wildcard patterns, which compiles each of them.
pub collect : Bytes → SubMap → PatternCache → List SessionId → List SessionId × PatternCache
collect subject [] cache result = (result, cache)
collect subject ((pattern, sessions) ∷ m) cache result =
    let (compiled, cache') = compile_pattern pattern cache in
    collect subject m cache'
      (if matches compiled subject then add_unseen sessions result else result)

pub find_subscribers : Bytes → OptimizedRouter → List SessionId × OptimizedRouter
find_subscribers subject r =
    let exact = add_unseen (sessions_at subject r.exact_matches) [] in
    let (result, cache) = collect subject r.wildcard_patterns r.cache exact in
    (result, record r { cache = cache })

-- The loop of `RemoveSession` over one map.
pub remove_from : SessionId → SubMap → SubMap
remove_from session [] = []
remove_from session ((subject, sessions) ∷ m) =
    let rest = remove_from session m in
    let left = remove_first session sessions in
    if contains session sessions
    then (if length left == 0 then rest else (subject, left) ∷ rest)
    else (subject, sessions) ∷ rest

pub remove_session : SessionId → OptimizedRouter → OptimizedRouter
remove_session session r = record r {
  exact_matches = remove_from session r.exact_matches;
  wildcard_patterns = remove_from session r.wildcard_patterns;
}

pub get_subject_count : OptimizedRouter → ℕ
get_subject_count r = length r.exact_matches + length r.wildcard_patterns

pub get_total_subscriptions : OptimizedRouter → ℕ
get_total_subscriptions r = total r.exact_matches + total r.wildcard_patterns
