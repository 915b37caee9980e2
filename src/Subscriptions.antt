-- ===== src/Subscriptions.antt =====
-- The Go maps `map[string][]*Session` of server/router.go and server/router_optimized.go: lists of
-- entries. A session is a number, its pointer. The order of the entries stands for the order in which
-- `range` visits the map, which Go leaves open.
pub mod Laws
use kcpq.Prelude.{
  ℕ, Bool, true, false, ◌||◌, Option, none, some, List, [], ◌∷◌, ◌++◌, Bytes, beq, ◌==◌,
  if◌then◌else◌, length, ◌+◌,
}

abbrev pub SessionId : Type 0
SessionId = ℕ

abbrev pub SubMap : Type 0
SubMap = List (Bytes × List SessionId)

unfoldable pub lookup : Bytes → SubMap → Option (List SessionId)
lookup k [] = none
lookup k ((j, v) ∷ m) = if beq j k then some v else lookup k m

-- `m[k]`, which is nil for a missing key
unfoldable pub sessions_at : Bytes → SubMap → List SessionId
sessions_at k m = elim (lookup k m) [ none ↦ [] | some v ↦ v ]

-- `m[k] = v`
unfoldable pub insert : Bytes → List SessionId → SubMap → SubMap
insert k v [] = (k, v) ∷ []
insert k v ((j, w) ∷ m) = if beq j k then (k, v) ∷ m else (j, w) ∷ insert k v m

-- `delete(m, k)`
unfoldable pub delete : Bytes → SubMap → SubMap
delete k [] = []
delete k ((j, w) ∷ m) = let rest = delete k m in if beq j k then rest else (j, w) ∷ rest

-- The loop `for _, s := range sessions { if s == session { ... } }`.
unfoldable pub contains : SessionId → List SessionId → Bool
contains s [] = false
contains s (t ∷ ts) = t == s || contains s ts

-- `count += len(sessions)` over the map
unfoldable pub total : SubMap → ℕ
total [] = 0
total ((k, v) ∷ m) = length v + total m
