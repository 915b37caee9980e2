-- ===== src/Subject.antt =====
-- Subjects and patterns as byte strings: the functions of Go's `strings` that the matchers of
-- server/router.go, server/router_optimized.go and client/client.go call, and the loop over the
-- segments that the first and the last of them share.
pub mod Splitting
pub mod Segments
use kcpq.Prelude.{
  ℕ, suc, ◌-◌, Bool, true, false, ◌||◌, ◌&&◌, List, [], ◌∷◌, ◌++◌, Bytes, beq, ◌==◌, if◌then◌else◌,
  length, take, drop,
}

abbrev pub dot : ℕ
dot = b'.'

abbrev pub star : Bytes
star = b'*' ∷ []

abbrev pub gt : Bytes
gt = b'>' ∷ []

-- The suffix ".>".
abbrev pub dot_gt : Bytes
dot_gt = dot ∷ b'>' ∷ []

abbrev pub onto_head : ℕ → List Bytes → List Bytes
onto_head c [] = (c ∷ []) ∷ []
onto_head c (w ∷ ws) = (c ∷ w) ∷ ws

-- `strings.Split(s, ".")`
unfoldable pub split : Bytes → List Bytes
split [] = [] ∷ []
split (c ∷ s) = let rest = split s in if c == dot then [] ∷ rest else onto_head c rest

-- `strings.HasPrefix(s, prefix)`
unfoldable pub has_prefix : Bytes → Bytes → Bool
has_prefix s [] = true
has_prefix [] (p ∷ ps) = false
has_prefix (c ∷ s) (p ∷ ps) = c == p && has_prefix s ps

-- `strings.HasSuffix(s, suffix)`
unfoldable pub has_suffix : Bytes → Bytes → Bool
has_suffix [] suffix = beq [] suffix
has_suffix (c ∷ s) suffix = beq (c ∷ s) suffix || has_suffix s suffix

-- `strings.TrimSuffix(s, suffix)`, called where `s` has the suffix
unfoldable pub trim_suffix : Bytes → Bytes → Bytes
trim_suffix s suffix = take (length s - length suffix) s

-- `strings.Contains(s, sub)` for a `sub` of one byte
unfoldable pub contains_byte : Bytes → ℕ → Bool
contains_byte [] b = false
contains_byte (c ∷ s) b = c == b || contains_byte s b

-- `for i := 0; i < len(patternParts); i++ { ... }`, entered with lists of equal length
unfoldable pub segments_match : List Bytes → List Bytes → Bool
segments_match [] subject_parts = true
segments_match (p ∷ ps) [] = false
segments_match (p ∷ ps) (s ∷ ss) =
    let rest = segments_match ps ss in if beq p star then rest else if beq p s then rest else false

-- The loop that looks for a part equal to "*".
unfoldable pub has_star_segment : List Bytes → Bool
has_star_segment [] = false
has_star_segment (p ∷ ps) = if beq p star then true else has_star_segment ps
