-- ===== src/Session/Utf8.antt =====
-- server/session.go: `truncateUTF8`, with `utf8.ValidString` of Go's standard library.
use kcpq.Prelude.{
  ℕ, suc, zero, ◌≤◌, ◌<◌, ◌≡◌, ◌⊎◌, inl, inr, refl, ap, ◌∙◌, Bool, true, false, ◌&&◌, [], ◌∷◌,
  Bytes, ltb, leb, ◌==◌, if◌then◌else◌, length, take, arith, length-take, Bool-cases,
}

-- What a first byte announces: how many bytes follow, and the range of the next one.
record Start : Type 0 where
  fits : Bool
  more : ℕ
  lo : ℕ
  hi : ℕ

abbrev start : Bool → ℕ → ℕ → ℕ → Start
start fits more lo hi = record { fits = fits; more = more; lo = lo; hi = hi }

first_of_rune : ℕ → Start
first_of_rune a =
    if ltb a 0x80
    then start true 0 0x80 0xbf
    else if ltb a 0xc2
    then start false 0 0x80 0xbf
    else if ltb a 0xe0
    then start true 1 0x80 0xbf
    else if a == 0xe0
    then start true 2 0xa0 0xbf
    else if a == 0xed
    then start true 2 0x80 0x9f
    else if ltb a 0xf0
    then start true 2 0x80 0xbf
    else if a == 0xf0
    then start true 3 0x90 0xbf
    else if ltb a 0xf4
    then start true 3 0x80 0xbf
    else if a == 0xf4
    then start true 3 0x80 0x8f
    else start false 0 0x80 0xbf

-- Valid, where `more` bytes of a character are still to come, the next one in `lo .. hi`.
valid_from : (more lo hi : ℕ) → Bytes → Bool
valid_from zero lo hi [] = true
valid_from (suc more) lo hi [] = false
valid_from zero lo hi (a ∷ s) =
    let r = first_of_rune a in
    let rest = valid_from r.more r.lo r.hi s in if r.fits then rest else false
valid_from (suc more) lo hi (a ∷ s) =
    let rest = valid_from more 0x80 0xbf s in if leb lo a && leb a hi then rest else false

-- `utf8.ValidString`
unfoldable pub valid_string : Bytes → Bool
unfolding valid_from first_of_rune
valid_string s = valid_from 0 0x80 0xbf s

-- The loop `for !utf8.ValidString(out) && len(out) > 0`, at `out = s[:n]`.
pub shrink : ℕ → Bytes → Bytes
shrink zero s = []
shrink (suc n) s =
    let shorter = shrink n s in if valid_string (take (suc n) s) then take (suc n) s else shorter

unfoldable pub truncate_utf8 : Bytes → ℕ → Bytes
unfolding shrink
truncate_utf8 s max_bytes = if leb (length s) max_bytes then s else shrink max_bytes s

-- What the loop finds: the longest prefix, of at most `n` bytes, that is valid.
pub record IsLongestValid (s : Bytes) (n : ℕ) (out : Bytes) : Type 0 where
  pub size : ℕ
  pub prefix : out ≡ take size s
  pub bounded : size ≤ n
  pub valid : valid_string out ≡ true
  pub longest : (k : ℕ) → size < k → k ≤ n → valid_string (take k s) ≡ false

shrink-IsLongestValid : (n : ℕ) (s : Bytes) → IsLongestValid s n (shrink n s)
unfolding shrink
shrink-IsLongestValid zero s = record {
  size = 0;
  prefix = refl;
  bounded = omega arith;
  valid = unfold valid_string in refl;
  longest = λ k h h'. absurd (omega arith);
}
shrink-IsLongestValid (suc n) s = elim (Bool-cases (valid_string (take (suc n) s))) [
  | inl good ↦ rw good (record {
    size = suc n;
    prefix = refl;
    bounded = omega arith;
    valid = good;
    longest = λ k h h'. absurd (omega arith);
  })
  | inr bad ↦ rw bad (step (shrink-IsLongestValid n s) bad)
]
  where
    step :
        IsLongestValid s n (shrink n s)
        → valid_string (take (suc n) s) ≡ false
        → IsLongestValid s (suc n) (shrink n s)
    step v bad = record {
      size = v.size;
      prefix = v.prefix;
      bounded = omega (arith, v.bounded);
      valid = v.valid;
      longest = λ k h h'. elim (Bool-cases (k == suc n)) [
        | inl e ↦ ap (λ j. valid_string (take j s)) {x = k} {y = suc n} (ground arith) ∙ bad
        | inr ne ↦ v.longest k h (ground arith)
      ];
    }

-- A text within the limit is kept; a longer one is cut to its longest valid prefix within the limit.
pub truncate_utf8_lem :
    (s : Bytes) (max_bytes : ℕ)
    → ((length s ≤ max_bytes) × (truncate_utf8 s max_bytes ≡ s))
      ⊎ ((max_bytes < length s) × IsLongestValid s max_bytes (truncate_utf8 s max_bytes))
unfolding truncate_utf8
truncate_utf8_lem s max_bytes = elim (Bool-cases (leb (length s) max_bytes)) [
  | inl short ↦ inl (ground arith, ground arith)
  | inr long ↦ inr (ground arith, rw long (shrink-IsLongestValid max_bytes s))
]

pub length-truncate_utf8 :
    (s : Bytes) (max_bytes : ℕ) → length (truncate_utf8 s max_bytes) ≤ max_bytes
length-truncate_utf8 s max_bytes = elim (truncate_utf8_lem s max_bytes) [
  | inl (short, e) ↦ omega (arith, ap length e)
  | inr (long, v) ↦ omega (arith, ap length v.prefix, length-take v.size s, v.bounded)
]
