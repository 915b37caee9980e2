-- ===== src/Protocol/Words.antt =====
-- `binary.BigEndian` of Go's standard library, at 16, 32 and 64 bits.
use kcpq.Prelude.{
  ℕ, ◌+◌, ◌*◌, ◌/◌, ◌%◌, ◌^◌, ◌<◌, ◌≡◌, [], ◌∷◌, ◌++◌, Bytes, refl, arith, drop, append_assoc,
}

unfoldable pub put_uint16 : ℕ → Bytes
put_uint16 n = n / 256 % 256 ∷ n % 256 ∷ []

-- The value of a two-byte slice.
unfoldable pub uint16 : Bytes → ℕ
uint16 (a ∷ b ∷ _) = a * 256 + b
uint16 _ = 0

unfoldable pub put_uint32 : ℕ → Bytes
put_uint32 n = n / 2 ^ 24 % 256 ∷ n / 2 ^ 16 % 256 ∷ n / 256 % 256 ∷ n % 256 ∷ []

unfoldable pub uint32 : Bytes → ℕ
uint32 (a ∷ b ∷ c ∷ d ∷ _) = a * 2 ^ 24 + b * 2 ^ 16 + c * 256 + d
uint32 _ = 0

unfoldable pub put_uint64 : ℕ → Bytes
put_uint64 n = put_uint32 (n / 2 ^ 32) ++ put_uint32 n

-- The value of the first eight bytes.
unfoldable pub uint64 : Bytes → ℕ
unfolding uint32
uint64 bytes = uint32 bytes * 2 ^ 32 + uint32 (drop 4 bytes)

pub uint16-put_uint16 : (n : ℕ) → n < 2 ^ 16 → uint16 (put_uint16 n) ≡ n
unfolding uint16 put_uint16
uint16-put_uint16 n h = omega arith

pub uint32-put_uint32 : (n : ℕ) → n < 2 ^ 32 → uint32 (put_uint32 n) ≡ n
unfolding uint32 put_uint32
uint32-put_uint32 n h = omega arith

uint32-put_uint32-append : (n : ℕ) (r : Bytes) → uint32 (put_uint32 n ++ r) ≡ n % 2 ^ 32
unfolding uint32 put_uint32
uint32-put_uint32-append n r = omega arith

drop-put_uint32 : (n : ℕ) (r : Bytes) → drop 4 (put_uint32 n ++ r) ≡ r
unfolding put_uint32
drop-put_uint32 n r = refl

pub uint64-put_uint64 : (n : ℕ) (r : Bytes) → n < 2 ^ 64 → uint64 (put_uint64 n ++ r) ≡ n
unfolding uint64 put_uint64
uint64-put_uint64 n r h =
    let high = put_uint32 (n / 2 ^ 32) in
    let same : (high ++ put_uint32 n) ++ r ≡ high ++ (put_uint32 n ++ r) =
      append_assoc high (put_uint32 n) r in
    rw (same, drop-put_uint32 (n / 2 ^ 32) (put_uint32 n ++ r))
      (omega (
        arith,
        uint32-put_uint32-append (n / 2 ^ 32) (put_uint32 n ++ r),
        uint32-put_uint32-append n r,
      ))

-- `msgData[0]`, which both parsers read only where `msgData` is not empty.
unfoldable pub first_byte : Bytes → ℕ
first_byte [] = 0
first_byte (b ∷ _) = b

-- Four bytes and two bytes are written back as they were read.
pub put_uint32-uint32 :
    (a b c d : ℕ) (r : Bytes)
    → a < 256
    → b < 256
    → c < 256
    → d < 256
    → put_uint32 (uint32 (a ∷ b ∷ c ∷ d ∷ r)) ≡ a ∷ b ∷ c ∷ d ∷ []
unfolding uint32 put_uint32
put_uint32-uint32 a b c d r ha hb hc hd = ground arith

pub put_uint16-uint16 :
    (a b : ℕ) (r : Bytes) → a < 256 → b < 256 → put_uint16 (uint16 (a ∷ b ∷ r)) ≡ a ∷ b ∷ []
unfolding uint16 put_uint16
put_uint16-uint16 a b r ha hb = ground arith
