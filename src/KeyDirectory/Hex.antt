-- ===== src/KeyDirectory/Hex.antt =====
-- `bytes.hex` and `bytes.fromhex`, on text as its ASCII codes. Python's `fromhex` also skips blanks
-- between two bytes; the program gives it none.
use kem_make.Base.{
  ℕ, ◌+◌, ◌-◌, ◌*◌, ◌/◌, ◌%◌, ◌<◌, Bytes, true, ◌&&◌, ◌≡◌, refl, Option, none, some, [], ◌∷◌, arith,
  All, all, ltb, leb, if◌then◌else◌,
}

abbrev digit : ℕ → ℕ
digit n = if ltb n 10 then 48 + n else 87 + n

-- `key_hash.hex()`
unfoldable pub hex : Bytes → Bytes
hex [] = []
hex (b ∷ bs) = digit (b / 16) ∷ digit (b % 16) ∷ hex bs

abbrev value_of : ℕ → Option ℕ
value_of c =
    if leb 48 c && leb c 57
    then some (c - 48)
    else if leb 97 c && leb c 102
    then some (c - 87)
    else if leb 65 c && leb c 70
    then some (c - 55)
    else none

abbrev join : Option ℕ → Option ℕ → Option Bytes → Option Bytes
join (some high) (some low) (some rest) = some ((16 * high + low) ∷ rest)
join _ _ _ = none

-- `bytes.fromhex`; `none` where it raises ValueError
unfoldable pub from_hex : Bytes → Option Bytes
from_hex [] = some []
from_hex (c ∷ []) = none
from_hex (c ∷ d ∷ rest) = join (value_of c) (value_of d) (from_hex rest)

digit-injective : (m n : ℕ) → digit m ≡ digit n → m ≡ n
digit-injective m n e = ground arith

-- Different octets have different names.
pub hex-injective : (a b : Bytes) → hex a ≡ hex b → a ≡ b
unfolding hex
hex-injective [] [] e = refl
hex-injective [] (y ∷ b) e = cc
hex-injective (x ∷ a) [] e = cc
hex-injective (x ∷ a) (y ∷ b) e =
    ground (
      arith,
      digit-injective (x / 16) (y / 16),
      digit-injective (x % 16) (y % 16),
      hex-injective a b,
    )

value_of-digit : (n : ℕ) → n < 16 → value_of (digit n) ≡ some n
value_of-digit n h = ground arith

digit_small : (n : ℕ) → n < 16 → ltb (digit n) 128 ≡ true
digit_small n h = ground arith

-- What `hex` writes of bytes, `fromhex` reads back.
pub from_hex-hex : (bs : Bytes) → All (λ b. b < 256) bs → from_hex (hex bs) ≡ some bs
unfolding hex from_hex
from_hex-hex [] h = refl
from_hex-hex (b ∷ bs) (small, rest) = ground (
  arith,
  value_of-digit (b / 16) (omega arith),
  value_of-digit (b % 16) (omega arith),
  from_hex-hex bs rest,
)

-- A name is ASCII.
pub all-hex : (bs : Bytes) → All (λ b. b < 256) bs → all (λ c. ltb c 128) (hex bs) ≡ true
unfolding hex all
all-hex [] h = refl
all-hex (b ∷ bs) (small, rest) =
    ground (
      arith,
      digit_small (b / 16) (omega arith),
      digit_small (b % 16) (omega arith),
      all-hex bs rest,
    )
