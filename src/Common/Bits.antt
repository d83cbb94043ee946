-- ===== src/Common/Bits.antt =====
-- `&` and `|` of two numbers, part by part: on a nibble, on a byte, on a half word.
use Prim.Native.Nat.{ℕ, zero, suc, ◌+◌, ◌*◌, ◌/◌, ◌%◌, ◌≤◌, ◌<◌, min, max, bit_and, bit_or}
use mathlib.Core.Path.{◌≡◌, refl}
use native.Mathlib.Omega.{arith}
use Prim.Native.Nat.{◌^◌, bit_or-bitwise, bit_and-bitwise}
use lfdk.Common.Digits.{bit_and-half, bit_or-half}

-- The operation `f` works on the digits below `m` and on those from `m` up apart.
abbrev SplitsAt : (ℕ → ℕ → ℕ) → ℕ → Type 0
SplitsAt f m = (x y : ℕ) → f x y ≡ f (x / m) (y / m) * m + f (x % m) (y % m)

no_half : (x : ℕ) → x % 2 / 2 ≡ 0
no_half x = omega arith

bit_and_digit : (x y : ℕ) → bit_and (x % 2) (y % 2) ≡ min (x % 2) (y % 2)
bit_and_digit x y = rw (bit_and-half (x % 2) (y % 2)) (simp no_half (omega arith))

bit_or_digit : (x y : ℕ) → bit_or (x % 2) (y % 2) ≡ max (x % 2) (y % 2)
bit_or_digit x y = rw (bit_or-half (x % 2) (y % 2)) (simp no_half (omega arith))

bit_and_two : SplitsAt bit_and 2
bit_and_two x y = omega (arith, bit_and-half x y, bit_and_digit x y)

bit_or_two : SplitsAt bit_or 2
bit_or_two x y = omega (arith, bit_or-half x y, bit_or_digit x y)

module _ (f : ℕ → ℕ → ℕ) where
  splits_four : SplitsAt f 2 → SplitsAt f 4
  splits_four s x y = ground (arith, s x y, s (x / 2) (y / 2), s (x % 4) (y % 4))

  splits_sixteen : SplitsAt f 4 → SplitsAt f 16
  splits_sixteen s x y = ground (arith, s x y, s (x / 4) (y / 4), s (x % 16) (y % 16))

  splits_byte : SplitsAt f 16 → SplitsAt f 256
  splits_byte s x y = ground (arith, s x y, s (x / 16) (y / 16), s (x % 256) (y % 256))

  splits_eight : SplitsAt f 2 → SplitsAt f 4 → SplitsAt f 8
  splits_eight s t x y = ground (arith, s x y, t (x / 2) (y / 2), s (x % 8) (y % 8))

  splits_thirty_two : SplitsAt f 2 → SplitsAt f 16 → SplitsAt f 32
  splits_thirty_two s t x y = ground (arith, s x y, t (x / 2) (y / 2), s (x % 32) (y % 32))

  splits_page : SplitsAt f 16 → SplitsAt f 256 → SplitsAt f 4096
  splits_page s t x y = ground (arith, s x y, t (x / 16) (y / 16), s (x % 4096) (y % 4096))

  splits_half_word : SplitsAt f 256 → SplitsAt f 65536
  splits_half_word s x y = ground (arith, s x y, s (x / 256) (y / 256), s (x % 65536) (y % 65536))

  splits_three_bytes : SplitsAt f 256 → SplitsAt f 65536 → SplitsAt f 16777216
  splits_three_bytes s t x y =
      ground (arith, s x y, t (x / 256) (y / 256), s (x % 16777216) (y % 16777216))

pub bit_and_nibble : SplitsAt bit_and 16
bit_and_nibble = splits_sixteen bit_and (splits_four bit_and bit_and_two)

pub bit_and_byte : SplitsAt bit_and 256
bit_and_byte = splits_byte bit_and bit_and_nibble

pub bit_or_nibble : SplitsAt bit_or 16
bit_or_nibble = splits_sixteen bit_or (splits_four bit_or bit_or_two)

pub bit_or_byte : SplitsAt bit_or 256
bit_or_byte = splits_byte bit_or bit_or_nibble

bit_or-zero_below : (n x : ℕ) → x ≤ n → bit_or x 0 ≡ x
bit_or-zero_below n zero h = refl
bit_or-zero_below zero (suc x) h = absurd (omega arith)
bit_or-zero_below (suc n) (suc x) h =
    omega (arith, bit_or-half (suc x) 0, bit_or-zero_below n (suc x / 2) (omega arith))

pub bit_or-zero : (x : ℕ) → bit_or x 0 ≡ x
bit_or-zero x = bit_or-zero_below x x (omega arith)

pub zero-bit_or : (x : ℕ) → bit_or 0 x ≡ x
zero-bit_or x = bit_or-bitwise 0 x

bit_and-zero_below : (n x : ℕ) → x ≤ n → bit_and x 0 ≡ 0
bit_and-zero_below n zero h = refl
bit_and-zero_below zero (suc x) h = absurd (omega arith)
bit_and-zero_below (suc n) (suc x) h =
    omega (arith, bit_and-half (suc x) 0, bit_and-zero_below n (suc x / 2) (omega arith))

pub bit_and-zero : (x : ℕ) → bit_and x 0 ≡ 0
bit_and-zero x = bit_and-zero_below x x (omega arith)

-- A mask of low ones is a remainder.
pub mask_one : (x : ℕ) → bit_and x 1 ≡ x % 2
mask_one x = omega (arith, bit_and-half x 1, bit_and-zero (x / 2))

pub mask_two : (x : ℕ) → bit_and x 2 ≡ x / 2 % 2 * 2
mask_two x = omega (arith, bit_and-half x 2, mask_one (x / 2))

pub mask_three : (x : ℕ) → bit_and x 3 ≡ x % 4
mask_three x = omega (arith, bit_and-half x 3, mask_one (x / 2))

pub mask_seven : (x : ℕ) → bit_and x 7 ≡ x % 8
mask_seven x = omega (arith, bit_and-half x 7, mask_three (x / 2))

pub mask_nibble : (x : ℕ) → bit_and x 15 ≡ x % 16
mask_nibble x = omega (arith, bit_and-half x 15, mask_seven (x / 2))

pub mask_five_bits : (x : ℕ) → bit_and x 31 ≡ x % 32
mask_five_bits x = omega (arith, bit_and-half x 31, mask_nibble (x / 2))

pub mask_byte : (x : ℕ) → bit_and x 255 ≡ x % 256
mask_byte x = omega (arith, bit_and_nibble x 255, mask_nibble (x / 16), mask_nibble (x % 16))

pub mask_page : (x : ℕ) → bit_and x 4095 ≡ x % 4096
mask_page x = omega (arith, bit_and_nibble x 4095, mask_byte (x / 16), mask_nibble (x % 16))

pub mask_five_nibbles : (x : ℕ) → bit_and x 0xf_ffff ≡ x % 2 ^ 20
mask_five_nibbles x =
    omega (arith, bit_and_byte x 0xf_ffff, mask_page (x / 256), mask_byte (x % 256))

pub mask_three_bytes : (x : ℕ) → bit_and x 0xff_ffff ≡ x % 2 ^ 24
mask_three_bytes x =
    omega (arith, bit_and_nibble x 0xff_ffff, mask_five_nibbles (x / 16), mask_nibble (x % 16))

pub mask_half_word : (x : ℕ) → bit_and x 65535 ≡ x % 65536
mask_half_word x = omega (arith, bit_and_byte x 65535, mask_byte (x / 256), mask_byte (x % 256))

-- `|` of a number shifted up and one that fits below is their sum.
pub or_eight : (q r : ℕ) → r < 8 → bit_or (q * 8) r ≡ q * 8 + r
or_eight q r h = ground (
  arith,
  splits_eight bit_or bit_or_two (splits_four bit_or bit_or_two) (q * 8) r,
  bit_or-zero q,
  zero-bit_or r,
)

pub or_sixteen : (q r : ℕ) → r < 16 → bit_or (q * 16) r ≡ q * 16 + r
or_sixteen q r h = ground (arith, bit_or_nibble (q * 16) r, bit_or-zero q, zero-bit_or r)

pub or_thirty_two : (q r : ℕ) → r < 32 → bit_or (q * 32) r ≡ q * 32 + r
or_thirty_two q r h = ground (
  arith,
  splits_thirty_two bit_or bit_or_two bit_or_nibble (q * 32) r,
  bit_or-zero q,
  zero-bit_or r,
)

pub or_byte : (q r : ℕ) → r < 256 → bit_or (q * 256) r ≡ q * 256 + r
or_byte q r h = ground (arith, bit_or_byte (q * 256) r, bit_or-zero q, zero-bit_or r)

pub or_page : (q r : ℕ) → r < 4096 → bit_or (q * 4096) r ≡ q * 4096 + r
or_page q r h =
    ground (
      arith,
      splits_page bit_or bit_or_nibble bit_or_byte (q * 4096) r,
      bit_or-zero q,
      zero-bit_or r,
    )

-- The enable bit of a configuration address, above 24 bits of address.
pub or_enable : (r : ℕ) → r < 16777216 → bit_or r 0x80000000 ≡ 0x80000000 + r
or_enable r h = ground (
  arith,
  splits_three_bytes bit_or bit_or_byte (splits_half_word bit_or bit_or_byte) r 0x80000000,
  bit_or-zero r,
  zero-bit_or 128,
)

pub bit_and_half_word : SplitsAt bit_and 65536
bit_and_half_word = splits_half_word bit_and bit_and_byte

pub bit_or_half_word : SplitsAt bit_or 65536
bit_or_half_word = splits_half_word bit_or bit_or_byte

pub zero-bit_and : (x : ℕ) → bit_and 0 x ≡ 0
zero-bit_and x = bit_and-bitwise 0 x
