-- ===== src/Screens/Hex.antt =====
-- Keys and the entry of hexadecimal digits, as the key functions of the screens share them.
use lfdk.Common.{
  ℕ, ◌+◌, ◌-◌, ◌*◌, ◌/◌, ◌%◌, ◌^◌, ◌<◌, ◌≡◌, true, Bool, ◌&&◌, ◌||◌, arith, bit_and, bit_or, u32,
  leb, ltb, if◌then◌else◌, bit_and_nibble, bit_and-zero, or_sixteen, mask_nibble, mask_page,
  mask_five_nibbles,
}

-- The codes of the terminal library that the screens name; `code` is any other.
pub data Key : Type 0 where
  up down left right npage ppage backspace f7 : Key
  code : ℕ → Key

-- `isxdigit`.
unfoldable pub is_hex : ℕ → Bool
is_hex c = (leb 0x30 c && leb c 0x39) || (leb 0x41 c && leb c 0x46) || (leb 0x61 c && leb c 0x66)

-- The value of a digit: the three branches on `'9'` and `'F'`.
unfoldable pub digit_value : ℕ → ℕ
digit_value c = if leb c 0x39 then c - 0x30 else if ltb 0x46 c then c - 0x60 + 9 else c - 0x40 + 9

-- `wbuf <<= 4; wbuf &= mask; wbuf |= digit`, on `uint32_t`.
pub push_masked : ℕ → ℕ → ℕ → ℕ
push_masked mask wbuf c = bit_or (bit_and (u32 (wbuf * 16)) mask) (digit_value c)

-- The same without a mask.
pub push_unmasked : ℕ → ℕ → ℕ
push_unmasked wbuf c = bit_or (u32 (wbuf * 16)) (digit_value c)

pub digit_value-lt : (c : ℕ) → is_hex c ≡ true → digit_value c < 16
unfolding is_hex digit_value
digit_value-lt c h = ground arith

module _ (wbuf c : ℕ) (hex : is_hex c ≡ true) where
  -- A mask of `n` digits less the last keeps the last `n` digits entered.
  pub push_byte : push_masked 0x0f0 wbuf c ≡ (wbuf * 16 + digit_value c) % 2 ^ 8
  unfolding push_masked
  push_byte =
      let shifted = u32 (wbuf * 16) in
      ground (
        arith,
        digit_value-lt c hex,
        bit_and_nibble shifted 0x0f0,
        mask_nibble (shifted / 16),
        bit_and-zero (shifted % 16),
        or_sixteen (shifted / 16 % 16) (digit_value c),
      )

  pub push_word : push_masked 0x0fff0 wbuf c ≡ (wbuf * 16 + digit_value c) % 2 ^ 16
  unfolding push_masked
  push_word =
      let shifted = u32 (wbuf * 16) in
      ground (
        arith,
        digit_value-lt c hex,
        bit_and_nibble shifted 0x0fff0,
        mask_page (shifted / 16),
        bit_and-zero (shifted % 16),
        or_sixteen (shifted / 16 % 4096) (digit_value c),
      )

  pub push_address : push_masked 0x00fffff0 wbuf c ≡ (wbuf * 16 + digit_value c) % 2 ^ 24
  unfolding push_masked
  push_address =
      let shifted = u32 (wbuf * 16) in
      ground (
        arith,
        digit_value-lt c hex,
        bit_and_nibble shifted 0x00fffff0,
        mask_five_nibbles (shifted / 16),
        bit_and-zero (shifted % 16),
        or_sixteen (shifted / 16 % 2 ^ 20) (digit_value c),
      )

  pub push_dword : push_unmasked wbuf c ≡ (wbuf * 16 + digit_value c) % 2 ^ 32
  unfolding push_unmasked
  push_dword =
      let shifted = u32 (wbuf * 16) in
      ground (arith, digit_value-lt c hex, or_sixteen (wbuf % 2 ^ 28) (digit_value c))
