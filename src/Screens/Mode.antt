-- ===== src/Screens/Mode.antt =====
-- The widths that the screens show and enter, as the three files lfdk/libmem.c, lfdk/libio.c and
-- lfdk/lib_pci_dev.c declare them alike.
use lfdk.Common.{ℕ, ◌^◌, ◌<◌, ◌≡◌, true, arith}
use lfdk.Screens.Hex.{is_hex, push_masked, push_unmasked, push_byte, push_word, push_dword}

pub data Mode : Type 0 where
  byte_mode word_mode dword_mode : Mode

-- `1 << display_mode`.
unfoldable pub width : Mode → ℕ
width byte_mode = 1
width word_mode = 2
width dword_mode = 4

unfoldable pub next_mode : Mode → Mode
next_mode byte_mode = word_mode
next_mode word_mode = dword_mode
next_mode dword_mode = byte_mode

-- The digits of a value, as many as the mode shows.
unfoldable pub push_value : Mode → ℕ → ℕ → ℕ
push_value byte_mode wbuf c = push_masked 0x0f0 wbuf c
push_value word_mode wbuf c = push_masked 0x0fff0 wbuf c
push_value dword_mode wbuf c = push_unmasked wbuf c

pub push_value-lt : (mode : Mode) (wbuf c : ℕ) → is_hex c ≡ true → push_value mode wbuf c < 2 ^ 32
unfolding push_value
push_value-lt byte_mode wbuf c hex = omega (arith, push_byte wbuf c hex)
push_value-lt word_mode wbuf c hex = omega (arith, push_word wbuf c hex)
push_value-lt dword_mode wbuf c hex = omega (arith, push_dword wbuf c hex)
