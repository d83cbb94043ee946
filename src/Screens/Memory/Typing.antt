-- ===== src/Screens/Memory/Typing.antt =====
-- A value typed on the memory screen, from the first digit to the request to the driver.
use lfdk.Common.{ℕ, ◌+◌, ◌*◌, ◌^◌, ◌≡◌, true, List, [], ◌∷◌}
use lfdk.Screens.Hex.{code, is_hex, digit_value}
use lfdk.Screens.Mode.{Mode, byte_mode, word_mode, dword_mode}
use lfdk.Screens.Memory.{input_mem, MemScreen, mem_key_press}

-- The digits as a number, after `n`.
abbrev pub number : ℕ → List ℕ → ℕ
number n [] = n
number n (c ∷ cs) = number (n * 16 + digit_value c) cs

pub data AllHex : List ℕ → Type 0 where
  none_left : AllHex []
  digit : (c : ℕ) (cs : List ℕ) → is_hex c ≡ true → AllHex cs → AllHex (c ∷ cs)

-- The state after the keys.
abbrev pub type_all : List ℕ → MemScreen → MemScreen
type_all [] s = s
type_all (c ∷ cs) s = type_all cs (mem_key_press (code c) s).0

-- The values that a mode holds.
unfoldable pub limit : Mode → ℕ
limit byte_mode = 2 ^ 8
limit word_mode = 2 ^ 16
limit dword_mode = 2 ^ 32

abbrev entering : MemScreen → ℕ → MemScreen
entering s w = record s { input = input_mem; wbuf = w }
