-- ===== src/Screens/Cmos.antt =====
-- lfdk/libcmos.c: the screen of the CMOS bytes, 256 bytes in 16 lines.
pub mod Cell
pub mod Paint
use lfdk.Common.{
  ℕ, ◌+◌, ◌-◌, ◌*◌, ◌/◌, ◌==◌, Bool, true, false, Option, none, some, u8, leb, ltb, if◌then◌else◌,
}
use lfdk.Screens.Hex.{Key, up, down, left, right, backspace, code, is_hex, digit_value, push_masked}

pub record CmosScreen : Type 0 where
  pub x : ℕ
  pub y : ℕ
  -- `input == INPUT_CMOS`.
  pub entering : Bool
  pub wbuf : ℕ

-- The bytes that `WriteCmosByteValue` puts out to the address port and the data port.
pub record CmosWrite : Type 0 where
  pub index : ℕ
  pub data_byte : ℕ

unfoldable pub write_cmos_byte_value : CmosScreen → CmosWrite
write_cmos_byte_value s = record { index = u8 (s.x * 16 + s.y); data_byte = u8 s.wbuf }

-- The byte that the screen shows at the cursor: line `y`, column `x`.
unfoldable pub shown_index : CmosScreen → ℕ
shown_index s = s.y * 16 + s.x

abbrev leave_entry : CmosScreen → CmosScreen
leave_entry s = record s { wbuf = 0; entering = false }

pub press_entry : Key → CmosScreen → CmosScreen × Option CmosWrite
press_entry backspace s = (record s { wbuf = s.wbuf / 16 }, none)
press_entry (code c) s =
    if c == 0x0a
    then (leave_entry s, some (write_cmos_byte_value s))
    else if is_hex c
    then (record s { wbuf = push_masked 0x0f0 s.wbuf c }, none)
    else (leave_entry s, none)
press_entry _ s = (leave_entry s, none)

pub press_shown : Key → CmosScreen → CmosScreen
press_shown up s = if ltb 0 s.y then record s { y = s.y - 1 } else s
press_shown down s = if ltb s.y 15 then record s { y = s.y + 1 } else s
press_shown left s = record s { x = s.x - 1 }
press_shown right s = if leb 16 (s.x + 1) then record s { x = 15 } else record s { x = s.x + 1 }
press_shown (code c) s = if is_hex c then record s { entering = true; wbuf = digit_value c } else s
press_shown _ s = s

pub cmos_key_press : Key → CmosScreen → CmosScreen × Option CmosWrite
cmos_key_press key s = if s.entering then press_entry key s else (press_shown key s, none)
