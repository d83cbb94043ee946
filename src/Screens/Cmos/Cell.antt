-- ===== src/Screens/Cmos/Cell.antt =====
-- The cell that a byte typed on the CMOS screen goes to.
use lfdk.Common.{
  ◌+◌, ◌*◌, ◌%◌, ◌^◌, ◌<◌, ◌≡◌, ◌↔◌, refl, if◌then◌else◌, Bool, none, true, false, arith, some,
}
use lfdk.Screens.Hex.{
  Key, up, down, left, right, npage, ppage, backspace, f7, code, push_byte, digit_value-lt,
}
use lfdk.Screens.Cmos.{
  CmosScreen, write_cmos_byte_value, shown_index, press_entry, press_shown, cmos_key_press,
}

-- The cursor is in the 16 by 16 grid and the value entered is a byte.
abbrev pub IsInGrid : CmosScreen → Type 0
IsInGrid s = (s.x < 16) × (s.y < 16) × (s.wbuf < 256)

entry-IsInGrid : (key : Key) (s : CmosScreen) → IsInGrid s → IsInGrid (press_entry key s).0
unfolding press_entry
entry-IsInGrid (code c) s ok = ground (arith, ok, push_byte s.wbuf c)
entry-IsInGrid backspace s ok = ground (arith, ok)
entry-IsInGrid up s ok = ground (arith, ok)
entry-IsInGrid down s ok = ground (arith, ok)
entry-IsInGrid left s ok = ground (arith, ok)
entry-IsInGrid right s ok = ground (arith, ok)
entry-IsInGrid npage s ok = ground (arith, ok)
entry-IsInGrid ppage s ok = ground (arith, ok)
entry-IsInGrid f7 s ok = ground (arith, ok)

shown-IsInGrid : (key : Key) (s : CmosScreen) → IsInGrid s → IsInGrid (press_shown key s)
unfolding press_shown
shown-IsInGrid (code c) s ok = ground (arith, ok, digit_value-lt c)
shown-IsInGrid up s ok = ground (arith, ok)
shown-IsInGrid down s ok = ground (arith, ok)
shown-IsInGrid left s ok = ground (arith, ok)
shown-IsInGrid right s ok = ground (arith, ok)
shown-IsInGrid backspace s ok = ok
shown-IsInGrid npage s ok = ok
shown-IsInGrid ppage s ok = ok
shown-IsInGrid f7 s ok = ok

either-IsInGrid :
    (b : Bool) (key : Key) (s : CmosScreen)
    → IsInGrid s
    → IsInGrid (if b then press_entry key s else (press_shown key s, none)).0
either-IsInGrid true key s ok = entry-IsInGrid key s ok
either-IsInGrid false key s ok = shown-IsInGrid key s ok

-- Every key keeps the cursor in the 16 by 16 grid and the value entered a byte.
pub cmos_key_press-IsInGrid :
    (key : Key) (s : CmosScreen) → IsInGrid s → IsInGrid (cmos_key_press key s).0
unfolding cmos_key_press
cmos_key_press-IsInGrid key s ok = either-IsInGrid s.entering key s ok

-- While a byte is entered, the enter key writes it at the cell whose line is the cursor's column
-- and whose column is the cursor's line; that is the cell shown at the cursor exactly on the
-- diagonal.
pub enter_lem :
    (s : CmosScreen)
    → s.entering ≡ true
    → s.x < 16
    → s.y < 16
    → s.wbuf < 256
    → ((cmos_key_press (code 0x0a) s).1
        ≡ some (record { index = s.x * 16 + s.y; data_byte = s.wbuf }))
      × ((s.x * 16 + s.y ≡ shown_index s) ↔ (s.x ≡ s.y))
unfolding cmos_key_press press_entry write_cmos_byte_value shown_index
enter_lem s entry column line byte =
    let index : (s.x * 16 + s.y) % 2 ^ 8 ≡ s.x * 16 + s.y = omega arith in
    let kept : s.wbuf % 2 ^ 8 ≡ s.wbuf = omega arith in (rw (entry, index, kept) refl, ground arith)
