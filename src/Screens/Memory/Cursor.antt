-- ===== src/Screens/Memory/Cursor.antt =====
-- The cursor and the address of the memory screen, and the cell that a value goes to.
use lfdk.Common.{◌%◌, ◌^◌, ◌<◌, ◌≡◌, arith}
use lfdk.Screens.Hex.{
  Key, up, down, left, right, npage, ppage, backspace, f7, code, push_address, digit_value-lt,
}
use lfdk.Screens.Mode.{width, next_mode, push_value-lt}
use lfdk.Screens.Memory.{
  Input, no_input, input_mem, input_addr, MemScreen, press_addr, press_mem, press_display, press_in,
  mem_key_press,
}

-- The cursor is on a cell of the present width, the page begins at a multiple of 256 below 4 GB,
-- and the value entered fits 32 bits.
abbrev pub IsOnCell : MemScreen → Type 0
IsOnCell s =
    (s.x < 16)
    × (s.x % width s.display_mode ≡ 0)
    × (s.y < 16)
    × (s.phyaddr % 256 ≡ 0)
    × (s.phyaddr < 2 ^ 32)
    × (s.wbuf < 2 ^ 32)

press_addr-IsOnCell : (key : Key) (s : MemScreen) → IsOnCell s → IsOnCell (press_addr key s)
unfolding press_addr width
press_addr-IsOnCell backspace s ok = ground (arith, ok)
press_addr-IsOnCell (code c) s ok = ground (arith, ok, push_address s.wbuf c)
press_addr-IsOnCell up s ok = ground (arith, ok)
press_addr-IsOnCell down s ok = ground (arith, ok)
press_addr-IsOnCell left s ok = ground (arith, ok)
press_addr-IsOnCell right s ok = ground (arith, ok)
press_addr-IsOnCell npage s ok = ground (arith, ok)
press_addr-IsOnCell ppage s ok = ground (arith, ok)
press_addr-IsOnCell f7 s ok = ground (arith, ok)

press_mem-IsOnCell : (key : Key) (s : MemScreen) → IsOnCell s → IsOnCell (press_mem key s).0
unfolding press_mem width
press_mem-IsOnCell backspace s ok = ground (arith, ok)
press_mem-IsOnCell (code c) s ok = ground (arith, ok, push_value-lt s.display_mode s.wbuf c)
press_mem-IsOnCell up s ok = ground (arith, ok)
press_mem-IsOnCell down s ok = ground (arith, ok)
press_mem-IsOnCell left s ok = ground (arith, ok)
press_mem-IsOnCell right s ok = ground (arith, ok)
press_mem-IsOnCell npage s ok = ground (arith, ok)
press_mem-IsOnCell ppage s ok = ground (arith, ok)
press_mem-IsOnCell f7 s ok = ground (arith, ok)

press_display-IsOnCell : (key : Key) (s : MemScreen) → IsOnCell s → IsOnCell (press_display key s)
unfolding press_display width next_mode
press_display-IsOnCell up s ok = ground (arith, ok)
press_display-IsOnCell down s ok = ground (arith, ok)
press_display-IsOnCell left s ok = ground (arith, ok)
press_display-IsOnCell right s ok = ground (arith, ok)
press_display-IsOnCell npage s ok = ground (arith, ok)
press_display-IsOnCell ppage s ok = ground (arith, ok)
press_display-IsOnCell f7 s ok = ground (arith, ok)
press_display-IsOnCell backspace s ok = ground (arith, ok)
press_display-IsOnCell (code c) s ok = ground (arith, ok, digit_value-lt c)

press_in-IsOnCell :
    (i : Input) (key : Key) (s : MemScreen) → IsOnCell s → IsOnCell (press_in i key s).0
unfolding press_in
press_in-IsOnCell input_addr key s ok = press_addr-IsOnCell key s ok
press_in-IsOnCell input_mem key s ok = press_mem-IsOnCell key s ok
press_in-IsOnCell no_input key s ok = press_display-IsOnCell key s ok

-- Every key, in each mode of input, keeps the cursor on a whole cell of the page, the page at a
-- multiple of 256 below 4 GB and the value in 32 bits.
pub mem_key_press-IsOnCell :
    (key : Key) (s : MemScreen) → IsOnCell s → IsOnCell (mem_key_press key s).0
unfolding mem_key_press
mem_key_press-IsOnCell key s ok = press_in-IsOnCell s.input key s ok
