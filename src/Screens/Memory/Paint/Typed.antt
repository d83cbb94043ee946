-- ===== src/Screens/Memory/Paint/Typed.antt =====
-- A value typed on the memory screen is what the screen shows next.
use lfdk.Common.{
  ℕ, ◌+◌, ◌*◌, ◌/◌, ◌%◌, ◌^◌, ◌≤◌, ◌<◌, ◌≡◌, refl, ap, ◌∙◌, true, false, Option, some, List, u32,
  arith, ◌==◌, get_elem?, get_or,
}
use lfdk.Driver.Structs.{Command, MemCmd}
use lfdk.Driver.Machine.{Machine, Driver}
use lfdk.Driver.Mem.{is_beyond, mem_write_byte, mem_write_word, mem_write_dword, mem_read_256byte}
use lfdk.Driver.Mem.Ram.{DirectMap, ram-mem_write_byte, ram-mem_write_word, ram-mem_write_dword}
use lfdk.Driver.Mem.Block.{mem_read_256byte-get}
use lfdk.Driver.Ioctl.{Arg, left, UserAccess, ioctl}
use lfdk.Driver.Ioctl.EndToEnd.{CopiesAll}
use lfdk.Driver.Ioctl.Memory.{
  ioctl-mem_read_256byte, ioctl-mem_write_byte, ioctl-mem_write_word, ioctl-mem_write_dword,
}
use lfdk.Screens.Device.{lfdd_ioctl-done}
use lfdk.Screens.Hex.{code}
use lfdk.Screens.Mode.{Mode, byte_mode, word_mode, dword_mode, width}
use lfdk.Screens.Grid.{
  cell, black_yellow, draw_grid, draw_cell, colour_at, value_at, is_cursor, buffer_value,
  digit_count,
}
use lfdk.Screens.Grid.Cells.{cells_of, cells_per_line, draw_grid-draw_cell}
use lfdk.Screens.Memory.{
  no_input, input_mem, MemScreen, write_command, write_mem_value, press_mem, press_in,
  mem_key_press,
}
use lfdk.Screens.Memory.Cursor.{IsOnCell}
use lfdk.Screens.Memory.Typing.{limit}
use lfdk.Screens.Memory.Paint.{
  MemPainting, mem_view, paint_block, print_mem_screen, make_request, then_print, show_block,
  with_address, with_request, is_input_addr, is_no_input, is_input_mem,
}

-- The value of the mode's width in memory, the low byte first.
unfoldable pub memory_value : Mode → (ℕ → ℕ) → ℕ → ℕ
memory_value byte_mode ram a = ram a
memory_value word_mode ram a = ram a + ram (a + 1) * 2 ^ 8
memory_value dword_mode ram a =
    ram a + ram (a + 1) * 2 ^ 8 + ram (a + 2) * 2 ^ 16 + ram (a + 3) * 2 ^ 24

-- The store that the enter key asks for.
write_by : (m : Machine) → Mode → ℕ → ℕ → Driver m → Driver m
write_by m byte_mode value addr d = (mem_write_byte m value addr d).1
write_by m word_mode value addr d = (mem_write_word m value addr d).1
write_by m dword_mode value addr d = (mem_write_dword m value addr d).1

ioctl-write_by :
    {m : Machine} {user : UserAccess} (mode : Mode) (arg : Arg) (d : Driver m)
    → CopiesAll user
    → ioctl m user (write_command mode) arg d
      ≡ ((left 0, arg), write_by m mode arg.mem.buf arg.mem.addr d)
unfolding write_command write_by
ioctl-write_by byte_mode arg d copies = ioctl-mem_write_byte copies arg d
ioctl-write_by word_mode arg d copies = ioctl-mem_write_word copies arg d
ioctl-write_by dword_mode arg d copies = ioctl-mem_write_dword copies arg d

module _ {m : Machine} (map : DirectMap m) where
  open map use {ram}

  written_value :
      (mode : Mode) (value addr : ℕ) (d : Driver m)
      → is_beyond m addr ≡ false
      → memory_value mode (ram (write_by m mode value addr d).hw) addr ≡ value % limit mode
  unfolding memory_value write_by limit
  written_value byte_mode value addr d inside =
      ground (arith, ram-mem_write_byte map addr value d inside addr)
  written_value word_mode value addr d inside = ground (
    arith,
    ram-mem_write_word map addr value d inside addr,
    ram-mem_write_word map addr value d inside (addr + 1),
  )
  written_value dword_mode value addr d inside = ground (
    arith,
    ram-mem_write_dword map addr value d inside addr,
    ram-mem_write_dword map addr value d inside (addr + 1),
    ram-mem_write_dword map addr value d inside (addr + 2),
    ram-mem_write_dword map addr value d inside (addr + 3),
  )

  module _ (c : MemCmd) (d : Driver m) (inside : is_beyond m c.addr ≡ false) where
    block_byte :
        (k i : ℕ)
        → k + i < 256
        → get_or (mem_read_256byte m c d).0 (k + i) 0 ≡ ram d.hw (c.addr + k + i)
    block_byte k i h = mem_read_256byte-get map c (k + i) d inside h ∙ ap (ram d.hw) (omega arith)

    block_value :
        (mode : Mode) (k : ℕ)
        → k + width mode ≤ 256
        → buffer_value mode (mem_read_256byte m c d).0 k ≡ memory_value mode (ram d.hw) (c.addr + k)
    unfolding buffer_value memory_value width
    block_value byte_mode k h = mem_read_256byte-get map c k d inside (omega arith)
    block_value word_mode k h =
        simp (mem_read_256byte-get map c k d inside (omega arith), block_byte k 1 (omega arith))
    block_value dword_mode k h = simp (
      mem_read_256byte-get map c k d inside (omega arith),
      block_byte k 1 (omega arith),
      block_byte k 2 (omega arith),
      block_byte k 3 (omega arith),
    )

same_number : (n : ℕ) → (n == n) ≡ true
same_number n = ground arith

-- The cell under the cursor, while nothing is entered.
cursor_cell :
    (s : MemScreen) (block : List ℕ)
    → s.input ≡ no_input
    → draw_cell (mem_view s block) s.y s.x
      ≡ cell black_yellow
          (digit_count s.display_mode)
          (buffer_value s.display_mode block (s.y * 16 + s.x))
unfolding draw_cell colour_at value_at is_cursor mem_view is_no_input is_input_mem
cursor_cell s block e = simp (e, same_number s.y, same_number s.x)

-- A multiple of the width below 16 is a cell of the line, with its bytes inside the block.
column_lem :
    (mode : Mode) (x y : ℕ)
    → x < 16
    → x % width mode ≡ 0
    → y < 16
    → (x / width mode < cells_per_line mode)
      × (x / width mode * width mode ≡ x)
      × (y * 16 + x + width mode ≤ 256)
unfolding width cells_per_line
column_lem byte_mode x y h k l = omega arith
column_lem word_mode x y h k l = omega arith
column_lem dword_mode x y h k l = omega arith

-- The index of the cell under the cursor among the cells of the grid.
abbrev pub cursor_index : MemScreen → ℕ
cursor_index s = s.y * cells_per_line s.display_mode + s.x / width s.display_mode

grid_at_cursor :
    (s : MemScreen) (block : List ℕ)
    → IsOnCell s
    → s.input ≡ no_input
    → get_elem? (cells_of (draw_grid (mem_view s block))) (cursor_index s)
      ≡ some (
          cell black_yellow
            (digit_count s.display_mode)
            (buffer_value s.display_mode block (s.y * 16 + s.x)))
unfolding mem_view
grid_at_cursor s block ok e =
    let (low, back, _) = column_lem s.display_mode s.x s.y ok.0 ok.1 ok.2 in
    draw_grid-draw_cell (mem_view s block) s.y (s.x / width s.display_mode) ok.2 low
    ∙ ap (λ j. some (draw_cell (mem_view s block) s.y j)) back
    ∙ ap some (cursor_cell s block e)

-- The enter key, with its call of the driver, and the painting of the screen that it leaves.
abbrev pub enter_and_print :
    (m : Machine) → UserAccess → MemScreen → Arg → Driver m → Option (MemPainting × Driver m)
enter_and_print m user s arg d =
    let pressed = mem_key_press (code 0x0a) s in
    then_print m user pressed.0 (make_request m user pressed.1 arg d)

abbrev after_enter : MemScreen → MemScreen
after_enter s = record s { input = no_input; wbuf = 0 }

press_enter :
    (s : MemScreen)
    → s.input ≡ input_mem
    → mem_key_press (code 0x0a) s ≡ (after_enter s, some (write_mem_value s))
unfolding mem_key_press press_in press_mem
press_enter s e = simp e

module _ {m : Machine} (user : UserAccess) (copies : CopiesAll user) where
  request_made :
      (s : MemScreen) (arg : Arg) (d : Driver m)
      → make_request m user (some (write_mem_value s)) arg d
        ≡ some (
          with_request m user (write_mem_value s) arg,
          write_by m s.display_mode s.wbuf (u32 (s.phyaddr + s.y * 16 + s.x)) d,
        )
  unfolding make_request write_mem_value with_request
  request_made s arg d =
      lfdd_ioctl-done m user (write_command s.display_mode)
        (with_request m user (write_mem_value s) arg) _ d _
        (ioctl-write_by s.display_mode (with_request m user (write_mem_value s) arg) d copies)

  -- The painting of a screen on which nothing is entered.
  printed :
      (s : MemScreen) (arg : Arg) (d : Driver m)
      → s.input ≡ no_input
      → let c = (with_address m user s.phyaddr arg).mem in
        print_mem_screen m user s arg d
        ≡ some (paint_block s (mem_read_256byte m c d).0, (mem_read_256byte m c d).1)
  unfolding print_mem_screen show_block is_input_addr with_address
  printed s arg d e =
      let arg' = with_address m user s.phyaddr arg in
      simp (
        e,
        lfdd_ioctl-done m user Command.mem_read_256byte arg' _ d _
            (ioctl-mem_read_256byte copies arg' d),
      )

-- When the copies to and from the driver succeed and both the page and the cell under the cursor
-- are inside main memory, the enter key on a value typed makes the call that stores it, and the
-- screen painted next shows it: the cell under the cursor, marked as such, has the value typed,
-- cut to the width shown, read back from memory.
pub typed_is_shown :
    {m : Machine} (map : DirectMap m) (user : UserAccess) (copies : CopiesAll user) (s : MemScreen)
    (arg : Arg) (d : Driver m)
    → IsOnCell s
    → s.input ≡ input_mem
    → is_beyond m s.phyaddr ≡ false
    → is_beyond m (u32 (s.phyaddr + s.y * 16 + s.x)) ≡ false
    → (p : MemPainting) × (d' : Driver m) × (enter_and_print m user s arg d ≡ some (p, d'))
      × (get_elem? (cells_of p.grid) (cursor_index s)
          ≡ some (cell black_yellow (digit_count s.display_mode) (s.wbuf % limit s.display_mode)))
unfolding then_print paint_block with_address
typed_is_shown {m} map user copies s arg d ok e page inside =
    let addr = u32 (s.phyaddr + s.y * 16 + s.x) in
    let d1 = write_by m s.display_mode s.wbuf addr d in
    let arg1 = with_request m user (write_mem_value s) arg in
    let c = (with_address m user s.phyaddr arg1).mem in
    let (_, _, room) = column_lem s.display_mode s.x s.y ok.0 ok.1 ok.2 in
    let same : s.phyaddr + (s.y * 16 + s.x) ≡ addr = omega arith in
    (
      paint_block (after_enter s) (mem_read_256byte m c d1).0,
      (mem_read_256byte m c d1).1,
      rw (press_enter s e, request_made user copies s arg d)
          (printed user copies (after_enter s) arg1 d1 refl),
      grid_at_cursor (after_enter s) (mem_read_256byte m c d1).0
            (ok.0, ok.1, ok.2, ok.3, ok.4, omega arith) refl
          ∙ ap (λ v. some (cell black_yellow (digit_count s.display_mode) v))
              (block_value map c d1 page s.display_mode (s.y * 16 + s.x) room
                ∙ ap (λ a. memory_value s.display_mode (map.ram d1.hw) a) same
                ∙ written_value map s.display_mode s.wbuf addr d inside),
    )
