-- ===== src/Screens/Cmos/Paint/Moved.antt =====
-- Where a byte typed on the CMOS screen is shown afterwards.
use lfdk.Common.{
  ℕ, zero, suc, ◌+◌, ◌*◌, ◌%◌, ◌<◌, ◌≡◌, refl, ap, ◌∙◌, true, false, ◌&&◌, some, arith, ◌==◌, u8,
  get_or, get_elem?, if◌then◌else◌,
}
use lfdk.Driver.Machine.{Machine}
use lfdk.Screens.Hex.{code}
use lfdk.Screens.Mode.{width}
use lfdk.Screens.Grid.{
  black_yellow, white_blue, cell, draw_cell, colour_at, value_at, is_cursor, buffer_value,
  digit_count,
}
use lfdk.Screens.Grid.Cells.{cells_of, cells_per_line, draw_grid-draw_cell}
use lfdk.Screens.Cmos.{CmosScreen, CmosWrite, write_cmos_byte_value, press_entry, cmos_key_press}
use lfdk.Screens.Cmos.Paint.{
  CmosPainting, cmos_view, paint_cmos, read_cmos_bytes, put_cmos_byte, print_cmos_screen,
}

-- The chip behind the two ports, with its 128 bytes: the address port takes an index in its low
-- seven bits (the highest bit masks interrupts), and the data port reads and writes the byte at that
-- index.
pub record CmosChip (m : Machine) : Type 0 where
  pub bytes : m.Hw → ℕ → ℕ
  pub index : m.Hw → ℕ
  pub index-out : (v : ℕ) (h : m.Hw) → index (m.outb v 0x70 h) ≡ v % 128
  pub bytes-index : (v : ℕ) (h : m.Hw) (k : ℕ) → bytes (m.outb v 0x70 h) k ≡ bytes h k
  pub bytes-out :
      (v : ℕ) (h : m.Hw) (k : ℕ)
      → bytes (m.outb v 0x71 h) k ≡ (if k == index h then v else bytes h k)
  pub in_lem : (h : m.Hw) → (m.inb 0x71 h).0 ≡ bytes h (index h)
  pub bytes-in : (h : m.Hw) (k : ℕ) → bytes (m.inb 0x71 h).1 k ≡ bytes h k

module _ {m : Machine} (chip : CmosChip m) where
  open chip use {bytes, index}

  read_cmos_bytes-get :
      (left i k : ℕ) (h : m.Hw)
      → k < left
      → get_or (read_cmos_bytes m left i h).0 k 0 ≡ bytes h ((i + k) % 128)
  unfolding read_cmos_bytes
  read_cmos_bytes-get zero i k h below = absurd (omega arith)
  read_cmos_bytes-get (suc left) i zero h below =
      chip.in_lem (m.outb i 0x70 h)
      ∙ chip.bytes-index i h (index (m.outb i 0x70 h))
      ∙ ap (bytes h) (chip.index-out i h ∙ ap (λ (n : ℕ). n % 128) (omega arith))
  read_cmos_bytes-get (suc left) i (suc k) h below =
      let latched = m.outb i 0x70 h in
      read_cmos_bytes-get left (i + 1) k (m.inb 0x71 latched).1 (omega arith)
      ∙ chip.bytes-in latched ((i + 1 + k) % 128)
      ∙ chip.bytes-index i h ((i + 1 + k) % 128)
      ∙ ap (bytes h) (ap (λ (n : ℕ). n % 128) (omega arith))

  put_lem :
      (w : CmosWrite) (h : m.Hw) (k : ℕ)
      → bytes (put_cmos_byte m (some w) h) k
        ≡ (if k == w.index % 128 then w.data_byte else bytes h k)
  unfolding put_cmos_byte
  put_lem w h k =
      chip.bytes-out w.data_byte (m.outb w.index 0x70 h) k
      ∙ rw (chip.index-out w.index h, chip.bytes-index w.index h k) refl

-- The screen that the enter key leaves.
abbrev after_enter : CmosScreen → CmosScreen
after_enter s = record s { wbuf = 0; entering = false }

press_enter :
    (s : CmosScreen)
    → s.entering ≡ true
    → cmos_key_press (code 0x0a) s ≡ (after_enter s, some (write_cmos_byte_value s))
unfolding cmos_key_press press_entry
press_enter s e = simp e

transposed :
    (r c x y : ℕ)
    → r < 16
    → c < 16
    → x < 16
    → y < 16
    → ((r * 16 + c) % 128 == (x * 16 + y) % 256 % 128) ≡ (r % 8 == x % 8 && c == y)
transposed r c x y h k l n = ground arith

-- The painting that follows the enter key.
abbrev pub painted_after_enter : (m : Machine) → CmosScreen → m.Hw → CmosPainting
painted_after_enter m s h =
    let pressed = cmos_key_press (code 0x0a) s in
    (print_cmos_screen m pressed.0 (put_cmos_byte m pressed.1 h)).0

-- On a chip of 128 bytes, whose address port takes no more than the low seven bits of an index, and
-- which the grid thus shows twice, eight lines apart: with the cursor on the grid, the enter key on a
-- byte typed at the line `y` and the column `x` changes the byte shown at the column `y` of the two
-- lines that are `x` up to a multiple of 8. Every other cell shows the byte of the chip as before,
-- the one under the cursor, which is marked, included.
pub typed_byte_moves :
    {m : Machine} (chip : CmosChip m) (s : CmosScreen) (h : m.Hw) (r c : ℕ)
    → s.x < 16
    → s.y < 16
    → s.entering ≡ true
    → r < 16
    → c < 16
    → get_elem? (cells_of (painted_after_enter m s h).grid) (r * 16 + c)
      ≡ some (
          cell
            (if s.y == r && s.x == c then black_yellow else white_blue)
            2
            (if r % 8 == s.x % 8 && c == s.y then u8 s.wbuf else chip.bytes h ((r * 16 + c) % 128)))
unfolding print_cmos_screen paint_cmos cells_per_line width draw_cell colour_at value_at is_cursor
    cmos_view digit_count buffer_value write_cmos_byte_value
typed_byte_moves {m} chip s h r c x_low y_low e r_low c_low =
    let w = write_cmos_byte_value s in
    let h' = put_cmos_byte m (some w) h in
    let block = (read_cmos_bytes m 256 0 h').0 in
    let same : c * 1 ≡ c = omega arith in
    let read = read_cmos_bytes-get chip 256 0 (r * 16 + c) h' (omega arith) in
    let zero_first : 0 + (r * 16 + c) ≡ r * 16 + c = omega arith in
    rw (press_enter s e) (
      draw_grid-draw_cell (cmos_view (after_enter s) block) r c r_low c_low
      ∙ rw
          (
            same,
            read,
            zero_first,
            put_lem chip w h ((r * 16 + c) % 128),
            transposed r c s.x s.y r_low c_low x_low y_low,
          )
          refl)
