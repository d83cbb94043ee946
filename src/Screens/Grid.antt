-- ===== src/Screens/Grid.antt =====
-- The grid of 256 bytes as the drawing functions of lfdk/libmem.c, lfdk/libio.c and
-- lfdk/lib_pci_dev.c print it alike, and the column of characters beside it. What is printed is a
-- sequence of calls of `wprintw`, with the colours set before them.
pub mod Cells
pub mod Lines
use lfdk.Common.{
  ℕ, zero, suc, ◌+◌, ◌*◌, ◌^◌, ◌%◌, Bool, ◌&&◌, List, [], ◌∷◌, ◌++◌, ◌==◌, ltb, leb, get_or,
  if◌then◌else◌,
}
use lfdk.Screens.Mode.{Mode, byte_mode, word_mode, dword_mode, width}

pub data Colour : Type 0 where
  yellow_red black_yellow white_blue : Colour

-- A value with its count of digits, the blanks between two values, and the end of a line.
pub data Drawn : Type 0 where
  cell : Colour → ℕ → ℕ → Drawn
  gap : ℕ → Drawn
  line_end : Drawn

-- What the two loops read: the width, whether a value is being entered and whether the cursor is
-- marked otherwise, the cursor, the value entered and the block.
pub record View : Type 0 where
  pub display_mode : Mode
  pub entering : Bool
  pub marked : Bool
  pub x : ℕ
  pub y : ℕ
  pub wbuf : ℕ
  pub mass_buf : List ℕ

-- `*( uintN_t * )&mass_buf[ k ]`, the low byte first.
unfoldable pub buffer_value : Mode → List ℕ → ℕ → ℕ
buffer_value byte_mode buf k = get_or buf k 0
buffer_value word_mode buf k = get_or buf k 0 + get_or buf (k + 1) 0 * 2 ^ 8
buffer_value dword_mode buf k =
    get_or buf k 0
    + get_or buf (k + 1) 0 * 2 ^ 8
    + get_or buf (k + 2) 0 * 2 ^ 16
    + get_or buf (k + 3) 0 * 2 ^ 24

-- The same of `wbuf`.
unfoldable pub entered_value : Mode → ℕ → ℕ
entered_value byte_mode wbuf = wbuf % 2 ^ 8
entered_value word_mode wbuf = wbuf % 2 ^ 16
entered_value dword_mode wbuf = wbuf

-- `mode_pattern` and `gap_pattern`.
unfoldable pub digit_count : Mode → ℕ
digit_count byte_mode = 2
digit_count word_mode = 4
digit_count dword_mode = 8

unfoldable pub gap_count : Mode → ℕ
gap_count byte_mode = 1
gap_count word_mode = 2
gap_count dword_mode = 5

-- The body of the inner loop: the colours and the value, which the same tests choose.
unfoldable pub is_cursor : View → ℕ → ℕ → Bool
is_cursor v i j = v.y == i && v.x == j

unfoldable pub colour_at : View → ℕ → ℕ → Colour
unfolding is_cursor
colour_at v i j =
    if v.entering && is_cursor v i j
    then yellow_red
    else if v.marked && is_cursor v i j
    then black_yellow
    else white_blue

unfoldable pub value_at : View → ℕ → ℕ → ℕ
unfolding is_cursor
value_at v i j =
    if v.entering && is_cursor v i j
    then entered_value v.display_mode v.wbuf
    else buffer_value v.display_mode v.mass_buf (i * 16 + j)

unfoldable pub draw_cell : View → ℕ → ℕ → Drawn
draw_cell v i j = cell (colour_at v i j) (digit_count v.display_mode) (value_at v i j)

unfoldable pub put_gap : View → ℕ → List Drawn → List Drawn
put_gap v j rest =
    if ltb (j + width v.display_mode) 16 then gap (gap_count v.display_mode) ∷ rest else rest

-- The inner loop from the column `j`, with the end of the line; it takes at most 16 rounds.
unfoldable pub draw_from : ℕ → View → ℕ → ℕ → List Drawn
draw_from zero v i j = line_end ∷ []
draw_from (suc left) v i j =
    let rest = draw_from left v i (j + width v.display_mode) in
    if ltb j 16 then draw_cell v i j ∷ put_gap v j rest else line_end ∷ []

unfoldable pub draw_line : View → ℕ → List Drawn
draw_line v i = draw_from 16 v i 0

-- The outer loop from the line `i`, `left` lines before its end.
unfoldable pub draw_lines : ℕ → View → ℕ → List Drawn
draw_lines zero v i = []
draw_lines (suc left) v i = draw_line v i ++ draw_lines left v (i + 1)

unfoldable pub draw_grid : View → List Drawn
draw_grid v = draw_lines 16 v 0

-- A byte in the column of characters: `tmp` is a signed character, and those above 127 are negative.
unfoldable pub ascii_char : ℕ → ℕ
ascii_char b = if leb b'!' b && leb b b'~' then b else b'.'

unfoldable pub ascii_column : ℕ → List ℕ → List ℕ
ascii_column zero buf = []
ascii_column (suc n) [] = []
ascii_column (suc n) (b ∷ buf) = ascii_char b ∷ ascii_column n buf
