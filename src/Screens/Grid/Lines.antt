-- ===== src/Screens/Grid/Lines.antt =====
-- The lines of the grid fit their window.
use lfdk.Common.{
  ℕ, zero, suc, ◌+◌, ◌*◌, ◌/◌, ◌^◌, ◌≤◌, ◌<◌, ◌≡◌, refl, ap, ◌∙◌, Bool, true, false, ◌&&◌, List, [],
  ◌∷◌, ◌++◌, arith, replicate, ltb, ◌==◌, get_or, if◌then◌else◌, Bool-cases, inl, inr,
}
use lfdk.Screens.Mode.{Mode, byte_mode, word_mode, dword_mode, width}
use lfdk.Screens.Grid.{
  Colour, colour_at, Drawn, cell, gap, line_end, View, draw_cell, put_gap, draw_from, draw_line,
  draw_lines, draw_grid, digit_count, gap_count, value_at, is_cursor, buffer_value, entered_value,
}

-- The digits of a number, at most `fuel` of them, and what `%n.nX` prints: at least `digits`, but
-- more when the number has more.
unfoldable pub hex_length : ℕ → ℕ → ℕ
hex_length zero value = 0
hex_length (suc fuel) value =
    let more = hex_length fuel (value / 16) in if ltb value 16 then 1 else more + 1

unfoldable pub printed_width : ℕ → ℕ → ℕ
unfolding hex_length
printed_width digits value =
    if ltb digits (hex_length 16 value) then hex_length 16 value else digits

-- The columns of each line, with `n` before the first call.
unfoldable pub line_widths : ℕ → List Drawn → List ℕ
unfolding printed_width
line_widths n [] = []
line_widths n (cell colour digits value ∷ rest) = line_widths (n + printed_width digits value) rest
line_widths n (gap blanks ∷ rest) = line_widths (n + blanks) rest
line_widths n (line_end ∷ rest) = n ∷ line_widths 0 rest

-- The columns that the counts of digits give.
unfoldable nominal_widths : ℕ → List Drawn → List ℕ
nominal_widths n [] = []
nominal_widths n (cell colour digits value ∷ rest) = nominal_widths (n + digits) rest
nominal_widths n (gap blanks ∷ rest) = nominal_widths (n + blanks) rest
nominal_widths n (line_end ∷ rest) = n ∷ nominal_widths 0 rest

unfoldable pub width_of_lines : Mode → ℕ
width_of_lines byte_mode = 47
width_of_lines word_mode = 46
width_of_lines dword_mode = 47

-- A line of any view of the mode.
one_line :
    (mode : Mode) (entering marked : Bool) (x y wbuf : ℕ) (buf : List ℕ) (i : ℕ) (rest : List Drawn)
    → let v : View = record {
      display_mode = mode;
      entering = entering;
      marked = marked;
      x = x;
      y = y;
      wbuf = wbuf;
      mass_buf = buf;
    } in
      nominal_widths 0 (draw_line v i ++ rest) ≡ width_of_lines mode ∷ nominal_widths 0 rest
unfolding draw_line draw_from draw_cell put_gap gap_count digit_count width nominal_widths
    width_of_lines
one_line byte_mode entering marked x y wbuf buf i rest = refl
one_line word_mode entering marked x y wbuf buf i rest = refl
one_line dword_mode entering marked x y wbuf buf i rest = refl

lines_from :
    (left : ℕ) (v : View) (i : ℕ)
    → nominal_widths 0 (draw_lines left v i) ≡ replicate left (width_of_lines v.display_mode)
unfolding draw_lines nominal_widths
lines_from zero v i = refl
lines_from (suc left) v i =
    one_line v.display_mode v.entering v.marked v.x v.y v.wbuf v.mass_buf i
      (draw_lines left v (i + 1))
    ∙ ap (λ ws. width_of_lines v.display_mode ∷ ws) (lines_from left v (i + 1))

width_of_lines-lt : (mode : Mode) → width_of_lines mode < 50
unfolding width_of_lines
width_of_lines-lt byte_mode = omega arith
width_of_lines-lt word_mode = omega arith
width_of_lines-lt dword_mode = omega arith

-- A byte of the block is a byte.
unfoldable pub AllBytes : List ℕ → Type 0
AllBytes [] = Unit {0}
AllBytes (b ∷ bs) = (b < 256) × AllBytes bs

get_or-lt : (buf : List ℕ) (k : ℕ) → AllBytes buf → get_or buf k 0 < 256
unfolding AllBytes
get_or-lt [] k h = omega arith
get_or-lt (b ∷ bs) zero h = h.0
get_or-lt (b ∷ bs) (suc k) h = get_or-lt bs k h.1

-- The number of values of so many digits.
pow16 : ℕ → ℕ
pow16 zero = 1
pow16 (suc n) = 16 * pow16 n

hex_length-le :
    (fuel digits value : ℕ) → value < pow16 (suc digits) → hex_length fuel value ≤ suc digits
unfolding hex_length pow16
hex_length-le zero digits value h = omega arith
hex_length-le (suc fuel) zero value h =
    let small : ltb value 16 ≡ true = ground arith in rw small (omega arith)
hex_length-le (suc fuel) (suc digits) value h = elim (Bool-cases (ltb value 16)) [
  | inl small ↦ rw small (omega arith)
  | inr big ↦
      let less = hex_length-le fuel digits (value / 16) (omega arith) in
      rw big (omega (arith, less))
]

-- A value that has no more digits than are printed.
Fits : Drawn → Type 0
Fits (cell colour zero value) = ⊥
Fits (cell colour (suc digits) value) = value < pow16 (suc digits)
Fits (gap blanks) = Unit {0}
Fits line_end = Unit {0}

AllFit : List Drawn → Type 0
AllFit [] = Unit {0}
AllFit (d ∷ ds) = Fits d × AllFit ds

AllFit-append : (ds es : List Drawn) → AllFit ds → AllFit es → AllFit (ds ++ es)
unfolding AllFit
AllFit-append [] es h k = k
AllFit-append (d ∷ ds) es h k = (h.0, AllFit-append ds es h.1 k)

line_widths-AllFit : (n : ℕ) (ds : List Drawn) → AllFit ds → line_widths n ds ≡ nominal_widths n ds
unfolding line_widths nominal_widths AllFit Fits printed_width
line_widths-AllFit n [] h = refl
line_widths-AllFit n (cell colour zero value ∷ rest) h = absurd h.0
line_widths-AllFit n (cell colour (suc digits) value ∷ rest) h =
    let within : ltb (suc digits) (hex_length 16 value) ≡ false =
      ground (arith, hex_length-le 16 digits value h.0) in
    rw within (line_widths-AllFit (n + suc digits) rest h.1)
line_widths-AllFit n (gap blanks ∷ rest) h = line_widths-AllFit (n + blanks) rest h.1
line_widths-AllFit n (line_end ∷ rest) h = ap (λ ws. n ∷ ws) (line_widths-AllFit 0 rest h.1)

buffer_value-Fits :
    (mode : Mode) (buf : List ℕ) (k : ℕ)
    → AllBytes buf
    → buffer_value mode buf k < pow16 (digit_count mode)
unfolding buffer_value digit_count pow16
buffer_value-Fits byte_mode buf k h = omega (arith, get_or-lt buf k h)
buffer_value-Fits word_mode buf k h = omega (arith, get_or-lt buf k h, get_or-lt buf (k + 1) h)
buffer_value-Fits dword_mode buf k h = omega (
  arith,
  get_or-lt buf k h,
  get_or-lt buf (k + 1) h,
  get_or-lt buf (k + 2) h,
  get_or-lt buf (k + 3) h,
)

entered_value-Fits :
    (mode : Mode) (wbuf : ℕ) → wbuf < 2 ^ 32 → entered_value mode wbuf < pow16 (digit_count mode)
unfolding entered_value digit_count pow16
entered_value-Fits byte_mode wbuf h = omega arith
entered_value-Fits word_mode wbuf h = omega arith
entered_value-Fits dword_mode wbuf h = omega arith

cell-Fits :
    (mode : Mode) (colour : Colour) (value : ℕ)
    → value < pow16 (digit_count mode)
    → Fits (cell colour (digit_count mode) value)
unfolding digit_count Fits
cell-Fits byte_mode colour value h = h
cell-Fits word_mode colour value h = h
cell-Fits dword_mode colour value h = h

module _ (v : View) (bytes : AllBytes v.mass_buf) (small : v.wbuf < 2 ^ 32) where
  value_at-Fits : (i j : ℕ) → value_at v i j < pow16 (digit_count v.display_mode)
  unfolding value_at is_cursor
  value_at-Fits i j = elim (Bool-cases (v.entering && (v.y == i && v.x == j))) [
    | inl e ↦ rw e (entered_value-Fits v.display_mode v.wbuf small)
    | inr e ↦ rw e (buffer_value-Fits v.display_mode v.mass_buf (i * 16 + j) bytes)
  ]

  put_gap-AllFit : (j : ℕ) (rest : List Drawn) → AllFit rest → AllFit (put_gap v j rest)
  unfolding put_gap AllFit Fits
  put_gap-AllFit j rest h = elim (Bool-cases (ltb (j + width v.display_mode) 16)) [
    | inl e ↦ rw e (tt, h)
    | inr e ↦ rw e h
  ]

  draw_from-AllFit : (left i j : ℕ) → AllFit (draw_from left v i j)
  unfolding draw_from draw_cell AllFit Fits
  draw_from-AllFit zero i j = (tt, tt)
  draw_from-AllFit (suc left) i j = elim (Bool-cases (ltb j 16)) [
    | inl e ↦ rw e (
      cell-Fits v.display_mode (colour_at v i j) (value_at v i j) (value_at-Fits i j),
      put_gap-AllFit j _ (draw_from-AllFit left i (j + width v.display_mode)),
    )
    | inr e ↦ rw e (tt, tt)
  ]

  draw_lines-AllFit : (left i : ℕ) → AllFit (draw_lines left v i)
  unfolding draw_lines draw_line AllFit
  draw_lines-AllFit zero i = tt
  draw_lines-AllFit (suc left) i =
      AllFit-append (draw_from 16 v i 0) (draw_lines left v (i + 1)) (draw_from-AllFit 16 i 0)
        (draw_lines-AllFit left (i + 1))

-- Wherever the cursor is and whatever a block of bytes and a value of 32 bits hold, the grid is 16
-- lines of the same count of columns, which fits a window of 50 columns: no value has more digits
-- than its width has, and no line wraps.
pub line_widths-draw_grid :
    (v : View)
    → AllBytes v.mass_buf
    → v.wbuf < 2 ^ 32
    → (line_widths 0 (draw_grid v) ≡ replicate 16 (width_of_lines v.display_mode))
      × (width_of_lines v.display_mode < 50)
unfolding draw_grid
line_widths-draw_grid v bytes small = (
  line_widths-AllFit 0 (draw_lines 16 v 0) (draw_lines-AllFit v bytes small 16 0)
      ∙ lines_from 16 v 0,
  width_of_lines-lt v.display_mode,
)
