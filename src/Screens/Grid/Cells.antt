-- ===== src/Screens/Grid/Cells.antt =====
-- Which cells the grid has.
use lfdk.Common.{
  ℕ, zero, suc, ◌+◌, ◌*◌, ◌<◌, ◌≡◌, refl, ap, ◌∙◌, Bool, some, List, [], ◌∷◌, ◌++◌, arith,
  get_elem?, get_or, ◌^◌, ◌%◌, ◌==◌, ◌&&◌, if◌then◌else◌,
}
use lfdk.Screens.Mode.{Mode, byte_mode, word_mode, dword_mode, width}
use lfdk.Screens.Grid.{
  Drawn, cell, gap, line_end, View, draw_cell, put_gap, draw_from, draw_line, draw_lines, draw_grid,
  gap_count, yellow_red, black_yellow, white_blue, colour_at, value_at, is_cursor, buffer_value,
  entered_value, digit_count,
}

-- The cells of what is drawn, in order.
unfoldable pub cells_of : List Drawn → List Drawn
cells_of [] = []
cells_of (cell colour digits value ∷ rest) = cell colour digits value ∷ cells_of rest
cells_of (gap blanks ∷ rest) = cells_of rest
cells_of (line_end ∷ rest) = cells_of rest

unfoldable pub cells_per_line : Mode → ℕ
cells_per_line byte_mode = 16
cells_per_line word_mode = 8
cells_per_line dword_mode = 4

-- `f k`, `f ( k + 1 )` and so on, `n` of them.
tabulate : {A : Type 0} → ℕ → (ℕ → A) → ℕ → List A
tabulate zero f k = []
tabulate (suc n) f k = f k ∷ tabulate n f (k + 1)

tabulate-get :
    {A : Type 0} (n : ℕ) (f : ℕ → A) (k c : ℕ) (rest : List A)
    → c < n
    → get_elem? (tabulate n f k ++ rest) c ≡ some (f (k + c))
unfolding tabulate
tabulate-get zero f k c rest h = absurd (omega arith)
tabulate-get (suc n) f k zero rest h = ap (λ i. some (f i)) (omega arith)
tabulate-get (suc n) f k (suc c) rest h =
    tabulate-get n f (k + 1) c rest (omega arith) ∙ ap (λ i. some (f i)) (omega arith)

tabulate-skip :
    {A : Type 0} (n : ℕ) (f : ℕ → A) (k c : ℕ) (rest : List A)
    → get_elem? (tabulate n f k ++ rest) (n + c) ≡ get_elem? rest c
unfolding tabulate
tabulate-skip zero f k c rest = ap (λ i. get_elem? rest i) (omega arith)
tabulate-skip (suc n) f k c rest =
    let e : suc n + c ≡ suc (n + c) = omega arith in rw e (tabulate-skip n f (k + 1) c rest)

-- The cells of a line of any view of the mode, in front of others.
one_line :
    (mode : Mode) (entering marked : Bool) (x y wbuf : ℕ) (buf : List ℕ) (i : ℕ) (rest : List Drawn)
    → let v : View = record {
      display_mode = mode;
      entering = entering;
      marked = marked;
      x = x;
      y = y;
      wbuf = wbuf;
      mass_buf = buf;
    } in
      cells_of (draw_line v i ++ rest)
      ≡ tabulate (cells_per_line mode) (λ c. draw_cell v i (c * width mode)) 0 ++ cells_of rest
unfolding draw_line draw_from put_gap gap_count width cells_of cells_per_line tabulate draw_cell
one_line byte_mode entering marked x y wbuf buf i rest = refl
one_line word_mode entering marked x y wbuf buf i rest = refl
one_line dword_mode entering marked x y wbuf buf i rest = refl

module _ (v : View) where
  -- The cells of a line, in front of others.
  line_cells :
      (i : ℕ) (rest : List Drawn)
      → cells_of (draw_line v i ++ rest)
        ≡ tabulate (cells_per_line v.display_mode) (λ c. draw_cell v i (c * width v.display_mode)) 0
          ++ cells_of rest
  line_cells i rest = one_line v.display_mode v.entering v.marked v.x v.y v.wbuf v.mass_buf i rest

  lines_from :
      (left i r c : ℕ)
      → r < left
      → c < cells_per_line v.display_mode
      → get_elem? (cells_of (draw_lines left v i)) (r * cells_per_line v.display_mode + c)
        ≡ some (draw_cell v (i + r) (c * width v.display_mode))
  unfolding draw_lines
  lines_from zero i r c h k = absurd (omega arith)
  lines_from (suc left) i zero c h k =
      let n = cells_per_line v.display_mode in
      let at : 0 * n + c ≡ c = omega arith in
      let first : i + 0 ≡ i = omega arith in
      rw (line_cells i (draw_lines left v (i + 1)), at, first)
        (tabulate-get n (λ c. draw_cell v i (c * width v.display_mode)) 0 c _ k
          ∙ ap (λ d. some (draw_cell v i (d * width v.display_mode))) (omega arith))
  lines_from (suc left) i (suc r) c h k =
      let n = cells_per_line v.display_mode in
      let at : suc r * n + c ≡ n + (r * n + c) = grind arith in
      rw (line_cells i (draw_lines left v (i + 1)), at)
        (tabulate-skip n (λ c. draw_cell v i (c * width v.display_mode)) 0 (r * n + c) _
          ∙ lines_from left (i + 1) r c (omega arith) k
          ∙ ap (λ d. some (draw_cell v d (c * width v.display_mode))) (omega arith))

  pub draw_grid-draw_cell :
      (r c : ℕ)
      → r < 16
      → c < cells_per_line v.display_mode
      → get_elem? (cells_of (draw_grid v)) (r * cells_per_line v.display_mode + c)
        ≡ some (draw_cell v r (c * width v.display_mode))
  unfolding draw_grid
  draw_grid-draw_cell r c h k =
      lines_from 16 0 r c h k
      ∙ ap (λ d. some (draw_cell v d (c * width v.display_mode))) (omega arith)

-- The bytes from `k` on as one number, the low byte first.
unfoldable pub little_endian : ℕ → List ℕ → ℕ → ℕ
little_endian zero buf k = 0
little_endian (suc n) buf k = get_or buf k 0 + 256 * little_endian n buf (k + 1)

buffer_value-little_endian :
    (mode : Mode) (buf : List ℕ) (k : ℕ)
    → buffer_value mode buf k ≡ little_endian (width mode) buf k
unfolding buffer_value width little_endian
buffer_value-little_endian byte_mode buf k = omega arith
buffer_value-little_endian word_mode buf k = omega arith
buffer_value-little_endian dword_mode buf k =
    let two : k + 1 + 1 ≡ k + 2 = omega arith in
    let three : k + 2 + 1 ≡ k + 3 = omega arith in rw (two, three) (omega arith)

entered_value-cut :
    (mode : Mode) (wbuf : ℕ) → wbuf < 2 ^ 32 → entered_value mode wbuf ≡ wbuf % 256 ^ width mode
unfolding entered_value width
entered_value-cut byte_mode wbuf h = omega arith
entered_value-cut word_mode wbuf h = omega arith
entered_value-cut dword_mode wbuf h = omega arith

digit_count-width : (mode : Mode) → digit_count mode ≡ 2 * width mode
unfolding digit_count width
digit_count-width byte_mode = refl
digit_count-width word_mode = refl
digit_count-width dword_mode = refl

-- With a value of 32 bits being entered, the grid has in line `r`, as the value `c` of the line, two
-- digits for each byte of the number that begins at the byte `16 * r` plus `c` times the width, the
-- low byte first; at the cursor, while a value is entered, the value entered, cut to the width, in
-- yellow and red. At no other place is the colour another than white and blue, but for the mark of
-- the cursor.
pub draw_grid-cell :
    (v : View) (r c : ℕ)
    → v.wbuf < 2 ^ 32
    → r < 16
    → c < cells_per_line v.display_mode
    → let n = width v.display_mode in
      let here = v.y == r && v.x == c * n in
      get_elem? (cells_of (draw_grid v)) (r * cells_per_line v.display_mode + c)
      ≡ some (
          cell
            (if v.entering && here
              then yellow_red
              else if v.marked && here
              then black_yellow
              else white_blue)
            (2 * n)
            (if v.entering && here
              then v.wbuf % 256 ^ n
              else little_endian n v.mass_buf (r * 16 + c * n)))
unfolding draw_cell colour_at value_at is_cursor
draw_grid-cell v r c small h k =
    draw_grid-draw_cell v r c h k
    ∙ rw
        (
          digit_count-width v.display_mode,
          buffer_value-little_endian v.display_mode v.mass_buf (r * 16 + c * width v.display_mode),
          entered_value-cut v.display_mode v.wbuf small,
        )
        refl
