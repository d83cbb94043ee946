-- ===== src/Scan/Names/Ends.antt =====
-- The search for names ends.
use lfdk.Common.{
  ℕ, zero, suc, ◌+◌, ◌≤◌, ◌<◌, ◌≡◌, ◌⊎◌, inl, inr, refl, arith, List, [], ◌∷◌, ◌++◌, length, negsuc,
  ◌==◌, ltb, Bool-cases, true, false, ◌||◌, if◌then◌else◌, length-append,
}
use lfdk.Scan.Names.{
  ReadResult, overflow, read_error, line_read, skip_comment, read_from, read_line, Texts, Search,
  NamesResult, names_found, take_line, is_end, search_on, search_names, whole,
  get_vendor_and_device_texts,
}

-- No line has more than 512 bytes, tabs and comment included; `n` bytes of the first line are read.
unfoldable pub LinesFit : ℕ → List ℕ → Type 0
LinesFit n [] = Unit {0}
LinesFit n (c ∷ cs) = if c == 0x0a then LinesFit 0 cs else (n < 512) × LinesFit (n + 1) cs

-- A line is read, and it is the end of the file or fewer bytes of lines that fit are left.
abbrev Shortens : ℕ → ReadResult → Type 0
Shortens n overflow = ⊥
Shortens n read_error = ⊥
Shortens n (line_read r) = (r.tabs ≡ negsuc 1) ⊎ ((length r.rest < n) × LinesFit 0 r.rest)

skip_comment-Fits :
    (n : ℕ) (cs : List ℕ)
    → LinesFit n cs
    → (length (skip_comment cs) ≤ length cs) × LinesFit 0 (skip_comment cs)
unfolding skip_comment LinesFit
skip_comment-Fits n [] fits = (omega arith, tt)
skip_comment-Fits n (c ∷ cs) fits = elim (Bool-cases (c == 0x0a)) [
  | inl e ↦ rw e (omega arith, rw e at fits)
  | inr e ↦
      let later : (n < 512) × LinesFit (n + 1) cs = rw e at fits in
      let (shorter, fit) = skip_comment-Fits (n + 1) cs later.1 in
      rw e (omega (arith, shorter), fit)
]

shorter_still : (n : ℕ) (r : ReadResult) → Shortens n r → Shortens (suc n) r
shorter_still n (line_read r) (inl e) = inl e
shorter_still n (line_read r) (inr h) = inr (omega (arith, h.0), h.1)
shorter_still n overflow h = h
shorter_still n read_error h = h

read_from-Shortens :
    (n tabs : ℕ) (kept file : List ℕ)
    → length kept ≤ n
    → LinesFit n file
    → Shortens (length file) (read_from false tabs kept file)
unfolding read_from LinesFit
read_from-Shortens n tabs kept [] low fits = inl refl
read_from-Shortens n tabs kept (c ∷ cs) low fits = elim (Bool-cases (c == 0x0a)) [
  | inl newline ↦
      let no_sign : (c == 0x23) ≡ false = ground arith in
      rw (no_sign, newline) (inr (omega arith, rw newline at fits))
  | inr inside ↦
      let later : (n < 512) × LinesFit (n + 1) cs = rw inside at fits in
      let room : ltb (length kept) 512 ≡ true = ground (arith, later.0) in
      let longer = length-append {0} kept (c ∷ []) in
      elim (Bool-cases (c == 0x23)) [
        | inl e ↦
            let (shorter, fit) = skip_comment-Fits (n + 1) cs later.1 in
            rw e (inr (omega (arith, shorter), fit))
        | inr e ↦
            rw (e, inside)
              (elim (Bool-cases (c == 0x09)) [
                | inl g ↦ rw g (
                    shorter_still _ _
                      (read_from-Shortens (n + 1) (tabs + 1) kept cs (omega arith) later.1))
                | inr g ↦
                    rw (g, room)
                      (shorter_still _ _ (
                        read_from-Shortens (n + 1) tabs (kept ++ c ∷ []) cs (omega (arith, longer))
                          later.1))
              ])
      ]
]

module _ (venid devid : ℕ) where
  -- Texts are found.
  abbrev Finds : NamesResult → Type 0
  Finds r = (t : Texts) × (r ≡ names_found t)

  search_on-Finds :
      (fuel n : ℕ) (r : ReadResult) (s : Search)
      → Shortens n r
      → n < suc fuel
      → ((s' : Search) (file : List ℕ)
          → length file < fuel
          → LinesFit 0 file
          → Finds (search_names venid devid false fuel s' file))
      → Finds (search_on venid devid r s (search_names venid devid false fuel))
  unfolding search_on is_end
  search_on-Finds fuel n overflow s sh h ih = absurd sh
  search_on-Finds fuel n read_error s sh h ih = absurd sh
  search_on-Finds fuel n (line_read r) s (inl e) h ih =
      let s' = take_line venid devid r.tabs r.read_buffer s in
      elim (Bool-cases s'.done) [
        | inl over ↦ rw over (s'.texts, refl)
        | inr going ↦ rw (going, e) (_, refl)
      ]
  search_on-Finds fuel n (line_read r) s (inr sh) h ih =
      let s' = take_line venid devid r.tabs r.read_buffer s in
      elim (Bool-cases (s'.done || is_end r.tabs)) [
        | inl over ↦ rw over (s'.texts, refl)
        | inr going ↦ rw going (ih s' r.rest (omega (arith, sh.0)) sh.1)
      ]

  search_names-Finds :
      (fuel : ℕ) (s : Search) (file : List ℕ)
      → length file < fuel
      → LinesFit 0 file
      → Finds (search_names venid devid false fuel s file)
  unfolding search_names read_line
  search_names-Finds zero s file h fits = absurd (omega arith)
  search_names-Finds (suc fuel) s file h fits =
      search_on-Finds fuel (length file) (read_from false 0 [] file) s
        (read_from-Shortens 0 0 [] file (omega arith) fits) h (search_names-Finds fuel)

  -- On a file that is read to its end without an error, and of which no line has more than 512
  -- bytes, the search for the two names ends with texts, and no byte is written behind the buffer.
  pub names_end :
      (texts : Texts) (file : List ℕ)
      → LinesFit 0 file
      → (t : Texts) × (get_vendor_and_device_texts venid devid texts (whole file) ≡ names_found t)
  unfolding get_vendor_and_device_texts
  names_end texts file fits = search_names-Finds (length file + 1) _ file (omega arith) fits
