-- ===== src/Scan/Names/Lines.antt =====
-- What `ReadLine` gives for a line without a comment.
use lfdk.Common.{
  ℕ, zero, Bool, replicate, suc, ◌+◌, ◌≤◌, ◌≡◌, ◌≢◌, refl, ap, ◌∙◌, true, false, arith, List, [],
  ◌∷◌, ◌++◌, length, ltb, ◌==◌, length-append,
}
use lfdk.Scan.Names.{read_from, max_readbuf}

-- A byte that `ReadLine` keeps: no comment sign, no newline, no tab; and not 0.
abbrev pub IsPlain : ℕ → Type 0
IsPlain c = (c ≢ 0) × (c ≢ 0x23) × (c ≢ 0x0a) × (c ≢ 0x09)

abbrev pub AllPlain : List ℕ → Type 0
AllPlain [] = Unit {0}
AllPlain (c ∷ cs) = IsPlain c × AllPlain cs

plain_tests :
    (c : ℕ) → IsPlain c → ((c == 0x23) ≡ false) × ((c == 0x0a) ≡ false) × ((c == 0x09) ≡ false)
plain_tests c h = (ground arith, ground arith, ground arith)

append_one : (xs : List ℕ) (c : ℕ) (ys : List ℕ) → (xs ++ c ∷ []) ++ ys ≡ xs ++ c ∷ ys
append_one [] c ys = refl
append_one (x ∷ xs) c ys = ap (λ l. x ∷ l) (append_one xs c ys)

append_none : (xs : List ℕ) → xs ++ [] ≡ xs
append_none [] = refl
append_none (x ∷ xs) = ap (λ l. x ∷ l) (append_none xs)

-- Bytes that are kept, in front of others.
pub read_from-plain :
    (fails : Bool) (tabs : ℕ) (kept text rest : List ℕ)
    → AllPlain text
    → length kept + length text ≤ max_readbuf
    → read_from fails tabs kept (text ++ rest) ≡ read_from fails tabs (kept ++ text) rest
unfolding read_from
read_from-plain fails tabs kept [] rest plain fits = rw (append_none kept) refl
read_from-plain fails tabs kept (c ∷ cs) rest plain fits =
    let (sign, newline, tab) = plain_tests c plain.0 in
    let longer : length (kept ++ c ∷ []) ≡ length kept + 1 =
      omega (arith, length-append {0} kept (c ∷ [])) in
    let room : ltb (length kept) 512 ≡ true = ground arith in
    rw (sign, newline, tab, room)
      (read_from-plain fails tabs (kept ++ c ∷ []) cs rest plain.1 (omega (arith, longer, fits))
        ∙ rw (append_one kept c cs) refl)

-- Tabs in front of others.
pub read_from-tabs :
    (fails : Bool) (n tabs : ℕ) (kept rest : List ℕ)
    → read_from fails tabs kept (replicate n 0x09 ++ rest) ≡ read_from fails (tabs + n) kept rest
unfolding read_from
read_from-tabs fails zero tabs kept rest = ap (λ (k : ℕ). read_from fails k kept rest) (omega arith)
read_from-tabs fails (suc n) tabs kept rest =
    read_from-tabs fails n (tabs + 1) kept rest
    ∙ ap (λ (k : ℕ). read_from fails k kept rest) (omega arith)
