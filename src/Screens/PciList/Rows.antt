-- ===== src/Screens/PciList/Rows.antt =====
-- `PrintPCILScreen` of lfdk/lib_pci_list.c: the 20 rows that the list screen writes, and the one that is
-- lit. The windows and colours are left out.
use lfdk.Common.{
  ℕ, zero, suc, ◌+◌, ◌*◌, ◌/◌, ◌%◌, ◌≤◌, ◌<◌, ◌≡◌, refl, arith, Bool, true, not, Option, none, some,
  ℤ, pos, negsuc, ◌+ℤ◌, ◌-ℤ◌, ltb_ℤ, ◌==◌, ◌&&◌, List, [], ◌∷◌, length, get_elem?, take, inl, inr,
  Bool-cases, if◌then◌else◌,
}
use lfdk.Screens.Hex.{Key}
use lfdk.Screens.PciList.{PciData, pci_list_key_press}
use lfdk.Screens.PciList.Cursor.{IsRecord, pci_list_key_press-IsRecord}

-- A name, or the number in its place where the text is empty.
pub data Name : Type 0 where
  text : List ℕ → Name
  number : ℕ → Name

-- What is written of a device: the sign `*` for a base, the two names and the numbers.
pub record DeviceLine : Type 0 where
  pub pcie_sign : Bool
  pub vendor_name : Name
  pub device_name : Name
  pub numbers : ℕ × ℕ × ℕ × ℕ × ℕ

pub record Row : Type 0 where
  pub lit : Bool
  pub line : Option DeviceLine

-- `"%.10s"` and `"%.35s"`, or `"%4.4X"`.
pub name_or_id : ℕ → List ℕ → ℕ → Name
name_or_id width [] id = number id
name_or_id width (c ∷ cs) id = text (take width (c ∷ cs))

pub device_line : PciData → DeviceLine
device_line e = record {
  pcie_sign = not (e.phy_base == 0);
  vendor_name = name_or_id 10 e.ventxt e.venid;
  device_name = name_or_id 35 e.devtxt e.devid;
  numbers = (e.venid, e.devid, e.bus, e.dev, e.fun);
}

-- `(curr_index / RECORDS_PER_PAGE) * RECORDS_PER_PAGE`, rounded to 0.
pub page_start : ℤ → ℤ
page_start (pos i) = pos (i / 20 * 20)
page_start (negsuc n) = pos 0 -ℤ pos (suc n / 20 * 20)

pub eq_ℤ : ℤ → ℤ → Bool
eq_ℤ a b = not (ltb_ℤ a b) && not (ltb_ℤ b a)

-- The record of a row, `none` for a read outside the array.
pub row_of : Bool → Option PciData → Option Row
row_of lit none = none
row_of lit (some e) = some (record { lit = lit; line = some (device_line e) })

pub print_at : List PciData → ℕ → ℤ → ℤ → Option Row
print_at list len curr (pos i) =
    if ltb_ℤ (pos i) (pos len)
    then row_of (eq_ℤ (pos i) curr) (get_elem? list i)
    else some (record { lit = eq_ℤ (pos i) curr; line = none })
print_at list len curr (negsuc n) = none

-- The row `k` of the loop, from 0 to 19.
pub print_row : List PciData → ℕ → ℤ → ℕ → Option Row
print_row list len curr k = print_at list len curr (page_start curr +ℤ pos k)

get_in :
    (list : List PciData) (i : ℕ) → i < length list → (e : PciData) × (get_elem? list i ≡ some e)
get_in [] i h = absurd (omega arith)
get_in (x ∷ xs) zero h = (x, refl)
get_in (x ∷ xs) (suc i) h = get_in xs i (omega arith)

row_place : (p k : ℕ) → pos p +ℤ pos k ≡ pos (p + k)
row_place p k = ground arith

same_place : (i k : ℕ) → k < 20 → eq_ℤ (pos (i / 20 * 20 + k)) (pos i) ≡ (k == i % 20)
unfolding eq_ℤ
same_place i k h = ground arith

-- A row of the page of the cursor `i`.
print_row_lem :
    (list : List PciData) (len i k : ℕ)
    → k < 20
    → print_row list len (pos i) k ≡ (
        if ltb_ℤ (pos (i / 20 * 20 + k)) (pos len)
        then row_of (k == i % 20) (get_elem? list (i / 20 * 20 + k))
        else some (record { lit = k == i % 20; line = none }))
unfolding print_row print_at page_start
print_row_lem list len i k h = rw (row_place (i / 20 * 20) k, same_place i k h) refl

-- The row of the cursor is lit and shows its record; each row is written, and no other is lit.
abbrev pub CursorShown : List PciData → ℕ → ℤ → Type 0
CursorShown list len (negsuc n) = ⊥
CursorShown list len (pos i) =
    ((e : PciData) × (get_elem? list i ≡ some e)
      × (print_row list len (pos i) (i % 20)
          ≡ some (record { lit = true; line = some (device_line e) })))
    × ((k : ℕ)
        → k < 20
        → (r : Row) × (print_row list len (pos i) k ≡ some r) × (r.lit ≡ (k == i % 20)))

row_written :
    (list : List PciData) (len i k : ℕ)
    → len ≤ length list
    → k < 20
    → (r : Row) × (print_row list len (pos i) k ≡ some r) × (r.lit ≡ (k == i % 20))
unfolding row_of
row_written list len i k fits h = elim (Bool-cases (ltb_ℤ (pos (i / 20 * 20 + k)) (pos len))) [
  | inl used ↦
      let (e, g) = get_in list (i / 20 * 20 + k) (ground arith) in
      (
        record { lit = k == i % 20; line = some (device_line e) },
        rw (print_row_lem list len i k h, used, g) refl,
        refl,
      )
  | inr free ↦ (
    record { lit = k == i % 20; line = none },
    rw (print_row_lem list len i k h, free) refl,
    refl,
  )
]

record_shown :
    (list : List PciData) (len i : ℕ) → i < len → len ≤ length list → CursorShown list len (pos i)
unfolding row_of
record_shown list len i h fits =
    let (e, g) = get_in list i (omega arith) in
    let place : i / 20 * 20 + i % 20 ≡ i = omega arith in
    let used : ltb_ℤ (pos i) (pos len) ≡ true = ground arith in
    let self : (i % 20 == i % 20) ≡ true = ground arith in
    (
      (e, g, rw (print_row_lem list len i (i % 20) (omega arith), place, used, self, g) refl),
      λ k below. row_written list len i k fits below,
    )

shown_at :
    (list : List PciData) (len : ℕ) (curr : ℤ)
    → IsRecord len curr
    → len ≤ length list
    → CursorShown list len curr
shown_at list len (pos i) h fits = record_shown list len i h fits
shown_at list len (negsuc n) h fits = absurd h

-- After each key, from a cursor on a record in use, the cursor is on a record in use, and the list
-- screen writes its 20 rows from the array: the cursor's row is lit and shows that record, and no
-- other row is lit.
pub pci_list_key_press-CursorShown :
    (list : List PciData) (len : ℕ) (curr handle : ℤ) (key : Key)
    → IsRecord len curr
    → len ≤ length list
    → IsRecord len (pci_list_key_press len handle key curr).0
      × CursorShown list len (pci_list_key_press len handle key curr).0
pci_list_key_press-CursorShown list len curr handle key h fits =
    let stays = pci_list_key_press-IsRecord len curr handle key h in
    (stays, shown_at list len (pci_list_key_press len handle key curr).0 stays fits)
