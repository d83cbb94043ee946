-- ===== src/Screens/PciDevice/Cell.antt =====
-- The cursor of the device screen, and the register that a value goes to.
use lfdk.Common.{
  ℕ, zero, suc, ◌+◌, ◌-◌, ◌%◌, ◌^◌, ◌≤◌, ◌<◌, ◌≡◌, ◌≢◌, refl, ◌⊎◌, inl, inr, arith, pos, Bool,
  Option, none, some, List, [], ◌∷◌, length, get_elem?, ltb, leb, ◌==◌, Bool-cases,
}
use lfdk.Screens.Mode.{Mode, width}
use lfdk.Screens.PciList.{PciData}
use lfdk.Screens.PciList.Cursor.{IsRecord}
use lfdk.Screens.PciDevice.{PciScreen, PciTable, selected, PciOutcome, page_up, page_down}

-- The cursor is on a cell of the width shown, the page is one of the sixteen pages of 256 bytes,
-- and the value entered fits 32 bits.
abbrev pub IsOnGrid : PciScreen → Type 0
IsOnGrid s =
    (s.x < 16)
    × (s.x % width s.display_mode ≡ 0)
    × (s.y < 16)
    × (s.buff_page % 256 ≡ 0)
    × (s.buff_page < 0x1000)
    × (s.wbuf < 2 ^ 32)

-- A device is selected, and one without a base is at its first page.
abbrev pub HasPage : Option PciData → ℕ → Type 0
HasPage none page = ⊥
HasPage (some dev) page = (dev.phy_base ≢ 0) ⊎ (page ≡ 0)

-- The records in use are in the array.
abbrev pub IsTable : PciTable → Type 0
IsTable t = t.pci_list_len ≤ length t.lfdd_pci_list

pub record IsOnRegister (t : PciTable) (s : PciScreen) : Type 0 where
  pub grid : IsOnGrid s
  pub record_in_use : IsRecord t.pci_list_len s.curr_index
  pub page : HasPage (selected t s.curr_index) s.buff_page

module _ (t : PciTable) where
  -- The outcome is a screen that is on a register: no read outside the array.
  abbrev pub StaysOn : Option PciScreen → Type 0
  StaysOn none = ⊥
  StaysOn (some s) = IsOnRegister t s

  abbrev pub OutcomeStaysOn : Option PciOutcome → Type 0
  OutcomeStaysOn none = ⊥
  OutcomeStaysOn (some o) = IsOnRegister t o.screen

  -- A change that keeps the record and the page.
  pub on_grid :
      (s : PciScreen) (x y wbuf : ℕ) (entering : Bool) (mode : Mode)
      → IsOnRegister t s
      → IsOnGrid (record s { x = x; y = y; wbuf = wbuf; entering = entering; display_mode = mode })
      → IsOnRegister t
          (record s { x = x; y = y; wbuf = wbuf; entering = entering; display_mode = mode })
  on_grid s x y wbuf entering mode ok g = record {
    grid = g;
    record_in_use = ok.record_in_use;
    page = ok.page;
  }

  in_array :
      {A : Type 0} (xs : List A) (i : ℕ) → i < length xs → (a : A) × (get_elem? xs i ≡ some a)
  in_array [] i h = absurd (omega arith)
  in_array (x ∷ xs) zero h = (x, refl)
  in_array (x ∷ xs) (suc i) h = in_array xs i (omega arith)

  -- The first page of a record in use.
  pub first_page : (i : ℕ) → IsTable t → i < t.pci_list_len → HasPage (selected t (pos i)) 0
  first_page i table h = let (dev, e) = in_array t.lfdd_pci_list i (omega arith) in rw e (inr refl)

  -- Another page of a device that has a base.
  on_page :
      (s : PciScreen) (dev : PciData) (page : ℕ)
      → IsOnRegister t s
      → selected t s.curr_index ≡ some dev
      → dev.phy_base ≢ 0
      → page % 256 ≡ 0
      → page < 0x1000
      → IsOnRegister t (record s { buff_page = page })
  on_page s dev page ok e base whole low = record {
    grid = let g = ok.grid in (g.0, g.1, g.2, whole, low, g.5);
    record_in_use = ok.record_in_use;
    page = rw e (inl base);
  }

  pub page_up-StaysOn :
      (o : Option PciData) (s : PciScreen)
      → IsOnRegister t s
      → selected t s.curr_index ≡ o
      → StaysOn (page_up o s)
  unfolding page_up
  page_up-StaysOn none s ok e = rw e at (ok.page)
  page_up-StaysOn (some dev) s ok e = elim (Bool-cases (dev.phy_base == 0)) [
    | inl none_given ↦ rw none_given ok
    | inr given ↦
        let base : dev.phy_base ≢ 0 = λ z. ground arith in
        let g = ok.grid in
        rw given (elim (Bool-cases (leb 256 s.buff_page)) [
          | inl room ↦
              rw room (on_page s dev (s.buff_page - 256) ok e base (omega arith) (omega arith))
          | inr first ↦ rw first ok
        ])
  ]

  pub page_down-StaysOn :
      (o : Option PciData) (s : PciScreen)
      → IsOnRegister t s
      → selected t s.curr_index ≡ o
      → StaysOn (page_down o s)
  unfolding page_down
  page_down-StaysOn none s ok e = rw e at (ok.page)
  page_down-StaysOn (some dev) s ok e = elim (Bool-cases (dev.phy_base == 0)) [
    | inl none_given ↦ rw none_given ok
    | inr given ↦
        let base : dev.phy_base ≢ 0 = λ z. ground arith in
        let g = ok.grid in
        rw given (elim (Bool-cases (ltb (s.buff_page + 256) 0x1000)) [
          | inl room ↦
              rw room (on_page s dev (s.buff_page + 256) ok e base (omega arith) (ground arith))
          | inr last ↦ rw last ok
        ])
  ]
