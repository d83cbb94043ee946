-- ===== src/Screens/PciDevice/Keys.antt =====
-- What the keys of the device screen do to the cursor, and what the enter key writes.
use mathlib.Core.Option
use lfdk.Common.{
  ℕ, ◌+◌, ◌-◌, ◌*◌, ◌/◌, ◌<◌, ◌≡◌, refl, inl, inr, true, false, arith, ℤ, pos, negsuc, ◌+ℤ◌, ◌-ℤ◌,
  ltb_ℤ, Option, none, some, ltb, leb, ◌==◌, Bool-cases,
}
use lfdk.Driver.Structs.{Pcix}
use lfdk.Screens.Hex.{
  Key, up, down, left, right, npage, ppage, backspace, f7, code, is_hex, digit_value,
  digit_value-lt,
}
use lfdk.Screens.Mode.{width, next_mode, push_value, push_value-lt}
use lfdk.Screens.PciList.{PciData}
use lfdk.Screens.PciList.Cursor.{IsRecord}
use lfdk.Screens.PciDevice.{
  PciScreen, PciTable, selected, enter_value, press_value, press_registers, no_write,
  pci_dev_key_press,
}
use lfdk.Screens.PciDevice.Cell.{
  IsTable, IsOnRegister, StaysOn, OutcomeStaysOn, on_grid, first_page, page_up-StaysOn,
  page_down-StaysOn,
}

-- The record after the present one, and the one before.
next_record :
    (len : ℕ) (c : ℤ)
    → IsRecord len c
    → ltb_ℤ c (pos len -ℤ pos 1) ≡ true
    → (i : ℕ) × (c +ℤ pos 1 ≡ pos i) × (i < len)
next_record len (pos i) h below = (i + 1, ground arith, ground arith)
next_record len (negsuc n) h below = absurd h

previous_record :
    (len : ℕ) (c : ℤ)
    → IsRecord len c
    → ltb_ℤ (pos 0) c ≡ true
    → (i : ℕ) × (c -ℤ pos 1 ≡ pos i) × (i < len)
previous_record len (pos i) h above = (i - 1, ground arith, ground arith)
previous_record len (negsuc n) h above = absurd h

module _ (t : PciTable) where
  left_lem :
      (s : PciScreen) → IsOnRegister t s → IsOnRegister t (record s { wbuf = 0; entering = false })
  left_lem s ok = let g = ok.grid in on_grid t s s.x s.y 0 false s.display_mode ok (omega arith)

  enter_value-StaysOn :
      (o : Option PciData) (s : PciScreen) (p : Pcix)
      → IsOnRegister t s
      → selected t s.curr_index ≡ o
      → OutcomeStaysOn t (enter_value o s p)
  unfolding enter_value
  enter_value-StaysOn none s p ok e = rw e at (ok.page)
  enter_value-StaysOn (some dev) s p ok e = left_lem s ok

  press_value-StaysOn :
      (key : Key) (s : PciScreen) (p : Pcix)
      → IsOnRegister t s
      → OutcomeStaysOn t (press_value t key s p)
  unfolding press_value
  press_value-StaysOn backspace s p ok =
      let g = ok.grid in
      on_grid t s s.x s.y (s.wbuf / 16) s.entering s.display_mode ok (omega arith)
  press_value-StaysOn (code c) s p ok = elim (Bool-cases (c == 0x0a)) [
    | inl enter ↦ rw enter (enter_value-StaysOn (selected t s.curr_index) s p ok refl)
    | inr other ↦
        let g = ok.grid in
        rw other (elim (Bool-cases (is_hex c)) [
          | inl hex ↦ rw hex (
              on_grid t s s.x s.y (push_value s.display_mode s.wbuf c) s.entering s.display_mode ok
                (omega (arith, push_value-lt s.display_mode s.wbuf c hex)))
          | inr ends ↦ rw ends (left_lem s ok)
        ])
  ]
  press_value-StaysOn up s p ok = left_lem s ok
  press_value-StaysOn down s p ok = left_lem s ok
  press_value-StaysOn left s p ok = left_lem s ok
  press_value-StaysOn right s p ok = left_lem s ok
  press_value-StaysOn npage s p ok = left_lem s ok
  press_value-StaysOn ppage s p ok = left_lem s ok
  press_value-StaysOn f7 s p ok = left_lem s ok

  -- The first page of another record in use.
  on_record :
      (s : PciScreen) (i : ℕ)
      → IsTable t
      → IsOnRegister t s
      → i < t.pci_list_len
      → IsOnRegister t (record s { curr_index = pos i; buff_page = 0 })
  on_record s i table ok h = record {
    grid = let g = ok.grid in (g.0, g.1, g.2, omega arith, omega arith, g.5);
    record_in_use = h;
    page = first_page t i table h;
  }

  press_registers-StaysOn :
      (key : Key) (s : PciScreen)
      → IsTable t
      → IsOnRegister t s
      → StaysOn t (press_registers t key s)
  unfolding press_registers width next_mode
  press_registers-StaysOn up s table ok = elim (Bool-cases (ltb 0 s.y)) [
    | inl below ↦
        let g = ok.grid in
        rw below (on_grid t s s.x (s.y - 1) s.wbuf s.entering s.display_mode ok (omega arith))
    | inr top ↦ rw top (page_up-StaysOn t (selected t s.curr_index) s ok refl)
  ]
  press_registers-StaysOn down s table ok = elim (Bool-cases (ltb s.y 15)) [
    | inl above ↦
        let g = ok.grid in
        rw above (on_grid t s s.x (s.y + 1) s.wbuf s.entering s.display_mode ok (ground arith))
    | inr bottom ↦ rw bottom (page_down-StaysOn t (selected t s.curr_index) s ok refl)
  ]
  press_registers-StaysOn left s table ok =
      let g = ok.grid in
      on_grid t s (s.x - width s.display_mode) s.y s.wbuf s.entering s.display_mode ok
        (ground arith)
  press_registers-StaysOn right s table ok =
      elim (Bool-cases (leb 16 (s.x + width s.display_mode))) [
        | inl last ↦ rw last ok
        | inr room ↦
            let g = ok.grid in
            rw room (
              on_grid t s (s.x + width s.display_mode) s.y s.wbuf s.entering s.display_mode ok
                (ground arith))
      ]
  press_registers-StaysOn npage s table ok =
      elim (Bool-cases (ltb_ℤ s.curr_index (pos t.pci_list_len -ℤ pos 1))) [
        | inl below ↦
            let (i, e, h) = next_record t.pci_list_len s.curr_index ok.record_in_use below in
            rw (below, e) (on_record s i table ok h)
        | inr last ↦ rw last ok
      ]
  press_registers-StaysOn ppage s table ok = elim (Bool-cases (ltb_ℤ (pos 0) s.curr_index)) [
    | inl above ↦
        let (i, e, h) = previous_record t.pci_list_len s.curr_index ok.record_in_use above in
        rw (above, e) (on_record s i table ok h)
    | inr first ↦ rw first ok
  ]
  press_registers-StaysOn f7 s table ok =
      let g = ok.grid in
      let mode = next_mode s.display_mode in
      on_grid t s (s.x / width mode * width mode) s.y s.wbuf s.entering mode ok (ground arith)
  press_registers-StaysOn backspace s table ok = ok
  press_registers-StaysOn (code c) s table ok = elim (Bool-cases (is_hex c)) [
    | inl hex ↦
        let g = ok.grid in
        rw hex (
          on_grid t s s.x s.y (digit_value c) true s.display_mode ok
            (omega (arith, digit_value-lt c hex)))
    | inr other ↦ rw other ok
  ]

  shown-StaysOn : (o : Option PciScreen) → StaysOn t o → OutcomeStaysOn t (Option.map no_write o)
  unfolding no_write
  shown-StaysOn none h = h
  shown-StaysOn (some s) h = h

  -- Every key, also while a value is entered, reads the list of devices inside its array, and keeps
  -- the cursor on a register of a device in the list: on a cell of the width shown, in the first
  -- page for a device without a base and in one of sixteen for a device with one.
  pub pci_dev_key_press-IsOnRegister :
      (key : Key) (s : PciScreen) (p : Pcix)
      → IsTable t
      → IsOnRegister t s
      → OutcomeStaysOn t (pci_dev_key_press t key s p)
  unfolding pci_dev_key_press
  pci_dev_key_press-IsOnRegister key s p table ok = elim (Bool-cases s.entering) [
    | inl entry ↦ simp entry (press_value-StaysOn key s p ok)
    | inr shown ↦
        simp shown
          (shown-StaysOn (press_registers t key s) (press_registers-StaysOn key s table ok))
  ]
