-- ===== src/Scan/Capabilities.antt =====
-- `AssignMMIOBase` of lfdk/lib_pci_scan.c: the walk over the capabilities of a device, and its base.

pub mod Ids
pub mod Assigned
use lfdk.Common.{
  ℕ, zero, suc, ◌/◌, ◌^◌, ◌==◌, not, ◌&&◌, Bool, Option, none, some, bit_and, if◌then◌else◌,
}
use lfdk.Driver.Structs.{Command, Pcix}
use lfdk.Screens.PciList.{PciData}
use lfdk.Scan.Calls.{Calls}

-- A part of the function: `none` is its return before the end, with the structure and the world.
abbrev pub Walk : Type 0 → Type 0 → Type 0
Walk S A = Pcix → S → Option A × (Pcix × S)

module _ {S : Type 0} where
  abbrev pub go_on : {A B : Type 0} → Option A × (Pcix × S) → (A → Walk S B) → Option B × (Pcix × S)
  go_on (none, (p, s)) f = (none, (p, s))
  go_on (some a, (p, s)) f = f a p s

  infixl 5 ◌>>=◌
  abbrev pub ◌>>=◌ : {A B : Type 0} → Walk S A → (A → Walk S B) → Walk S B
  ◌>>=◌ w f p s = go_on (w p s) f

  abbrev pub pure : {A : Type 0} → A → Walk S A
  pure a p s = (some a, (p, s))

  abbrev pub stop : {A : Type 0} → Walk S A
  stop p s = (none, (p, s))

-- `CAP_REG`, `CAP_ID_PCIE` and the first `walk_limit`.
abbrev pub cap_reg : ℕ
cap_reg = 0x34

abbrev pub cap_id_pcie : ℕ
cap_id_pcie = 0x10

abbrev pub walk_limit : ℕ
walk_limit = 64

-- `buf & 0x0ff` and `(buf & 0x0ff00)>>8`.
unfoldable pub low_byte : ℕ → ℕ
low_byte buf = bit_and buf 0x0ff

unfoldable pub high_byte : ℕ → ℕ
high_byte buf = bit_and buf 0x0ff00 / 2 ^ 8

-- A call that failed ends the function.
unfoldable pub checked : {S : Type 0} → (ℕ × Pcix) × S → Option ℕ × (Pcix × S)
checked ((failed, p), s) = (if failed == 0 then some p.buf else none, (p, s))

-- `phy_base` after the function: 0 is put in before the walk.
unfoldable pub given_base : Option ℕ → ℕ
given_base none = 0
given_base (some base) = base

module _ {S : Type 0} (ioctl : Calls S) where
  -- `reg` set, the call made and checked.
  pub read_word_at : ℕ → Walk S ℕ
  read_word_at reg p s = checked (ioctl Command.pci_read_word (record p { reg = reg }) s)

  -- The same for the first dword of the device, with a base or none.
  pub read_first_dword : ℕ → Walk S ℕ
  read_first_dword base p s =
      checked (ioctl Command.pci_read_dword (record p { reg = 0; phy_base = base; buf = 0 }) s)

  -- The loop over the capabilities, with the rounds left; the last id.
  pub walk : ℕ → ℕ → ℕ → Walk S ℕ
  walk zero cap_id cap_next = pure cap_id
  walk (suc n) cap_id cap_next =
      let step : Walk S ℕ =
        read_word_at cap_next >>= λ buf. walk n (low_byte buf) (high_byte buf) in
      if not (cap_next == 0) && not (cap_id == cap_id_pcie) then step else pure cap_id

  -- The comparison of the first dword by the ports and by the base.
  pub compare_first_dwords : ℕ → Walk S ℕ
  compare_first_dwords base = do
    by_ports ← read_first_dword 0
    (if by_ports == 0
        then stop
        else (do by_base ← read_first_dword base; pure (if by_ports == by_base then base else 0)))

  -- The base that the device is given.
  pub find_base : ℕ → Walk S ℕ
  find_base base = do
    first ← read_word_at cap_reg
    head ← read_word_at (low_byte first)
    cap_id ← walk walk_limit (low_byte head) (high_byte head)
    (if cap_id == cap_id_pcie then compare_first_dwords base else pure 0)

  pub assign_mmio_base : ℕ → PciData → Pcix → S → PciData × (Pcix × S)
  assign_mmio_base mmio_base entry p s =
      if mmio_base == 0
      then (entry, (p, s))
      else (let (found, (p', s')) = find_base mmio_base p s in
          (record entry { phy_base = given_base found }, (p', s')))
