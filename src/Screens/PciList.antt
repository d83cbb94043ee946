-- ===== src/Screens/PciList.antt =====
-- lfdk/lib_pci_list.c: the screen that lists the PCI devices found. The cursor `curr_index` and the
-- list are globals that lfdk/lib_pci_dev.c and lfdk/lib_pci_scan.c share.
pub mod Cursor
pub mod Rows
use lfdk.Common.{
  ℕ, ◌==◌, ℤ, pos, ◌+ℤ◌, ◌-ℤ◌, ltb_ℤ, not, List, [], ◌∷◌, Option, some, if◌then◌else◌,
}
use lfdk.Windows.State.{Window}
use lfdk.Windows.Hooks.{Request, transfer}
use lfdk.Screens.Hex.{Key, up, down, npage, ppage, code}

-- `PCIData`. A text is the bytes before its first zero.
pub record PciData : Type 0 where
  pub venid : ℕ
  pub devid : ℕ
  pub bus : ℕ
  pub dev : ℕ
  pub fun : ℕ
  pub ventxt : List ℕ
  pub devtxt : List ℕ
  pub phy_base : ℕ

abbrev pub records_per_page : ℕ
records_per_page = 20

-- `curr_index--; if (curr_index < 0) curr_index = 0;` and the same by a page.
unfoldable pub move_up : ℕ → ℤ → ℤ
move_up step curr = let curr' = curr -ℤ pos step in if ltb_ℤ curr' (pos 0) then pos 0 else curr'

-- `curr_index++; if (curr_index >= pci_list_len) curr_index = pci_list_len-1;` and by a page.
unfoldable pub move_down : ℕ → ℕ → ℤ → ℤ
move_down pci_list_len step curr =
    let curr' = curr +ℤ pos step in
    if not (ltb_ℤ curr' (pos pci_list_len)) then pos pci_list_len -ℤ pos 1 else curr'

abbrev pci_list_win_info : Window
pci_list_win_info = record { name = "PCI-LIST"; short_key = 0x70 }

-- The cursor after a key, and what the key requests of the window manager; `pci_list_handle` is
-- the handle that registration gave.
unfoldable pub pci_list_key_press : ℕ → ℤ → Key → ℤ → ℤ × List Request
pci_list_key_press pci_list_len pci_list_handle up curr = (move_up 1 curr, [])
pci_list_key_press pci_list_len pci_list_handle down curr = (move_down pci_list_len 1 curr, [])
pci_list_key_press pci_list_len pci_list_handle npage curr =
    (move_down pci_list_len records_per_page curr, [])
pci_list_key_press pci_list_len pci_list_handle ppage curr = (move_up records_per_page curr, [])
pci_list_key_press pci_list_len pci_list_handle (code c) curr =
    if c == 0x0a
    then (curr, transfer (some pci_list_win_info) pci_list_handle (some "PCI-DEV") ∷ [])
    else (curr, [])
pci_list_key_press pci_list_len pci_list_handle _ curr = (curr, [])
