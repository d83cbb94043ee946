-- ===== src/Screens/PciDevice.antt =====
-- lfdk/lib_pci_dev.c: the screen of one PCI device, 256 bytes of its registers at a time.
pub mod Cell
pub mod Keys
pub mod Enter
pub mod Paint
use lfdk.Common.{
  ℕ, ◌+◌, ◌-◌, ◌*◌, ◌/◌, ◌%◌, ◌^◌, ◌==◌, Bool, true, false, not, List, [], ◌∷◌, Option, none, some,
  ℤ, pos, negsuc, ◌+ℤ◌, ◌-ℤ◌, ltb_ℤ, get_elem?, leb, ltb, if◌then◌else◌,
}
use mathlib.Core.Option
use lfdk.Driver.Structs.{Command, Pcix, massbuf_size}
use lfdk.Screens.Hex.{
  Key, up, down, left, right, npage, ppage, backspace, f7, code, is_hex, digit_value,
}
use lfdk.Screens.Mode.{Mode, byte_mode, word_mode, dword_mode, width, next_mode, push_value}
use lfdk.Screens.PciList.{PciData}

-- The statics of the file, with the shared `curr_index`.
pub record PciScreen : Type 0 where
  pub x : ℕ
  pub y : ℕ
  pub buff_page : ℕ
  pub wbuf : ℕ
  -- `input` as a truth value.
  pub entering : Bool
  pub display_mode : Mode
  pub curr_index : ℤ

-- The shared list: the array and how many records it holds.
pub record PciTable : Type 0 where
  pub lfdd_pci_list : List PciData
  pub pci_list_len : ℕ

-- `lfdd_pci_list[ curr_index ]`, `none` outside the array.
abbrev pub selected : PciTable → ℤ → Option PciData
selected t (pos i) = get_elem? t.lfdd_pci_list i
selected t (negsuc n) = none

pub pci_write_command : Mode → Command
pci_write_command byte_mode = Command.pci_write_byte
pci_write_command word_mode = Command.pci_write_word
pci_write_command dword_mode = Command.pci_write_dword

-- `lfdd_pci_data` with the fields that `WritePCIValue` and `PrintPCIScreen` set; `reg` is 16 bits.
pub set_request : PciData → ℕ → ℕ → Pcix → Pcix
set_request dev reg buf p = record p {
  bus = dev.bus;
  dev = dev.dev;
  fun = dev.fun;
  reg = reg % 2 ^ 16;
  phy_base = dev.phy_base;
  buf = buf;
}

-- `WritePCIValue`: the command and the request.
pub write_pci_value : PciData → PciScreen → Pcix → Command × Pcix
write_pci_value dev s p =
    (pci_write_command s.display_mode, set_request dev (s.buff_page + s.y * 16 + s.x) s.wbuf p)

-- What a key does: the new screen and the write, if any.
pub record PciOutcome : Type 0 where
  pub screen : PciScreen
  pub write : Option (Command × Pcix)

abbrev stay : PciScreen → Option PciOutcome
stay s = some (record { screen = s; write = none })

abbrev leave_entry : PciScreen → PciScreen
leave_entry s = record s { wbuf = 0; entering = false }

-- A key while a value is entered. The enter key reads the selected record: `none` is a read outside
-- the array.
pub enter_value : Option PciData → PciScreen → Pcix → Option PciOutcome
enter_value none s p = none
enter_value (some dev) s p =
    some (record { screen = leave_entry s; write = some (write_pci_value dev s p) })

pub press_value : PciTable → Key → PciScreen → Pcix → Option PciOutcome
press_value t backspace s p = stay (record s { wbuf = s.wbuf / 16 })
press_value t (code c) s p =
    if c == 0x0a
    then enter_value (selected t s.curr_index) s p
    else if is_hex c
    then stay (record s { wbuf = push_value s.display_mode s.wbuf c })
    else stay (leave_entry s)
press_value t _ s p = stay (leave_entry s)

-- The page before and the page after, for a device with a base.
pub page_up : Option PciData → PciScreen → Option PciScreen
page_up none s = none
page_up (some dev) s =
    if not (dev.phy_base == 0)
    then if leb massbuf_size s.buff_page
      then some (record s { buff_page = s.buff_page - massbuf_size })
      else some s
    else some s

pub page_down : Option PciData → PciScreen → Option PciScreen
page_down none s = none
page_down (some dev) s =
    if not (dev.phy_base == 0)
    then if ltb (s.buff_page + massbuf_size) 0x1000
      then some (record s { buff_page = s.buff_page + massbuf_size })
      else some s
    else some s

-- A key while the registers are shown.
pub press_registers : PciTable → Key → PciScreen → Option PciScreen
press_registers t up s =
    if ltb 0 s.y then some (record s { y = s.y - 1 }) else page_up (selected t s.curr_index) s
press_registers t down s =
    if ltb s.y 15 then some (record s { y = s.y + 1 }) else page_down (selected t s.curr_index) s
press_registers t left s = some (record s { x = s.x - width s.display_mode })
press_registers t right s =
    some (
      if leb 16 (s.x + width s.display_mode)
      then s
      else record s { x = s.x + width s.display_mode })
press_registers t npage s = some (
    if ltb_ℤ s.curr_index (pos t.pci_list_len -ℤ pos 1)
    then record s { curr_index = s.curr_index +ℤ pos 1; buff_page = 0 }
    else s)
press_registers t ppage s = some (
    if ltb_ℤ (pos 0) s.curr_index
    then record s { curr_index = s.curr_index -ℤ pos 1; buff_page = 0 }
    else s)
press_registers t f7 s =
    let mode = next_mode s.display_mode in
    some (record s { display_mode = mode; x = s.x / width mode * width mode })
press_registers t (code c) s =
    some (if is_hex c then record s { entering = true; wbuf = digit_value c } else s)
press_registers t backspace s = some s

pub no_write : PciScreen → PciOutcome
no_write s = record { screen = s; write = none }

unfoldable pub pci_dev_key_press : PciTable → Key → PciScreen → Pcix → Option PciOutcome
unfolding press_value press_registers
pci_dev_key_press t key s p =
    if s.entering then press_value t key s p else Option.map no_write (press_registers t key s)

pub pci_dev_lost_focus : PciScreen → PciScreen
pci_dev_lost_focus s = record s { x = 0; y = 0; entering = false; wbuf = 0; buff_page = 0 }

-- The request of `PrintPCIScreen` for the registers shown.
pub shown_request : PciData → PciScreen → Pcix → Pcix
shown_request dev s p = record p {
  bus = dev.bus;
  dev = dev.dev;
  fun = dev.fun;
  reg = s.buff_page % 2 ^ 16;
  phy_base = dev.phy_base;
}
