-- ===== src/Screens/PciDevice/Paint.antt =====
-- `PrintPCIScreen` of lfdk/lib_pci_dev.c: what the device screen shows, and the call of the driver
-- that fills it.
use lfdk.Common.{ℕ, ◌+◌, ◌*◌, ◌%◌, ◌^◌, true, Option, none, some, List, get_or}
use lfdk.Driver.Structs.{Command}
use lfdk.Driver.Machine.{Machine, Driver}
use lfdk.Driver.Ioctl.{Arg, UserAccess}
use lfdk.Screens.Device.{lfdd_ioctl}
use lfdk.Screens.Grid.{View, Drawn, draw_grid}
use lfdk.Screens.PciList.{PciData}
use lfdk.Screens.PciDevice.{PciScreen, PciTable, selected, shown_request}

-- What is printed of the device and of its registers. An empty text stands for "Unknown".
pub record PciPainting : Type 0 where
  pub vendor : List ℕ
  pub device : List ℕ
  pub position : ℕ
  pub bus_number : ℕ
  pub dev_number : ℕ
  pub fun_number : ℕ
  pub vendor_id : ℕ
  pub device_id : ℕ
  pub rev_id : ℕ
  pub int_line : ℕ
  -- The byte at `0x3c + 8`.
  pub int_pin : ℕ
  pub grid : List Drawn

pub pci_view : PciScreen → List ℕ → View
pci_view s block = record {
  display_mode = s.display_mode;
  entering = s.entering;
  marked = true;
  x = s.x;
  y = s.y;
  wbuf = s.wbuf;
  mass_buf = block;
}

pub paint_registers : PciData → PciScreen → List ℕ → PciPainting
unfolding pci_view
paint_registers dev s block = record {
  vendor = dev.ventxt;
  device = dev.devtxt;
  position = (s.buff_page + s.y * 16 + s.x) % 2 ^ 16;
  bus_number = dev.bus;
  dev_number = dev.dev;
  fun_number = dev.fun;
  vendor_id = dev.venid;
  device_id = dev.devid;
  rev_id = get_or block 0x08 0;
  int_line = get_or block 0x3c 0;
  int_pin = get_or block (0x3c + 8) 0;
  grid = draw_grid (pci_view s block);
}

module _ (m : Machine) (user : UserAccess) where
  pub show_registers :
      PciData → PciScreen → Option (Arg × Driver m) → Option (PciPainting × Driver m)
  show_registers dev s none = none
  show_registers dev s (some (arg, d)) = some (paint_registers dev s arg.pcix.mass_buf, d)

  -- The record under the list's cursor; `none` is a read outside the array, or a call that fails.
  pub print_device : Option PciData → PciScreen → Arg → Driver m → Option (PciPainting × Driver m)
  unfolding show_registers
  print_device none s arg d = none
  print_device (some dev) s arg d = show_registers dev s (
      lfdd_ioctl m user Command.pci_read_256byte
        (record arg { pcix = shown_request dev s arg.pcix }) d)

  pub print_pci_screen : PciTable → PciScreen → Arg → Driver m → Option (PciPainting × Driver m)
  unfolding print_device
  print_pci_screen t s arg d = print_device (selected t s.curr_index) s arg d
