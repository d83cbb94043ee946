-- ===== src/Tests/Devices.antt =====
-- The theorems on the screens of devices and of ports at one state each.
use lfdk.Common.{◌≡◌, ◌≢◌, inl, refl, true, false, arith, some, [], ◌∷◌, pos}
use lfdk.Driver.Structs.{Pcix}
use lfdk.Driver.Ioctl.{left, ioctl}
use lfdk.Screens.Hex.{code, down, npage}
use lfdk.Screens.Mode.{dword_mode, width}
use lfdk.Screens.PciList.{PciData, pci_list_key_press}
use lfdk.Screens.PciList.Cursor.{IsRecord}
use lfdk.Screens.PciList.Rows.{CursorShown, pci_list_key_press-CursorShown}
use lfdk.Screens.PciDevice.{PciScreen, PciTable, pci_dev_key_press}
use lfdk.Screens.PciDevice.Cell.{IsOnRegister, OutcomeStaysOn}
use lfdk.Screens.PciDevice.Keys.{pci_dev_key_press-IsOnRegister}
use lfdk.Screens.Ports.{
  IoScreen, byte_mode, word_mode, input_io, no_input, io_key_press, write_io_value, port_width,
}
use lfdk.Screens.Ports.Cursor.{IsOnPort}
use lfdk.Screens.Ports.Enter.{port_request, byte_reaches_port}
use lfdk.Tests.Hardware.{machine, board, fresh}
use lfdk.Tests.Requests.{argument}
use lfdk.Tests.Calls.{present, present-CopiesAll}

abbrev bridge : PciData
bridge = record {
  venid = 0x8086;
  devid = 0x1237;
  bus = 0;
  dev = 0;
  fun = 0;
  ventxt = [];
  devtxt = [];
  phy_base = 0;
}

abbrev adapter : PciData
adapter = record bridge { bus = 2; dev = 5; fun = 1; phy_base = 0xe000_0000 }

abbrev table : PciTable
table = record { lfdd_pci_list = bridge ∷ adapter ∷ []; pci_list_len = 2 }

-- The last line of the second page of the adapter, while a value is entered or not.
abbrev shown : PciScreen
shown = record {
  x = 4;
  y = 15;
  buff_page = 256;
  wbuf = 0x55;
  entering = false;
  display_mode = dword_mode;
  curr_index = pos 1;
}

abbrev typed : PciScreen
typed = record shown { entering = true }

abbrev request : Pcix
request = argument.pcix

base_is_given : adapter.phy_base ≢ 0
base_is_given = λ e. absurd (omega arith)

shown-IsOnRegister : IsOnRegister table shown
unfolding width
shown-IsOnRegister = record {
  grid = omega arith;
  record_in_use = omega arith;
  page = inl base_is_given;
}

pci_dev_key_press-IsOnRegister_example :
    OutcomeStaysOn table (pci_dev_key_press table down shown request)
pci_dev_key_press-IsOnRegister_example =
    pci_dev_key_press-IsOnRegister table down shown request (omega arith) shown-IsOnRegister

pci_list_key_press-CursorShown_example :
    IsRecord 2 (pci_list_key_press 2 (pos 3) npage (pos 0)).0
    × CursorShown (bridge ∷ adapter ∷ []) 2 (pci_list_key_press 2 (pos 3) npage (pos 0)).0
pci_list_key_press-CursorShown_example =
    pci_list_key_press-CursorShown (bridge ∷ adapter ∷ []) 2 (pos 0) (pos 3) npage (omega arith)
      (omega arith)

abbrev ports_shown : IoScreen
ports_shown = record {
  x = 2;
  y = 3;
  input = no_input;
  wbuf = 0;
  display_mode = word_mode;
  ioaddr = pos 0x0300;
}

abbrev byte_typed : IoScreen
byte_typed = record ports_shown { input = input_io; wbuf = 0x5a; display_mode = byte_mode }

abbrev word_typed : IoScreen
word_typed = record ports_shown { input = input_io; wbuf = 0x5a }

byte_typed-IsOnPort : IsOnPort byte_typed
unfolding port_width
byte_typed-IsOnPort = record { cell = omega arith; page = omega arith }

byte_reaches_port_example :
    (io_key_press (code 0x0a) byte_typed (argument.io) ≡ (
      record byte_typed { input = no_input; wbuf = 0 },
      some (write_io_value byte_typed (argument.io)),
    ))
    × (ioctl machine present
          (write_io_value byte_typed (argument.io)).0
          (port_request byte_typed (argument.io) argument)
          fresh
        ≡ (
          (left 0, port_request byte_typed (argument.io) argument),
          record fresh { hw = machine.outb 0x5a 0x332 board },
        ))
byte_reaches_port_example =
    byte_reaches_port byte_typed (argument.io) present 0x300 argument fresh present-CopiesAll
      byte_typed-IsOnPort refl refl refl
