-- ===== src/Tests/Paintings.antt =====
-- The theorems on what the screens show, at one screen each.
use lfdk.Common.{
  ℕ, ◌++◌, ◌+◌, ◌*◌, ◌%◌, ◌<◌, ◌≡◌, ◌≢◌, refl, ap, replicate, false, true, ◌&&◌, some, [], ◌∷◌,
  arith, ◌==◌, u32, get_elem?, if◌then◌else◌, not,
}
use lfdk.Driver.Structs.{Command, Pcix}
use lfdk.Driver.Machine.{Machine, Driver}
use lfdk.Driver.Mem.{is_beyond}
use lfdk.Screens.Mode.{byte_mode, word_mode, width}
use lfdk.Screens.Grid.{View, black_yellow, white_blue, cell, draw_grid, digit_count}
use lfdk.Screens.Grid.Cells.{little_endian, cells_of, cells_per_line, draw_grid-cell}
use lfdk.Screens.Grid.Lines.{AllBytes, line_widths, width_of_lines, line_widths-draw_grid}
use lfdk.Screens.Memory.{input_mem, MemScreen}
use lfdk.Screens.Memory.Cursor.{IsOnCell}
use lfdk.Screens.Memory.Typing.{limit}
use lfdk.Screens.Memory.Paint.{MemPainting}
use lfdk.Screens.Memory.Paint.Typed.{enter_and_print, cursor_index, typed_is_shown}
use lfdk.Screens.Cmos.{CmosScreen}
use lfdk.Screens.Cmos.Paint.Moved.{CmosChip, painted_after_enter, typed_byte_moves}
use lfdk.Screens.PciList.{PciData}
use lfdk.Scan.Calls.{Calls}
use lfdk.Scan.Validate.{Verdict, write_limit}
use lfdk.Scan.Validate.{passed, failed, validate_pcie_r_single, validate_pcie_w_single}
use lfdk.Scan.Validate.Reads.{AnswersReads, ways_agree, validate_pcie_r_single_lem}
use lfdk.Scan.Validate.Writes.{WritesStick, validate_pcie_w_single_lem}
use lfdk.Tests.Hardware.{machine, direct_map, fresh}
use lfdk.Tests.Requests.{argument, port_request}
use lfdk.Tests.Calls.{present, present-CopiesAll}

abbrev typing : MemScreen
typing = record {
  x = 4;
  y = 2;
  input = input_mem;
  wbuf = 0xa5;
  display_mode = word_mode;
  phyaddr = 0x1_2300;
}

typing-IsOnCell : IsOnCell typing
unfolding width
typing-IsOnCell = ground arith

page_inside : is_beyond machine 0x1_2300 ≡ false
unfolding is_beyond
page_inside = refl

cell_inside : is_beyond machine (u32 (0x1_2300 + 2 * 16 + 4)) ≡ false
unfolding is_beyond
cell_inside = refl

typed_is_shown_example :
    (p : MemPainting) × (d : Driver machine) × (enter_and_print machine present typing argument
        fresh
      ≡ some (p, d))
    × (get_elem? (cells_of p.grid) (cursor_index typing)
        ≡ some (cell black_yellow (digit_count word_mode) (0xa5 % limit word_mode)))
typed_is_shown_example =
    typed_is_shown direct_map present present-CopiesAll typing argument fresh typing-IsOnCell refl
      page_inside cell_inside

abbrev shown : View
shown = record {
  display_mode = byte_mode;
  entering = false;
  marked = true;
  x = 3;
  y = 1;
  wbuf = 0;
  mass_buf = replicate 19 0 ++ 20 ∷ [];
}

draw_grid-cell_example :
    get_elem? (cells_of (draw_grid shown)) (1 * cells_per_line byte_mode + 3)
    ≡ some (cell black_yellow 2 20)
unfolding cells_per_line width little_endian
draw_grid-cell_example = draw_grid-cell shown 1 3 (omega arith) (omega arith) (omega arith)

shown-AllBytes : AllBytes shown.mass_buf
unfolding AllBytes
shown-AllBytes = ground arith

line_widths-draw_grid_example :
    (line_widths 0 (draw_grid shown) ≡ replicate 16 (width_of_lines byte_mode))
    × (width_of_lines byte_mode < 50)
line_widths-draw_grid_example = line_widths-draw_grid shown shown-AllBytes (omega arith)

-- A board whose ports 0x70 and 0x71 are a chip.
abbrev chip_board : Machine
chip_board = record machine {
  inb = λ port h. (h.bytes h.index, h);
  outb = λ v port h.
      if port == 0x70
      then record h { index = v % 128 }
      else record h { bytes = λ b. if b == h.index then v else h.bytes b };
}

abbrev chip : CmosChip chip_board
chip = record {
  bytes = λ h. h.bytes;
  index = λ h. h.index;
  index-out = λ v h. refl;
  bytes-index = λ v h k. refl;
  bytes-out = λ v h k. refl;
  in_lem = λ h. refl;
  bytes-in = λ h k. refl;
}

abbrev cmos_entry : CmosScreen
cmos_entry = record { x = 3; y = 1; entering = true; wbuf = 0x5a }

typed_byte_moves_example :
    get_elem? (cells_of (painted_after_enter chip_board cmos_entry fresh.hw).grid) (3 * 16 + 1)
    ≡ some (cell white_blue 2 0x5a)
typed_byte_moves_example =
    typed_byte_moves chip cmos_entry fresh.hw 3 1 (omega arith) (omega arith) refl (omega arith)
      (omega arith)

-- Calls on one register that each base has, and that keeps what is written.
abbrev one_register : Calls ℕ
one_register Command.pci_read_byte p n = ((0, record p { buf = n % 256 }), n)
one_register Command.pci_write_byte p n = ((0, p), p.buf)
one_register c p n = ((1, p), n)

abbrev keeps_value : AnswersReads one_register Command.pci_read_byte
keeps_value = record {
  Settled = λ n. n ≡ 7;
  value = λ base bus dev fun reg. 7;
  answer = λ p n e. ap (λ (k : ℕ). (0, record p { buf = k % 256 })) e;
  answer-Settled = λ p n e. e;
}

below_limit : (n : ℕ) → n % 256 < write_limit Command.pci_write_byte
unfolding write_limit
below_limit n = omega arith

stored_limit : (n : ℕ) → n % 256 ≡ n % write_limit Command.pci_write_byte
unfolding write_limit
stored_limit n = refl

abbrev with_base : PciData
with_base = record {
  venid = 0x8086;
  devid = 0x29c0;
  bus = 0;
  dev = 3;
  fun = 0;
  ventxt = [];
  devtxt = [];
  phy_base = 0xe000_0000;
}

abbrev keeps_writes :
    WritesStick one_register with_base Command.pci_read_byte Command.pci_write_byte
keeps_writes = record {
  Settled = λ n. Unit {0};
  register = λ n. n % 256;
  register-lt = λ n ok. below_limit n;
  read = λ p n ok. refl;
  read-Settled = λ p n ok. tt;
  register-read = λ p n ok. refl;
  write = λ p n ok. refl;
  write-Settled = λ p n ok. tt;
  register-write = λ p n ok. stored_limit p.buf;
}

validate_pcie_r_single_lem_example :
    (validate_pcie_r_single one_register with_base Command.pci_read_byte (port_request, 7)).0 ≡ (
      if not (with_base.phy_base == 0)
        && ways_agree keeps_value 0xe000_0000 0 3 0
            (0x00 ∷ 0x01 ∷ 0x02 ∷ 0x03 ∷ 0x08 ∷ 0x09 ∷ 0x0A ∷ 0x0B ∷ [])
      then passed tt
      else failed)
validate_pcie_r_single_lem_example =
    validate_pcie_r_single_lem keeps_value with_base port_request 7 refl

abbrev write_test : (Verdict (Unit {0})) × (Pcix × ℕ)
write_test =
    validate_pcie_w_single one_register with_base Command.pci_read_byte Command.pci_write_byte
      (port_request, 0x5a)

has_base : with_base.phy_base ≢ 0
has_base = λ e. omega (arith, e)

validate_pcie_w_single_lem_example :
    (write_test.0 ≡ passed tt) × (write_test.1.1 % 256 ≡ 0x5a % 256)
validate_pcie_w_single_lem_example =
    validate_pcie_w_single_lem keeps_writes port_request 0x5a tt has_base
