-- ===== src/Screens/Ports/Paint.antt =====
-- `PrintIOScreen` of lfdk/libio.c: what the port screen shows, and the call of the driver that fills
-- it.
use lfdk.Common.{
  ℕ, ◌*◌, Bool, true, false, Option, none, some, List, ℤ, pos, ◌+ℤ◌, replicate, if◌then◌else◌,
}
use lfdk.Driver.Structs.{Command, massbuf_size}
use lfdk.Driver.Machine.{Machine, Driver}
use lfdk.Driver.Ioctl.{Arg, UserAccess}
use lfdk.Screens.Mode.{Mode}
use lfdk.Screens.Device.{lfdd_ioctl}
use lfdk.Screens.Grid.{View, Drawn, draw_grid, ascii_column}
use lfdk.Screens.Ports.{
  PortMode, byte_mode, word_mode, PortInput, no_input, input_io, input_addr, IoScreen, to_uint32,
}

-- What is printed; the address line shows the digits typed while an address is entered.
pub record IoPainting : Type 0 where
  pub position : ℤ
  pub typed_address : Option ℕ
  pub shown_address : ℤ
  pub characters : List ℕ
  pub grid : List Drawn

-- The two widths of the file as those of the grid.
pub grid_mode : PortMode → Mode
grid_mode byte_mode = Mode.byte_mode
grid_mode word_mode = Mode.word_mode

pub input_is_none : PortInput → Bool
input_is_none no_input = true
input_is_none input_io = false
input_is_none input_addr = false

pub input_is_value : PortInput → Bool
input_is_value no_input = false
input_is_value input_io = true
input_is_value input_addr = false

pub input_is_addr : PortInput → Bool
input_is_addr no_input = false
input_is_addr input_io = false
input_is_addr input_addr = true

pub io_view : IoScreen → List ℕ → View
unfolding input_is_none input_is_value grid_mode
io_view s block = record {
  display_mode = grid_mode s.display_mode;
  entering = input_is_value s.input;
  marked = input_is_none s.input;
  x = s.x;
  y = s.y;
  wbuf = s.wbuf;
  mass_buf = block;
}

pub paint_ports : IoScreen → List ℕ → IoPainting
unfolding io_view input_is_addr
paint_ports s block = record {
  position = s.ioaddr +ℤ pos (s.y * 16) +ℤ pos s.x;
  typed_address = if input_is_addr s.input then some s.wbuf else none;
  shown_address = s.ioaddr;
  characters = ascii_column massbuf_size block;
  grid = draw_grid (io_view s block);
}

module _ (m : Machine) (user : UserAccess) where
  pub show_ports : IoScreen → Option (Arg × Driver m) → Option (IoPainting × Driver m)
  show_ports s none = none
  show_ports s (some (arg, d)) = some (paint_ports s arg.io.mass_buf, d)

  -- While an address is entered no port is read.
  pub print_io_screen : IoScreen → Arg → Driver m → Option (IoPainting × Driver m)
  unfolding show_ports input_is_addr
  print_io_screen s arg d =
      let asked = record arg { io = record (arg.io) { addr = to_uint32 s.ioaddr } } in
      if input_is_addr s.input
      then some (paint_ports s (replicate massbuf_size 0xff), d)
      else show_ports s (lfdd_ioctl m user Command.io_read_256byte asked d)
