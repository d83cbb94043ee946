-- ===== src/Screens/Memory/Paint.antt =====
-- `PrintMemScreen` of lfdk/libmem.c: what the memory screen shows, and the calls of the driver that
-- fill it.
pub mod Typed
use lfdk.Common.{
  ℕ, ◌+◌, ◌*◌, ◌%◌, ◌^◌, Bool, true, false, Option, none, some, List, [], ◌∷◌, u32, ◌==◌, replicate,
  if◌then◌else◌,
}
use lfdk.Driver.Structs.{Command, MemCmd, massbuf_size}
use lfdk.Driver.Machine.{Machine, Driver}
use lfdk.Driver.Ioctl.{Arg, UserAccess}
use lfdk.Screens.Device.{lfdd_ioctl}
use lfdk.Screens.Grid.{View, Drawn, draw_grid, ascii_column}
use lfdk.Screens.Memory.{Input, no_input, input_mem, input_addr, MemScreen, MemRequest}

-- What is printed: the position above the offsets, the address line, with whether an address is
-- being entered, the characters and the grid.
pub record MemPainting : Type 0 where
  pub position : ℕ
  pub address_entered : Bool
  pub address : ℕ
  pub characters : List ℕ
  pub grid : List Drawn

pub is_no_input : Input → Bool
is_no_input no_input = true
is_no_input input_mem = false
is_no_input input_addr = false

pub is_input_mem : Input → Bool
is_input_mem no_input = false
is_input_mem input_mem = true
is_input_mem input_addr = false

pub is_input_addr : Input → Bool
is_input_addr no_input = false
is_input_addr input_mem = false
is_input_addr input_addr = true

-- The address of `CreateOffsetText`.
pub offset_position : MemScreen → ℕ
offset_position s = u32 (s.phyaddr + s.y * 16 + s.x) % 2 ^ 16

pub mem_view : MemScreen → List ℕ → View
unfolding is_no_input is_input_mem
mem_view s block = record {
  display_mode = s.display_mode;
  entering = is_input_mem s.input;
  marked = is_no_input s.input;
  x = s.x;
  y = s.y;
  wbuf = s.wbuf;
  mass_buf = block;
}

pub paint_block : MemScreen → List ℕ → MemPainting
unfolding offset_position mem_view is_input_addr
paint_block s block = record {
  position = offset_position s;
  address_entered = is_input_addr s.input;
  address = if is_input_addr s.input then s.wbuf else s.phyaddr;
  characters = ascii_column massbuf_size block;
  grid = draw_grid (mem_view s block);
}

module _ (m : Machine) (user : UserAccess) where
  pub with_address : ℕ → Arg → Arg
  with_address a arg = record arg { mem = record (arg.mem) { addr = a } }

  pub show_block : MemScreen → Option (Arg × Driver m) → Option (MemPainting × Driver m)
  show_block s none = none
  show_block s (some (arg, d)) = some (paint_block s arg.mem.mass_buf, d)

  pub print_mem_screen : MemScreen → Arg → Driver m → Option (MemPainting × Driver m)
  unfolding with_address show_block is_input_addr
  print_mem_screen s arg d =
      if is_input_addr s.input
      then some (paint_block s (replicate massbuf_size 0xff), d)
      else show_block s (lfdd_ioctl m user Command.mem_read_256byte (with_address s.phyaddr arg) d)

  pub with_request : MemRequest → Arg → Arg
  with_request r arg = record arg { mem = record (arg.mem) { addr = r.addr; buf = r.buf } }

  -- The call of `WriteMemValue`, where a key makes one.
  pub make_request : Option MemRequest → Arg → Driver m → Option (Arg × Driver m)
  unfolding with_request
  make_request none arg d = some (arg, d)
  make_request (some r) arg d = lfdd_ioctl m user r.command (with_request r arg) d

  -- A key, with its call of the driver, and the next painting of the screen it leaves.
  pub then_print : MemScreen → Option (Arg × Driver m) → Option (MemPainting × Driver m)
  unfolding print_mem_screen
  then_print s none = none
  then_print s (some (arg, d)) = print_mem_screen s arg d
