-- ===== src/Screens/Cmos/Paint.antt =====
-- `PrintCmosScreen` of lfdk/libcmos.c: the bytes are read and written through two ports, without
-- the driver.
pub mod Moved
use lfdk.Common.{
  ℕ, zero, suc, ◌+◌, ◌*◌, ◌%◌, ◌^◌, Bool, true, Option, none, some, List, [], ◌∷◌, ℤ, pos, negsuc,
  if◌then◌else◌,
}
use lfdk.Driver.Machine.{Machine}
use lfdk.Screens.Mode.{Mode, byte_mode}
use lfdk.Screens.Grid.{View, Drawn, draw_grid, ascii_column}
use lfdk.Screens.Cmos.{CmosScreen, CmosWrite}

abbrev pub cmos_addr_port : ℕ
cmos_addr_port = 0x70

abbrev pub cmos_data_port : ℕ
cmos_data_port = 0x71

abbrev pub cmos_range_bytes : ℕ
cmos_range_bytes = 256

-- `ERR_REQ_IO` is `ERROR_MIN` + 3.
abbrev pub err_req_io : ℤ
err_req_io = negsuc 28

pub record CmosPainting : Type 0 where
  pub position : ℕ
  pub characters : List ℕ
  pub grid : List Drawn

-- `cmos_init`, with whether `ioperm` fails.
pub cmos_init : Bool → ℤ
cmos_init refused = if refused then err_req_io else pos 0

pub cmos_get_focus : CmosScreen → CmosScreen
cmos_get_focus s = record s { entering = Bool.false; wbuf = 0 }

pub cmos_lost_focus : CmosScreen → CmosScreen
cmos_lost_focus s = record s { entering = Bool.false; wbuf = 0 }

pub cmos_view : CmosScreen → List ℕ → View
cmos_view s block = record {
  display_mode = byte_mode;
  entering = s.entering;
  marked = true;
  x = s.x;
  y = s.y;
  wbuf = s.wbuf;
  mass_buf = block;
}

pub paint_cmos : CmosScreen → List ℕ → CmosPainting
unfolding cmos_view
paint_cmos s block = record {
  position = s.y * 16 + s.x;
  characters = ascii_column cmos_range_bytes block;
  grid = draw_grid (cmos_view s block);
}

module _ (m : Machine) where
  open m use {Hw, inb, outb}

  -- The loop of `ReadCmos256Bytes` from `i`.
  pub read_cmos_bytes : ℕ → ℕ → Hw → List ℕ × Hw
  read_cmos_bytes zero i h = ([], h)
  read_cmos_bytes (suc left) i h =
      let byte = inb cmos_data_port (outb i cmos_addr_port h) in
      let rest = read_cmos_bytes left (i + 1) byte.1 in (byte.0 ∷ rest.0, rest.1)

  -- `WriteCmosByteValue`, where a key asks for it.
  pub put_cmos_byte : Option CmosWrite → Hw → Hw
  put_cmos_byte none h = h
  put_cmos_byte (some w) h = outb w.data_byte cmos_data_port (outb w.index cmos_addr_port h)

  pub print_cmos_screen : CmosScreen → Hw → CmosPainting × Hw
  print_cmos_screen s h =
      let block = read_cmos_bytes cmos_range_bytes 0 h in (paint_cmos s block.0, block.1)
