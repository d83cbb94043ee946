-- ===== src/Screens/Ports.antt =====
-- lfdk/libio.c: the screen of the ports, 256 of them in 16 lines.
pub mod Cursor
pub mod Enter
pub mod Paint
use lfdk.Common.{
  ℕ, ◌+◌, ◌-◌, ◌*◌, ◌/◌, ◌%◌, ◌^◌, ◌==◌, Option, none, some, u32, ltb, leb, if◌then◌else◌, ℤ, pos,
  negsuc, ◌+ℤ◌, ◌-ℤ◌, ltb_ℤ,
}
use mathlib.Core.Option
use lfdk.Driver.Structs.{Command, IoCmd}
use lfdk.Driver.Machine.{Machine, Driver}
use lfdk.Driver.Ioctl.{Arg, UserAccess}
use lfdk.Screens.Device.{lfdd_ioctl}
use lfdk.Screens.Hex.{
  Key, up, down, left, right, npage, ppage, backspace, f7, code, is_hex, digit_value, push_masked,
}

-- `DISPLAY_MODE`, without its last constant.
pub data PortMode : Type 0 where
  byte_mode word_mode : PortMode

pub data PortInput : Type 0 where
  no_input input_io input_addr : PortInput

-- The statics of the file; `ioaddr` is signed.
pub record IoScreen : Type 0 where
  pub x : ℕ
  pub y : ℕ
  pub input : PortInput
  pub wbuf : ℕ
  pub display_mode : PortMode
  pub ioaddr : ℤ

-- `1 << display_mode`.
unfoldable pub port_width : PortMode → ℕ
port_width byte_mode = 1
port_width word_mode = 2

pub next_port_mode : PortMode → PortMode
next_port_mode byte_mode = word_mode
next_port_mode word_mode = byte_mode

pub push_port_value : PortMode → ℕ → ℕ → ℕ
push_port_value byte_mode wbuf c = push_masked 0x0f0 wbuf c
push_port_value word_mode wbuf c = push_masked 0x0fff0 wbuf c

-- A `uint32_t` kept in an `int32_t`, and an `int32_t` kept in a `uint32_t`.
abbrev pub to_int32 : ℕ → ℤ
to_int32 n = if ltb n (2 ^ 31) then pos n else negsuc (2 ^ 32 - 1 - n)

abbrev pub to_uint32 : ℤ → ℕ
to_uint32 (pos n) = n % 2 ^ 32
to_uint32 (negsuc n) = 2 ^ 32 - 1 - n % 2 ^ 32

pub port_command : PortMode → Command
port_command byte_mode = Command.io_write_byte
port_command word_mode = Command.io_write_word

-- `WriteIOValue`: the command, and `lfdd_io_data` with the fields that it sets.
pub write_io_value : IoScreen → IoCmd → Command × IoCmd
write_io_value s io = (
  port_command s.display_mode,
  record io { addr = to_uint32 (s.ioaddr +ℤ pos (s.y * 16) +ℤ pos s.x); buf = s.wbuf },
)

abbrev leave_input : IoScreen → IoScreen
leave_input s = record s { wbuf = 0; input = no_input }

-- A key while an address is entered.
pub press_port_addr : Key → IoScreen → IoScreen
press_port_addr backspace s = record s { wbuf = s.wbuf / 16 }
press_port_addr (code c) s =
    if c == 0x0a
    then record s { input = no_input; ioaddr = to_int32 (u32 (s.wbuf * 2 ^ 8)); wbuf = 0 }
    else if is_hex c
    then record s { wbuf = push_masked 0x0f0 s.wbuf c }
    else leave_input s
press_port_addr _ s = leave_input s

-- A key while a value is entered: the request that the enter key makes first, and the screen behind
-- it. `LFDD_IOCTL` ends the program where the request fails, so that screen is reached only where it
-- succeeds; `io_key_with_driver` below puts the two together.
pub press_io : Key → IoScreen → IoCmd → IoScreen × Option (Command × IoCmd)
press_io backspace s io = (record s { wbuf = s.wbuf / 16 }, none)
press_io (code c) s io =
    if c == 0x0a
    then (record s { input = no_input; wbuf = 0 }, some (write_io_value s io))
    else if is_hex c
    then (record s { wbuf = push_port_value s.display_mode s.wbuf c }, none)
    else (leave_input s, none)
press_io _ s io = (leave_input s, none)

-- `'i'`, the short key of the window.
abbrev io_short_key : ℕ
io_short_key = 0x69

-- A key while the ports are shown.
pub press_ports : Key → IoScreen → IoScreen
press_ports up s = if ltb 0 s.y then record s { y = s.y - 1 } else s
press_ports down s = if ltb s.y 15 then record s { y = s.y + 1 } else s
press_ports left s = record s { x = s.x - port_width s.display_mode }
press_ports right s =
    if leb 16 (s.x + port_width s.display_mode)
    then s
    else record s { x = s.x + port_width s.display_mode }
press_ports npage s =
    let next = s.ioaddr +ℤ pos 256 in
    record s { ioaddr = if ltb_ℤ (pos 0x0ffff) next then pos 0x0ff00 else next }
press_ports ppage s =
    let previous = s.ioaddr -ℤ pos 256 in
    record s { ioaddr = if ltb_ℤ previous (pos 0) then pos 0 else previous }
press_ports f7 s =
    let mode = next_port_mode s.display_mode in
    record s { display_mode = mode; x = s.x / port_width mode * port_width mode }
press_ports backspace s = s
press_ports (code c) s =
    if c == io_short_key
    then record s { input = input_addr; wbuf = 0 }
    else if is_hex c
    then record s { input = input_io; wbuf = digit_value c }
    else s

pub press_port_in : PortInput → Key → IoScreen → IoCmd → IoScreen × Option (Command × IoCmd)
press_port_in input_addr key s io = (press_port_addr key s, none)
press_port_in input_io key s io = press_io key s io
press_port_in no_input key s io = (press_ports key s, none)

pub io_key_press : Key → IoScreen → IoCmd → IoScreen × Option (Command × IoCmd)
io_key_press key s io = press_port_in s.input key s io

module _ (m : Machine) (user : UserAccess) where
  -- Behind the request, if any: `none` is the `exit( 1 )` of `LFDD_IOCTL`.
  pub behind_request :
      IoScreen × Option (Command × IoCmd) → Arg → Driver m → Option (IoScreen × Arg × Driver m)
  behind_request (s, none) arg d = some (s, arg, d)
  behind_request (s, some (c, io)) arg d =
      Option.map (λ r. (s, r.0, r.1)) (lfdd_ioctl m user c (record arg { io = io }) d)

  -- The function for a key with the driver that it calls.
  pub io_key_with_driver : Key → IoScreen → Arg → Driver m → Option (IoScreen × Arg × Driver m)
  io_key_with_driver key s arg d = behind_request (io_key_press key s arg.io) arg d

pub io_get_focus : IoScreen → IoScreen
io_get_focus s = record s { input = input_addr; wbuf = 0 }

pub io_lost_focus : IoScreen → IoScreen
io_lost_focus s = record s { input = no_input; wbuf = 0 }
