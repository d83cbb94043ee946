-- ===== src/Screens/Memory.antt =====
-- lfdk/libmem.c: the screen of main memory, 256 bytes in 16 lines.
pub mod Cursor
pub mod Typing
pub mod Paint
use lfdk.Common.{
  ℕ, ◌+◌, ◌-◌, ◌*◌, ◌/◌, ◌%◌, ◌^◌, ◌==◌, Option, none, some, u32, leb, ltb, if◌then◌else◌,
}
use lfdk.Driver.Structs.{Command}
use lfdk.Screens.Mode.{Mode, byte_mode, word_mode, dword_mode, width, next_mode, push_value}
use lfdk.Screens.Hex.{
  Key, up, down, left, right, npage, ppage, backspace, f7, code, is_hex, digit_value, push_masked,
  push_unmasked,
}

pub data Input : Type 0 where
  no_input input_mem input_addr : Input

pub record MemScreen : Type 0 where
  pub x : ℕ
  pub y : ℕ
  pub input : Input
  pub wbuf : ℕ
  pub display_mode : Mode
  pub phyaddr : ℕ

abbrev pub byte_per_line : ℕ
byte_per_line = 16

abbrev pub bytes_per_page : ℕ
bytes_per_page = 256

-- A request to the driver: the command, the address and the value.
pub record MemRequest : Type 0 where
  pub command : Command
  pub addr : ℕ
  pub buf : ℕ

pub write_command : Mode → Command
write_command byte_mode = Command.mem_write_byte
write_command word_mode = Command.mem_write_word
write_command dword_mode = Command.mem_write_dword

-- `WriteMemValue`.
pub write_mem_value : MemScreen → MemRequest
write_mem_value s = record {
  command = write_command s.display_mode;
  addr = u32 (s.phyaddr + s.y * byte_per_line + s.x);
  buf = s.wbuf;
}

abbrev leave_input : MemScreen → MemScreen
leave_input s = record s { wbuf = 0; input = no_input }

-- A key while an address is entered.
pub press_addr : Key → MemScreen → MemScreen
press_addr backspace s = record s { wbuf = s.wbuf / 16 }
press_addr (code c) s =
    if c == 0x0a
    then record s { input = no_input; phyaddr = u32 (s.wbuf * 2 ^ 8); wbuf = 0 }
    else if is_hex c
    then record s { wbuf = push_masked 0x00fffff0 s.wbuf c }
    else leave_input s
press_addr _ s = leave_input s

-- A key while a value is entered, with the request that the enter key makes.
pub press_mem : Key → MemScreen → MemScreen × Option MemRequest
press_mem backspace s = (record s { wbuf = s.wbuf / 16 }, none)
press_mem (code c) s =
    if c == 0x0a
    then (record s { input = no_input; wbuf = 0 }, some (write_mem_value s))
    else if is_hex c
    then (record s { wbuf = push_value s.display_mode s.wbuf c }, none)
    else (leave_input s, none)
press_mem _ s = (leave_input s, none)

-- `'m'`, the short key of the window.
abbrev short_key : ℕ
short_key = 0x6d

-- A key while the memory is shown.
pub press_display : Key → MemScreen → MemScreen
press_display up s = if ltb 0 s.y then record s { y = s.y - 1 } else s
press_display down s = if ltb s.y 15 then record s { y = s.y + 1 } else s
press_display left s = record s { x = s.x - width s.display_mode }
press_display right s =
    if leb byte_per_line (s.x + width s.display_mode)
    then s
    else record s { x = s.x + width s.display_mode }
press_display npage s =
    if ltb s.phyaddr (u32 (s.phyaddr + bytes_per_page))
    then record s { phyaddr = u32 (s.phyaddr + bytes_per_page) }
    else s
press_display ppage s =
    if ltb (u32 (s.phyaddr + 2 ^ 32 - bytes_per_page)) s.phyaddr
    then record s { phyaddr = u32 (s.phyaddr + 2 ^ 32 - bytes_per_page) }
    else s
press_display f7 s =
    let mode = next_mode s.display_mode in
    record s { display_mode = mode; x = s.x / width mode * width mode }
press_display backspace s = s
press_display (code c) s =
    if c == short_key
    then record s { input = input_addr; wbuf = 0 }
    else if is_hex c
    then record s { input = input_mem; wbuf = digit_value c }
    else s

press_in : Input → Key → MemScreen → MemScreen × Option MemRequest
press_in input_addr key s = (press_addr key s, none)
press_in input_mem key s = press_mem key s
press_in no_input key s = (press_display key s, none)

pub mem_key_press : Key → MemScreen → MemScreen × Option MemRequest
mem_key_press key s = press_in s.input key s

pub mem_get_focus : MemScreen → MemScreen
mem_get_focus s = record s { input = input_addr; wbuf = 0 }

pub mem_lost_focus : MemScreen → MemScreen
mem_lost_focus s = record s { input = no_input; wbuf = 0 }
