-- ===== src/Screens/Ports/Enter.antt =====
-- The write that the enter key makes on the port screen, and what the driver does with it.
use lfdk.Common.{ℕ, ◌+◌, ◌*◌, ◌%◌, ◌^◌, ◌≤◌, ◌<◌, ◌≡◌, refl, ap, arith, some, pos, ◌+ℤ◌}
use mathlib.Core.Option
use lfdk.Driver.Structs.{Command, IoCmd}
use lfdk.Driver.Machine.{Machine, Driver}
use lfdk.Driver.Ioctl.{Arg, UserAccess, left, ioctl}
use lfdk.Driver.Ioctl.EndToEnd.{CopiesAll, ioctl-io_write_byte}
use lfdk.Screens.Hex.{code}
use lfdk.Screens.Ports.{
  byte_mode, input_io, no_input, IoScreen, port_command, to_uint32, write_io_value, press_io,
  press_port_in, io_key_press,
}
use lfdk.Screens.Ports.Cursor.{IsOnPort, IsPortPage}

-- The port at the cursor.
port_at_cursor :
    (n y x : ℕ)
    → n ≤ 0xff00
    → y < 16
    → x < 16
    → to_uint32 (pos n +ℤ pos (y * 16) +ℤ pos x) ≡ n + y * 16 + x
port_at_cursor n y x h k l = ground arith

-- The request that the enter key makes while a value is entered.
abbrev pub port_request : IoScreen → IoCmd → Arg → Arg
port_request s io arg = record arg { io = (write_io_value s io).1 }

module _ (s : IoScreen) (io : IoCmd) where
  press_enter :
      s.input ≡ input_io
      → io_key_press (code 0x0a) s io
        ≡ (record s { input = no_input; wbuf = 0 }, some (write_io_value s io))
  unfolding io_key_press press_port_in press_io
  press_enter entry = simp entry refl

  byte_request :
      (n : ℕ)
      → IsOnPort s
      → s.ioaddr ≡ pos n
      → s.display_mode ≡ byte_mode
      → write_io_value s io
        ≡ (Command.io_write_byte, record io { addr = n + s.y * 16 + s.x; buf = s.wbuf })
  unfolding write_io_value port_command
  byte_request n ok at_page bytes =
      let h : IsPortPage (pos n) = rw at_page at (ok.page) in
      simp (bytes, at_page)
        (ap (λ (a : ℕ). (Command.io_write_byte, record io { addr = a; buf = s.wbuf }))
          (port_at_cursor n s.y s.x h.1 ok.cell.2 ok.cell.0))

  -- In byte mode the enter key makes one request, and the driver answers it by one byte put out: the
  -- low byte of the value typed, to the port at the cursor.
  pub byte_reaches_port :
      {m : Machine} (user : UserAccess) (n : ℕ) (arg : Arg) (d : Driver m)
      → CopiesAll user
      → IsOnPort s
      → s.ioaddr ≡ pos n
      → s.input ≡ input_io
      → s.display_mode ≡ byte_mode
      → (io_key_press (code 0x0a) s io
          ≡ (record s { input = no_input; wbuf = 0 }, some (write_io_value s io)))
        × (ioctl m user (write_io_value s io).0 (port_request s io arg) d ≡ (
          (left 0, port_request s io arg),
          record d { hw = m.outb (s.wbuf % 2 ^ 8) (n + s.y * 16 + s.x) (d.hw) },
        ))
  byte_reaches_port {m} user n arg d copies ok at_page entry bytes =
      let request : IoCmd = record io { addr = n + s.y * 16 + s.x; buf = s.wbuf } in
      (
        press_enter entry,
        simp (byte_request n ok at_page bytes)
            (ioctl-io_write_byte (record arg { io = request }) d copies),
      )
