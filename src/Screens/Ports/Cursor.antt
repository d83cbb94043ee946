-- ===== src/Screens/Ports/Cursor.antt =====
-- The cursor of the port screen and the page of ports that it shows.
use lfdk.Common.{
  ℕ, ◌*◌, ◌%◌, ◌^◌, ◌≤◌, ◌<◌, ◌≡◌, arith, ℤ, pos, negsuc, ◌+ℤ◌, ◌-ℤ◌, ltb_ℤ, if◌then◌else◌, inl,
  inr, Bool-cases, ◌==◌, refl,
}
use lfdk.Driver.Structs.{IoCmd}
use lfdk.Screens.Hex.{
  Key, up, down, left, right, npage, ppage, backspace, f7, code, is_hex, push_byte, push_word,
  digit_value-lt,
}
use lfdk.Screens.Ports.{
  PortInput, no_input, input_io, input_addr, IoScreen, port_width, next_port_mode, push_port_value,
  to_int32, press_port_addr, press_io, press_ports, press_port_in, io_key_press, io_get_focus,
  io_lost_focus,
}

-- The first port of a page.
abbrev pub IsPortPage : ℤ → Type 0
IsPortPage (pos n) = (n % 256 ≡ 0) × (n ≤ 0xff00)
IsPortPage (negsuc n) = ⊥

-- The bound of the number entered: an address has two digits.
abbrev pub bound : PortInput → ℕ
bound input_addr = 2 ^ 8
bound _ = 2 ^ 16

abbrev pub IsAtCell : IoScreen → Type 0
IsAtCell s =
    (s.x < 16) × (s.x % port_width s.display_mode ≡ 0) × (s.y < 16) × (s.wbuf < bound s.input)

-- The cursor is on a cell of the width shown, in a page of the 65536 ports, and the number entered
-- fits its bound.
pub record IsOnPort (s : IoScreen) : Type 0 where
  pub cell : IsAtCell s
  pub page : IsPortPage s.ioaddr

next_page :
    (a : ℤ)
    → IsPortPage a
    → IsPortPage (if ltb_ℤ (pos 0x0ffff) (a +ℤ pos 256) then pos 0x0ff00 else (a +ℤ pos 256))
next_page (pos n) h = ground arith
next_page (negsuc n) h = absurd h

previous_page :
    (a : ℤ)
    → IsPortPage a
    → IsPortPage (if ltb_ℤ (a -ℤ pos 256) (pos 0) then pos 0 else (a -ℤ pos 256))
previous_page (pos n) h = ground arith
previous_page (negsuc n) h = absurd h

entered_page : (wbuf : ℕ) → wbuf < 2 ^ 8 → IsPortPage (to_int32 (wbuf * 2 ^ 8 % 2 ^ 32))
entered_page wbuf h = ground arith

module _ (s : IoScreen) (ok : IsOnPort s) where
  press_port_addr-IsOnPort : (key : Key) → s.input ≡ input_addr → IsOnPort (press_port_addr key s)
  unfolding press_port_addr
  press_port_addr-IsOnPort (code c) e = elim (Bool-cases (c == 0x0a)) [
    | inl enter ↦
        let low : s.wbuf < 2 ^ 8 = ground (arith, ok.cell) in
        rw enter (record { cell = ground (arith, ok.cell); page = entered_page s.wbuf low })
    | inr other ↦ rw other (elim (Bool-cases (is_hex c)) [
      | inl hex ↦
          rw hex
            (record { cell = ground (arith, ok.cell, e, push_byte s.wbuf c hex); page = ok.page })
      | inr ends ↦ rw ends (record { cell = ground (arith, ok.cell); page = ok.page })
    ])
  ]
  press_port_addr-IsOnPort backspace e = record {
    cell = ground (arith, ok.cell, e);
    page = ok.page;
  }
  press_port_addr-IsOnPort up e = ground (arith, ok.cell, ok.page)
  press_port_addr-IsOnPort down e = ground (arith, ok.cell, ok.page)
  press_port_addr-IsOnPort left e = ground (arith, ok.cell, ok.page)
  press_port_addr-IsOnPort right e = ground (arith, ok.cell, ok.page)
  press_port_addr-IsOnPort npage e = ground (arith, ok.cell, ok.page)
  press_port_addr-IsOnPort ppage e = ground (arith, ok.cell, ok.page)
  press_port_addr-IsOnPort f7 e = ground (arith, ok.cell, ok.page)

  press_io-IsOnPort : (key : Key) (io : IoCmd) → s.input ≡ input_io → IsOnPort (press_io key s io).0
  unfolding press_io push_port_value
  press_io-IsOnPort (code c) io e =
      ground (arith, ok.cell, ok.page, push_byte s.wbuf c, push_word s.wbuf c)
  press_io-IsOnPort backspace io e = ground (arith, ok.cell, ok.page)
  press_io-IsOnPort up io e = ground (arith, ok.cell, ok.page)
  press_io-IsOnPort down io e = ground (arith, ok.cell, ok.page)
  press_io-IsOnPort left io e = ground (arith, ok.cell, ok.page)
  press_io-IsOnPort right io e = ground (arith, ok.cell, ok.page)
  press_io-IsOnPort npage io e = ground (arith, ok.cell, ok.page)
  press_io-IsOnPort ppage io e = ground (arith, ok.cell, ok.page)
  press_io-IsOnPort f7 io e = ground (arith, ok.cell, ok.page)

  press_ports-IsOnPort : (key : Key) → s.input ≡ no_input → IsOnPort (press_ports key s)
  unfolding press_ports port_width next_port_mode
  press_ports-IsOnPort backspace e = ground (arith, ok.cell, ok.page)
  press_ports-IsOnPort up e = ground (arith, ok.cell, ok.page)
  press_ports-IsOnPort down e = ground (arith, ok.cell, ok.page)
  press_ports-IsOnPort left e = ground (arith, ok.cell, ok.page)
  press_ports-IsOnPort right e = ground (arith, ok.cell, ok.page)
  press_ports-IsOnPort f7 e = ground (arith, ok.cell, ok.page)
  press_ports-IsOnPort (code c) e = ground (arith, ok.cell, ok.page, digit_value-lt c)
  press_ports-IsOnPort npage e = record { cell = ok.cell; page = next_page s.ioaddr ok.page }
  press_ports-IsOnPort ppage e = record { cell = ok.cell; page = previous_page s.ioaddr ok.page }

  press_port_in-IsOnPort :
      (i : PortInput) (key : Key) (io : IoCmd) → s.input ≡ i → IsOnPort (press_port_in i key s io).0
  unfolding press_port_in
  press_port_in-IsOnPort input_addr key io e = press_port_addr-IsOnPort key e
  press_port_in-IsOnPort input_io key io e = press_io-IsOnPort key io e
  press_port_in-IsOnPort no_input key io e = press_ports-IsOnPort key e

  -- Every key, in each mode of input, keeps the cursor on a whole cell of the page and the page
  -- within the 65536 ports; so do the gain and the loss of the focus.
  pub io_key_press-IsOnPort :
      (key : Key) (io : IoCmd)
      → IsOnPort (io_key_press key s io).0 × IsOnPort (io_get_focus s) × IsOnPort (io_lost_focus s)
  unfolding io_key_press io_get_focus io_lost_focus
  io_key_press-IsOnPort key io = (
    press_port_in-IsOnPort s.input key io refl,
    ground (arith, ok.cell, ok.page),
    ground (arith, ok.cell, ok.page),
  )
