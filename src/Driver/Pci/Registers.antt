-- ===== src/Driver/Pci/Registers.antt =====
-- The operations of lfdd/libpci_x86.c on a request without a base refine configuration space as
-- an array of bytes.
use lfdk.Common.{ℕ, ◌+◌, ◌*◌, ◌/◌, ◌%◌, ◌^◌, ◌≡◌, ap, arith, u32, ◌==◌, if◌then◌else◌, mask_three}
use lfdk.Driver.Structs.{Pcix}
use lfdk.Driver.Machine.{Machine, Driver}
use lfdk.Driver.Address.{addr32}
use lfdk.Driver.Bus.{ConfigPorts, byte_at}
use lfdk.Driver.Pci.{
  merge_byte, merge_word, is_invalid, read_value, update_value, pcix_read_byte, pcix_read_word,
  pcix_read_dword, pcix_write_byte, pcix_write_word, pcix_write_dword,
}
use lfdk.Driver.Pci.Lanes.{low_lane, two_lanes, four_lanes}
use lfdk.Driver.Pci.Merge.{lane, lane-merge_byte, lane-merge_word, merge_byte-lt, merge_word-lt}
use lfdk.Driver.Pci.Ports.{port_read_value, port_read_bridge, port_update_bridge, port_write_bridge}

module _ {m : Machine} (ports : ConfigPorts m) (p : Pcix) (d : Driver m)
    (no_base : p.phy_base ≡ 0) where
  open ports use {latch, config, config-lt}

  -- The bytes of configuration space before the call.
  abbrev bytes : ℕ → ℕ
  bytes a = byte_at (config d.hw) a

  -- Without a base, on ports that behave as documented, a byte read returns the byte at the
  -- address of the request, and leaves the selected address and every byte of configuration space
  -- as they were.
  pub read_byte_refines :
      (a : ℕ)
      → ((pcix_read_byte m p d).0 ≡ bytes (addr32 p))
        × (byte_at (config (pcix_read_byte m p d).1.hw) a ≡ bytes a)
        × (latch (pcix_read_byte m p d).1.hw ≡ latch d.hw)
  unfolding pcix_read_byte is_invalid read_value
  read_byte_refines a = (
    ground (arith, port_read_value ports (addr32 p / 4 * 4) d),
    ground (arith, port_read_bridge ports (addr32 p / 4 * 4) d (a / 4 * 4)),
    ground (arith, port_read_bridge ports (addr32 p / 4 * 4) d (a / 4 * 4)),
  )

  -- Without a base, on ports that behave as documented, a word read returns the bytes at the
  -- address and after it, but at the last byte of a dword that byte alone; nothing changes.
  pub read_word_refines :
      (a : ℕ)
      → ((pcix_read_word m p d).0
          ≡ bytes (addr32 p) + (if addr32 p % 4 == 3 then 0 else bytes (addr32 p + 1) * 256))
        × (byte_at (config (pcix_read_word m p d).1.hw) a ≡ bytes a)
        × (latch (pcix_read_word m p d).1.hw ≡ latch d.hw)
  unfolding pcix_read_word is_invalid read_value
  read_word_refines a =
      let addr = addr32 p in
      (
        ground (
          arith,
          port_read_value ports (addr / 4 * 4) d,
          two_lanes addr (config d.hw) (config-lt d.hw (addr / 4 * 4)),
        ),
        ground (arith, port_read_bridge ports (addr / 4 * 4) d (a / 4 * 4)),
        ground (arith, port_read_bridge ports (addr / 4 * 4) d (a / 4 * 4)),
      )

  -- Without a base, on ports that behave as documented, a dword read returns the four bytes of
  -- the aligned dword that holds the address, the lowest address first; nothing changes.
  pub read_dword_refines :
      (a : ℕ)
      → let addr = addr32 p / 4 * 4 in
        ((pcix_read_dword m p d).0
          ≡ bytes addr
            + bytes (addr + 1) * 2 ^ 8
            + bytes (addr + 2) * 2 ^ 16
            + bytes (addr + 3) * 2 ^ 24)
        × (byte_at (config (pcix_read_dword m p d).1.hw) a ≡ bytes a)
        × (latch (pcix_read_dword m p d).1.hw ≡ latch d.hw)
  unfolding pcix_read_dword is_invalid read_value
  read_dword_refines a =
      let addr = addr32 p / 4 * 4 in
      (
        ground (
          arith,
          port_read_value ports addr d,
          four_lanes (addr32 p / 4) (config d.hw) (config-lt d.hw addr),
        ),
        ground (arith, port_read_bridge ports addr d (a / 4 * 4)),
        ground (arith, port_read_bridge ports addr d (a / 4 * 4)),
      )

  -- Without a base, on ports that behave as documented, a byte write replaces the byte at the
  -- address of the request by the low byte of `buf`, and no other byte; the selected address
  -- stays.
  pub write_byte_refines :
      (a : ℕ)
      → (byte_at (config (pcix_write_byte m p d).1.hw) a
          ≡ (if a == addr32 p then p.buf % 256 else bytes a))
        × (latch (pcix_write_byte m p d).1.hw ≡ latch d.hw)
  unfolding pcix_write_byte is_invalid update_value
  write_byte_refines a =
      let addr = addr32 p in
      let small = config-lt d.hw (addr / 4 * 4) in
      ground (
        arith,
        port_update_bridge ports (addr / 4 * 4) (merge_byte addr p.buf) d (a / 4 * 4),
        small,
        lane-merge_byte addr p.buf (config d.hw (addr / 4 * 4)) small (a % 4),
        merge_byte-lt addr p.buf (config d.hw (addr / 4 * 4)) small,
      )

  -- Without a base, on ports that behave as documented, a word write replaces the two bytes of
  -- the even address at or below that of the request by the low word of `buf`, and no other byte;
  -- the selected address stays.
  pub write_word_refines :
      (a : ℕ)
      → (byte_at (config (pcix_write_word m p d).1.hw) a
          ≡ (if a / 2 == addr32 p / 2 then lane (a % 2) p.buf else bytes a))
        × (latch (pcix_write_word m p d).1.hw ≡ latch d.hw)
  unfolding pcix_write_word is_invalid update_value
  write_word_refines a =
      let addr = addr32 p in
      let small = config-lt d.hw (addr / 4 * 4) in
      ground (
        arith,
        port_update_bridge ports (addr / 4 * 4) (merge_word addr p.buf) d (a / 4 * 4),
        small,
        lane-merge_word addr p.buf (config d.hw (addr / 4 * 4)) small (a % 4),
        merge_word-lt addr p.buf (config d.hw (addr / 4 * 4)) small,
        ap (λ (k : ℕ). lane k p.buf) (low_lane a),
      )

  -- Without a base, on ports that behave as documented, a dword write at a multiple of 4 replaces
  -- the four bytes there by those of `buf`, and at any other address it changes nothing; the
  -- selected address stays.
  pub write_dword_refines :
      (a : ℕ)
      → (byte_at (config (pcix_write_dword m p d).1.hw) a ≡ (
          if addr32 p % 4 == 0
          then (if a / 4 == addr32 p / 4 then lane (a % 4) (u32 p.buf) else bytes a)
          else bytes a))
        × (latch (pcix_write_dword m p d).1.hw ≡ latch d.hw)
  unfolding pcix_write_dword is_invalid
  write_dword_refines a =
      ground (arith, mask_three (addr32 p), port_write_bridge ports (addr32 p) p.buf d (a / 4 * 4))

  -- Without a base, on ports that behave as documented, a byte read returns the byte of
  -- configuration space at the address of the request; a word read the bytes there and after it, but
  -- at the last byte of a dword that byte alone; a dword read the four bytes of the aligned dword
  -- that holds the address. Each leaves the selected address and every byte as they were.
  pub reads_refine :
      (a : ℕ)
      → let addr = addr32 p in
        let dword = addr32 p / 4 * 4 in
        (((pcix_read_byte m p d).0 ≡ bytes addr)
          × (byte_at (config (pcix_read_byte m p d).1.hw) a ≡ bytes a)
          × (latch (pcix_read_byte m p d).1.hw ≡ latch d.hw))
        × (((pcix_read_word m p d).0
              ≡ bytes addr + (if addr % 4 == 3 then 0 else bytes (addr + 1) * 256))
            × (byte_at (config (pcix_read_word m p d).1.hw) a ≡ bytes a)
            × (latch (pcix_read_word m p d).1.hw ≡ latch d.hw))
        × (((pcix_read_dword m p d).0
              ≡ bytes dword
                + bytes (dword + 1) * 2 ^ 8
                + bytes (dword + 2) * 2 ^ 16
                + bytes (dword + 3) * 2 ^ 24)
            × (byte_at (config (pcix_read_dword m p d).1.hw) a ≡ bytes a)
            × (latch (pcix_read_dword m p d).1.hw ≡ latch d.hw))
  reads_refine a = (read_byte_refines a, read_word_refines a, read_dword_refines a)

  -- Without a base, on ports that behave as documented, a byte write replaces the byte at the
  -- address of the request by the low byte of `buf`; a word write the two bytes of the even address
  -- at or below it by the low word; a dword write at a multiple of 4 the four bytes there, and at
  -- any other address it changes nothing. No other byte changes, and the selected address stays.
  pub writes_refine :
      (a : ℕ)
      → let addr = addr32 p in
        ((byte_at (config (pcix_write_byte m p d).1.hw) a
            ≡ (if a == addr then p.buf % 256 else bytes a))
          × (latch (pcix_write_byte m p d).1.hw ≡ latch d.hw))
        × ((byte_at (config (pcix_write_word m p d).1.hw) a
              ≡ (if a / 2 == addr / 2 then lane (a % 2) p.buf else bytes a))
            × (latch (pcix_write_word m p d).1.hw ≡ latch d.hw))
        × ((byte_at (config (pcix_write_dword m p d).1.hw) a ≡ (
              if addr % 4 == 0
              then (if a / 4 == addr / 4 then lane (a % 4) (u32 p.buf) else bytes a)
              else bytes a))
            × (latch (pcix_write_dword m p d).1.hw ≡ latch d.hw))
  writes_refine a = (write_byte_refines a, write_word_refines a, write_dword_refines a)
