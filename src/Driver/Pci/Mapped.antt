-- ===== src/Driver/Pci/Mapped.antt =====
-- The operations of lfdd/libpci_x86.c on a request with a base refine device memory as an array
-- of bytes; a request that would reach main memory is refused.
use lfdk.Common.{
  refl, Bool-cases, inl, inr, ℕ, ◌+◌, ◌*◌, ◌/◌, ◌%◌, ◌^◌, ◌≡◌, ◌≢◌, false, ap, arith, u32, ◌==◌,
  if◌then◌else◌, mask_three,
}
use lfdk.Driver.Structs.{Pcix}
use lfdk.Driver.Machine.{Machine, Driver}
use lfdk.Driver.Address.{addr32}
use lfdk.Driver.Bus.{DeviceMemory, byte_at}
use lfdk.Driver.Pci.{
  merge_byte, merge_word, align_buf, map_window, is_invalid, pcix_read_byte, pcix_read_word,
  pcix_read_dword, pcix_write_byte, pcix_write_word, pcix_write_dword,
}
use lfdk.Driver.Pci.Lanes.{low_lane, two_lanes, four_lanes}
use lfdk.Driver.Pci.Merge.{lane, lane-merge_byte, lane-merge_word, merge_byte-lt, merge_word-lt}
use lfdk.Driver.Pci.Window.{
  IsWindow, has_base, read_value_window, update_value_window, write_value_window,
}

module _ {m : Machine} (mem : DeviceMemory m) (p : Pcix) (d : Driver m) (base : p.phy_base ≢ 0)
    (accepted : is_invalid m p (align_buf (addr32 p)) ≡ false) (w : IsWindow mem d)
    (made : (map_window m (addr32 p) (align_buf (addr32 p)) d).1.phy2virt_mem ≢ 0) where
  open mem use {mmio, mmio-lt}

  -- The bytes of device memory before the call, and the address of the request.
  abbrev bytes : ℕ → ℕ
  bytes a = byte_at (mmio d.hw) a

  abbrev addr : ℕ
  addr = addr32 p

  -- When the present mapping is in order and one is there after the mapping step, an accepted
  -- byte read with a base returns the byte of device memory at the address, and changes none.
  pub read_byte_mapped :
      (a : ℕ)
      → ((pcix_read_byte m p d).0 ≡ bytes addr)
        × (byte_at (mmio (pcix_read_byte m p d).1.hw) a ≡ bytes a)
  unfolding pcix_read_byte
  read_byte_mapped a =
      rw accepted (ground (arith, read_value_window mem p d base w made (a / 4 * 4)))

  -- When the present mapping is in order and one is there after the mapping step, an accepted
  -- word read with a base returns the bytes of device memory at the address and after it, but at
  -- the last byte of a dword that byte alone; no byte changes.
  pub read_word_mapped :
      (a : ℕ)
      → ((pcix_read_word m p d).0
          ≡ bytes addr + (if addr % 4 == 3 then 0 else bytes (addr + 1) * 256))
        × (byte_at (mmio (pcix_read_word m p d).1.hw) a ≡ bytes a)
  unfolding pcix_read_word
  read_word_mapped a = rw accepted (
      ground (
        arith,
        read_value_window mem p d base w made (a / 4 * 4),
        two_lanes addr (mmio d.hw) (mmio-lt d.hw (addr / 4 * 4)),
      ))

  -- When the present mapping is in order and one is there after the mapping step, an accepted
  -- dword read with a base returns the four bytes of the aligned dword of device memory that
  -- holds the address, the lowest address first; no byte changes.
  pub read_dword_mapped :
      (a : ℕ)
      → let dword = addr / 4 * 4 in
        ((pcix_read_dword m p d).0
          ≡ bytes dword
            + bytes (dword + 1) * 2 ^ 8
            + bytes (dword + 2) * 2 ^ 16
            + bytes (dword + 3) * 2 ^ 24)
        × (byte_at (mmio (pcix_read_dword m p d).1.hw) a ≡ bytes a)
  unfolding pcix_read_dword
  read_dword_mapped a = rw accepted (
      ground (
        arith,
        read_value_window mem p d base w made (a / 4 * 4),
        four_lanes (addr / 4) (mmio d.hw) (mmio-lt d.hw (addr / 4 * 4)),
      ))

  -- When the present mapping is in order and one is there after the mapping step, an accepted
  -- byte write with a base replaces the byte of device memory at the address by the low byte of
  -- `buf`, and no other.
  pub write_byte_mapped :
      (a : ℕ)
      → byte_at (mmio (pcix_write_byte m p d).1.hw) a ≡ (if a == addr then p.buf % 256 else bytes a)
  unfolding pcix_write_byte
  write_byte_mapped a =
      let small = mmio-lt d.hw (addr / 4 * 4) in
      rw accepted (
        ground (
          arith,
          update_value_window mem p d base w made (merge_byte addr p.buf) (a / 4 * 4),
          small,
          lane-merge_byte addr p.buf (mmio d.hw (addr / 4 * 4)) small (a % 4),
          merge_byte-lt addr p.buf (mmio d.hw (addr / 4 * 4)) small,
        ))

  -- When the present mapping is in order and one is there after the mapping step, an accepted
  -- word write with a base replaces the two bytes of device memory of the even address at or
  -- below that of the request by the low word of `buf`, and no other.
  pub write_word_mapped :
      (a : ℕ)
      → byte_at (mmio (pcix_write_word m p d).1.hw) a
        ≡ (if a / 2 == addr / 2 then lane (a % 2) p.buf else bytes a)
  unfolding pcix_write_word
  write_word_mapped a =
      let small = mmio-lt d.hw (addr / 4 * 4) in
      rw accepted (
        ground (
          arith,
          update_value_window mem p d base w made (merge_word addr p.buf) (a / 4 * 4),
          small,
          lane-merge_word addr p.buf (mmio d.hw (addr / 4 * 4)) small (a % 4),
          merge_word-lt addr p.buf (mmio d.hw (addr / 4 * 4)) small,
          ap (λ (k : ℕ). lane k p.buf) (low_lane a),
        ))

  -- When the present mapping is in order and one is there after the mapping step, an accepted
  -- dword write with a base, at a multiple of 4, replaces the four bytes of device memory there
  -- by those of `buf`, and no other.
  pub write_dword_mapped :
      (a : ℕ)
      → addr % 4 ≡ 0
      → byte_at (mmio (pcix_write_dword m p d).1.hw) a
        ≡ (if a / 4 == addr / 4 then lane (a % 4) (u32 p.buf) else bytes a)
  unfolding pcix_write_dword
  write_dword_mapped a whole =
      rw (mask_three addr, whole, accepted, has_base p base)
        (ground (arith, write_value_window mem p d base w made (a / 4 * 4)))

  -- A dword write at another address changes nothing.
  write_dword_unaligned :
      (a : ℕ) → (addr % 4 == 0) ≡ false → byte_at (mmio (pcix_write_dword m p d).1.hw) a ≡ bytes a
  unfolding pcix_write_dword
  write_dword_unaligned a odd = rw (mask_three addr, odd) refl

  write_dword_any :
      (a : ℕ)
      → byte_at (mmio (pcix_write_dword m p d).1.hw) a ≡ (
          if addr % 4 == 0
          then (if a / 4 == addr / 4 then lane (a % 4) (u32 p.buf) else bytes a)
          else bytes a)
  write_dword_any a = elim (Bool-cases (addr % 4 == 0)) [
    | inl whole ↦ rw whole (write_dword_mapped a (ground arith))
    | inr odd ↦ rw odd (write_dword_unaligned a odd)
  ]

  -- When the present mapping is in order and one is there after the mapping step, an accepted read
  -- with a base returns bytes of device memory: that at the address; for a word also the one after
  -- it, but at the last byte of a dword the first alone; for a dword the four bytes of the aligned
  -- dword that holds the address. No byte changes.
  pub reads_mapped :
      (a : ℕ)
      → let dword = addr / 4 * 4 in
        (((pcix_read_byte m p d).0 ≡ bytes addr)
          × (byte_at (mmio (pcix_read_byte m p d).1.hw) a ≡ bytes a))
        × (((pcix_read_word m p d).0
              ≡ bytes addr + (if addr % 4 == 3 then 0 else bytes (addr + 1) * 256))
            × (byte_at (mmio (pcix_read_word m p d).1.hw) a ≡ bytes a))
        × (((pcix_read_dword m p d).0
              ≡ bytes dword
                + bytes (dword + 1) * 2 ^ 8
                + bytes (dword + 2) * 2 ^ 16
                + bytes (dword + 3) * 2 ^ 24)
            × (byte_at (mmio (pcix_read_dword m p d).1.hw) a ≡ bytes a))
  reads_mapped a = (read_byte_mapped a, read_word_mapped a, read_dword_mapped a)

  -- When the present mapping is in order and one is there after the mapping step, an accepted write
  -- with a base replaces in device memory the byte at the address by the low byte of `buf`; for a
  -- word the two bytes of the even address at or below it by the low word; for a dword at a
  -- multiple of 4 the four bytes there, and at any other address nothing. No other byte changes.
  pub writes_mapped :
      (a : ℕ)
      → (byte_at (mmio (pcix_write_byte m p d).1.hw) a
          ≡ (if a == addr then p.buf % 256 else bytes a))
        × (byte_at (mmio (pcix_write_word m p d).1.hw) a
            ≡ (if a / 2 == addr / 2 then lane (a % 2) p.buf else bytes a))
        × (byte_at (mmio (pcix_write_dword m p d).1.hw) a ≡ (
            if addr % 4 == 0
            then (if a / 4 == addr / 4 then lane (a % 4) (u32 p.buf) else bytes a)
            else bytes a))
  writes_mapped a = (write_byte_mapped a, write_word_mapped a, write_dword_any a)
