-- ===== src/Driver/Pci/Guard.antt =====
-- The requests with a base that lfdd/libpci_x86.c refuses, and the mapping that its 256-byte read
-- leaves behind at an address that is no multiple of 256.
use lfdk.Common.{◌+◌, ◌*◌, ◌/◌, ◌%◌, ◌≤◌, ◌<◌, ◌≡◌, ◌≢◌, ◌⊎◌, false, true, arith}
use lfdk.Driver.Structs.{Pcix}
use lfdk.Driver.Machine.{Machine, Driver}
use lfdk.Driver.Address.{addr32}
use lfdk.Driver.Address.Fields.{addr32-lt}
use lfdk.Driver.Bus.{DeviceMemory}
use lfdk.Driver.Pci.{
  align_buf, is_invalid, map_window, out_range, dword_off, window_read, read_value, pcix_read_byte,
  pcix_read_word, pcix_read_dword, pcix_write_byte, pcix_write_word, pcix_write_dword,
}
use lfdk.Driver.Pci.Window.{HasMapping, has_base}

module _ (m : Machine) (p : Pcix) (d : Driver m) (base : p.phy_base ≢ 0) where
  is_invalid-eq-true :
      (0xffff_ff00 ≤ addr32 p) ⊎ (align_buf (addr32 p) + 256 ≤ m.high_memory)
      → is_invalid m p (align_buf (addr32 p)) ≡ true
  unfolding is_invalid
  is_invalid-eq-true h = ground (arith, addr32-lt p)

  -- With a base, an address in the last 256 bytes below 4 GB or in a 256-byte page that ends in
  -- main memory is refused by each access: a read gives ones, and nothing changes.
  pub refused :
      (0xffff_ff00 ≤ addr32 p) ⊎ (align_buf (addr32 p) + 256 ≤ m.high_memory)
      → (pcix_read_byte m p d ≡ (0xff, d))
        × (pcix_read_word m p d ≡ (0xffff, d))
        × (pcix_read_dword m p d ≡ (0xffff_ffff, d))
        × (pcix_write_byte m p d ≡ (tt, d))
        × (pcix_write_word m p d ≡ (tt, d))
        × (pcix_write_dword m p d ≡ (tt, d))
  unfolding pcix_read_byte pcix_read_word pcix_read_dword pcix_write_byte pcix_write_word
      pcix_write_dword
  refused h = let e = is_invalid-eq-true h in (rw e, rw e, rw e, rw e, rw e, ground (arith, e))

module _ {m : Machine} (mem : DeviceMemory m) where
  -- A mapping that begins at an address which is no multiple of 256, and still holds the address
  -- of the next dword read, is not made anew: the read then gives the dword that lies as far
  -- behind the start of the mapping as the address lies behind a multiple of 256.
  pub shifted_read :
      (p : Pcix) (d : Driver m)
      → p.phy_base ≢ 0
      → is_invalid m p (align_buf (addr32 p)) ≡ false
      → HasMapping mem d
      → d.phy2virt_mem ≢ 0
      → d.phy_map_start_addr ≤ addr32 p
      → addr32 p < d.phy_map_start_addr + 256
      → (pcix_read_dword m p d).0 ≡ mem.mmio d.hw (d.phy_map_start_addr + addr32 p % 256 / 4 * 4)
  unfolding pcix_read_dword read_value map_window out_range window_read
  shifted_read p d base accepted w made below above =
      let off = dword_off m (addr32 p) in
      rw (accepted, has_base p base)
        (ground (
          arith,
          mem.readl-mmio d.hw d.phy2virt_mem d.phy_map_start_addr off (w made) (omega arith),
        ))
