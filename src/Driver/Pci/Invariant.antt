-- ===== src/Driver/Pci/Invariant.antt =====
-- Each single access of lfdd/libpci_x86.c keeps the mapping that the driver believes in.
use lfdk.Common.{
  ℕ, ◌*◌, ◌/◌, ◌||◌, not, ◌==◌, bit_and, inl, inr, Bool-cases, Bool, true, false, if◌then◌else◌,
}
use lfdk.Driver.Structs.{Pcix}
use lfdk.Driver.Machine.{Machine, Driver, Run, ◌>>◌, pure}
use lfdk.Driver.Address.{addr32}
use lfdk.Driver.Bus.{DeviceMemory}
use lfdk.Driver.Pci.{
  addr_port, data_port, align_buf, dword_off, merge_byte, merge_word, is_invalid, map_window,
  port_read, port_update, port_write, window_read, window_update, window_write, read_value,
  update_value, pcix_read_byte, pcix_read_word, pcix_read_dword, pcix_write_byte, pcix_write_word,
  pcix_write_dword,
}
use lfdk.Driver.Pci.Window.{
  IsWindow, map_window-IsWindow, window_read-HasMapping, window_update-HasMapping,
  window_write-HasMapping,
}

module _ {m : Machine} (mem : DeviceMemory m) where
  open mem use {Mapped, inl-Mapped, outl-Mapped}

  port_read-IsWindow :
      (addr : ℕ) (d : Driver m) → IsWindow mem d → IsWindow mem (port_read m addr d).1
  unfolding port_read
  port_read-IsWindow addr d w = record {
    mapped = λ made. outl-Mapped _ addr_port _ _ _ (
        inl-Mapped data_port _ _ _
          (outl-Mapped addr addr_port _ _ _ (inl-Mapped addr_port d.hw _ _ (w.mapped made))));
    aligned = w.aligned;
  }

  port_write-IsWindow :
      (addr buf : ℕ) (d : Driver m) → IsWindow mem d → IsWindow mem (port_write m addr buf d).1
  unfolding port_write
  port_write-IsWindow addr buf d w = record {
    mapped = λ made. outl-Mapped _ addr_port _ _ _ (
        outl-Mapped buf data_port _ _ _
          (outl-Mapped addr addr_port _ _ _ (inl-Mapped addr_port d.hw _ _ (w.mapped made))));
    aligned = w.aligned;
  }

  port_update-IsWindow :
      (addr : ℕ) (merge : ℕ → ℕ) (d : Driver m)
      → IsWindow mem d
      → IsWindow mem (port_update m addr merge d).1
  unfolding port_update
  port_update-IsWindow addr merge d w = record {
    mapped = λ made. outl-Mapped _ addr_port _ _ _ (
        outl-Mapped _ data_port _ _ _ (
          inl-Mapped data_port _ _ _
            (outl-Mapped addr addr_port _ _ _ (inl-Mapped addr_port d.hw _ _ (w.mapped made)))));
    aligned = w.aligned;
  }

  read_value-IsWindow :
      (p : Pcix) (addr : ℕ) (d : Driver m) → IsWindow mem d → IsWindow mem (read_value m p addr d).1
  unfolding read_value window_read
  read_value-IsWindow p addr d w = elim (Bool-cases (p.phy_base == 0)) [
    | inl ports ↦ rw ports (port_read-IsWindow (addr / 4 * 4) d w)
    | inr base ↦ rw base (
        let v = map_window-IsWindow mem addr d w in
        record {
          mapped = window_read-HasMapping mem (dword_off m addr) _ v.mapped;
          aligned = v.aligned;
        })
  ]

  update_value-IsWindow :
      (p : Pcix) (addr : ℕ) (merge : ℕ → ℕ) (d : Driver m)
      → IsWindow mem d
      → IsWindow mem (update_value m p addr merge d).1
  unfolding update_value window_update
  update_value-IsWindow p addr merge d w = elim (Bool-cases (p.phy_base == 0)) [
    | inl ports ↦ rw ports (port_update-IsWindow (addr / 4 * 4) merge d w)
    | inr base ↦ rw base (
        let v = map_window-IsWindow mem addr d w in
        record {
          mapped = window_update-HasMapping mem (dword_off m addr) merge _ v.mapped;
          aligned = v.aligned;
        })
  ]

  write_value-IsWindow :
      (p : Pcix) (addr : ℕ) (d : Driver m)
      → IsWindow mem d
      → IsWindow mem
          ((if p.phy_base == 0
              then port_write m addr p.buf
              else (map_window m addr (align_buf addr) >> window_write m (dword_off m addr) p.buf))
            d).1
  unfolding window_write
  write_value-IsWindow p addr d w = elim (Bool-cases (p.phy_base == 0)) [
    | inl ports ↦ rw ports (port_write-IsWindow addr p.buf d w)
    | inr base ↦ rw base (
        let v = map_window-IsWindow mem addr d w in
        record {
          mapped = window_write-HasMapping mem (dword_off m addr) p.buf _ v.mapped;
          aligned = v.aligned;
        })
  ]

  guarded :
      {A : Type 0} (refuse : Bool) (a : A) (r : Run m A) (d : Driver m)
      → IsWindow mem d
      → IsWindow mem (r d).1
      → IsWindow mem ((if refuse then pure a else r) d).1
  guarded true a r d w v = w
  guarded false a r d w v = v

  -- When the mapping that the driver believes in, if any, is there and begins at a multiple of 256,
  -- the same holds after each of the six single accesses, with a base or without, accepted or
  -- refused.
  pub accesses-IsWindow :
      (p : Pcix) (d : Driver m)
      → IsWindow mem d
      → IsWindow mem (pcix_read_byte m p d).1
        × IsWindow mem (pcix_read_word m p d).1
        × IsWindow mem (pcix_read_dword m p d).1
        × IsWindow mem (pcix_write_byte m p d).1
        × IsWindow mem (pcix_write_word m p d).1
        × IsWindow mem (pcix_write_dword m p d).1
  unfolding pcix_read_byte pcix_read_word pcix_read_dword pcix_write_byte pcix_write_word
      pcix_write_dword
  accesses-IsWindow p d w =
      let addr = addr32 p in
      let refuse = is_invalid m p (align_buf addr) in
      let read = read_value-IsWindow p addr d w in
      (
        guarded refuse 0xff _ d w read,
        guarded refuse 0xffff _ d w read,
        guarded refuse 0xffff_ffff _ d w read,
        guarded refuse tt _ d w (update_value-IsWindow p addr (merge_byte addr p.buf) d w),
        guarded refuse tt _ d w (update_value-IsWindow p addr (merge_word addr p.buf) d w),
        guarded (not (bit_and addr 0x3 == 0) || refuse) tt _ d w (write_value-IsWindow p addr d w),
      )
