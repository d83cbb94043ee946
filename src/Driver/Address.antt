-- ===== src/Driver/Address.antt =====
-- `lfdd_cal_pcix_addr` of lfdd/libpci_x86.c, with the bit operations and widths of the source.
pub mod Fields
use lfdk.Common.{ℕ, ◌+◌, ◌*◌, ◌^◌, bit_and, bit_or, u32, u64, if◌then◌else◌, ◌==◌}
use lfdk.Driver.Structs.{Pcix}

-- The three fields that both forms begin with, on `uint64_t`.
unfoldable pub device_bits : Pcix → ℕ
device_bits p =
    let bus = bit_or 0 (bit_and p.bus 0xff) in
    let dev = bit_or (u64 (bus * 2 ^ 5)) (bit_and p.dev 0x1f) in
    bit_or (u64 (dev * 2 ^ 3)) (bit_and p.fun 0x07)

-- `lfdd_cal_pcix_addr`: the port form without a base, the memory-mapped form with one.
unfoldable pub cal_pcix_addr : Pcix → ℕ
cal_pcix_addr p =
    let addr = device_bits p in
    if p.phy_base == 0
    then bit_or (bit_or (u64 (addr * 2 ^ 8)) 0x80000000) p.reg
    else u64 (bit_or (u64 (addr * 2 ^ 12)) (bit_and p.reg 0x0fff) + p.phy_base)

-- `uint32_t addr = (uint32_t) lfdd_cal_pcix_addr( ppci )`, as each operation begins.
unfoldable pub addr32 : Pcix → ℕ
addr32 p = u32 (cal_pcix_addr p)
