-- ===== src/Driver/Address/Fields.antt =====
-- What `lfdd_cal_pcix_addr` computes: the bus, device, function and register as fields of a sum.
use lfdk.Common.{
  ℕ, ◌+◌, ◌*◌, ◌/◌, ◌-◌, ◌%◌, ◌^◌, ◌<◌, ◌≤◌, ◌≡◌, ◌≢◌, arith, bit_or, u64, mask_byte,
  mask_five_bits, mask_seven, mask_page, or_thirty_two, or_eight, or_byte, or_page, or_enable,
  zero-bit_or,
}
use lfdk.Driver.Structs.{Pcix}
use lfdk.Driver.Address.{device_bits, cal_pcix_addr, addr32}

-- The number of a function on all buses.
abbrev pub function_number : Pcix → ℕ
function_number p = (p.bus % 256 * 32 + p.dev % 32) * 8 + p.fun % 8

device_bits_sum : (p : Pcix) → device_bits p ≡ function_number p
unfolding device_bits
device_bits_sum p = ground (
  arith,
  mask_byte p.bus,
  mask_five_bits p.dev,
  mask_seven p.fun,
  zero-bit_or (p.bus % 256),
  or_thirty_two (p.bus % 256) (p.dev % 32),
  or_eight (p.bus % 256 * 32 + p.dev % 32) (p.fun % 8),
)

device_bits-lt : (p : Pcix) → device_bits p < 65536
device_bits-lt p = omega (arith, device_bits_sum p)

port_sum :
    (d reg : ℕ)
    → d < 65536
    → reg < 256
    → bit_or (bit_or (u64 (d * 2 ^ 8)) 0x80000000) reg ≡ 0x80000000 + d * 256 + reg
port_sum d reg small low = ground (arith, or_enable (d * 256), or_byte (d + 0x800000) reg)

-- The port form, for a register of the first 256 bytes: the enable bit, then the fields.
pub addr32_port :
    (p : Pcix)
    → p.phy_base ≡ 0
    → p.reg < 256
    → addr32 p ≡ 0x80000000 + function_number p * 256 + p.reg
unfolding addr32 cal_pcix_addr
addr32_port p base low =
    ground (arith, device_bits_sum p, device_bits-lt p, port_sum (device_bits p) p.reg)

-- The memory-mapped form, below a base that leaves room for every function under 4 GB.
pub addr32_mapped :
    (p : Pcix)
    → p.phy_base ≢ 0
    → p.phy_base + 2 ^ 28 ≤ 2 ^ 32
    → addr32 p ≡ p.phy_base + function_number p * 4096 + p.reg % 4096
unfolding addr32 cal_pcix_addr
addr32_mapped p base room = ground (
  arith,
  device_bits_sum p,
  device_bits-lt p,
  mask_page p.reg,
  or_page (device_bits p) (p.reg % 4096),
)

pub addr32-lt : (p : Pcix) → addr32 p < 2 ^ 32
unfolding addr32
addr32-lt p = omega arith

-- The dword that the bridge selects for a port access reads back as the enable bit and the bus,
-- device, function and register that were asked for, for a register of the first 256 bytes.
pub port_decodes :
    (p : Pcix)
    → p.phy_base ≡ 0
    → p.reg < 256
    → (addr32 p / 2 ^ 31 ≡ 1)
      × (addr32 p / 2 ^ 16 % 2 ^ 15 ≡ p.bus % 256)
      × (addr32 p / 2 ^ 11 % 32 ≡ p.dev % 32)
      × (addr32 p / 2 ^ 8 % 8 ≡ p.fun % 8)
      × (addr32 p % 256 ≡ p.reg)
port_decodes p base low = omega (arith, addr32_port p base low)

-- Under a base that leaves 256 MB below 4 GB, the offset from the base reads back as the bus,
-- device, function and register that were asked for, and no part of the sum is cut off.
pub mapped_decodes :
    (p : Pcix)
    → p.phy_base ≢ 0
    → p.phy_base + 2 ^ 28 ≤ 2 ^ 32
    → ((addr32 p - p.phy_base) / 2 ^ 20 ≡ p.bus % 256)
      × ((addr32 p - p.phy_base) / 2 ^ 15 % 32 ≡ p.dev % 32)
      × ((addr32 p - p.phy_base) / 2 ^ 12 % 8 ≡ p.fun % 8)
      × ((addr32 p - p.phy_base) % 2 ^ 12 ≡ p.reg % 2 ^ 12)
      × (p.phy_base ≤ addr32 p)
mapped_decodes p base room = omega (arith, addr32_mapped p base room)
