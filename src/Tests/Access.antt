-- ===== src/Tests/Access.antt =====
-- The theorems on lfdd/libpci_x86.c at one request each.
use lfdk.Common.{
  ◌+◌, ◌*◌, ◌/◌, ◌%◌, ◌^◌, ◌≡◌, inr, some, arith, length, get_elem?, if◌then◌else◌, ◌==◌,
}
use lfdk.Driver.Address.{addr32}
use lfdk.Driver.Bus.{byte_at}
use lfdk.Driver.Pci.{
  pcix_read_byte, pcix_read_word, pcix_read_dword, pcix_write_byte, pcix_write_word,
  pcix_write_dword, pcix_read_256byte,
}
use lfdk.Driver.Pci.Window.{IsWindow}
use lfdk.Driver.Pci.Registers.{reads_refine, writes_refine}
use lfdk.Driver.Pci.Mapped.{reads_mapped, writes_mapped}
use lfdk.Driver.Pci.Block.{read_256byte_ports, read_256byte_mapped}
use lfdk.Driver.Pci.Guard.{refused, shifted_read}
use lfdk.Driver.Pci.Invariant.{accesses-IsWindow}
use lfdk.Tests.Hardware.{machine, ports, memory, board, fresh}
use lfdk.Tests.Requests.{
  port_request, mapped_request, block_request, mapped_block_request, low_request, no_base, has_base,
  has_low_base, is_accepted, block_is_accepted, block_is_whole, mapped_block_is_whole,
  fresh-IsWindow, is_made, block_is_made, shifted, shifted_request, shifted-HasMapping,
  shifted_is_accepted, shifted_address, low_address,
}

reads_refine_example :
    (((pcix_read_byte machine port_request fresh).0
        ≡ byte_at (ports.config board) (addr32 port_request))
      × (byte_at (ports.config (pcix_read_byte machine port_request fresh).1.hw) 3
          ≡ byte_at (ports.config board) 3)
      × (ports.latch (pcix_read_byte machine port_request fresh).1.hw ≡ 8))
    × (((pcix_read_word machine port_request fresh).0
          ≡ byte_at (ports.config board) (addr32 port_request)
            + (if addr32 port_request % 4 == 3
                then 0
                else byte_at (ports.config board) (addr32 port_request + 1) * 256))
        × (byte_at (ports.config (pcix_read_word machine port_request fresh).1.hw) 3
            ≡ byte_at (ports.config board) 3)
        × (ports.latch (pcix_read_word machine port_request fresh).1.hw ≡ 8))
    × (let addr = addr32 port_request / 4 * 4 in
        ((pcix_read_dword machine port_request fresh).0
          ≡ byte_at (ports.config board) addr
            + byte_at (ports.config board) (addr + 1) * 2 ^ 8
            + byte_at (ports.config board) (addr + 2) * 2 ^ 16
            + byte_at (ports.config board) (addr + 3) * 2 ^ 24)
        × (byte_at (ports.config (pcix_read_dword machine port_request fresh).1.hw) 3
            ≡ byte_at (ports.config board) 3)
        × (ports.latch (pcix_read_dword machine port_request fresh).1.hw ≡ 8))
reads_refine_example = reads_refine ports port_request fresh no_base 3

writes_refine_example :
    ((byte_at (ports.config (pcix_write_byte machine block_request fresh).1.hw) 3
        ≡ (if 3 == addr32 block_request then 0x44 else byte_at (ports.config board) 3))
      × (ports.latch (pcix_write_byte machine block_request fresh).1.hw ≡ 8))
    × ((byte_at (ports.config (pcix_write_word machine block_request fresh).1.hw) 3
          ≡ (if 1 == addr32 block_request / 2 then 0x33 else byte_at (ports.config board) 3))
        × (ports.latch (pcix_write_word machine block_request fresh).1.hw ≡ 8))
    × ((byte_at (ports.config (pcix_write_dword machine block_request fresh).1.hw) 3 ≡ (
          if addr32 block_request % 4 == 0
          then (if 0 == addr32 block_request / 4 then 0x11 else byte_at (ports.config board) 3)
          else byte_at (ports.config board) 3))
        × (ports.latch (pcix_write_dword machine block_request fresh).1.hw ≡ 8))
writes_refine_example = writes_refine ports block_request fresh no_base 3

reads_mapped_example :
    (((pcix_read_byte machine mapped_request fresh).0
        ≡ byte_at (memory.mmio board) (addr32 mapped_request))
      × (byte_at (memory.mmio (pcix_read_byte machine mapped_request fresh).1.hw) 3
          ≡ byte_at (memory.mmio board) 3))
    × (((pcix_read_word machine mapped_request fresh).0
          ≡ byte_at (memory.mmio board) (addr32 mapped_request)
            + (if addr32 mapped_request % 4 == 3
                then 0
                else byte_at (memory.mmio board) (addr32 mapped_request + 1) * 256))
        × (byte_at (memory.mmio (pcix_read_word machine mapped_request fresh).1.hw) 3
            ≡ byte_at (memory.mmio board) 3))
    × (let addr = addr32 mapped_request / 4 * 4 in
        ((pcix_read_dword machine mapped_request fresh).0
          ≡ byte_at (memory.mmio board) addr
            + byte_at (memory.mmio board) (addr + 1) * 2 ^ 8
            + byte_at (memory.mmio board) (addr + 2) * 2 ^ 16
            + byte_at (memory.mmio board) (addr + 3) * 2 ^ 24)
        × (byte_at (memory.mmio (pcix_read_dword machine mapped_request fresh).1.hw) 3
            ≡ byte_at (memory.mmio board) 3))
reads_mapped_example =
    reads_mapped memory mapped_request fresh has_base is_accepted fresh-IsWindow is_made 3

writes_mapped_example :
    (byte_at (memory.mmio (pcix_write_byte machine mapped_request fresh).1.hw) 3
      ≡ (if 3 == addr32 mapped_request then 0x44 else byte_at (memory.mmio board) 3))
    × (byte_at (memory.mmio (pcix_write_word machine mapped_request fresh).1.hw) 3
        ≡ (if 1 == addr32 mapped_request / 2 then 0x33 else byte_at (memory.mmio board) 3))
    × (byte_at (memory.mmio (pcix_write_dword machine mapped_request fresh).1.hw) 3 ≡ (
        if addr32 mapped_request % 4 == 0
        then (if 0 == addr32 mapped_request / 4 then 0x11 else byte_at (memory.mmio board) 3)
        else byte_at (memory.mmio board) 3))
writes_mapped_example =
    writes_mapped memory mapped_request fresh has_base is_accepted fresh-IsWindow is_made 3

read_256byte_ports_example :
    (length (pcix_read_256byte machine block_request fresh).0 ≡ 256)
    × (get_elem? (pcix_read_256byte machine block_request fresh).0 5
        ≡ some (byte_at (ports.config board) (addr32 block_request + 5)))
    × (ports.config (pcix_read_256byte machine block_request fresh).1.hw 3 ≡ ports.config board 3)
    × (ports.latch (pcix_read_256byte machine block_request fresh).1.hw ≡ 8)
read_256byte_ports_example =
    read_256byte_ports ports block_request fresh no_base block_is_whole 5 3 (omega arith)

read_256byte_mapped_example :
    (length (pcix_read_256byte machine mapped_block_request fresh).0 ≡ 256)
    × (get_elem? (pcix_read_256byte machine mapped_block_request fresh).0 5
        ≡ some (byte_at (memory.mmio board) (addr32 mapped_block_request + 5)))
    × (memory.mmio (pcix_read_256byte machine mapped_block_request fresh).1.hw 3
        ≡ memory.mmio board 3)
read_256byte_mapped_example =
    read_256byte_mapped memory mapped_block_request fresh has_base block_is_accepted
      mapped_block_is_whole fresh-IsWindow block_is_made 5 3 (omega arith)

refused_example :
    (pcix_read_byte machine low_request fresh ≡ (0xff, fresh))
    × (pcix_read_word machine low_request fresh ≡ (0xffff, fresh))
    × (pcix_read_dword machine low_request fresh ≡ (0xffff_ffff, fresh))
    × (pcix_write_byte machine low_request fresh ≡ (tt, fresh))
    × (pcix_write_word machine low_request fresh ≡ (tt, fresh))
    × (pcix_write_dword machine low_request fresh ≡ (tt, fresh))
refused_example = refused machine low_request fresh has_low_base (inr low_address)

shifted_read_example :
    (pcix_read_dword machine shifted_request shifted).0
    ≡ memory.mmio board (0xe022_9080 + addr32 shifted_request % 256 / 4 * 4)
shifted_read_example =
    shifted_read memory shifted_request shifted has_base shifted_is_accepted shifted-HasMapping
      (ground arith) (omega (arith, shifted_address)) (omega (arith, shifted_address))

accesses-IsWindow_example :
    IsWindow memory (pcix_read_byte machine mapped_request fresh).1
    × IsWindow memory (pcix_read_word machine mapped_request fresh).1
    × IsWindow memory (pcix_read_dword machine mapped_request fresh).1
    × IsWindow memory (pcix_write_byte machine mapped_request fresh).1
    × IsWindow memory (pcix_write_word machine mapped_request fresh).1
    × IsWindow memory (pcix_write_dword machine mapped_request fresh).1
accesses-IsWindow_example = accesses-IsWindow memory mapped_request fresh fresh-IsWindow
