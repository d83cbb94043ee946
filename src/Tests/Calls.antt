-- ===== src/Tests/Calls.antt =====
-- The theorems on lfdd/lfdd.c and lfdd/libmem.c at one call each.
use lfdk.Common.{inl, ◌≡◌, refl, none, some, arith}
use lfdk.Driver.Structs.{Command}
use lfdk.Driver.Mem.{
  mem_read_byte, mem_read_word, mem_read_dword, mem_write_byte, mem_write_word, mem_write_dword,
}
use lfdk.Driver.Mem.Range.{beyond_memory}
use lfdk.Driver.Mem.Ram.{ram-writes}
use lfdk.Driver.Ioctl.{UserAccess, left, ioctl}
use lfdk.Driver.Ioctl.EndToEnd.{CopiesAll, after, read_back}
use lfdk.Tests.Hardware.{machine, ports, direct_map, fresh}
use lfdk.Tests.Requests.{argument, port_request, no_base, is_inside}

-- A caller whose memory is all there, and one with none.
abbrev pub present : UserAccess
present = record { from_user = λ a. some a; to_user = λ a b. (0, b) }

abbrev missing : UserAccess
missing = record { from_user = λ a. none; to_user = λ a b. (0, a) }

pub present-CopiesAll : CopiesAll present
present-CopiesAll = record { from_user_all = λ a. refl; to_user_all = λ a b. refl }

read_back_example :
    (ioctl machine present Command.pci_read_byte argument
      (after machine present Command.pci_write_byte argument fresh)).0
    ≡ (left 0, record argument { pcix = record port_request { buf = 0x44 } })
read_back_example = read_back ports present present-CopiesAll argument fresh no_base

beyond_memory_example :
    (mem_read_byte machine 0x4000_0000 fresh ≡ (0xff, fresh))
    × (mem_read_word machine 0x4000_0000 fresh ≡ (0xff, fresh))
    × (mem_read_dword machine 0x4000_0000 fresh ≡ (0xff, fresh))
    × (mem_write_byte machine 5 0x4000_0000 fresh ≡ (tt, fresh))
    × (mem_write_word machine 5 0x4000_0000 fresh ≡ (tt, fresh))
    × (mem_write_dword machine 5 0x4000_0000 fresh ≡ (tt, fresh))
beyond_memory_example = beyond_memory machine 0x4000_0000 5 fresh (omega arith) (inl (omega arith))

ram-writes_example :
    (direct_map.ram (mem_write_byte machine 0x1234 0x2000 fresh).1.hw 0x2000 ≡ 0x34)
    × (direct_map.ram (mem_write_word machine 0x1234 0x2000 fresh).1.hw 0x2000 ≡ 0x34)
    × (direct_map.ram (mem_write_dword machine 0x1234 0x2000 fresh).1.hw 0x2000 ≡ 0x34)
ram-writes_example = ram-writes direct_map 0x2000 0x1234 fresh is_inside 0x2000
