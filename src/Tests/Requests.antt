-- ===== src/Tests/Requests.antt =====
-- Requests for the two kinds of access, and what holds of them on the machine of `Hardware`.
use lfdk.Common.{◌+◌, ◌≡◌, ◌≢◌, refl, false, arith, [], ◌≤◌, ◌%◌}
use lfdk.Driver.Structs.{Pcix}
use lfdk.Driver.Machine.{Driver}
use lfdk.Driver.Address.{addr32, cal_pcix_addr, device_bits}
use lfdk.Driver.Pci.{is_invalid, map_window, remap, align_buf}
use lfdk.Driver.Pci.Window.{IsWindow, HasMapping}
use lfdk.Driver.Mem.{is_beyond}
use lfdk.Driver.Ioctl.{Arg}
use lfdk.Tests.Hardware.{machine, memory, fresh, board, moved}

-- Bus 2, device 5, function 1, register 6, through the ports and through a base.
abbrev pub port_request : Pcix
port_request = record {
  bus = 2;
  dev = 5;
  fun = 1;
  reg = 6;
  phy_base = 0;
  buf = 0x1122_3344;
  mass_buf = [];
}

abbrev pub mapped_request : Pcix
mapped_request = record port_request { reg = 0x104; phy_base = 0xe000_0000 }

abbrev pub block_request : Pcix
block_request = record port_request { reg = 0 }

abbrev pub mapped_block_request : Pcix
mapped_block_request = record mapped_request { reg = 0x100 }

-- A base in main memory.
abbrev pub low_request : Pcix
low_request = record port_request { phy_base = 0x1000 }

pub no_base : port_request.phy_base ≡ 0
no_base = refl

pub has_base : mapped_request.phy_base ≢ 0
has_base = ground arith

pub has_low_base : low_request.phy_base ≢ 0
has_low_base = ground arith

pub is_accepted : is_invalid machine mapped_request (align_buf (addr32 mapped_request)) ≡ false
unfolding is_invalid addr32 cal_pcix_addr device_bits
is_accepted = refl

pub block_is_accepted :
    is_invalid machine mapped_block_request (addr32 mapped_block_request) ≡ false
unfolding is_invalid addr32 cal_pcix_addr device_bits
block_is_accepted = refl

pub block_is_whole : addr32 block_request % 256 ≡ 0
unfolding addr32 cal_pcix_addr device_bits
block_is_whole = refl

pub mapped_block_is_whole : addr32 mapped_block_request % 256 ≡ 0
unfolding addr32 cal_pcix_addr device_bits
mapped_block_is_whole = refl

pub fresh-IsWindow : IsWindow memory fresh
fresh-IsWindow = record { mapped = λ made. absurd (made refl); aligned = refl }

pub is_made :
    (map_window machine
      (addr32 mapped_request)
      (align_buf (addr32 mapped_request))
      fresh).1.phy2virt_mem
    ≢ 0
unfolding map_window remap addr32 cal_pcix_addr device_bits
is_made = ground arith

pub block_is_made :
    (map_window machine
      (addr32 mapped_block_request)
      (addr32 mapped_block_request)
      fresh).1.phy2virt_mem
    ≢ 0
unfolding map_window remap addr32 cal_pcix_addr device_bits
block_is_made = ground arith

-- A driver whose mapping begins at an address that is no multiple of 256.
abbrev pub shifted : Driver machine
shifted = record {
  hw = board;
  phy2virt_mem = 0xe022_9080 + moved;
  phy_map_start_addr = 0xe022_9080;
}

abbrev pub shifted_request : Pcix
shifted_request = record mapped_request { reg = 0x0f8 }

pub shifted-HasMapping : HasMapping memory shifted
shifted-HasMapping made = refl

pub shifted_is_accepted :
    is_invalid machine shifted_request (align_buf (addr32 shifted_request)) ≡ false
unfolding is_invalid addr32 cal_pcix_addr device_bits
shifted_is_accepted = refl

pub shifted_address : addr32 shifted_request ≡ 0xe022_90f8
unfolding addr32 cal_pcix_addr device_bits
shifted_address = refl

pub low_address : align_buf (addr32 low_request) + 256 ≤ machine.high_memory
unfolding addr32 cal_pcix_addr device_bits
low_address = omega arith

pub is_inside : is_beyond machine 0x2000 ≡ false
unfolding is_beyond
is_inside = refl

abbrev pub argument : Arg
argument = record {
  pcix = port_request;
  mem = record { addr = 0; buf = 0; mass_buf = [] };
  io = record { addr = 0; buf = 0; mass_buf = [] };
}
