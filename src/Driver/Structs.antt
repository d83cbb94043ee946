-- ===== src/Driver/Structs.antt =====
-- The structures that the ioctl calls of lfdd/lfdd.h carry, and the command numbers.
-- Each numeric field is a native number; the widths are stated where a theorem needs them.
use lfdk.Common.{ℕ, ◌^◌, ◌<◌, List}

-- `LFDD_MASSBUF_SIZE`.
abbrev pub massbuf_size : ℕ
massbuf_size = 256

-- `struct lfdd_pcix_t`.
pub record Pcix : Type 0 where
  pub bus : ℕ
  pub dev : ℕ
  pub fun : ℕ
  pub reg : ℕ
  pub phy_base : ℕ
  pub buf : ℕ
  pub mass_buf : List ℕ

-- `struct lfdd_mem_t`.
pub record MemCmd : Type 0 where
  pub addr : ℕ
  pub buf : ℕ
  pub mass_buf : List ℕ

-- `struct lfdd_io_t`.
pub record IoCmd : Type 0 where
  pub addr : ℕ
  pub buf : ℕ
  pub mass_buf : List ℕ

-- The widths of `struct lfdd_pcix_t`.
pub record IsPcix (p : Pcix) : Type 0 where
  pub bus_byte : p.bus < 256
  pub dev_byte : p.dev < 256
  pub fun_byte : p.fun < 256
  pub reg_half : p.reg < 65536
  pub base_word : p.phy_base < 2 ^ 64
  pub buf_word : p.buf < 2 ^ 32

-- The commands of the enumeration that lfdd.h numbers.
pub data Command : Type 0 where
  pci_read_byte pci_read_word pci_read_dword : Command
  pci_write_byte pci_write_word pci_write_dword pci_read_256byte : Command
  mem_read_byte mem_read_word mem_read_dword : Command
  mem_write_byte mem_write_word mem_write_dword mem_read_256byte : Command
  io_read_byte io_read_word io_read_dword : Command
  io_write_byte io_write_word io_write_dword io_read_256byte : Command
