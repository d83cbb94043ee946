-- ===== src/Driver.antt =====
-- The kernel driver: lfdd/lfdd.c, lfdd/lfdd.h, lfdd/libpci_x86.c, lfdd/libmem.c, lfdd/libio.c.
pub mod Structs
pub mod Machine
pub mod Address
pub mod Pci
pub mod Bus
pub mod Mem
pub mod Io
pub mod Ioctl
pub mod KernelLog
