-- ===== src/Scan.antt =====
-- lfdk/lib_pci_scan.c: the search for PCI devices, their names and their memory base.
pub mod Names
pub mod Calls
pub mod Capabilities
pub mod Mcfg
pub mod Validate
pub mod Devices
pub mod Driven
