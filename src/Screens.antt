-- ===== src/Screens.antt =====
-- The windows of lfdk: what a key does to the state of a screen, and what it writes.
pub mod Device
pub mod Grid
pub mod Hex
pub mod Mode
pub mod PciList
pub mod PciDevice
pub mod Painting
pub mod Ports
pub mod Memory
pub mod Cmos
