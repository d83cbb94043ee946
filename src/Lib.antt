-- ===== src/Lib.antt =====
-- A model of LFDK, a tool to look at and change the registers of a PC: the kernel driver lfdd and the
-- terminal program lfdk that calls it.
--
-- The driver answers ioctl calls. lfdd/lfdd.c copies the request in, calls one of lfdd/libpci_x86.c,
-- lfdd/libmem.c and lfdd/libio.c, and copies the answer out. The program keeps a pool of windows, one
-- for each kind of register, with one window in the foreground; the windows ask the manager in
-- lfdk/lfdk.c to switch by messages, and send ioctl calls to the driver.
--
-- Common: tests on numbers, lists indexed by native numbers, the bits of masks, widths of words.
-- Driver: the driver. Driver.Structs has the requests of lfdd/lfdd.h, Driver.Machine what the driver
--   calls of the kernel and its state (the mapping that libpci_x86.c keeps), Driver.Address
--   `lfdd_cal_pcix_addr`, Driver.Pci the functions `lfdd_pcix_*`, Driver.Mem `lfdd_mem_*`, Driver.Io
--   `lfdd_io_*` and Driver.Ioctl `lfdd_ioctl`. An operation takes the driver with the hardware to a
--   value and the driver after it.
-- Windows: the manager of lfdk/lfdk.c. Windows.State has its data, Windows.Requests the calls that it
--   offers, Windows.Hooks the calls of the modules' functions, Windows.Messages
--   `handle_message_event` and Windows.Events the other events.
-- Main: `main` of lfdk/lfdk.c. Main.Options reads the options, Main.Loop has the rounds of the loop
--   over the keys, and Main.Program the start, the labels at the end and the whole.
-- Log: lfdk/debug.c. Driver.KernelLog has `lfdd_write` of lfdd/lfdd.c, where its messages go.
-- Screens: what keys do and what is shown. Screens.Hex has the entry of digits that the key functions
--   share, Screens.Mode the widths, Screens.Grid the grid of 256 bytes that the drawing functions print
--   alike, Screens.Device the macro `LFDD_IOCTL` and Screens.Painting the `paint` functions.
--   Screens.Memory models `mem_key_press`, `WriteMemValue` and, in its Paint, `PrintMemScreen` of
--   lfdk/libmem.c, Screens.Cmos the same of lfdk/libcmos.c with its two ports, Screens.Ports of
--   lfdk/libio.c, Screens.PciDevice of lfdk/lib_pci_dev.c, and Screens.PciList `pci_list_key_press` and
--   `PrintPCILScreen` of lfdk/lib_pci_list.c.
-- Scan: the search of lfdk/lib_pci_scan.c. Scan.Calls has the calls of the driver as a parameter,
--   Scan.Driven puts Driver.Ioctl in its place; Scan.Names models `ReadLine`, `CompareID` and
--   `GetVendorAndDeviceTexts`, Scan.Capabilities `AssignMMIOBase`, Scan.Devices `ScanPCIDevice`,
--   Scan.Mcfg `find_mmio_in_MCFG` and `pci_scan_init`, and Scan.Validate the functions that compare the
--   two ways to a register, of which `ValidationPCIE` is called nowhere. A part that can end early gives an option or
--   the way in which it ended, with the state.
-- Tests: concrete inputs for the theorems with conditions.
--
-- Port input and output, ioremap, readl and writel, the direct map and copy_from_user are not in the
-- repository: they are fields of Driver.Machine and Driver.Ioctl, and Driver.Bus and Driver.Mem.Ram
-- state the documented behaviour that theorems rely on. The functions behind a window's pointers are a
-- parameter too: from the manager, which they may ask for a window's state, and the state of the modules
-- they give that state after a call, the requests made, and whether `LFDD_IOCTL` ended the program by
-- `exit( 1 )`. Once it did, no function is called any more and `main` ends there. A message whose target
-- is no window counts as an access outside the pool, whatever the function of the old window does first.
--
-- The message loop runs until the box is empty, and a function that it calls may post again, so it
-- takes fuel; fuel for the messages in the box is enough when the functions called post nothing. The
-- search for names takes fuel for one round more than the file has bytes, which is enough when no line
-- is longer than the buffer; a file on which `read` fails is a case of its own, in which the search does
-- not return. The walk over the capabilities has the limit of 64 rounds that the program gives it. All other loops are
-- bounded by what they run over.
--
-- The loop of `main` runs over a list of what `getch` returns, and each of its rounds has the fuel of
-- the message loop; fuel for the 32 messages of a full box is enough there. The inner loop of the grid
-- has the 16 rounds of its narrowest width. What `getopt`, `atoi`, `strtoll`, `open` and `fopen` answer
-- is an argument.
--
-- One call of the driver runs at a time, but for Driver.Pci.Race: there the byte reads of device memory
-- by several calls interleave, each in two steps, the mapping as a whole, which `lfdd_lock` does not
-- protect, and the read under the lock. Finer orders, within a mapping, are left out.
--
-- Left out: the lock itself, the registration of the device, the calls of the terminal library as such
-- (panels, the texts that never change, lfdk/libbase.c with the clock), and lfdk/list.h, which is a copy
-- of the list of the Linux kernel.
pub mod Common
pub mod Driver
pub mod Log
pub mod Main
pub mod Windows
pub mod Scan
pub mod Screens
pub mod Tests
