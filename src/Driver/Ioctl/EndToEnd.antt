-- ===== src/Driver/Ioctl/EndToEnd.antt =====
-- A write and a read of configuration space as a client of the device sees them.
use lfdk.Common.{u8, ◌%◌, ◌≡◌, some, arith}
use lfdk.Driver.Structs.{Command}
use lfdk.Driver.Machine.{Machine, Driver, Run}
use lfdk.Driver.Address.{addr32}
use lfdk.Driver.Bus.{ConfigPorts}
use lfdk.Driver.Pci.{pcix_read_word, pcix_read_dword, pcix_read_byte, pcix_write_byte}
use lfdk.Driver.Pci.Registers.{read_byte_refines, write_byte_refines}
use lfdk.Driver.Io.{io_write_byte}
use lfdk.Driver.Ioctl.{Arg, left, UserAccess, ioctl, reading, writing, reply_with, pci_buf}

-- The copies between the driver and the caller succeed.
pub record CopiesAll (user : UserAccess) : Type 0 where
  pub from_user_all : (a : Arg) → user.from_user a ≡ some a
  pub to_user_all : (a b : Arg) → user.to_user a b ≡ (0, b)

-- The state after a command.
abbrev pub after : (m : Machine) (user : UserAccess) → Command → Arg → Driver m → Driver m
after m user c arg d = (ioctl m user c arg d).1

module _ {m : Machine} {user : UserAccess} (copies : CopiesAll user) where
  pub reading_all :
      (arg : Arg) (run : Arg → Run m Arg) (d : Driver m)
      → reading m user arg run d ≡ ((left 0, (run arg d).0), (run arg d).1)
  unfolding reading reply_with
  reading_all arg run d =
      ground (arith, copies.from_user_all arg, copies.to_user_all arg (run arg d).0)

  pub writing_all :
      (arg : Arg) (run : Arg → Run m (Unit {0})) (d : Driver m)
      → writing m user arg run d ≡ ((left 0, arg), (run arg d).1)
  unfolding writing
  writing_all arg run d = ground (arith, copies.from_user_all arg)

-- A byte put out to a port by a call.
pub ioctl-io_write_byte :
    {m : Machine} {user : UserAccess} (arg : Arg) (d : Driver m)
    → CopiesAll user
    → ioctl m user Command.io_write_byte arg d
      ≡ ((left 0, arg), record d { hw = m.outb (u8 arg.io.buf) arg.io.addr d.hw })
unfolding ioctl io_write_byte
ioctl-io_write_byte {m} arg d copies =
    writing_all copies arg (λ a. io_write_byte m a.io.buf a.io.addr) d

-- A word and a dword read by a call.
module _ {m : Machine} {user : UserAccess} (arg : Arg) (d : Driver m)
    (copies : CopiesAll user) where
  pub ioctl-pci_read_word : ioctl m user Command.pci_read_word arg d ≡ (
    (left 0, record arg { pcix = record (arg.pcix) { buf = (pcix_read_word m arg.pcix d).0 } }),
    (pcix_read_word m arg.pcix d).1,
  )
  unfolding ioctl pci_buf
  ioctl-pci_read_word = reading_all copies arg (pci_buf m user (pcix_read_word m)) d

  pub ioctl-pci_read_dword : ioctl m user Command.pci_read_dword arg d ≡ (
    (left 0, record arg { pcix = record (arg.pcix) { buf = (pcix_read_dword m arg.pcix d).0 } }),
    (pcix_read_dword m arg.pcix d).1,
  )
  unfolding ioctl pci_buf
  ioctl-pci_read_dword = reading_all copies arg (pci_buf m user (pcix_read_dword m)) d

-- When the copies from and to the caller succeed, a byte written to a register without a base by
-- one call is what the next call of the same request reads: the low byte of `buf`, copied back in
-- `buf`, with the count 0 of bytes left.
pub read_back :
    {m : Machine} (ports : ConfigPorts m) (user : UserAccess)
    → CopiesAll user
    → (arg : Arg) (d : Driver m) → arg.pcix.phy_base ≡ 0
    → (ioctl m user Command.pci_read_byte arg (after m user Command.pci_write_byte arg d)).0
      ≡ (left 0, record arg { pcix = record (arg.pcix) { buf = arg.pcix.buf % 256 } })
unfolding ioctl pci_buf
read_back {m} ports user copies arg d no_base =
    let p = arg.pcix in
    let d' = (pcix_write_byte m p d).1 in
    let value = (read_byte_refines ports p d' no_base 0).0 in
    let written = (write_byte_refines ports p d no_base (addr32 p)).0 in
    rw (writing_all copies arg (λ a. pcix_write_byte m a.pcix) d, after)
      (rw (reading_all copies arg (pci_buf m user (pcix_read_byte m)) d')
        (ground (arith, value, written)))
