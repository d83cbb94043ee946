-- ===== src/Driver/Ioctl/Memory.antt =====
-- The commands on main memory when the copies succeed.
use lfdk.Common.{◌≡◌}
use lfdk.Driver.Structs.{Command}
use lfdk.Driver.Machine.{Machine, Driver}
use lfdk.Driver.Mem.{mem_write_byte, mem_write_word, mem_write_dword, mem_read_256byte}
use lfdk.Driver.Ioctl.{Arg, left, UserAccess, ioctl, mem_block}
use lfdk.Driver.Ioctl.EndToEnd.{CopiesAll, reading_all, writing_all}

module _ {m : Machine} {user : UserAccess} (copies : CopiesAll user) (arg : Arg)
    (d : Driver m) where
  pub ioctl-mem_read_256byte : ioctl m user Command.mem_read_256byte arg d ≡ (
    (left 0, record arg { mem = record (arg.mem) { mass_buf = (mem_read_256byte m arg.mem d).0 } }),
    (mem_read_256byte m arg.mem d).1,
  )
  unfolding ioctl mem_block
  ioctl-mem_read_256byte = reading_all copies arg (mem_block m user) d

  pub ioctl-mem_write_byte :
      ioctl m user Command.mem_write_byte arg d
      ≡ ((left 0, arg), (mem_write_byte m arg.mem.buf arg.mem.addr d).1)
  unfolding ioctl
  ioctl-mem_write_byte = writing_all copies arg (λ a. mem_write_byte m a.mem.buf a.mem.addr) d

  pub ioctl-mem_write_word :
      ioctl m user Command.mem_write_word arg d
      ≡ ((left 0, arg), (mem_write_word m arg.mem.buf arg.mem.addr d).1)
  unfolding ioctl
  ioctl-mem_write_word = writing_all copies arg (λ a. mem_write_word m a.mem.buf a.mem.addr) d

  pub ioctl-mem_write_dword :
      ioctl m user Command.mem_write_dword arg d
      ≡ ((left 0, arg), (mem_write_dword m arg.mem.buf arg.mem.addr d).1)
  unfolding ioctl
  ioctl-mem_write_dword = writing_all copies arg (λ a. mem_write_dword m a.mem.buf a.mem.addr) d
