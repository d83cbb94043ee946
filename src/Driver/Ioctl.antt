-- ===== src/Driver/Ioctl.antt =====
-- lfdd/lfdd.c: `lfdd_ioctl`, from the command and the caller's structure to the reply.
-- The request structure is the caller's memory read as each of the three structures of lfdd.h.
-- `copy_from_user` and `copy_to_user` are parameters.
pub mod Replies
pub mod EndToEnd
pub mod Memory
use lfdk.Common.{ℕ, List, Option, none, some, replicate}
use lfdk.Driver.Structs.{Pcix, MemCmd, IoCmd, Command, massbuf_size}
use lfdk.Driver.Machine.{Machine, Run, ◌>>=◌, pure}
use lfdk.Driver.Pci.{
  pcix_read_byte, pcix_read_word, pcix_read_dword, pcix_write_byte, pcix_write_word,
  pcix_write_dword, pcix_read_256byte,
}
use lfdk.Driver.Mem.{
  mem_read_byte, mem_read_word, mem_read_dword, mem_write_byte, mem_write_word, mem_write_dword,
  mem_read_256byte,
}
use lfdk.Driver.Io.{io_read_byte, io_write_byte, io_read_256byte}

-- The caller's memory at the argument.
pub record Arg : Type 0 where
  pub pcix : Pcix
  pub mem : MemCmd
  pub io : IoCmd

-- What `lfdd_ioctl` returns: `-EFAULT`, `-EINVAL`, or the count of bytes not copied back.
pub data Reply : Type 0 where
  efault einval : Reply
  left : ℕ → Reply

-- `copy_from_user` of the caller's memory, `none` where it fails; `copy_to_user`, with the count of
-- bytes left and the caller's memory afterwards.
pub record UserAccess : Type 0 where
  pub from_user : Arg → Option Arg
  pub to_user : Arg → Arg → ℕ × Arg

module _ (m : Machine) (user : UserAccess) where
  open user use {from_user, to_user}

  -- `return copy_to_user( argp, &DATA, sizeof( DATA ) )`.
  pub reply_with : Arg → Arg → Run m (Reply × Arg)
  reply_with arg new = let (n, arg') = to_user arg new in pure (left n, arg')

  -- The macros `LFDD_PCI_READ` and `LFDD_MEM_READ` and the blocks of 256 bytes: copy in, run,
  -- copy out.
  pub reading : Arg → (Arg → Run m Arg) → Run m (Reply × Arg)
  reading arg run = elim (from_user arg) [
    | none ↦ pure (efault, arg)
    | some a ↦ run a >>= λ new. reply_with arg new
  ]

  -- The macros `LFDD_PCI_WRITE` and `LFDD_MEM_WRITE`: copy in, run, return 0.
  pub writing : Arg → (Arg → Run m (Unit {0})) → Run m (Reply × Arg)
  writing arg run = elim (from_user arg) [
    | none ↦ pure (efault, arg)
    | some a ↦ run a >>= λ _. pure (left 0, arg)
  ]

  -- `DATA.buf = RFUNC( ... )` for each structure, and the same for a block.
  pub pci_buf : (Pcix → Run m ℕ) → Arg → Run m Arg
  pci_buf rfunc a = rfunc a.pcix >>= λ v. pure (record a { pcix = record (a.pcix) { buf = v } })

  pub mem_buf : (ℕ → Run m ℕ) → Arg → Run m Arg
  mem_buf rfunc a = rfunc a.mem.addr >>= λ v. pure (record a { mem = record (a.mem) { buf = v } })

  pub io_buf : (ℕ → Run m ℕ) → Arg → Run m Arg
  io_buf rfunc a = rfunc a.io.addr >>= λ v. pure (record a { io = record (a.io) { buf = v } })

  -- `memset( mass_buf, 0, LFDD_MASSBUF_SIZE )` before a block is read.
  pub pci_block : Arg → Run m Arg
  pci_block a =
      let p = record (a.pcix) { mass_buf = replicate massbuf_size 0 } in
      pcix_read_256byte m p >>= λ bytes. pure (record a { pcix = record p { mass_buf = bytes } })

  pub mem_block : Arg → Run m Arg
  mem_block a = mem_read_256byte m (a.mem) >>= λ bytes.
      pure (record a { mem = record (a.mem) { mass_buf = bytes } })

  pub io_block : Arg → Run m Arg
  io_block a = io_read_256byte m (a.io) >>= λ bytes.
      pure (record a { io = record (a.io) { mass_buf = bytes } })

  -- The `switch` of `lfdd_ioctl`; the last clause is the `return -EINVAL` behind it, which the
  -- word and dword commands on ports reach.
  pub ioctl : Command → Arg → Run m (Reply × Arg)
  ioctl Command.pci_read_256byte arg = reading arg pci_block
  ioctl Command.pci_read_byte arg = reading arg (pci_buf (pcix_read_byte m))
  ioctl Command.pci_read_word arg = reading arg (pci_buf (pcix_read_word m))
  ioctl Command.pci_read_dword arg = reading arg (pci_buf (pcix_read_dword m))
  ioctl Command.pci_write_byte arg = writing arg (λ a. pcix_write_byte m a.pcix)
  ioctl Command.pci_write_word arg = writing arg (λ a. pcix_write_word m a.pcix)
  ioctl Command.pci_write_dword arg = writing arg (λ a. pcix_write_dword m a.pcix)
  ioctl Command.mem_read_256byte arg = reading arg mem_block
  ioctl Command.mem_read_byte arg = reading arg (mem_buf (mem_read_byte m))
  ioctl Command.mem_read_word arg = reading arg (mem_buf (mem_read_word m))
  ioctl Command.mem_read_dword arg = reading arg (mem_buf (mem_read_dword m))
  ioctl Command.mem_write_byte arg = writing arg (λ a. mem_write_byte m a.mem.buf a.mem.addr)
  ioctl Command.mem_write_word arg = writing arg (λ a. mem_write_word m a.mem.buf a.mem.addr)
  ioctl Command.mem_write_dword arg = writing arg (λ a. mem_write_dword m a.mem.buf a.mem.addr)
  ioctl Command.io_read_256byte arg = reading arg io_block
  ioctl Command.io_write_byte arg = writing arg (λ a. io_write_byte m a.io.buf a.io.addr)
  ioctl Command.io_read_byte arg = reading arg (io_buf (io_read_byte m))
  ioctl _ arg = pure (einval, arg)
