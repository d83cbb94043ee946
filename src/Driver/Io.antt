-- ===== src/Driver/Io.antt =====
-- lfdd/libio.c: access to the ports.
use lfdk.Common.{ℕ, zero, suc, ◌+◌, List, [], ◌∷◌, u8, u16, u32}
use lfdk.Driver.Structs.{IoCmd, massbuf_size}
use lfdk.Driver.Machine.{Machine, Run, ◌>>=◌, pure, ask, tell}

module _ (m : Machine) where
  open m use {inb, inw, inl, outb, outw, outl}

  pub io_read_byte : ℕ → Run m ℕ
  io_read_byte addr = ask (inb addr) >>= λ value. pure (u8 value)

  pub io_read_word : ℕ → Run m ℕ
  io_read_word addr = ask (inw addr) >>= λ value. pure (u16 value)

  pub io_read_dword : ℕ → Run m ℕ
  io_read_dword addr = ask (inl addr) >>= λ value. pure (u32 value)

  -- The parameter types cut the value to its width.
  unfoldable pub io_write_byte : ℕ → ℕ → Run m (Unit {0})
  io_write_byte value addr = tell (outb (u8 value) addr)

  pub io_write_word : ℕ → ℕ → Run m (Unit {0})
  io_write_word value addr = tell (outw (u16 value) addr)

  pub io_write_dword : ℕ → ℕ → Run m (Unit {0})
  io_write_dword value addr = tell (outl (u32 value) addr)

  -- The loop of `lfdd_io_read_256byte` from the port `p`, with `n` ports to go.
  pub io_rounds : ℕ → ℕ → Run m (List ℕ)
  io_rounds p zero = pure []
  io_rounds p (suc n) = do
    value ← ask (inb p)
    rest ← io_rounds (u32 (p + 1)) n
    pure (u8 value ∷ rest)

  pub io_read_256byte : IoCmd → Run m (List ℕ)
  io_read_256byte c = io_rounds c.addr massbuf_size
