-- ===== src/Driver/Mem.antt =====
-- lfdd/libmem.c: access to physical memory through the kernel's direct map, and of a block also
-- through a mapping made for the call.
pub mod Range
pub mod Ram
pub mod Block
use lfdk.Common.{
  ℕ, zero, suc, ◌+◌, ◌-◌, ◌%◌, ◌^◌, bit_and, bit_or, Bool, ◌||◌, List, [], ◌∷◌, u8, u16, u32, not32,
  leb, ◌==◌, if◌then◌else◌, replicate,
}
use lfdk.Driver.Structs.{MemCmd, massbuf_size}
use lfdk.Driver.Machine.{Machine, Run, ◌>>=◌, ◌>>◌, pure, ask, tell}

module _ (m : Machine) where
  open m use {
    high_memory, load_byte, load_word, load_dword, store_byte, store_word, store_dword, ioremap,
    iounmap, readb,
  }

  -- The range check that each function begins with, on `uint32_t`.
  unfoldable pub is_beyond : ℕ → Bool
  is_beyond addr =
      leb (0xffff_ffff - addr) massbuf_size || leb high_memory (u32 (addr + massbuf_size))

  pub mem_read_byte : ℕ → Run m ℕ
  mem_read_byte addr =
      if is_beyond addr
      then pure 0xff
      else (ask (load_byte addr) >>= λ value. pure (bit_and value 0xff))

  -- Out of range a word read and a dword read give 0xff too.
  pub mem_read_word : ℕ → Run m ℕ
  mem_read_word addr =
      if is_beyond addr
      then pure 0xff
      else (ask (load_word addr) >>= λ value. pure (bit_and value 0xffff))

  pub mem_read_dword : ℕ → Run m ℕ
  mem_read_dword addr = if is_beyond addr then pure 0xff else ask (load_dword addr)

  pub mem_write_byte : ℕ → ℕ → Run m (Unit {0})
  mem_write_byte value addr = if is_beyond addr then pure tt else (do
    temp ← ask (load_byte addr)
    tell (store_byte addr (u8 (bit_or (bit_and temp (not32 0xff)) (u8 (bit_and value 0xff))))))

  pub mem_write_word : ℕ → ℕ → Run m (Unit {0})
  mem_write_word value addr = if is_beyond addr then pure tt else (do
    temp ← ask (load_word addr)
    tell
        (store_word addr (u16 (bit_or (bit_and temp (not32 0xffff)) (u16 (bit_and value 0xffff))))))

  pub mem_write_dword : ℕ → ℕ → Run m (Unit {0})
  mem_write_dword value addr = if is_beyond addr then pure tt else tell (store_dword addr value)

  -- The loops of `lfdd_mem_read_256byte`; what they store fills `mass_buf` in order.
  pub mapped_bytes : ℕ → ℕ → Run m (List ℕ)
  mapped_bytes p zero = pure []
  mapped_bytes p (suc n) = do
    value ← ask (readb p)
    rest ← mapped_bytes (p + 1) n
    pure (value ∷ rest)

  pub direct_bytes : ℕ → ℕ → Run m (List ℕ)
  direct_bytes p zero = pure []
  direct_bytes p (suc n) = do
    value ← ask (load_byte p)
    rest ← direct_bytes (p + 1) n
    pure (value ∷ rest)

  -- The result is the `mass_buf` of the request after the call.
  pub mem_read_256byte : MemCmd → Run m (List ℕ)
  mem_read_256byte c =
      if is_beyond c.addr
      then (do
        virtmem ← ask (ioremap c.addr massbuf_size)
        if virtmem == 0
            then pure (replicate massbuf_size 0xff)
            else (do bytes ← mapped_bytes virtmem massbuf_size; tell (iounmap virtmem); pure bytes))
      else direct_bytes c.addr massbuf_size
