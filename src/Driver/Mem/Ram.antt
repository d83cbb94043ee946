-- ===== src/Driver/Mem/Ram.antt =====
-- lfdd/libmem.c over main memory as an array of bytes, the low byte of a word first.
use lfdk.Common.{
  ℕ, ◌+◌, ◌*◌, ◌/◌, ◌%◌, ◌^◌, ◌<◌, ◌≡◌, false, arith, bit_and, bit_or, u8, u16, not32, bit_and_byte,
  bit_and_half_word, zero-bit_and, bit_and-zero, mask_byte, mask_half_word, zero-bit_or, ◌==◌,
  if◌then◌else◌,
}
use lfdk.Driver.Machine.{Machine, Driver}
use lfdk.Driver.Pci.Merge.{lane}
use lfdk.Driver.Mem.{
  is_beyond, mem_read_byte, mem_read_word, mem_read_dword, mem_write_byte, mem_write_word,
  mem_write_dword,
}

-- What the direct map does: loads read the bytes from the address on and change none, and a
-- store replaces just those that it covers.
pub record DirectMap (m : Machine) : Type 0 where
  pub ram : m.Hw → ℕ → ℕ
  pub ram-lt : (h : m.Hw) (a : ℕ) → ram h a < 256
  pub load_byte-ram : (a : ℕ) (h : m.Hw) → (m.load_byte a h).0 ≡ ram h a
  pub load_word-ram : (a : ℕ) (h : m.Hw) → (m.load_word a h).0 ≡ ram h a + ram h (a + 1) * 2 ^ 8
  pub load_dword-ram :
      (a : ℕ) (h : m.Hw)
      → (m.load_dword a h).0
        ≡ ram h a + ram h (a + 1) * 2 ^ 8 + ram h (a + 2) * 2 ^ 16 + ram h (a + 3) * 2 ^ 24
  pub ram-load_byte : (a : ℕ) (h : m.Hw) (b : ℕ) → ram (m.load_byte a h).1 b ≡ ram h b
  pub ram-load_word : (a : ℕ) (h : m.Hw) (b : ℕ) → ram (m.load_word a h).1 b ≡ ram h b
  pub ram-load_dword : (a : ℕ) (h : m.Hw) (b : ℕ) → ram (m.load_dword a h).1 b ≡ ram h b
  pub ram-store_byte :
      (a v : ℕ) (h : m.Hw) (b : ℕ)
      → ram (m.store_byte a v h) b ≡ (if b == a then lane 0 v else ram h b)
  pub ram-store_word :
      (a v : ℕ) (h : m.Hw) (b : ℕ)
      → ram (m.store_word a v h) b
        ≡ (if b == a then lane 0 v else if b == a + 1 then lane 1 v else ram h b)
  pub ram-store_dword :
      (a v : ℕ) (h : m.Hw) (b : ℕ)
      → ram (m.store_dword a v h) b ≡ (
          if b == a
          then lane 0 v
          else if b == a + 1
          then lane 1 v
          else if b == a + 2
          then lane 2 v
          else if b == a + 3
          then lane 3 v
          else ram h b)

-- What the masks of the byte write and of the word write leave to store.
stored_byte :
    (temp value : ℕ)
    → temp < 2 ^ 8
    → u8 (bit_or (bit_and temp (not32 0xff)) (u8 (bit_and value 0xff))) ≡ value % 2 ^ 8
stored_byte temp value small = ground (
  arith,
  bit_and_byte temp 0xffff_ff00,
  zero-bit_and 0xff_ffff,
  bit_and-zero temp,
  mask_byte value,
  zero-bit_or (value % 2 ^ 8),
)

stored_word :
    (temp value : ℕ)
    → temp < 2 ^ 16
    → u16 (bit_or (bit_and temp (not32 0xffff)) (u16 (bit_and value 0xffff))) ≡ value % 2 ^ 16
stored_word temp value small = ground (
  arith,
  bit_and_half_word temp 0xffff_0000,
  zero-bit_and 0xffff,
  bit_and-zero temp,
  mask_half_word value,
  zero-bit_or (value % 2 ^ 16),
)

word-lt : (a b : ℕ) → a < 256 → b < 256 → a + b * 2 ^ 8 < 2 ^ 16
word-lt a b p q = omega arith

module _ {m : Machine} (map : DirectMap m) (addr value : ℕ) (d : Driver m)
    (inside : is_beyond m addr ≡ false) where
  open map use {ram, ram-lt}

  -- A byte write inside main memory replaces the byte at its address, and no other.
  pub ram-mem_write_byte :
      (b : ℕ)
      → ram (mem_write_byte m value addr d).1.hw b
        ≡ (if b == addr then value % 2 ^ 8 else ram d.hw b)
  unfolding mem_write_byte
  ram-mem_write_byte b =
      let (temp, h) = m.load_byte addr d.hw in
      let law = map.load_byte-ram addr d.hw in
      rw inside (
        ground (
          arith,
          law,
          ram-lt d.hw addr,
          stored_byte temp value,
          map.ram-load_byte addr d.hw b,
          map.ram-store_byte addr
              (u8 (bit_or (bit_and temp (not32 0xff)) (u8 (bit_and value 0xff)))) h b,
        ))

  -- A word write inside main memory replaces the bytes at its address and after it, and no other.
  pub ram-mem_write_word :
      (b : ℕ)
      → ram (mem_write_word m value addr d).1.hw b ≡ (
          if b == addr
          then value % 2 ^ 8
          else if b == addr + 1
          then value / 2 ^ 8 % 2 ^ 8
          else ram d.hw b)
  unfolding mem_write_word
  ram-mem_write_word b =
      let (temp, h) = m.load_word addr d.hw in
      let law = map.load_word-ram addr d.hw in
      rw inside (
        ground (
          arith,
          law,
          ram-lt d.hw addr,
          ram-lt d.hw (addr + 1),
          stored_word temp value,
          map.ram-load_word addr d.hw b,
          map.ram-store_word addr
              (u16 (bit_or (bit_and temp (not32 0xffff)) (u16 (bit_and value 0xffff)))) h b,
        ))

  pub ram-mem_write_dword :
      (b : ℕ)
      → ram (mem_write_dword m value addr d).1.hw b ≡ (
          if b == addr
          then lane 0 value
          else if b == addr + 1
          then lane 1 value
          else if b == addr + 2
          then lane 2 value
          else if b == addr + 3
          then lane 3 value
          else ram d.hw b)
  unfolding mem_write_dword
  ram-mem_write_dword b = rw inside (map.ram-store_dword addr value d.hw b)

  -- A byte write inside main memory replaces the byte at its address, a word write the bytes at its
  -- address and after it, and a dword write four bytes from its address on, the low byte first; no
  -- other byte changes.
  pub ram-writes :
      (b : ℕ)
      → (ram (mem_write_byte m value addr d).1.hw b
          ≡ (if b == addr then value % 2 ^ 8 else ram d.hw b))
        × (ram (mem_write_word m value addr d).1.hw b ≡ (
            if b == addr
            then value % 2 ^ 8
            else if b == addr + 1
            then value / 2 ^ 8 % 2 ^ 8
            else ram d.hw b))
        × (ram (mem_write_dword m value addr d).1.hw b ≡ (
            if b == addr
            then lane 0 value
            else if b == addr + 1
            then lane 1 value
            else if b == addr + 2
            then lane 2 value
            else if b == addr + 3
            then lane 3 value
            else ram d.hw b))
  ram-writes b = (ram-mem_write_byte b, ram-mem_write_word b, ram-mem_write_dword b)

  -- A byte, a word or a dword that is written inside main memory is read back at the same
  -- address, cut to its width.
  pub read-write :
      ((mem_read_byte m addr (mem_write_byte m value addr d).1).0 ≡ value % 2 ^ 8)
      × ((mem_read_word m addr (mem_write_word m value addr d).1).0 ≡ value % 2 ^ 16)
      × ((mem_read_dword m addr (mem_write_dword m value addr d).1).0 ≡ value % 2 ^ 32)
  unfolding mem_read_byte mem_read_word mem_read_dword
  read-write =
      let b = (mem_write_byte m value addr d).1.hw in
      let w = (mem_write_word m value addr d).1.hw in
      let q = (mem_write_dword m value addr d).1.hw in
      rw inside (
        ground (
          arith,
          map.load_byte-ram addr b,
          mask_byte (m.load_byte addr b).0,
          ram-mem_write_byte addr,
        ),
        ground (
          arith,
          map.load_word-ram addr w,
          mask_half_word (m.load_word addr w).0,
          ram-mem_write_word addr,
          ram-mem_write_word (addr + 1),
        ),
        ground (
          arith,
          map.load_dword-ram addr q,
          ram-mem_write_dword addr,
          ram-mem_write_dword (addr + 1),
          ram-mem_write_dword (addr + 2),
          ram-mem_write_dword (addr + 3),
        ),
      )
