-- ===== src/Driver/Mem/Range.antt =====
-- The range check of lfdd/libmem.c.
use lfdk.Common.{ℕ, ◌+◌, ◌^◌, ◌<◌, ◌≤◌, ◌≡◌, ◌↔◌, ◌⊎◌, inl, inr, Bool-cases, true, false, arith}
use lfdk.Driver.Machine.{Machine, Driver}
use lfdk.Driver.Mem.{
  is_beyond, mem_read_byte, mem_read_word, mem_read_dword, mem_write_byte, mem_write_word,
  mem_write_dword,
}

-- The check passes an address exactly when the 256 bytes after it end below the end of main
-- memory and at least one byte below 4 GB: the addition of the check does not wrap.
pub is_beyond_iff :
    (m : Machine) (addr : ℕ)
    → addr < 2 ^ 32
    → (is_beyond m addr ≡ false) ↔ ((addr + 256 < m.high_memory) × (addr + 256 < 0xffff_ffff))
unfolding is_beyond
is_beyond_iff m addr small = ground arith

-- Past the check each read gives 0xff, whatever its width, and each write does nothing.
pub beyond_lem :
    (m : Machine) (addr value : ℕ) (d : Driver m)
    → is_beyond m addr ≡ true
    → (mem_read_byte m addr d ≡ (0xff, d))
      × (mem_read_word m addr d ≡ (0xff, d))
      × (mem_read_dword m addr d ≡ (0xff, d))
      × (mem_write_byte m value addr d ≡ (tt, d))
      × (mem_write_word m value addr d ≡ (tt, d))
      × (mem_write_dword m value addr d ≡ (tt, d))
unfolding mem_read_byte mem_read_word mem_read_dword mem_write_byte mem_write_word mem_write_dword
beyond_lem m addr value d e = (rw e, rw e, rw e, rw e, rw e, rw e)

-- An address of 32 bits from which 256 bytes do not end below the end of main memory, or not below
-- the last byte of 4 GB, is refused: each read gives 0xff, whatever its width, and each write does
-- nothing.
pub beyond_memory :
    (m : Machine) (addr value : ℕ) (d : Driver m)
    → addr < 2 ^ 32
    → (m.high_memory ≤ addr + 256) ⊎ (0xffff_ffff ≤ addr + 256)
    → (mem_read_byte m addr d ≡ (0xff, d))
      × (mem_read_word m addr d ≡ (0xff, d))
      × (mem_read_dword m addr d ≡ (0xff, d))
      × (mem_write_byte m value addr d ≡ (tt, d))
      × (mem_write_word m value addr d ≡ (tt, d))
      × (mem_write_dword m value addr d ≡ (tt, d))
beyond_memory m addr value d small outside =
    let iff = is_beyond_iff m addr small in
    beyond_lem m addr value d (elim (Bool-cases (is_beyond m addr)) [
      | inl beyond ↦ beyond
      | inr within ↦ absurd (omega (arith, (iff.0 within).0, (iff.0 within).1))
    ])
