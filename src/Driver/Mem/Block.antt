-- ===== src/Driver/Mem/Block.antt =====
-- The block of 256 bytes of lfdd/libmem.c inside main memory.
use lfdk.Common.{ℕ, zero, suc, ◌+◌, ◌<◌, ◌≡◌, false, ap, ◌∙◌, arith, get_or}
use lfdk.Driver.Structs.{MemCmd}
use lfdk.Driver.Machine.{Machine, Driver}
use lfdk.Driver.Mem.{is_beyond, direct_bytes, mem_read_256byte}
use lfdk.Driver.Mem.Ram.{DirectMap}

module _ {m : Machine} (map : DirectMap m) where
  open map use {ram}

  direct_bytes-get :
      (n p k : ℕ) (d : Driver m) → k < n → get_or (direct_bytes m p n d).0 k 0 ≡ ram d.hw (p + k)
  unfolding direct_bytes
  direct_bytes-get zero p k d h = absurd (omega arith)
  direct_bytes-get (suc n) p zero d h = map.load_byte-ram p d.hw ∙ ap (ram d.hw) (omega arith)
  direct_bytes-get (suc n) p (suc k) d h =
      let loaded : Driver m = record d { hw = (m.load_byte p d.hw).1 } in
      direct_bytes-get n (p + 1) k loaded (omega arith)
      ∙ map.ram-load_byte p d.hw (p + 1 + k)
      ∙ ap (ram d.hw) (omega arith)

  -- Inside main memory, the block has the byte at each of its 256 addresses.
  pub mem_read_256byte-get :
      (c : MemCmd) (k : ℕ) (d : Driver m)
      → is_beyond m c.addr ≡ false
      → k < 256
      → get_or (mem_read_256byte m c d).0 k 0 ≡ ram d.hw (c.addr + k)
  unfolding mem_read_256byte
  mem_read_256byte-get c k d inside h = rw inside (direct_bytes-get 256 c.addr k d h)
