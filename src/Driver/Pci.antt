-- ===== src/Driver/Pci.antt =====
-- lfdd/libpci_x86.c: access to configuration space through the ports 0xcf8 and 0xcfc, or through
-- one cached mapping of `MAP_SIZE` bytes of device memory when the request carries a base.
pub mod Merge
pub mod Ports
mod Lanes
pub mod Registers
pub mod Window
pub mod Mapped
pub mod Block
pub mod Guard
pub mod Invariant
pub mod Race
use lfdk.Common.{
  ℕ, zero, suc, ◌+◌, ◌-◌, ◌*◌, ◌/◌, ◌%◌, ◌^◌, bit_and, bit_or, Bool, not, ◌&&◌, ◌||◌, List, [], ◌∷◌,
  u32, not32, ltb, leb, ◌==◌, if◌then◌else◌,
}
use lfdk.Driver.Structs.{Pcix, massbuf_size}
use lfdk.Driver.Machine.{Machine, Run, ◌>>=◌, ◌>>◌, pure, ask, tell}
use lfdk.Driver.Address.{addr32}

abbrev pub addr_port : ℕ
addr_port = 0xcf8

abbrev pub data_port : ℕ
data_port = 0xcfc

abbrev pub map_size : ℕ
map_size = massbuf_size

unfoldable pub out_range : ℕ → ℕ → ℕ → Bool
out_range addr start size = ltb addr start || leb (start + size) addr

-- `addr & ~(MAP_SIZE-1)`.
abbrev pub align_buf : ℕ → ℕ
align_buf addr = addr / map_size * map_size

-- The bytes of a dword that a byte write and a word write put in, on `uint32_t`.
pub merge_byte : ℕ → ℕ → ℕ → ℕ
merge_byte addr buf temp =
    let value = u32 (bit_and buf 0xff * 2 ^ (bit_and addr 0x03 * 8)) in
    bit_or (bit_and temp (not32 (u32 (0xff * 2 ^ (bit_and addr 0x03 * 8))))) value

pub merge_word : ℕ → ℕ → ℕ → ℕ
merge_word addr buf temp =
    let value = u32 (bit_and buf 0xffff * 2 ^ (bit_and addr 0x02 * 8)) in
    bit_or (bit_and temp (not32 (u32 (0xffff * 2 ^ (bit_and addr 0x02 * 8))))) value

-- The four bytes that `lfdd_pcix_read_256byte` stores for a dword.
pub dword_bytes : ℕ → List ℕ → List ℕ
dword_bytes value rest =
    (value % 256) ∷ (value / 2 ^ 8 % 256) ∷ (value / 2 ^ 16 % 256) ∷ (value / 2 ^ 24 % 256) ∷ rest

module _ (m : Machine) where
  open m use {inl, outl, ioremap, iounmap, readl, writel, high_memory}

  -- A request for device memory that would reach into main memory.
  unfoldable pub is_invalid : Pcix → ℕ → Bool
  is_invalid p start = not (p.phy_base == 0) && leb (u32 (start + massbuf_size)) high_memory

  unfoldable pub remap : ℕ → Run m (Unit {0})
  remap start d =
      let (v, h) = ioremap start map_size d.hw in
      (tt, record { hw = h; phy2virt_mem = v; phy_map_start_addr = start })

  -- Map `MAP_SIZE` bytes at `start` unless the present mapping holds `addr`.
  unfoldable pub map_window : ℕ → ℕ → Run m (Unit {0})
  unfolding remap
  map_window addr start d =
      if d.phy2virt_mem == 0
      then remap start d
      else if out_range addr d.phy_map_start_addr map_size
      then (tell (iounmap d.phy2virt_mem) >> remap start) d
      else (tt, d)

  -- One dword through the ports, the address register restored.
  pub port_read : ℕ → Run m ℕ
  port_read addr = do
    orig_idx ← ask (inl addr_port)
    tell (outl addr addr_port)
    value ← ask (inl data_port)
    tell (outl orig_idx addr_port)
    pure value

  -- A dword changed by `merge` through the ports, the address register restored.
  pub port_update : ℕ → (ℕ → ℕ) → Run m (Unit {0})
  port_update addr merge = do
    orig_idx ← ask (inl addr_port)
    tell (outl addr addr_port)
    temp ← ask (inl data_port)
    tell (outl (merge temp) data_port)
    tell (outl orig_idx addr_port)

  -- A dword through the mapping, `off` bytes in.
  unfoldable pub window_read : ℕ → Run m ℕ
  window_read off d = ask (readl (d.phy2virt_mem + off)) d

  pub window_update : ℕ → (ℕ → ℕ) → Run m (Unit {0})
  window_update off merge d =
      (do
        temp ← ask (readl (d.phy2virt_mem + off))
        tell (writel (merge temp) (d.phy2virt_mem + off)))
        d

  -- The offset of the dword of `addr` in the mapping: `off & ~0x3`.
  abbrev pub dword_off : ℕ → ℕ
  dword_off addr = (addr - align_buf addr) / 4 * 4

  -- The part that the three reads share: the dword that holds the address of the request.
  pub read_value : Pcix → ℕ → Run m ℕ
  read_value p addr =
      if p.phy_base == 0
      then port_read (addr / 4 * 4)
      else map_window addr (align_buf addr) >> window_read (dword_off addr)

  pub update_value : Pcix → ℕ → (ℕ → ℕ) → Run m (Unit {0})
  update_value p addr merge =
      if p.phy_base == 0
      then port_update (addr / 4 * 4) merge
      else map_window addr (align_buf addr) >> window_update (dword_off addr) merge

  pub pcix_read_byte : Pcix → Run m ℕ
  pcix_read_byte p =
      let addr = addr32 p in
      if is_invalid p (align_buf addr)
      then pure 0xff
      else (read_value p addr >>= λ value. pure (value / 2 ^ (addr % 4 * 8) % 2 ^ 8))

  pub pcix_read_word : Pcix → Run m ℕ
  pcix_read_word p =
      let addr = addr32 p in
      if is_invalid p (align_buf addr)
      then pure 0xffff
      else (read_value p addr >>= λ value. pure (value / 2 ^ (addr % 4 * 8) % 2 ^ 16))

  pub pcix_read_dword : Pcix → Run m ℕ
  pcix_read_dword p =
      let addr = addr32 p in
      if is_invalid p (align_buf addr) then pure 0xffff_ffff else read_value p addr

  pub pcix_write_byte : Pcix → Run m (Unit {0})
  pcix_write_byte p =
      let addr = addr32 p in
      if is_invalid p (align_buf addr) then pure tt else update_value p addr (merge_byte addr p.buf)

  pub pcix_write_word : Pcix → Run m (Unit {0})
  pcix_write_word p =
      let addr = addr32 p in
      if is_invalid p (align_buf addr) then pure tt else update_value p addr (merge_word addr p.buf)

  -- The dword write reads nothing first, and refuses an address that is not a multiple of 4.
  pub port_write : ℕ → ℕ → Run m (Unit {0})
  port_write addr buf = do
    orig_idx ← ask (inl addr_port)
    tell (outl addr addr_port)
    tell (outl buf data_port)
    tell (outl orig_idx addr_port)

  pub window_write : ℕ → ℕ → Run m (Unit {0})
  window_write off buf d = tell (writel buf (d.phy2virt_mem + off)) d

  pub pcix_write_dword : Pcix → Run m (Unit {0})
  pcix_write_dword p =
      let addr = addr32 p in
      if not (bit_and addr 0x3 == 0) || is_invalid p (align_buf addr)
      then pure tt
      else if p.phy_base == 0
      then port_write addr p.buf
      else (map_window addr (align_buf addr) >> window_write (dword_off addr) p.buf)

  -- The loop of `lfdd_pcix_read_256byte` at index `i`, with `rounds` dwords to go. The bytes that
  -- it stores fill `mass_buf` in order, so they are given as a list.
  pub port_rounds : ℕ → ℕ → ℕ → Run m (List ℕ)
  port_rounds addr zero i = pure []
  port_rounds addr (suc rounds) i = do
    tell (outl (u32 (addr + i)) addr_port)
    value ← ask (inl data_port)
    rest ← port_rounds addr rounds (i + 4)
    pure (dword_bytes value rest)

  pub window_rounds : ℕ → ℕ → Run m (List ℕ)
  window_rounds zero i = pure []
  window_rounds (suc rounds) i = do
    value ← window_read i
    rest ← window_rounds rounds (i + 4)
    pure (dword_bytes value rest)

  -- The result is the `mass_buf` of the request after the call.
  pub pcix_read_256byte : Pcix → Run m (List ℕ)
  pcix_read_256byte p =
      let addr = addr32 p in
      if is_invalid p addr
      then pure p.mass_buf
      else if p.phy_base == 0
      then (do
        orig_idx ← ask (inl addr_port)
        bytes ← port_rounds addr 64 0
        tell (outl orig_idx addr_port)
        pure bytes)
      else (map_window addr addr >> window_rounds 64 0)
