-- ===== src/Driver/Pci/Block.antt =====
-- `lfdd_pcix_read_256byte` of lfdd/libpci_x86.c: the whole block, byte by byte.
use lfdk.Common.{
  ℕ, zero, suc, ◌+◌, ◌*◌, ◌/◌, ◌%◌, ◌^◌, ◌<◌, ◌≤◌, ◌≡◌, ◌≢◌, refl, ap, ap₂, ◌∙◌, true, ◌==◌, List,
  [], ◌∷◌, some, arith, u32, false, length, get_elem?,
}
use lfdk.Driver.Structs.{Pcix}
use lfdk.Driver.Machine.{Machine, Driver}
use lfdk.Driver.Address.{addr32}
use lfdk.Driver.Address.Fields.{addr32-lt}
use lfdk.Driver.Bus.{ConfigPorts, DeviceMemory, byte_at}
use lfdk.Driver.Pci.{
  addr_port, data_port, dword_bytes, is_invalid, port_rounds, window_rounds, window_read,
  map_window, pcix_read_256byte,
}
use lfdk.Driver.Pci.Window.{
  HasMapping, IsWindow, map_window-start_at, map_window-HasMapping, window_read-HasMapping,
  mmio-window_read, mmio-map_window, has_base,
}

-- The bytes of `rounds` dwords of the space `f` from the address `a`, in order.
abbrev block : (ℕ → ℕ) → ℕ → ℕ → List ℕ
block f a zero = []
block f a (suc rounds) =
    byte_at f a ∷ byte_at f (a + 1) ∷ byte_at f (a + 2) ∷ byte_at f (a + 3) ∷ block f (a + 4) rounds

length-block : (f : ℕ → ℕ) (a rounds : ℕ) → length (block f a rounds) ≡ rounds * 4
length-block f a zero = refl
length-block f a (suc rounds) = omega (arith, length-block f (a + 4) rounds)

get_elem?-block :
    (f : ℕ → ℕ) (a rounds i : ℕ)
    → i < rounds * 4
    → get_elem? (block f a rounds) i ≡ some (byte_at f (a + i))
get_elem?-block f a zero i h = absurd (omega arith)
get_elem?-block f a (suc rounds) zero h = ap (λ (k : ℕ). some (byte_at f k)) (omega arith)
get_elem?-block f a (suc rounds) (suc zero) h = refl
get_elem?-block f a (suc rounds) (suc (suc zero)) h = refl
get_elem?-block f a (suc rounds) (suc (suc (suc zero))) h = refl
get_elem?-block f a (suc rounds) (suc (suc (suc (suc i)))) h =
    get_elem?-block f (a + 4) rounds i (omega arith)
    ∙ ap (λ (k : ℕ). some (byte_at f k)) (omega arith)

whole_dword : (a : ℕ) → a % 4 ≡ 0 → a / 4 * 4 ≡ a
whole_dword a whole = omega arith

byte_place : (a k : ℕ) → a % 4 ≡ 0 → k < 4 → ((a + k) % 4 ≡ k) × ((a + k) / 4 * 4 ≡ a)
byte_place a k whole low = omega arith

no_base_test : (p : Pcix) → p.phy_base ≡ 0 → (p.phy_base == 0) ≡ true
no_base_test p h = ground arith

-- The four bytes of an aligned dword.
dword_bytes-block :
    (f : ℕ → ℕ) (a : ℕ) (rest : List ℕ)
    → a % 4 ≡ 0
    → dword_bytes (f a) rest
      ≡ byte_at f a ∷ byte_at f (a + 1) ∷ byte_at f (a + 2) ∷ byte_at f (a + 3) ∷ rest
unfolding dword_bytes
dword_bytes-block f a rest whole =
    let one = byte_place a 1 whole (omega arith) in
    let two = byte_place a 2 whole (omega arith) in
    let three = byte_place a 3 whole (omega arith) in
    rw (whole, whole_dword a whole, one.0, one.1, two.0, two.1, three.0, three.1) (ground arith)

module _ {m : Machine} (ports : ConfigPorts m) where
  open ports use {
    latch, latch_whole, inl-index, config-inl_index, config, config-inl_data, config-outl_index,
    latch-outl_index, inl-data,
  }

  selected_value :
      (a : ℕ) (h : m.Hw)
      → a % 4 ≡ 0
      → a < 2 ^ 32
      → (m.inl data_port (m.outl (u32 a) addr_port h)).0 ≡ config h a
  selected_value a h whole small =
      simp (inl-data, latch-outl_index, config-outl_index) (ap (config h) (omega arith))

  -- The rounds through the ports read the dwords in order and change no register.
  port_rounds-block :
      (f : ℕ → ℕ) (addr rounds i : ℕ) (d : Driver m)
      → ((a : ℕ) → config d.hw a ≡ f a)
      → (addr + i) % 4 ≡ 0
      → addr + i + rounds * 4 ≤ 2 ^ 32
      → ((port_rounds m addr rounds i d).0 ≡ block f (addr + i) rounds)
        × ((a : ℕ) → config (port_rounds m addr rounds i d).1.hw a ≡ f a)
  unfolding port_rounds
  port_rounds-block f addr zero i d same whole room = (refl, same)
  port_rounds-block f addr (suc rounds) i d same whole room =
      let h = m.outl (u32 (addr + i)) addr_port d.hw in
      let next : Driver m = record d { hw = (m.inl data_port h).1 } in
      let (bytes, kept) =
        port_rounds-block f addr rounds (i + 4) next
          (λ a. config-inl_data h a ∙ config-outl_index (u32 (addr + i)) d.hw a ∙ same a)
          (omega arith) (omega arith) in
      (
        ap₂ dword_bytes (selected_value (addr + i) d.hw whole (omega arith) ∙ same (addr + i))
              (bytes ∙ ap (λ (k : ℕ). block f k rounds) (omega arith))
            ∙ dword_bytes-block f (addr + i) (block f (addr + i + 4) rounds) whole,
        kept,
      )

  -- Without a base, at an address that is a multiple of 256, the block is the 256 bytes of
  -- configuration space from there, byte `i` at `addr + i`; no byte of that space changes, and
  -- the selected address is restored.
  pub read_256byte_ports :
      (p : Pcix) (d : Driver m)
      → p.phy_base ≡ 0
      → addr32 p % 256 ≡ 0
      → (i a : ℕ) → i < 256
      → (length (pcix_read_256byte m p d).0 ≡ 256)
        × (get_elem? (pcix_read_256byte m p d).0 i ≡ some (byte_at (config d.hw) (addr32 p + i)))
        × (config (pcix_read_256byte m p d).1.hw a ≡ config d.hw a)
        × (latch (pcix_read_256byte m p d).1.hw ≡ latch d.hw)
  unfolding pcix_read_256byte is_invalid
  read_256byte_ports p d no_base whole i a low =
      let start : Driver m = record d { hw = (m.inl addr_port d.hw).1 } in
      let (bytes, kept) =
        port_rounds-block (config d.hw) (addr32 p) 64 0 start (λ a. config-inl_index d.hw a)
          (omega arith) (omega (arith, addr32-lt p)) in
      rw (no_base_test p no_base) (
        rw bytes (length-block (config d.hw) (addr32 p + 0) 64),
        rw bytes (
            get_elem?-block (config d.hw) (addr32 p + 0) 64 i low
            ∙ ap (λ (k : ℕ). some (byte_at (config d.hw) k)) (omega arith)),
        config-outl_index (m.inl addr_port d.hw).0 _ a ∙ kept a,
        simp (inl-index, latch-outl_index, latch_whole),
      )

module _ {m : Machine} (mem : DeviceMemory m) where
  open mem use {mmio}

  window_rounds-block :
      (f : ℕ → ℕ) (rounds i : ℕ) (d : Driver m)
      → ((a : ℕ) → mmio d.hw a ≡ f a)
      → HasMapping mem d
      → d.phy2virt_mem ≢ 0
      → (d.phy_map_start_addr + i) % 4 ≡ 0
      → i + rounds * 4 ≤ 256
      → ((window_rounds m rounds i d).0 ≡ block f (d.phy_map_start_addr + i) rounds)
        × ((a : ℕ) → mmio (window_rounds m rounds i d).1.hw a ≡ f a)
  unfolding window_rounds window_read
  window_rounds-block f zero i d same w made whole room = (refl, same)
  window_rounds-block f (suc rounds) i d same w made whole room =
      let next = (window_read m i d).1 in
      let (bytes, kept) =
        window_rounds-block f rounds (i + 4) next (λ a. mmio-window_read mem i a d ∙ same a)
          (window_read-HasMapping mem i d w) made (omega arith) (omega arith) in
      (
        ap₂ dword_bytes
              (mem.readl-mmio d.hw d.phy2virt_mem d.phy_map_start_addr i (w made) (omega arith)
                ∙ same (d.phy_map_start_addr + i))
              (bytes ∙ ap (λ (k : ℕ). block f k rounds) (omega arith))
            ∙ dword_bytes-block f (d.phy_map_start_addr + i)
                (block f (d.phy_map_start_addr + i + 4) rounds) whole,
        kept,
      )

  -- With a base, when the address is a multiple of 256 and is accepted, and a mapping is there
  -- after the mapping step, the block is the 256 bytes of device memory from the address, and no
  -- byte of device memory changes.
  pub read_256byte_mapped :
      (p : Pcix) (d : Driver m)
      → p.phy_base ≢ 0
      → is_invalid m p (addr32 p) ≡ false
      → addr32 p % 256 ≡ 0
      → IsWindow mem d
      → (map_window m (addr32 p) (addr32 p) d).1.phy2virt_mem ≢ 0
      → (i a : ℕ) → i < 256
      → (length (pcix_read_256byte m p d).0 ≡ 256)
        × (get_elem? (pcix_read_256byte m p d).0 i ≡ some (byte_at (mmio d.hw) (addr32 p + i)))
        × (mmio (pcix_read_256byte m p d).1.hw a ≡ mmio d.hw a)
  unfolding pcix_read_256byte
  read_256byte_mapped p d base accepted whole w made i a low =
      let addr = addr32 p in
      let next = (map_window m addr addr d).1 in
      let start : next.phy_map_start_addr ≡ addr =
        map_window-start_at mem addr addr d w (omega arith) in
      let (bytes, kept) =
        window_rounds-block (mmio d.hw) 64 0 next (λ a. mmio-map_window mem addr addr a d)
          (map_window-HasMapping mem addr addr d w.mapped) made (omega (arith, start))
          (omega arith) in
      rw (accepted, has_base p base)
        (
          rw bytes (length-block (mmio d.hw) (next.phy_map_start_addr + 0) 64),
          rw bytes (
              get_elem?-block (mmio d.hw) (next.phy_map_start_addr + 0) 64 i low
              ∙ ap (λ (k : ℕ). some (byte_at (mmio d.hw) k)) (omega (arith, start))),
          kept a,
        )
