-- ===== src/Driver/Pci/Window.antt =====
-- The operations of lfdd/libpci_x86.c on a request with a base: the one mapping that they keep,
-- and the registers that they reach through it.
use lfdk.Common.{
  ℕ, ◌+◌, ◌*◌, ◌/◌, ◌%◌, ◌≤◌, ◌≡◌, ◌≢◌, ◌∙◌, refl, inl, inr, false, arith, u32, ◌==◌, Bool-cases,
}
use lfdk.Driver.Structs.{Pcix}
use lfdk.Driver.Machine.{Machine, Driver}
use lfdk.Driver.Address.{addr32}
use lfdk.Driver.Bus.{DeviceMemory, set_dword}
use lfdk.Driver.Pci.{
  align_buf, out_range, dword_off, map_window, remap, window_read, window_update, window_write,
  read_value, update_value,
}

pub has_base : (p : Pcix) → p.phy_base ≢ 0 → (p.phy_base == 0) ≡ false
has_base p base = ground arith

module _ {m : Machine} (mem : DeviceMemory m) where
  open mem use {mmio, Mapped}

  -- The mapping that the driver believes in is there.
  abbrev pub HasMapping : Driver m → Type 0
  HasMapping d = d.phy2virt_mem ≢ 0 → Mapped d.hw d.phy2virt_mem d.phy_map_start_addr

  remap-HasMapping : (start : ℕ) (d : Driver m) → HasMapping (remap m start d).1
  unfolding remap
  remap-HasMapping start d = mem.ioremap-Mapped start d.hw

  pub map_window-HasMapping :
      (addr start : ℕ) (d : Driver m) → HasMapping d → HasMapping (map_window m addr start d).1
  unfolding map_window
  map_window-HasMapping addr start d w = elim (Bool-cases (d.phy2virt_mem == 0)) [
    | inl none_yet ↦ rw none_yet (remap-HasMapping start d)
    | inr present ↦ rw present (elim (Bool-cases (out_range addr d.phy_map_start_addr 256)) [
      | inl outside ↦
          rw outside (remap-HasMapping start (record d { hw = m.iounmap d.phy2virt_mem d.hw }))
      | inr inside ↦ rw inside w
    ])
  ]

  -- No register changes when a mapping does.
  pub mmio-map_window :
      (addr start a : ℕ) (d : Driver m) → mmio (map_window m addr start d).1.hw a ≡ mmio d.hw a
  unfolding map_window remap
  mmio-map_window addr start a d = ground (
    arith,
    mem.mmio-ioremap start 256 d.hw a,
    mem.mmio-iounmap d.phy2virt_mem d.hw a,
    mem.mmio-ioremap start 256 (m.iounmap d.phy2virt_mem d.hw) a,
  )

  -- The mapping also begins at a multiple of its size.
  pub record IsWindow (d : Driver m) : Type 0 where
    pub mapped : HasMapping d
    pub aligned : d.phy_map_start_addr % 256 ≡ 0

  pub map_window-start_at :
      (addr start : ℕ) (d : Driver m)
      → IsWindow d
      → start ≡ align_buf addr
      → (map_window m addr start d).1.phy_map_start_addr ≡ start
  unfolding map_window out_range remap
  map_window-start_at addr start d w e = ground arith

  pub map_window-start :
      (addr : ℕ) (d : Driver m)
      → IsWindow d
      → (map_window m addr (align_buf addr) d).1.phy_map_start_addr ≡ align_buf addr
  map_window-start addr d w = map_window-start_at addr (align_buf addr) d w refl

  pub map_window-IsWindow :
      (addr : ℕ) (d : Driver m) → IsWindow d → IsWindow (map_window m addr (align_buf addr) d).1
  map_window-IsWindow addr d w = record {
    mapped = map_window-HasMapping addr (align_buf addr) d w.mapped;
    aligned = omega (arith, map_window-start addr d w);
  }

  -- Where the dword of `addr` lies behind the pointer.
  dword_place :
      (addr : ℕ) (d : Driver m)
      → d.phy_map_start_addr ≡ align_buf addr
      → (d.phy_map_start_addr + dword_off m addr ≡ addr / 4 * 4) × (dword_off m addr + 4 ≤ 256)
  dword_place addr d start = omega arith

  pub mmio-window_read :
      (off a : ℕ) (d : Driver m) → mmio (window_read m off d).1.hw a ≡ mmio d.hw a
  unfolding window_read
  mmio-window_read off a d = mem.mmio-readl (d.phy2virt_mem + off) d.hw a

  pub window_read-HasMapping :
      (off : ℕ) (d : Driver m) → HasMapping d → HasMapping (window_read m off d).1
  unfolding window_read
  window_read-HasMapping off d w made =
      mem.readl-Mapped (d.phy2virt_mem + off) d.hw d.phy2virt_mem d.phy_map_start_addr (w made)

  pub window_update-HasMapping :
      (off : ℕ) (merge : ℕ → ℕ) (d : Driver m)
      → HasMapping d
      → HasMapping (window_update m off merge d).1
  unfolding window_update
  window_update-HasMapping off merge d w made =
      let pointer = d.phy2virt_mem + off in
      mem.writel-Mapped (merge (m.readl pointer d.hw).0) pointer (m.readl pointer d.hw).1
        d.phy2virt_mem d.phy_map_start_addr
        (mem.readl-Mapped pointer d.hw d.phy2virt_mem d.phy_map_start_addr (w made))

  pub window_write-HasMapping :
      (off buf : ℕ) (d : Driver m) → HasMapping d → HasMapping (window_write m off buf d).1
  unfolding window_write
  window_write-HasMapping off buf d w made =
      mem.writel-Mapped buf (d.phy2virt_mem + off) d.hw d.phy2virt_mem d.phy_map_start_addr (w made)

  module _ (addr : ℕ) (d : Driver m) (w : HasMapping d) (made : d.phy2virt_mem ≢ 0)
      (start : d.phy_map_start_addr ≡ align_buf addr) where
    window_read_value : (window_read m (dword_off m addr) d).0 ≡ mmio d.hw (addr / 4 * 4)
    unfolding window_read
    window_read_value = rw (← (dword_place addr d start).0) (
        mem.readl-mmio d.hw d.phy2virt_mem d.phy_map_start_addr (dword_off m addr) (w made)
          (dword_place addr d start).1)

    mmio-window_update :
        (merge : ℕ → ℕ) (a : ℕ)
        → mmio (window_update m (dword_off m addr) merge d).1.hw a
          ≡ set_dword (mmio d.hw) (addr / 4 * 4) (u32 (merge (mmio d.hw (addr / 4 * 4)))) a
    unfolding window_update window_read
    mmio-window_update merge a =
        let (here, fits) = dword_place addr d start in
        let pointer = d.phy2virt_mem + dword_off m addr in
        let (old, h) = m.readl pointer d.hw in
        ground (
          arith,
          here,
          window_read_value,
          mem.mmio-readl pointer d.hw a,
          mem.mmio-writel (merge old) h d.phy2virt_mem d.phy_map_start_addr (dword_off m addr) a
              (mem.readl-Mapped pointer d.hw d.phy2virt_mem d.phy_map_start_addr (w made)) fits,
        )

    mmio-window_write :
        (buf a : ℕ)
        → mmio (window_write m (dword_off m addr) buf d).1.hw a
          ≡ set_dword (mmio d.hw) (addr / 4 * 4) (u32 buf) a
    unfolding window_write
    mmio-window_write buf a =
        let (here, fits) = dword_place addr d start in
        let law =
          mem.mmio-writel buf d.hw d.phy2virt_mem d.phy_map_start_addr (dword_off m addr) a (w made)
            fits in
        ground (arith, here, law)

  -- What a request with a base reaches, when its address is accepted and a mapping is there after
  -- the mapping step.
  module _ (p : Pcix) (d : Driver m) (base : p.phy_base ≢ 0) (w : IsWindow d)
      (made : (map_window m (addr32 p) (align_buf (addr32 p)) d).1.phy2virt_mem ≢ 0) where
    abbrev addr : ℕ
    addr = addr32 p

    abbrev page : ℕ
    page = align_buf addr

    abbrev next : Driver m
    next = (map_window m addr page d).1

    mapped : HasMapping next
    mapped = map_window-HasMapping addr page d w.mapped

    start : next.phy_map_start_addr ≡ page
    start = map_window-start addr d w

    pub read_value_window :
        (a : ℕ)
        → ((read_value m p (addr32 p) d).0 ≡ mmio d.hw (addr32 p / 4 * 4))
          × (mmio (read_value m p (addr32 p) d).1.hw a ≡ mmio d.hw a)
    unfolding read_value
    read_value_window a = rw (has_base p base) (
      window_read_value addr next mapped made start ∙ mmio-map_window addr page (addr / 4 * 4) d,
      mmio-window_read (dword_off m addr) a next ∙ mmio-map_window addr page a d,
    )

    pub write_value_window :
        (a : ℕ)
        → mmio (window_write m (dword_off m addr) p.buf next).1.hw a
          ≡ set_dword (mmio d.hw) (addr / 4 * 4) (u32 p.buf) a
    write_value_window a = ground (
      arith,
      mmio-window_write addr next mapped made start p.buf a,
      mmio-map_window addr page a d,
    )

    pub update_value_window :
        (merge : ℕ → ℕ) (a : ℕ)
        → mmio (update_value m p (addr32 p) merge d).1.hw a
          ≡ set_dword (mmio d.hw) (addr32 p / 4 * 4) (u32 (merge (mmio d.hw (addr32 p / 4 * 4)))) a
    unfolding update_value
    update_value_window merge a = rw (has_base p base) (
        ground (
          arith,
          mmio-window_update addr next mapped made start merge a,
          mmio-map_window addr page (addr / 4 * 4) d,
          mmio-map_window addr page a d,
        ))
