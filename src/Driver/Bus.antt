-- ===== src/Driver/Bus.antt =====
-- What the driver relies on of the hardware: the documented behaviour of the two configuration
-- ports of the host bridge, and of a mapping of device memory.
use lfdk.Common.{ℕ, ◌+◌, ◌*◌, ◌/◌, ◌%◌, ◌^◌, ◌≤◌, ◌<◌, ◌≡◌, ◌≢◌, u32, ◌==◌, if◌then◌else◌}
use lfdk.Driver.Machine.{Machine}
use lfdk.Driver.Pci.{addr_port, data_port}
use lfdk.Driver.Pci.Merge.{lane}

-- One dword of a space of dwords replaced.
abbrev pub set_dword : (ℕ → ℕ) → ℕ → ℕ → ℕ → ℕ
set_dword f a v b = if b == a then v else f b

-- PCI configuration mechanism #1: a dword written to 0xcf8 selects the dword that 0xcfc reads and
-- writes. The low two bits of the selection are not kept.
pub record ConfigPorts (m : Machine) : Type 0 where
  pub latch : m.Hw → ℕ
  pub config : m.Hw → ℕ → ℕ
  pub config-lt : (h : m.Hw) (a : ℕ) → config h a < 2 ^ 32
  pub latch_whole : (h : m.Hw) → latch h / 4 * 4 ≡ latch h
  pub inl-index : (h : m.Hw) → (m.inl addr_port h).0 ≡ latch h
  pub latch-inl_index : (h : m.Hw) → latch (m.inl addr_port h).1 ≡ latch h
  pub config-inl_index : (h : m.Hw) (a : ℕ) → config (m.inl addr_port h).1 a ≡ config h a
  pub latch-outl_index : (v : ℕ) (h : m.Hw) → latch (m.outl v addr_port h) ≡ v / 4 * 4
  pub config-outl_index : (v : ℕ) (h : m.Hw) (a : ℕ) → config (m.outl v addr_port h) a ≡ config h a
  pub inl-data : (h : m.Hw) → (m.inl data_port h).0 ≡ config h (latch h)
  pub latch-inl_data : (h : m.Hw) → latch (m.inl data_port h).1 ≡ latch h
  pub config-inl_data : (h : m.Hw) (a : ℕ) → config (m.inl data_port h).1 a ≡ config h a
  pub latch-outl_data : (v : ℕ) (h : m.Hw) → latch (m.outl v data_port h) ≡ latch h
  pub config-outl_data :
      (v : ℕ) (h : m.Hw) (a : ℕ)
      → config (m.outl v data_port h) a ≡ set_dword (config h) (latch h) (u32 v) a

-- Device memory: `Mapped h v p` is that the pointer `v` maps 256 bytes at the address `p`.
-- A register is read without changing any.
pub record DeviceMemory (m : Machine) : Type 1 where
  pub mmio : m.Hw → ℕ → ℕ
  pub mmio-lt : (h : m.Hw) (a : ℕ) → mmio h a < 2 ^ 32
  pub Mapped : m.Hw → ℕ → ℕ → Type 0
  pub ioremap-Mapped :
      (p : ℕ) (h : m.Hw)
      → (m.ioremap p 256 h).0 ≢ 0
      → Mapped (m.ioremap p 256 h).1 (m.ioremap p 256 h).0 p
  pub mmio-ioremap : (p n : ℕ) (h : m.Hw) (a : ℕ) → mmio (m.ioremap p n h).1 a ≡ mmio h a
  pub mmio-iounmap : (v : ℕ) (h : m.Hw) (a : ℕ) → mmio (m.iounmap v h) a ≡ mmio h a
  pub readl-mmio :
      (h : m.Hw) (v p off : ℕ)
      → Mapped h v p
      → off + 4 ≤ 256
      → (m.readl (v + off) h).0 ≡ mmio h (p + off)
  pub mmio-readl : (v : ℕ) (h : m.Hw) (a : ℕ) → mmio (m.readl v h).1 a ≡ mmio h a
  pub readl-Mapped : (a : ℕ) (h : m.Hw) (v p : ℕ) → Mapped h v p → Mapped (m.readl a h).1 v p
  pub writel-Mapped : (x a : ℕ) (h : m.Hw) (v p : ℕ) → Mapped h v p → Mapped (m.writel x a h) v p
  pub mmio-writel :
      (x : ℕ) (h : m.Hw) (v p off a : ℕ)
      → Mapped h v p
      → off + 4 ≤ 256
      → mmio (m.writel x (v + off) h) a ≡ set_dword (mmio h) (p + off) (u32 x) a
  -- Port input and output unmaps nothing.
  pub inl-Mapped : (port : ℕ) (h : m.Hw) (v p : ℕ) → Mapped h v p → Mapped (m.inl port h).1 v p
  pub outl-Mapped : (x port : ℕ) (h : m.Hw) (v p : ℕ) → Mapped h v p → Mapped (m.outl x port h) v p

-- The bytes of a space of dwords.
abbrev pub byte_at : (ℕ → ℕ) → ℕ → ℕ
byte_at f a = lane (a % 4) (f (a / 4 * 4))
