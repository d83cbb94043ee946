-- ===== src/Driver/Machine.antt =====
-- What the driver calls and does not implement: port input and output, the direct map of
-- physical memory, mappings of device memory. And the state that the driver itself keeps: the one
-- mapping of lfdd/libpci_x86.c.
-- `spin_lock_irqsave` and `spin_unlock_irqrestore` are left out: one call runs at a time, but in Driver.Pci.Race.
use lfdk.Common.{ℕ}

pub record Machine : Type 1 where
  pub Hw : Type 0
  -- Port input; output takes the value before the port.
  pub inb : ℕ → Hw → ℕ × Hw
  pub inw : ℕ → Hw → ℕ × Hw
  pub inl : ℕ → Hw → ℕ × Hw
  pub outb : ℕ → ℕ → Hw → Hw
  pub outw : ℕ → ℕ → Hw → Hw
  pub outl : ℕ → ℕ → Hw → Hw
  -- `virt_to_phys( high_memory )`.
  pub high_memory : ℕ
  -- Loads and stores through `phys_to_virt( addr )`; a store takes the address before the value.
  pub load_byte : ℕ → Hw → ℕ × Hw
  pub load_word : ℕ → Hw → ℕ × Hw
  pub load_dword : ℕ → Hw → ℕ × Hw
  pub store_byte : ℕ → ℕ → Hw → Hw
  pub store_word : ℕ → ℕ → Hw → Hw
  pub store_dword : ℕ → ℕ → Hw → Hw
  -- `ioremap( address, size )` gives a pointer, 0 where it fails.
  pub ioremap : ℕ → ℕ → Hw → ℕ × Hw
  pub iounmap : ℕ → Hw → Hw
  pub readb : ℕ → Hw → ℕ × Hw
  pub readl : ℕ → Hw → ℕ × Hw
  -- `writel( value, pointer )`.
  pub writel : ℕ → ℕ → Hw → Hw

-- The machine with the driver's globals.
pub record Driver (m : Machine) : Type 0 where
  pub hw : m.Hw
  pub phy2virt_mem : ℕ
  pub phy_map_start_addr : ℕ

-- A computation of the driver.
abbrev pub Run : Machine → Type 0 → Type 0
Run m A = Driver m → A × Driver m

module _ {m : Machine} where
  infixl 5 ◌>>=◌ ◌>>◌
  abbrev pub ◌>>=◌ : {A B : Type 0} → Run m A → (A → Run m B) → Run m B
  ◌>>=◌ r f d = f (r d).0 (r d).1

  abbrev pub ◌>>◌ : {A B : Type 0} → Run m A → Run m B → Run m B
  ◌>>◌ r k d = k (r d).1

  abbrev pub pure : {A : Type 0} → A → Run m A
  pure a d = (a, d)

  -- A call of the machine that returns a value, and one that does not.
  abbrev pub ask : {A : Type 0} → (m.Hw → A × m.Hw) → Run m A
  ask f d = ((f d.hw).0, record d { hw = (f d.hw).1 })

  abbrev pub tell : (m.Hw → m.Hw) → Run m (Unit {0})
  tell f d = (tt, record d { hw = f d.hw })
