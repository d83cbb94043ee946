-- ===== src/Driver/Pci/Ports.antt =====
-- The value and the effect of each access through the ports of lfdd/libpci_x86.c.
use lfdk.Common.{ℕ, ◌*◌, ◌/◌, ◌≡◌, u32}
use lfdk.Driver.Machine.{Machine, Driver}
use lfdk.Driver.Bus.{ConfigPorts, set_dword}
use lfdk.Driver.Pci.{port_read, port_update, port_write}

module _ {m : Machine} (ports : ConfigPorts m) where
  open ports use {
    latch, config, latch_whole, inl-index, config-inl_index, latch-outl_index, config-outl_index,
    inl-data, latch-inl_data, config-inl_data, latch-outl_data, config-outl_data,
  }

  -- The value of a read through the ports, and what it leaves of the bridge.
  pub port_read_value :
      (addr : ℕ) (d : Driver m) → (port_read m addr d).0 ≡ config d.hw (addr / 4 * 4)
  unfolding port_read
  port_read_value addr d = simp (config-inl_index, latch-outl_index, config-outl_index, inl-data)

  pub port_read_bridge :
      (addr : ℕ) (d : Driver m) (a : ℕ)
      → (latch (port_read m addr d).1.hw ≡ latch d.hw)
        × (config (port_read m addr d).1.hw a ≡ config d.hw a)
  unfolding port_read
  port_read_bridge addr d a = (
    simp (inl-index, latch-outl_index, latch_whole),
    simp (config-inl_index, config-outl_index, config-inl_data),
  )

  pub port_update_bridge :
      (addr : ℕ) (merge : ℕ → ℕ) (d : Driver m) (a : ℕ)
      → (latch (port_update m addr merge d).1.hw ≡ latch d.hw)
        × (config (port_update m addr merge d).1.hw a
            ≡ set_dword (config d.hw) (addr / 4 * 4) (u32 (merge (config d.hw (addr / 4 * 4)))) a)
  unfolding port_update
  port_update_bridge addr merge d a = (
    simp (inl-index, latch-outl_index, latch_whole),
    simp (
      config-inl_index, latch-outl_index, config-outl_index, inl-data, latch-inl_data,
      config-inl_data, config-outl_data,
    ),
  )

  pub port_write_bridge :
      (addr buf : ℕ) (d : Driver m) (a : ℕ)
      → (latch (port_write m addr buf d).1.hw ≡ latch d.hw)
        × (config (port_write m addr buf d).1.hw a
            ≡ set_dword (config d.hw) (addr / 4 * 4) (u32 buf) a)
  unfolding port_write
  port_write_bridge addr buf d a = (
    simp (inl-index, latch-outl_index, latch_whole),
    simp (config-inl_index, latch-outl_index, config-outl_index, config-outl_data),
  )
