-- ===== src/Driver/Pci/Race.antt =====
-- Reads of device memory in lfdd/libpci_x86.c that run at the same time. A call makes the mapping
-- before it takes `lfdd_lock` and uses it after that, so it is two steps here, and the steps of
-- several calls may come in any order. A mapping is one step: orders within it are left out.
pub mod Reads
pub mod Lost
use lfdk.Common.{ℕ, ◌≡◌, Bool, ◌==◌, if◌then◌else◌}
use lfdk.Driver.Machine.{Machine, Driver}
use lfdk.Driver.Pci.{align_buf, dword_off, map_window, window_read}

-- Where a call that reads a dword stands: before the mapping, before the lock, behind the read.
pub data Phase : Type 0 where
  waiting mapped : Phase
  finished : ℕ → Phase

unfoldable pub set_phase : (ℕ → Phase) → ℕ → Phase → ℕ → Phase
set_phase phase i p j = if j == i then p else phase j

-- The driver that the calls share, and the phase of each call.
pub record Shared (m : Machine) : Type 0 where
  pub driver : Driver m
  pub phase : ℕ → Phase

module _ (m : Machine) (addr : ℕ → ℕ) where
  -- The mapping for the call `i`, and its read under the lock.
  unfoldable pub after_map : ℕ → Shared m → Shared m
  after_map i s = record {
    driver = (map_window m (addr i) (align_buf (addr i)) s.driver).1;
    phase = set_phase s.phase i mapped;
  }

  unfoldable pub after_read : ℕ → Shared m → Shared m
  after_read i s =
      let (value, d) = window_read m (dword_off m (addr i)) s.driver in
      record { driver = d; phase = set_phase s.phase i (finished value) }

  pub data Step (s : Shared m) : Shared m → Type 0 where
    map : (i : ℕ) → s.phase i ≡ waiting → Step s (after_map i s)
    read : (i : ℕ) → s.phase i ≡ mapped → Step s (after_read i s)

  pub data Reach (s : Shared m) : Shared m → Type 0 where
    here : Reach s s
    next : {t u : Shared m} → Reach s t → Step t u → Reach s u
