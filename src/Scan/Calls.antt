-- ===== src/Scan/Calls.antt =====
-- The calls of the driver that lfdk/lib_pci_scan.c makes, as a parameter, and what a device that
-- answers them gives.
use lfdk.Common.{ℕ, ◌≡◌, ◌⊎◌}
use lfdk.Driver.Structs.{Command, Pcix}

-- `ioctl( fd, command, &data )` in a world of the type `S`: what it returns, the structure and the
-- world after it.
abbrev pub Calls : Type 0 → Type 0
Calls S = Command → Pcix → S → (ℕ × Pcix) × S

-- Words read without a base: each call succeeds and gives the same value at each register, in every
-- world that is settled, and leaves the world settled.
pub record AnswersWords {S : Type 0} (ioctl : Calls S) : Type 1 where
  pub Settled : S → Type 0
  pub word : ℕ → ℕ → ℕ → ℕ → ℕ
  pub read_word :
      (p : Pcix) (s : S)
      → p.phy_base ≡ 0
      → Settled s
      → (ioctl Command.pci_read_word p s).0 ≡ (0, record p { buf = word p.bus p.dev p.fun p.reg })
  pub read_word-Settled :
      (p : Pcix) (s : S) → p.phy_base ≡ 0 → Settled s → Settled (ioctl Command.pci_read_word p s).1

-- Dwords read the same way, without a base and with the base `base`.
pub record AnswersDwords {S : Type 0} (ioctl : Calls S) (Settled : S → Type 0) (base : ℕ)
    : Type 0 where
  pub dword : ℕ → ℕ → ℕ → ℕ → ℕ → ℕ
  pub read_dword :
      (p : Pcix) (s : S)
      → (p.phy_base ≡ 0) ⊎ (p.phy_base ≡ base)
      → Settled s
      → (ioctl Command.pci_read_dword p s).0
        ≡ (0, record p { buf = dword p.phy_base p.bus p.dev p.fun p.reg })
  pub read_dword-Settled :
      (p : Pcix) (s : S)
      → (p.phy_base ≡ 0) ⊎ (p.phy_base ≡ base)
      → Settled s
      → Settled (ioctl Command.pci_read_dword p s).1
