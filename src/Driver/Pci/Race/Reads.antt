-- ===== src/Driver/Pci/Race/Reads.antt =====
-- What the calls of lfdd/libpci_x86.c read when their steps interleave: a register at the right
-- offset, in the window that some call has mapped.
use mathlib.Core.Path.{subst}
use lfdk.Common.{
  ℕ, ◌+◌, ◌*◌, ◌/◌, ◌≤◌, ◌≡◌, ◌≢◌, refl, sym, ap, ◌∙◌, inl, inr, ◌==◌, arith, Bool-cases,
}
use lfdk.Driver.Machine.{Machine, Driver}
use lfdk.Driver.Bus.{DeviceMemory}
use lfdk.Driver.Pci.{align_buf, dword_off, map_window, out_range, remap, window_read}
use lfdk.Driver.Pci.Window.{
  IsWindow, map_window-IsWindow, map_window-start, mmio-map_window, mmio-window_read,
  window_read-HasMapping,
}
use lfdk.Driver.Pci.Race.{
  Phase, waiting, mapped, finished, set_phase, Shared, after_map, after_read, map, read, Reach,
  here, next,
}

module _ {m : Machine} (mem : DeviceMemory m) where
  open mem use {mmio}

  pub window_read_at :
      (off : ℕ) (d : Driver m)
      → IsWindow mem d
      → d.phy2virt_mem ≢ 0
      → off + 4 ≤ 256
      → (window_read m off d).0 ≡ mmio d.hw (d.phy_map_start_addr + off)
  unfolding window_read
  window_read_at off d w made fits =
      mem.readl-mmio d.hw d.phy2virt_mem d.phy_map_start_addr off (w.mapped made) fits

  -- The register behind the offset of the call `i` in the window of the call `j`.
  abbrev pub seen : (ℕ → ℕ) → m.Hw → ℕ → ℕ → ℕ
  seen addr h i j = mmio h (align_buf (addr j) + dword_off m (addr i))

  module _ (never_fails : (p n : ℕ) (h : m.Hw) → (m.ioremap p n h).0 ≢ 0) (addr : ℕ → ℕ) where
    pub map_window-made : (a start : ℕ) (d : Driver m) → (map_window m a start d).1.phy2virt_mem ≢ 0
    unfolding map_window remap
    map_window-made a start d = elim (Bool-cases (d.phy2virt_mem == 0)) [
      | inl none_yet ↦ rw none_yet (never_fails start 256 d.hw)
      | inr present ↦ rw present (elim (Bool-cases (out_range a d.phy_map_start_addr 256)) [
        | inl outside ↦ rw outside (never_fails start 256 (m.iounmap d.phy2virt_mem d.hw))
        | inr inside ↦ rw inside (ground arith)
      ])
    ]

    -- What the phase of the call `i` says.
    pub Holds : m.Hw → Driver m → ℕ → Phase → Type 0
    Holds h d i waiting = Unit
    Holds h d i mapped =
        (d.phy2virt_mem ≢ 0) × (j : ℕ) × (d.phy_map_start_addr ≡ align_buf (addr j))
    Holds h d i (finished v) = (j : ℕ) × (v ≡ seen addr h i j)

    record Invariant (h : m.Hw) (s : Shared m) : Type 0 where
      window : IsWindow mem s.driver
      same : (a : ℕ) → mmio s.driver.hw a ≡ mmio h a
      holds : (i : ℕ) → Holds h s.driver i (s.phase i)

    holds-set_phase :
        (h : m.Hw) (d : Driver m) (phase : ℕ → Phase) (i : ℕ) (p : Phase)
        → Holds h d i p
        → ((j : ℕ) → Holds h d j (phase j))
        → (j : ℕ) → Holds h d j (set_phase phase i p j)
    unfolding set_phase
    holds-set_phase h d phase i p new old j = elim (Bool-cases (j == i)) [
      | inl its ↦ rw its (subst (λ k. Holds h d k p) (ground arith) new)
      | inr other ↦ rw other (old j)
    ]

    -- Another mapping leaves every mapped call a mapping, of the call that made it last.
    holds-map_window :
        (h : m.Hw) (d : Driver m) (i : ℕ)
        → IsWindow mem d
        → (j : ℕ) (p : Phase) → Holds h d j p
        → Holds h (map_window m (addr i) (align_buf (addr i)) d).1 j p
    unfolding Holds
    holds-map_window h d i w j waiting known = tt
    holds-map_window h d i w j mapped known =
        (map_window-made (addr i) (align_buf (addr i)) d, i, map_window-start mem (addr i) d w)
    holds-map_window h d i w j (finished v) known = known

    holds-window_read :
        (h : m.Hw) (d : Driver m) (off j : ℕ) (p : Phase)
        → Holds h d j p
        → Holds h (window_read m off d).1 j p
    unfolding Holds window_read
    holds-window_read h d off j waiting known = tt
    holds-window_read h d off j mapped known = known
    holds-window_read h d off j (finished v) known = known

    after_map-Invariant :
        (h : m.Hw) (s : Shared m) (i : ℕ) → Invariant h s → Invariant h (after_map m addr i s)
    unfolding after_map Holds
    after_map-Invariant h s i inv =
        let a = addr i in
        record {
          window = map_window-IsWindow mem a s.driver inv.window;
          same = λ b. mmio-map_window mem a (align_buf a) b s.driver ∙ inv.same b;
          holds =
              holds-set_phase h (map_window m a (align_buf a) s.driver).1 s.phase i mapped
                (
                  map_window-made a (align_buf a) s.driver,
                  i,
                  map_window-start mem a s.driver inv.window,
                )
                (λ j. holds-map_window h s.driver i inv.window j (s.phase j) (inv.holds j));
        }

    seen_now :
        (h : m.Hw) (s : Shared m) (i : ℕ)
        → Invariant h s
        → Holds h s.driver i mapped
        → Holds h s.driver i (finished (window_read m (dword_off m (addr i)) s.driver).0)
    unfolding Holds
    seen_now h s i inv (made, j, start) =
        let off = dword_off m (addr i) in
        (
          j,
          window_read_at off s.driver inv.window made (omega arith)
              ∙ inv.same (s.driver.phy_map_start_addr + off)
              ∙ ap (λ p. mmio h (p + off)) start,
        )

    after_read-Invariant :
        (h : m.Hw) (s : Shared m) (i : ℕ)
        → s.phase i ≡ mapped
        → Invariant h s
        → Invariant h (after_read m addr i s)
    unfolding after_read window_read
    after_read-Invariant h s i e inv =
        let off = dword_off m (addr i) in
        let now = seen_now h s i inv (subst (Holds h s.driver i) e (inv.holds i)) in
        record {
          window = record {
            mapped = window_read-HasMapping mem off s.driver inv.window.mapped;
            aligned = inv.window.aligned;
          };
          same = λ b. mmio-window_read mem off b s.driver ∙ inv.same b;
          holds =
              holds-set_phase h (window_read m off s.driver).1 s.phase i
                (finished (window_read m off s.driver).0)
                (holds-window_read h s.driver off i (finished (window_read m off s.driver).0) now)
                (λ j. holds-window_read h s.driver off j (s.phase j) (inv.holds j));
        }

    Reach-Invariant :
        (s t : Shared m) → Invariant s.driver.hw s → Reach m addr s t → Invariant s.driver.hw t
    Reach-Invariant s t inv here = inv
    Reach-Invariant s t inv (next run (map i e)) =
        after_map-Invariant s.driver.hw _ i (Reach-Invariant s _ inv run)
    Reach-Invariant s t inv (next run (read i e)) =
        after_read-Invariant s.driver.hw _ i e (Reach-Invariant s _ inv run)

    at_rest :
        (s : Shared m)
        → IsWindow mem s.driver
        → ((i : ℕ) → s.phase i ≡ waiting)
        → Invariant s.driver.hw s
    unfolding Holds
    at_rest s w none = record {
      window = w;
      same = λ a. refl;
      holds = λ j. subst (Holds s.driver.hw s.driver j) (sym (none j)) tt;
    }

    -- Where the driver's mapping is there and aligned, no call has begun and `ioremap` never fails,
    -- then after any interleaving of the steps, a call that has finished has read the register at
    -- its own offset, in the window of some call.
    pub race_reads :
        (s t : Shared m)
        → IsWindow mem s.driver
        → ((i : ℕ) → s.phase i ≡ waiting)
        → Reach m addr s t
        → (i v : ℕ) → t.phase i ≡ finished v
        → (j : ℕ) × (v ≡ seen addr s.driver.hw i j)
    unfolding Holds
    race_reads s t w none run i v e =
        subst (Holds s.driver.hw t.driver i) e
          ((Reach-Invariant s t (at_rest s w none) run).holds i)

    -- The driver's mapping is there and aligned, no call has begun, `ioremap` never fails and the
    -- addresses of all calls lie in one window. Then after any interleaving of the steps, a mapping
    -- being one step, a call that has finished has read the dword that holds its own address.
    pub one_window_reads :
        (s t : Shared m)
        → IsWindow mem s.driver
        → ((i : ℕ) → s.phase i ≡ waiting)
        → Reach m addr s t
        → (i v : ℕ) → t.phase i ≡ finished v
        → ((j : ℕ) → align_buf (addr j) ≡ align_buf (addr i))
        → v ≡ mmio s.driver.hw (addr i / 4 * 4)
    one_window_reads s t w none run i v e one =
        let (j, value) = race_reads s t w none run i v e in
        value ∙ ap (mmio s.driver.hw) (omega (arith, one j))
