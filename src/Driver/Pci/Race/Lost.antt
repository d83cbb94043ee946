-- ===== src/Driver/Pci/Race/Lost.antt =====
-- A second call of lfdd/libpci_x86.c that maps its window between the mapping and the read of a
-- first one.
use lfdk.Common.{ℕ, sym, ◌+◌, ◌≡◌, ◌≢◌, refl, ap, ◌∙◌, arith, true, false, ◌==◌}
use lfdk.Driver.Machine.{Machine}
use lfdk.Driver.Bus.{DeviceMemory}
use lfdk.Driver.Pci.{align_buf, dword_off, map_window}
use lfdk.Driver.Pci.Window.{IsWindow, map_window-IsWindow, map_window-start, mmio-map_window}
use lfdk.Driver.Pci.Race.{
  waiting, mapped, finished, set_phase, Shared, after_map, after_read, map, read, Reach, here, next,
}
use lfdk.Driver.Pci.Race.Reads.{map_window-made, seen, window_read_at}

agrees : (i : ℕ) → (i == i) ≡ true
agrees i = ground arith

differs : (i j : ℕ) → i ≢ j → (i == j) ≡ false
differs i j other = ground arith

module _ {m : Machine} (mem : DeviceMemory m)
    (never_fails : (p n : ℕ) (h : m.Hw) → (m.ioremap p n h).0 ≢ 0) (addr : ℕ → ℕ) where
  open mem use {mmio}

  module _ (s : Shared m) (w : IsWindow mem s.driver) (i j : ℕ) (other : i ≢ j)
      (none_i : s.phase i ≡ waiting) (none_j : s.phase j ≡ waiting) where
    abbrev first : Shared m
    first = after_map m addr i s

    abbrev both : Shared m
    both = after_map m addr j first

    abbrev last : Shared m
    last = after_read m addr i both

    still_waiting : first.phase j ≡ waiting
    unfolding after_map set_phase
    still_waiting = rw (differs j i (λ e. other (sym e))) none_j

    still_mapped : both.phase i ≡ mapped
    unfolding after_map set_phase
    still_mapped = rw (differs i j other) (rw (agrees i) refl)

    run : Reach m addr s last
    run = next (next (next here (map i none_i)) (map j still_waiting)) (read i still_mapped)

    wrong_read : last.phase i ≡ finished (seen mem addr s.driver.hw i j)
    unfolding after_read after_map set_phase
    wrong_read =
        let d = (map_window m (addr i) (align_buf (addr i)) s.driver).1 in
        let w_i = map_window-IsWindow mem (addr i) s.driver w in
        let made = map_window-made mem never_fails addr (addr j) (align_buf (addr j)) d in
        let w_j = map_window-IsWindow mem (addr j) d w_i in
        let off = dword_off m (addr i) in
        let start = map_window-start mem (addr j) d w_i in
        rw (agrees i) (
          ap finished (
            window_read_at mem off both.driver w_j made (omega arith)
            ∙ ap (λ p. mmio both.driver.hw (p + off)) start
            ∙ mmio-map_window mem (addr j) (align_buf (addr j)) (align_buf (addr j) + off) d
            ∙ mmio-map_window mem (addr i) (align_buf (addr i)) (align_buf (addr j) + off)
                s.driver))

    -- Of two calls that have not begun, the first can finish, in some interleaving of their steps,
    -- with the register at its own offset in the window of the second. The mapping is taken to be
    -- there and aligned, and `ioremap` never to fail.
    pub lost_mapping :
        (t : Shared m) × Reach m addr s t × (t.phase i ≡ finished (seen mem addr s.driver.hw i j))
    lost_mapping = (last, run, wrong_read)
