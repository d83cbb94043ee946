-- ===== src/Tests/Races.antt =====
-- The theorems on calls that run at the same time, at two calls.
use lfdk.Common.{ℕ, ◌+◌, ◌*◌, ◌/◌, ◌≡◌, ◌≢◌, refl, arith, u32, ◌==◌, if◌then◌else◌}
use lfdk.Driver.Pci.{align_buf, map_window, out_range, remap, window_read}
use lfdk.Driver.Pci.Race.{
  waiting, finished, set_phase, Shared, after_map, after_read, map, read, Reach, here, next,
}
use lfdk.Driver.Pci.Race.Lost.{lost_mapping}
use lfdk.Driver.Pci.Race.Reads.{one_window_reads}
use lfdk.Tests.Hardware.{machine, memory, fresh, board}
use lfdk.Tests.Requests.{fresh-IsWindow}

abbrev none_begun : Shared machine
none_begun = record { driver = fresh; phase = λ i. waiting }

mapping_is_made : (p n : ℕ) (h : machine.Hw) → (machine.ioremap p n h).0 ≢ 0
mapping_is_made p n h = ground arith

-- The registers 4 and 8 of one device, and the register 4 of two devices.
abbrev near : ℕ → ℕ
near i = if i == 0 then 0xe000_0004 else 0xe000_0008

abbrev far : ℕ → ℕ
far i = if i == 0 then 0xe000_0004 else 0xe000_8004

near_is_one : (j : ℕ) → align_buf (near j) ≡ align_buf (near 0)
near_is_one j = ground arith

abbrev both_mapped : Shared machine
both_mapped = after_map machine near 1 (after_map machine near 0 none_begun)

near_run : Reach machine near none_begun (after_read machine near 0 both_mapped)
unfolding after_map set_phase
near_run = next (next (next here (map 0 refl)) (map 1 refl)) (read 0 refl)

near_value :
    (after_read machine near 0 both_mapped).phase 0 ≡ finished (u32 (0xe000_0004 * 3 + 0x0506_0708))
unfolding after_read after_map set_phase map_window remap out_range window_read
near_value = refl

one_window_reads_example :
    u32 (0xe000_0004 * 3 + 0x0506_0708) ≡ memory.mmio board (0xe000_0004 / 4 * 4)
one_window_reads_example =
    one_window_reads memory mapping_is_made near none_begun (after_read machine near 0 both_mapped)
      fresh-IsWindow (λ i. refl) near_run 0 _ near_value near_is_one

abbrev call_0 : ℕ
call_0 = 0

calls_differ : call_0 ≢ 1
calls_differ = omega arith

lost_mapping_example :
    (t : Shared machine) × Reach machine far none_begun t
    × (t.phase 0 ≡ finished (u32 (0xe000_8004 * 3 + 0x0506_0708)))
lost_mapping_example =
    lost_mapping memory mapping_is_made far none_begun fresh-IsWindow 0 1 calls_differ refl refl
