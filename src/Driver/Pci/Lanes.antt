-- ===== src/Driver/Pci/Lanes.antt =====
-- A word and a dword as the bytes of their lanes.
use lfdk.Common.{ℕ, ◌+◌, ◌*◌, ◌/◌, ◌%◌, ◌^◌, ◌<◌, ◌≡◌, ◌⊎◌, inl, inr, arith, ◌==◌, if◌then◌else◌}
use lfdk.Driver.Bus.{byte_at}

pub low_lane : (a : ℕ) → a % 4 % 2 ≡ a % 2
low_lane a = omega arith

below_four : (k : ℕ) → k < 4 → (k ≡ 0) ⊎ (k ≡ 1) ⊎ (k ≡ 2) ⊎ (k ≡ 3)
below_four k h = omega arith

next_lane :
    (addr k : ℕ) → k < 3 → addr % 4 ≡ k → ((addr + 1) % 4 ≡ k + 1) × ((addr + 1) / 4 ≡ addr / 4)
next_lane addr k h e = omega arith

-- A dword shifted down by the lane of `addr` and cut to a word.
pub two_lanes :
    (addr : ℕ) (f : ℕ → ℕ)
    → f (addr / 4 * 4) < 2 ^ 32
    → f (addr / 4 * 4) / 2 ^ (addr % 4 * 8) % 2 ^ 16
      ≡ byte_at f addr + (if addr % 4 == 3 then 0 else byte_at f (addr + 1) * 256)
two_lanes addr f small = elim (below_four (addr % 4) (omega arith)) [
  | inl e ↦
      rw (e, (next_lane addr 0 (omega arith) e).0, (next_lane addr 0 (omega arith) e).1)
        (omega arith)
  | inr (inl e) ↦
      rw (e, (next_lane addr 1 (omega arith) e).0, (next_lane addr 1 (omega arith) e).1)
        (omega arith)
  | inr (inr (inl e)) ↦
      rw (e, (next_lane addr 2 (omega arith) e).0, (next_lane addr 2 (omega arith) e).1)
        (omega arith)
  | inr (inr (inr e)) ↦ rw e (omega arith)
]

aligned_lane : (n k : ℕ) → k < 4 → ((n * 4 + k) % 4 ≡ k) × ((n * 4 + k) / 4 ≡ n)
aligned_lane n k h = omega arith

aligned : (n : ℕ) → (n * 4 % 4 ≡ 0) × (n * 4 / 4 ≡ n)
aligned n = omega arith

pub four_lanes :
    (n : ℕ) (f : ℕ → ℕ)
    → f (n * 4) < 2 ^ 32
    → f (n * 4)
      ≡ byte_at f (n * 4)
        + byte_at f (n * 4 + 1) * 2 ^ 8
        + byte_at f (n * 4 + 2) * 2 ^ 16
        + byte_at f (n * 4 + 3) * 2 ^ 24
four_lanes n f small =
    let one = aligned_lane n 1 (omega arith) in
    let two = aligned_lane n 2 (omega arith) in
    let three = aligned_lane n 3 (omega arith) in
    rw ((aligned n).0, (aligned n).1, one.0, one.1, two.0, two.1, three.0, three.1) (omega arith)
