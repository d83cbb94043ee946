-- ===== src/Driver/Pci/Merge.antt =====
-- What `merge_byte` and `merge_word` make of a dword: the lanes of the write replaced, the other
-- lanes kept.
use lfdk.Common.{
  ℕ, ◌+◌, ◌*◌, ◌/◌, ◌%◌, ◌^◌, ◌<◌, ◌≡◌, arith, bit_and, bit_or, ◌==◌, if◌then◌else◌, bit_and_byte,
  bit_or_byte, bit_and_half_word, bit_or_half_word, mask_three, mask_byte, mask_half_word,
  bit_and-zero, bit_or-zero, zero-bit_or, or_byte, mask_two, mask_three_bytes,
}
use lfdk.Common.{zero, suc}
use lfdk.Driver.Pci.{merge_byte, merge_word}

-- The byte of a dword at the lane `k`.
abbrev pub lane : ℕ → ℕ → ℕ
lane k x = x / 2 ^ (k * 8) % 256

-- A dword without one of its bytes.
keep_upper : (t : ℕ) → t < 2 ^ 32 → bit_and t 0xffff_ff00 ≡ t / 256 * 256
keep_upper t h =
    omega (arith, bit_and_byte t 0xffff_ff00, mask_three_bytes (t / 256), bit_and-zero (t % 256))

drop_second : (t : ℕ) → t < 2 ^ 32 → bit_and t 0xffff_00ff ≡ t / 65536 * 65536 + t % 256
drop_second t h = omega (
  arith,
  bit_and_byte t 0xffff_00ff,
  bit_and_byte (t / 256) 0xffff00,
  mask_half_word (t / 256 / 256),
  bit_and-zero (t / 256 % 256),
  mask_byte (t % 256),
)

drop_third : (t : ℕ) → t < 2 ^ 32 → bit_and t 0xff00_ffff ≡ t / 2 ^ 24 * 2 ^ 24 + t % 65536
drop_third t h = omega (
  arith,
  bit_and_half_word t 0xff00_ffff,
  bit_and_byte (t / 65536) 0xff00,
  mask_byte (t / 65536 / 256),
  bit_and-zero (t / 65536 % 256),
  mask_half_word (t % 65536),
)

keep_high_word : (t : ℕ) → t < 2 ^ 32 → bit_and t 0xffff_0000 ≡ t / 65536 * 65536
keep_high_word t h =
    omega
      (arith, bit_and_half_word t 0xffff_0000, mask_half_word (t / 65536), bit_and-zero (t % 65536))

-- A part put in above the low byte, above the low half word.
or_above_byte :
    (q b r : ℕ) → r < 256 → bit_or (q * 65536 + r) (b * 256) ≡ bit_or (q * 256) b * 256 + r
or_above_byte q b r low = ground (arith, bit_or_byte (q * 65536 + r) (b * 256), bit_or-zero r)

or_above_half :
    (q b r : ℕ) → r < 65536 → bit_or (q * 65536 + r) (b * 65536) ≡ bit_or q b * 65536 + r
or_above_half q b r low =
    ground (arith, bit_or_half_word (q * 65536 + r) (b * 65536), bit_or-zero r)

or_above_fields : (b r : ℕ) → r < 256 → bit_or r (b * 256) ≡ b * 256 + r
or_above_fields b r low = ground (arith, bit_or_byte r (b * 256), bit_or-zero r, zero-bit_or b)

or_half : (q w : ℕ) → w < 65536 → bit_or (q * 65536) w ≡ q * 65536 + w
or_half q w low = ground (arith, bit_or_half_word (q * 65536) w, bit_or-zero q, zero-bit_or w)

module _ (addr buf t : ℕ) (small : t < 2 ^ 32) where
  lane_zero : addr % 4 ≡ 0 → merge_byte addr buf t ≡ t / 256 * 256 + buf % 256
  unfolding merge_byte
  lane_zero a =
      rw (mask_three addr, mask_byte buf, a)
        (ground (arith, keep_upper t small, or_byte (t / 256) (buf % 256)))

  lane_one : addr % 4 ≡ 1 → merge_byte addr buf t ≡ t / 65536 * 65536 + buf % 256 * 256 + t % 256
  unfolding merge_byte
  lane_one a =
      rw (mask_three addr, mask_byte buf, a)
        (ground (
          arith,
          drop_second t small,
          or_above_byte (t / 65536) (buf % 256) (t % 256),
          or_byte (t / 65536) (buf % 256),
        ))

  lane_two :
      addr % 4 ≡ 2 → merge_byte addr buf t ≡ t / 2 ^ 24 * 2 ^ 24 + buf % 256 * 65536 + t % 65536
  unfolding merge_byte
  lane_two a =
      rw (mask_three addr, mask_byte buf, a)
        (ground (
          arith,
          drop_third t small,
          or_above_half (t / 2 ^ 24 * 256) (buf % 256) (t % 65536),
          or_byte (t / 2 ^ 24) (buf % 256),
        ))

  lane_three : addr % 4 ≡ 3 → merge_byte addr buf t ≡ buf % 256 * 2 ^ 24 + t % 2 ^ 24
  unfolding merge_byte
  lane_three a =
      rw (mask_three addr, mask_byte buf, a)
        (ground (
          arith,
          mask_three_bytes t,
          or_above_half (t / 65536 % 256) (buf % 256 * 256) (t % 65536),
          or_above_fields (buf % 256) (t / 65536 % 256),
        ))

  low_word : addr / 2 % 2 ≡ 0 → merge_word addr buf t ≡ t / 65536 * 65536 + buf % 65536
  unfolding merge_word
  low_word a =
      rw (mask_two addr, mask_half_word buf, a)
        (ground (arith, keep_high_word t small, or_half (t / 65536) (buf % 65536)))

  high_word : addr / 2 % 2 ≡ 1 → merge_word addr buf t ≡ buf % 65536 * 65536 + t % 65536
  unfolding merge_word
  high_word a =
      rw (mask_two addr, mask_half_word buf, a)
        (ground (
          arith,
          mask_half_word t,
          or_above_half 0 (buf % 65536) (t % 65536),
          zero-bit_or (buf % 65536),
        ))

  pub merge_byte-lt : merge_byte addr buf t < 2 ^ 32
  merge_byte-lt = ground (arith, lane_zero, lane_one, lane_two, lane_three)

  pub merge_word-lt : merge_word addr buf t < 2 ^ 32
  merge_word-lt = ground (arith, low_word, high_word)

  -- A byte write replaces the lane of its address and no other.
  pub lane-merge_byte :
      (k : ℕ)
      → k < 4
      → lane k (merge_byte addr buf t) ≡ (if k == addr % 4 then buf % 256 else lane k t)
  lane-merge_byte zero low = ground (arith, lane_zero, lane_one, lane_two, lane_three)
  lane-merge_byte (suc zero) low = ground (arith, lane_zero, lane_one, lane_two, lane_three)
  lane-merge_byte (suc (suc zero)) low = ground (arith, lane_zero, lane_one, lane_two, lane_three)
  lane-merge_byte (suc (suc (suc zero))) low =
      ground (arith, lane_zero, lane_one, lane_two, lane_three)
  lane-merge_byte (suc (suc (suc (suc k)))) low = absurd (omega arith)

  -- A word write replaces the two lanes of the even address at or below its own.
  pub lane-merge_word :
      (k : ℕ)
      → k < 4
      → lane k (merge_word addr buf t)
        ≡ (if k / 2 == addr / 2 % 2 then lane (k % 2) buf else lane k t)
  lane-merge_word zero low = ground (arith, low_word, high_word)
  lane-merge_word (suc zero) low = ground (arith, low_word, high_word)
  lane-merge_word (suc (suc zero)) low = ground (arith, low_word, high_word)
  lane-merge_word (suc (suc (suc zero))) low = ground (arith, low_word, high_word)
  lane-merge_word (suc (suc (suc (suc k)))) low = absurd (omega arith)
