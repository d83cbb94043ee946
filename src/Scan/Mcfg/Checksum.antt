-- ===== src/Scan/Mcfg/Checksum.antt =====
-- The checksum of the table as a sum, and a byte of it that is changed.
use lfdk.Common.{
  ℕ, zero, suc, ◌+◌, ◌%◌, ◌^◌, ◌≤◌, ◌<◌, ◌≡◌, ◌≢◌, arith, ◌==◌, false, List, [], ◌∷◌, ◌++◌, Option,
  some, length, get_or, set, take-all, length-set,
}
use lfdk.Scan.Mcfg.{checksum, base_of_table, find_mmio_in_mcfg, pci_scan_init}

-- The base is below 4 GB, when the one given as an option is.
pub pci_scan_init-lt :
    (stack : ℕ → ℕ) (given : ℕ) (file : Option (List ℕ))
    → given < 2 ^ 32
    → pci_scan_init stack given file < 2 ^ 32
unfolding pci_scan_init
pci_scan_init-lt stack given file h = ground arith

unfoldable pub sum : List ℕ → ℕ
sum [] = 0
sum (b ∷ bs) = b + sum bs

pub checksum-sum : (acc : ℕ) (bs : List ℕ) → acc < 256 → checksum acc bs ≡ (acc + sum bs) % 256
unfolding checksum sum
checksum-sum acc [] h = omega arith
checksum-sum acc (b ∷ bs) h = omega (arith, checksum-sum ((acc + b) % 256) bs)

pub sum-append : (xs ys : List ℕ) → sum (xs ++ ys) ≡ sum xs + sum ys
unfolding sum
sum-append [] ys = omega arith
sum-append (x ∷ xs) ys = omega (arith, sum-append xs ys)

sum-set : (xs : List ℕ) (i v : ℕ) → i < length xs → sum (set xs i v) + get_or xs i 0 ≡ sum xs + v
unfolding sum
sum-set [] i v h = absurd (omega arith)
sum-set (x ∷ xs) zero v h = omega arith
sum-set (x ∷ xs) (suc i) v h = omega (arith, sum-set xs i v (omega arith))

-- One byte changed in a file whose bytes sum to a multiple of 256 leaves no base.
pub changed_byte_lem :
    (stack : ℕ → ℕ) (file : List ℕ) (i v : ℕ)
    → length file ≤ 512
    → checksum 0 file ≡ 0
    → i < length file
    → get_or file i 0 < 256
    → v < 256
    → v ≢ get_or file i 0
    → find_mmio_in_mcfg stack (some (set file i v)) ≡ 0
unfolding find_mmio_in_mcfg base_of_table
changed_byte_lem stack file i v fits whole h old new other =
    let changed = set file i v in
    let n : length changed ≤ 512 = omega (arith, length-set {0} file i v) in
    let wrong : (checksum 0 changed == 0) ≡ false = ground (
      arith,
      checksum-sum 0 changed (omega arith),
      checksum-sum 0 file (omega arith),
      sum-set file i v h,
    ) in
    rw (take-all 512 changed n, wrong) (ground arith)
