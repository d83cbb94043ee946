-- ===== src/Scan/Mcfg.antt =====
-- `find_mmio_in_MCFG` and `pci_scan_init` of lfdk/lib_pci_scan.c: the base of the device memory from
-- the table that the firmware leaves.
pub mod Checksum
pub mod Table
use lfdk.Common.{
  ℕ, ◌+◌, ◌*◌, ◌%◌, ◌^◌, ◌==◌, not, leb, ltb, List, [], ◌∷◌, Option, none, some, length, get_or,
  take, u8, if◌then◌else◌,
}

-- `sum += buf[i]` over the bytes, on `uint8_t`.
pub checksum : ℕ → List ℕ → ℕ
checksum sum [] = sum
checksum sum (b ∷ bs) = checksum (u8 (sum + b)) bs

-- `*(uint32_t *)&buf[i]` and `*(uint64_t *)&buf[i]` on a little-endian machine, of a buffer given by
-- its bytes.
unfoldable pub dword_from : (ℕ → ℕ) → ℕ → ℕ
dword_from buf i = buf i + buf (i + 1) * 2 ^ 8 + buf (i + 2) * 2 ^ 16 + buf (i + 3) * 2 ^ 24

unfoldable pub qword_from : (ℕ → ℕ) → ℕ → ℕ
unfolding dword_from
qword_from buf i = dword_from buf i + dword_from buf (i + 4) * 2 ^ 32

-- The size of the buffer.
abbrev pub buf_size : ℕ
buf_size = 512

-- The function on the bytes that `fread` gives. Behind them the buffer holds what the stack held,
-- `stack`. The loop over the entries ends in its first round.
pub base_of_table : (ℕ → ℕ) → List ℕ → ℕ
base_of_table stack bytes =
    let byte_count = length bytes in
    let buf = λ (i : ℕ). get_or bytes i (stack i) in
    if ltb byte_count 44
    then 0
    else if not (dword_from buf 4 == byte_count)
    then 0
    else if not (checksum 0 bytes == 0)
    then 0
    else if ltb 44 byte_count
    then qword_from buf 44
    else 0

-- `none` is a file that cannot be opened.
pub find_mmio_in_mcfg : (ℕ → ℕ) → Option (List ℕ) → ℕ
find_mmio_in_mcfg stack none = 0
find_mmio_in_mcfg stack (some file) = base_of_table stack (take buf_size file)

-- `pcix_mmio_base` after `pci_scan_init`, from the base given as an option and the file.
pub pci_scan_init : (ℕ → ℕ) → ℕ → Option (List ℕ) → ℕ
pci_scan_init stack phy_pcix_mmio_base file =
    if not (phy_pcix_mmio_base == 0)
    then phy_pcix_mmio_base
    else (let found = find_mmio_in_mcfg stack file in if leb (2 ^ 32) found then 0 else found)
