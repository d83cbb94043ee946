-- ===== src/Scan/Mcfg/Table.antt =====
-- The table as firmware writes it, and what the program reads from it.
use lfdk.Scan.Mcfg.Checksum.{sum, checksum-sum, sum-append}
use lfdk.Common.{
  ℕ, suc, ◌+◌, ◌-◌, ◌/◌, ◌%◌, ◌^◌, ◌≤◌, ◌<◌, ◌≡◌, refl, ap, ◌∙◌, arith, ◌==◌, leb, ltb, true, false,
  List, [], ◌∷◌, ◌++◌, some, length, get_or, take, take-all, length-append, if◌then◌else◌,
}
use lfdk.Scan.Mcfg.{
  checksum, dword_from, qword_from, base_of_table, find_mmio_in_mcfg, pci_scan_init,
}

get_or-append : (xs ys : List ℕ) (i d : ℕ) → get_or (xs ++ ys) (length xs + i) d ≡ get_or ys i d
get_or-append [] ys i d = let e : 0 + i ≡ i = omega arith in rw e refl
get_or-append (x ∷ xs) ys i d =
    let e : suc (length xs) + i ≡ suc (length xs + i) = omega arith in
    rw e (get_or-append xs ys i d)

-- The four bytes of a number, the lowest first.
abbrev pub le32 : ℕ → List ℕ
le32 n = n % 256 ∷ n / 256 % 256 ∷ n / 65536 % 256 ∷ n / 2 ^ 24 % 256 ∷ []

-- The header of 36 bytes, with the length at 4 and the checksum at 9; 8 bytes reserved; then the
-- first entry, with its base, and the rest. `front` is the signature and `middle` what stands
-- between the checksum and the entry.
abbrev pub parts : List ℕ → ℕ → ℕ → List ℕ → ℕ → List ℕ → List ℕ
parts front revision check middle base rest =
    front
    ++ (le32 (52 + length rest)
        ++ revision ∷ check ∷ (middle ++ (le32 (base % 2 ^ 32) ++ (le32 (base / 2 ^ 32) ++ rest))))

-- The checksum that makes the sum of all bytes a multiple of 256.
unfoldable pub print_table : List ℕ → ℕ → List ℕ → ℕ → List ℕ → List ℕ
unfolding sum
print_table front revision middle base rest =
    parts front revision ((256 - sum (parts front revision 0 middle base rest) % 256) % 256) middle
      base rest

module _ (front : List ℕ) (revision : ℕ) (middle : List ℕ) (base : ℕ) (rest : List ℕ) where
  abbrev tail : List ℕ
  tail = le32 (base % 2 ^ 32) ++ (le32 (base / 2 ^ 32) ++ rest)

  sum-parts :
      (check : ℕ)
      → sum (parts front revision check middle base rest)
        ≡ check + sum (parts front revision 0 middle base rest)
  unfolding sum
  sum-parts check = omega (
    arith,
    sum-append front (le32 (52 + length rest) ++ revision ∷ check ∷ (middle ++ tail)),
    sum-append front (le32 (52 + length rest) ++ revision ∷ 0 ∷ (middle ++ tail)),
  )

  length-parts :
      (check : ℕ)
      → length front ≡ 4
      → length middle ≡ 34
      → length (parts front revision check middle base rest) ≡ 52 + length rest
  length-parts check h k = omega (
    arith,
    length-append {0} front (le32 (52 + length rest) ++ revision ∷ check ∷ (middle ++ tail)),
    length-append {0} middle tail,
  )

  module _ (check : ℕ) (h : length front ≡ 4) (k : length middle ≡ 34) where
    abbrev table : List ℕ
    table = parts front revision check middle base rest

    at_length :
        (j d : ℕ)
        → get_or table (4 + j) d
          ≡ get_or (le32 (52 + length rest) ++ revision ∷ check ∷ (middle ++ tail)) j d
    at_length j d =
        let e : 4 + j ≡ length front + j = omega arith in
        rw e
          (get_or-append front (le32 (52 + length rest) ++ revision ∷ check ∷ (middle ++ tail)) j d)

    at_base : (j d : ℕ) → get_or table (44 + j) d ≡ get_or tail j d
    at_base j d =
        let e : 44 + j ≡ 4 + suc (suc (suc (suc (suc (suc (34 + j)))))) = omega arith in
        let f : 34 + j ≡ length middle + j = omega arith in
        rw e (
          at_length (suc (suc (suc (suc (suc (suc (34 + j))))))) d
          ∙ rw f (get_or-append middle tail j d))

    length_field :
        (stack : ℕ → ℕ)
        → 52 + length rest < 2 ^ 32
        → dword_from (λ i. get_or table i (stack i)) 4 ≡ 52 + length rest
    unfolding dword_from
    length_field stack small =
        rw
          (
            at_length 0 (stack 4),
            at_length 1 (stack 5),
            at_length 2 (stack 6),
            at_length 3 (stack 7),
          )
          (omega arith)

    base_field :
        (stack : ℕ → ℕ) → base < 2 ^ 64 → qword_from (λ i. get_or table i (stack i)) 44 ≡ base
    unfolding qword_from
    base_field stack small =
        rw
          (
            at_base 0 (stack 44),
            at_base 1 (stack 45),
            at_base 2 (stack 46),
            at_base 3 (stack 47),
            at_base 4 (stack 48),
            at_base 5 (stack 49),
            at_base 6 (stack 50),
            at_base 7 (stack 51),
          )
          (omega arith)

    accepted :
        (stack : ℕ → ℕ)
        → sum table % 256 ≡ 0
        → base < 2 ^ 64
        → 52 + length rest ≤ 512
        → base_of_table stack table ≡ base
    unfolding base_of_table
    accepted stack whole small fits =
        let n : length table ≡ 52 + length rest = length-parts check h k in
        let long : ltb (length table) 44 ≡ false = ground (arith, n) in
        let behind : ltb 44 (length table) ≡ true = ground (arith, n) in
        let stated : (dword_from (λ i. get_or table i (stack i)) 4 == length table) ≡ true =
          ground (arith, n, length_field stack (omega arith)) in
        let zero_sum : (checksum 0 table == 0) ≡ true =
          ground (arith, checksum-sum 0 table (omega arith)) in
        rw (long, stated, zero_sum, behind) (base_field stack small)

zero_check :
    (front : List ℕ) (revision : ℕ) (middle : List ℕ) (base : ℕ) (rest : List ℕ)
    → sum (print_table front revision middle base rest) % 256 ≡ 0
unfolding print_table
zero_check front revision middle base rest =
    let others = sum (parts front revision 0 middle base rest) in
    omega (arith, sum-parts front revision middle base rest ((256 - others % 256) % 256))

-- A table of at most 512 bytes that firmware writes as documented, with the checksum put in, gives
-- the base of its first entry, whatever the stack held; the program keeps it when it is below 4 GB
-- and no base was given as an option, and goes without one otherwise.
pub base-print :
    (stack : ℕ → ℕ) (front : List ℕ) (revision : ℕ) (middle : List ℕ) (base : ℕ) (rest : List ℕ)
    → length front ≡ 4
    → length middle ≡ 34
    → base < 2 ^ 64
    → 52 + length rest ≤ 512
    → (find_mmio_in_mcfg stack (some (print_table front revision middle base rest)) ≡ base)
      × (pci_scan_init stack 0 (some (print_table front revision middle base rest))
          ≡ (if leb (2 ^ 32) base then 0 else base))
unfolding pci_scan_init find_mmio_in_mcfg
base-print stack front revision middle base rest h k small fits =
    let others = sum (parts front revision 0 middle base rest) in
    let check = (256 - others % 256) % 256 in
    let table = print_table front revision middle base rest in
    let n : length table ≤ 512 =
      unfold print_table in omega (arith, length-parts front revision middle base rest check h k) in
    let found : base_of_table stack table ≡ base =
      unfold print_table in
      accepted front revision middle base rest check h k stack
        (zero_check front revision middle base rest) small fits in
    let all : take 512 table ≡ table = take-all 512 table n in
    let read : base_of_table stack (take 512 table) ≡ base = rw all found in
    (read, ap (λ (b : ℕ). if leb (2 ^ 32) b then 0 else b) read)
