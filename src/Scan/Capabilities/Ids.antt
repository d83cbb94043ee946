-- ===== src/Scan/Capabilities/Ids.antt =====
-- The ids of the capabilities of a device, and the walk over them.
use lfdk.Common.{
  ℕ, zero, suc, ◌/◌, ◌%◌, ◌≡◌, arith, ◌==◌, not, ◌&&◌, ◌||◌, Bool, false, Bool-cases, inl, inr,
  List, [], ◌∷◌, if◌then◌else◌, mask_byte, bit_and_byte, bit_and-zero,
}
use lfdk.Scan.Capabilities.{low_byte, high_byte}

abbrev pub contains : ℕ → List ℕ → Bool
contains a [] = false
contains a (x ∷ xs) = x == a || contains a xs

-- The ids of the capabilities of a device, by the words of its registers: at most `n` from the
-- register `next` on, up to the link that is 0.
unfoldable pub linked_ids : (ℕ → ℕ) → ℕ → ℕ → List ℕ
linked_ids word zero next = []
linked_ids word (suc n) next =
    let rest = linked_ids word n (word next / 256 % 256) in
    if next == 0 then [] else word next % 256 ∷ rest

-- The first, at the register that the low byte at 0x34 names, whatever that is, and 64 more.
unfoldable pub capability_ids : (ℕ → ℕ) → List ℕ
capability_ids word =
    let head = word (word 0x34 % 256) in head % 256 ∷ linked_ids word 64 (head / 256 % 256)

pub low_byte_lem : (v : ℕ) → low_byte v ≡ v % 256
unfolding low_byte
low_byte_lem v = mask_byte v

pub high_byte_lem : (v : ℕ) → high_byte v ≡ v / 256 % 256
unfolding high_byte
high_byte_lem v = omega (arith, bit_and_byte v 0xff00, mask_byte (v / 256), bit_and-zero (v % 256))

-- The last id of the walk.
unfoldable pub last_id : (ℕ → ℕ) → ℕ → ℕ → ℕ → ℕ
last_id word zero id next = id
last_id word (suc n) id next =
    let rest = last_id word n (word next % 256) (word next / 256 % 256) in
    if not (next == 0) && not (id == 0x10) then rest else id

pub last_id-contains :
    (word : ℕ → ℕ) (n id next : ℕ)
    → (last_id word n id next == 0x10) ≡ contains 0x10 (id ∷ linked_ids word n next)
unfolding last_id linked_ids
last_id-contains word zero id next = ground arith
last_id-contains word (suc n) id next = elim (Bool-cases (next == 0)) [
  | inl e ↦ rw e (ground arith)
  | inr e ↦ elim (Bool-cases (id == 0x10)) [
    | inl f ↦ rw (e, f) f
    | inr f ↦ rw (e, f) (last_id-contains word n (word next % 256) (word next / 256 % 256))
  ]
]
