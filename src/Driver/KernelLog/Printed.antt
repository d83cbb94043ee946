-- ===== src/Driver/KernelLog/Printed.antt =====
-- What `lfdd_write` prints.
use lfdk.Common.{
  ℕ, zero, suc, ◌≤◌, ◌<◌, ◌≡◌, refl, ap, true, none, some, List, [], ◌∷◌, ◌++◌, arith, length,
  text_of, length-append, NoNul, not_nul,
}
use lfdk.Driver.KernelLog.{overwrite, copy_len, lfdd_write}

-- A text with a 0 behind it, written whole into a buffer with room for it.
overwrite_ended :
    (n : ℕ) (text rest old : List ℕ)
    → NoNul text
    → length text < n
    → length text < length old
    → text_of (overwrite n (text ++ (0 ∷ rest)) old) ≡ some text
unfolding overwrite text_of NoNul
overwrite_ended zero text rest old ok low room = absurd (omega arith)
overwrite_ended (suc n) text rest [] ok low room = absurd (omega arith)
overwrite_ended (suc n) [] rest (o ∷ old) ok low room = refl
overwrite_ended (suc n) (c ∷ text) rest (o ∷ old) ok low room =
    rw (not_nul c ok.0, overwrite_ended n text rest old ok.1 (omega arith) (omega arith)) refl

overwrite_endless :
    (n : ℕ) (text old : List ℕ)
    → NoNul text
    → length old ≤ n
    → n ≤ length text
    → text_of (overwrite n text old) ≡ none
unfolding overwrite text_of NoNul
overwrite_endless zero text [] ok low high = refl
overwrite_endless zero text (o ∷ old) ok low high = absurd (omega arith)
overwrite_endless (suc n) [] old ok low high = absurd (omega arith)
overwrite_endless (suc n) (c ∷ text) [] ok low high = refl
overwrite_endless (suc n) (c ∷ text) (o ∷ old) ok low high =
    rw (not_nul c ok.0, overwrite_endless n text old ok.1 (omega arith) (omega arith)) refl

before_copy_len : (k n : ℕ) → k < 512 → k < n → k < copy_len n
unfolding copy_len
before_copy_len k n short low = ground arith

copy_len_full : (n : ℕ) → 512 ≤ n → copy_len n ≡ 512
unfolding copy_len
copy_len_full n long = ground arith

-- A write of a text of fewer than 512 bytes with a 0 behind it, whatever follows within, prints
-- that text, whatever the buffer held.
pub lfdd_write_prints :
    (text rest old : List ℕ)
    → NoNul text
    → length text < 512
    → length old ≡ 512
    → (lfdd_write true (text ++ (0 ∷ rest)) old).printed ≡ some (some text)
unfolding lfdd_write
lfdd_write_prints text rest old ok short size =
    let n = length (text ++ (0 ∷ rest)) in
    let longer = length-append text (0 ∷ rest) in
    ap some (
      overwrite_ended (copy_len n) text rest old ok
        (before_copy_len (length text) n short (omega arith)) (omega arith))

-- A write of 512 bytes or more without a 0 fills the buffer, and the print runs on behind it.
pub lfdd_write_runs_on :
    (text old : List ℕ)
    → NoNul text
    → 512 ≤ length text
    → length old ≡ 512
    → (lfdd_write true text old).printed ≡ some none
unfolding lfdd_write
lfdd_write_runs_on text old ok long size = ap some (
    overwrite_endless (copy_len (length text)) text old ok
      (omega (arith, copy_len_full (length text) long))
      (omega (arith, copy_len_full (length text) long)))
