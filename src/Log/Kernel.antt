-- ===== src/Log/Kernel.antt =====
-- A message of the program in the kernel log: `debug_k_log` of lfdk/debug.c through `lfdd_write` of
-- lfdd/lfdd.c.
use lfdk.Common.{
  ℕ, zero, suc, ◌≤◌, ◌≡◌, refl, ap, inl, inr, true, false, Option, none, some, List, [], ◌∷◌, ◌++◌,
  ℤ, arith, length, take, NoNul, if◌then◌else◌, Bool-cases,
}
use lfdk.Driver.KernelLog.{lfdd_write}
use lfdk.Driver.KernelLog.Printed.{lfdd_write_prints}
use lfdk.Log.{LogState, passes, is_zero_fd, format_into, debug_k_log}

-- What a write prints, where there is a write.
unfoldable pub kernel_prints : Option (List ℕ) → List ℕ → Option (Option (List ℕ))
kernel_prints none k_log_buf = none
kernel_prints (some buf) k_log_buf = (lfdd_write true buf k_log_buf).printed

take-NoNul : (n : ℕ) (text : List ℕ) → NoNul text → NoNul (take n text)
unfolding NoNul
take-NoNul zero text ok = tt
take-NoNul (suc n) [] ok = tt
take-NoNul (suc n) (c ∷ text) ok = (ok.0, take-NoNul n text ok.1)

length-take-le : (n : ℕ) (text : List ℕ) → length (take n text) ≤ n
length-take-le zero text = omega arith
length-take-le (suc n) [] = omega arith
length-take-le (suc n) (c ∷ text) = omega (arith, length-take-le n text)

-- The buffer holds the text, cut to leave room for a final 0.
format_into_lem :
    (n : ℕ) (text old : List ℕ)
    → length old ≡ suc n
    → (rest : List ℕ) × (format_into text old ≡ take n text ++ (0 ∷ rest))
unfolding format_into
format_into_lem n text [] size = absurd (omega arith)
format_into_lem zero text (b ∷ []) size = ([], refl)
format_into_lem (suc n) text (b ∷ []) size = absurd (omega arith)
format_into_lem zero text (b ∷ c ∷ old) size = absurd (omega arith)
format_into_lem (suc n) [] (b ∷ c ∷ old) size = (c ∷ old, refl)
format_into_lem (suc n) (t ∷ text) (b ∷ c ∷ old) size =
    let (rest, e) = format_into_lem n text (c ∷ old) (omega arith) in (rest, ap (λ l. t ∷ l) e)

-- Whatever the buffers of the program and of the driver hold: when the program has the device for
-- its log, a message at a level that the debug level lets pass is printed in the kernel log as its
-- first 255 bytes, and a message at any other level writes nothing.
pub debug_k_log_prints :
    (debug_lv lv : ℤ) (text : List ℕ) (s : LogState) (k_log_buf : List ℕ)
    → NoNul text
    → is_zero_fd s.k_log_fd ≡ false
    → length s.k_buf ≡ 256
    → length k_log_buf ≡ 512
    → kernel_prints (debug_k_log debug_lv lv text s).1 k_log_buf
      ≡ (if passes lv debug_lv then some (some (take 255 text)) else none)
unfolding debug_k_log kernel_prints
debug_k_log_prints debug_lv lv text s k_log_buf ok device size room =
    let (rest, formed) = format_into_lem 255 text s.k_buf (omega arith) in
    elim (Bool-cases (passes lv debug_lv)) [
      | inl loud ↦
          simp (device, loud, formed)
            (lfdd_write_prints (take 255 text) rest k_log_buf (take-NoNul 255 text ok)
              (omega (arith, length-take-le 255 text)) room)
      | inr quiet ↦ simp (device, quiet) refl
    ]
