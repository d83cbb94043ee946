-- ===== src/Driver/KernelLog.antt =====
-- `lfdd_write` of lfdd/lfdd.c: a write to the device goes to the kernel log. The global buffer is
-- passed on; `%s` prints it up to its first 0.
pub mod Printed
use lfdk.Common.{
  ℕ, zero, suc, ◌<◌, Bool, true, false, Option, none, some, List, [], ◌∷◌, ℤ, pos, negsuc, leb,
  length, text_of, if◌then◌else◌,
}

abbrev pub k_log_size : ℕ
k_log_size = 512

-- What a write leaves: the buffer, what `pr_info` printed, if it was called (`some none` is a print
-- that ran on behind the buffer), and the value returned.
pub record Written : Type 0 where
  pub k_log_buf : List ℕ
  pub printed : Option (Option (List ℕ))
  pub ret : ℤ

-- `copy_from_user( k_log_buf, buf, n )`: the first `n` bytes come to the front of the buffer.
pub overwrite : ℕ → List ℕ → List ℕ → List ℕ
overwrite zero buf old = old
overwrite (suc n) [] old = old
overwrite (suc n) (c ∷ buf) [] = []
overwrite (suc n) (c ∷ buf) (o ∷ old) = c ∷ overwrite n buf old

-- `copy_len`: at most the size of the buffer.
pub copy_len : ℕ → ℕ
copy_len len = if leb k_log_size len then k_log_size else len

-- `readable` tells whether the copy succeeds; `-EFAULT` is -14.
unfoldable pub lfdd_write : Bool → List ℕ → List ℕ → Written
unfolding overwrite copy_len
lfdd_write false buf k_log_buf = record { k_log_buf = k_log_buf; printed = none; ret = negsuc 13 }
lfdd_write true buf k_log_buf =
    let k_log_buf' = overwrite (copy_len (length buf)) buf k_log_buf in
    record { k_log_buf = k_log_buf'; printed = some (text_of k_log_buf'); ret = pos (length buf) }
