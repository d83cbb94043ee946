-- ===== src/Common/Digits.antt =====
-- One binary digit of `bit_and` and `bit_or`, from the recursion that the native operations mean.
use Prim.Native.Nat.{ℕ, zero, suc, ◌+◌, ◌*◌, ◌/◌, ◌%◌, ◌≤◌, min, max, bit_and, bit_or}
use Prim.Native.Nat.{digits, bit_and-bitwise, bit_or-bitwise}
use mathlib.Core.Path.{◌≡◌, refl}
use native.Mathlib.Omega.{arith}

module _ (rest : ℕ → ℕ) (op : ℕ → ℕ → ℕ) where
  -- More rounds than digits change nothing.
  rounds_enough :
      (x y more less : ℕ) → x ≤ less → x ≤ more → digits rest op more x y ≡ digits rest op less x y
  rounds_enough zero y zero zero _ _ = refl
  rounds_enough zero y zero (suc less) _ _ = refl
  rounds_enough zero y (suc more) zero _ _ = refl
  rounds_enough zero y (suc more) (suc less) _ _ = refl
  rounds_enough (suc x) y zero less _ q = absurd (omega arith)
  rounds_enough (suc x) y (suc more) zero p _ = absurd (omega arith)
  rounds_enough (suc x) y (suc more) (suc less) p q =
      rw (rounds_enough (suc x / 2) (y / 2) more less (omega arith) (omega arith))

pub bit_and-half : (x y : ℕ) → bit_and x y ≡ bit_and (x / 2) (y / 2) * 2 + min (x % 2) (y % 2)
bit_and-half zero y = simp bit_and-bitwise (omega arith)
bit_and-half (suc x) y = simp bit_and-bitwise (
    omega (
      arith,
      rounds_enough (λ _. zero) min (suc x / 2) (y / 2) x (suc x / 2) (omega arith) (omega arith),
    ))

pub bit_or-half : (x y : ℕ) → bit_or x y ≡ bit_or (x / 2) (y / 2) * 2 + max (x % 2) (y % 2)
bit_or-half zero y = simp bit_or-bitwise (omega arith)
bit_or-half (suc x) y = simp bit_or-bitwise (
    omega (
      arith,
      rounds_enough (λ k. k) max (suc x / 2) (y / 2) x (suc x / 2) (omega arith) (omega arith),
    ))
