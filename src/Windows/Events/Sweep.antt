-- ===== src/Windows/Events/Sweep.antt =====
-- The loops over all windows: each reaches every window once, and what the functions called request
-- does not matter.
use mathlib.Core.Path.{subst}
use lfdk.Common.{
  ℕ, zero, suc, ◌+◌, ◌≤◌, ◌<◌, ◌≡◌, ◌≢◌, refl, ap, ◌∙◌, inl, inr, Option, some, Bool, ◌==◌, arith,
  length, Bool-cases, if◌then◌else◌,
}
use lfdk.Windows.State.{WinState, state_at, set_state}
use lfdk.Windows.State.Pool.{length-set_state, state_at-set_state, state_at-set_state_ne}
use lfdk.Windows.Hooks.{Hook, Modules, World, run_hook, change}
use lfdk.Windows.Hooks.Keeps.{run_hook-KeepsPool, state_at-run_hook}
use lfdk.Windows.Events.{sweep, sweep_all}

module _ {S : Type 0} (mods : Modules S) (skip : Option WinState → Bool) (hook : Hook)
    (s : WinState) where
  -- One step of a loop: the state at the index, and the others.
  abbrev step : ℕ → World S → World S
  step i x = if skip (state_at x.wm i) then x else change (set_state i s) (run_hook mods hook i x)

  length-step : (i : ℕ) (x : World S) → length (step i x).wm.windows_pool ≡ length x.wm.windows_pool
  length-step i x = elim (Bool-cases (skip (state_at x.wm i))) [
    | inl e ↦ rw e refl
    | inr e ↦ rw e (
        length-set_state i s (run_hook mods hook i x).wm
        ∙ ap length (run_hook-KeepsPool mods hook i x).pool)
  ]

  step_other : (i j : ℕ) (x : World S) → i ≢ j → state_at (step i x).wm j ≡ state_at x.wm j
  step_other i j x ne = elim (Bool-cases (skip (state_at x.wm i))) [
    | inl e ↦ rw e refl
    | inr e ↦ rw e (
        state_at-set_state_ne i s (run_hook mods hook i x).wm j ne
        ∙ state_at-run_hook mods hook i j x)
  ]

  step_self :
      (i : ℕ) (x : World S)
      → i < length x.wm.windows_pool
      → state_at (step i x).wm i ≡ (if skip (state_at x.wm i) then state_at x.wm i else some s)
  step_self i x used = elim (Bool-cases (skip (state_at x.wm i))) [
    | inl e ↦ rw e refl
    | inr e ↦ rw e (
        state_at-set_state i s (run_hook mods hook i x).wm
          (omega (arith, used, ap length (run_hook-KeepsPool mods hook i x).pool)))
  ]

  -- An index that the loop passed keeps its state.
  sweep_passed :
      (left i j : ℕ) (x : World S)
      → j < i
      → state_at (sweep mods skip hook s left i x).wm j ≡ state_at x.wm j
  unfolding sweep
  sweep_passed zero i j x past = refl
  sweep_passed (suc left) i j x past =
      sweep_passed left (i + 1) j (step i x) (omega arith)
      ∙ step_other i j x (λ e. omega (arith, e))

  sweep_lem :
      (left i j : ℕ) (x : World S)
      → i ≤ j
      → j < i + left
      → i + left ≤ length x.wm.windows_pool
      → state_at (sweep mods skip hook s left i x).wm j
        ≡ (if skip (state_at x.wm j) then state_at x.wm j else some s)
  unfolding sweep
  sweep_lem zero i j x low high room = absurd (omega arith)
  sweep_lem (suc left) i j x low high room = elim (Bool-cases (i == j)) [
    | inl same ↦
        let i_eq_j : i ≡ j = ground arith in
        subst
          (λ k.
            state_at (sweep mods skip hook s left (i + 1) (step i x)).wm k
            ≡ (if skip (state_at x.wm k) then state_at x.wm k else some s))
          i_eq_j
          (sweep_passed left (i + 1) i (step i x) (omega arith) ∙ step_self i x (omega arith))
    | inr differ ↦
        let ne : i ≢ j = ground arith in
        sweep_lem left (i + 1) j (step i x) (ground arith) (omega arith)
          (omega (arith, length-step i x))
        ∙ ap (λ st. if skip st then st else some s) (step_other i j x ne)
  ]

  length-sweep :
      (left i : ℕ) (x : World S)
      → length (sweep mods skip hook s left i x).wm.windows_pool ≡ length x.wm.windows_pool
  unfolding sweep
  length-sweep zero i x = refl
  length-sweep (suc left) i x = length-sweep left (i + 1) (step i x) ∙ length-step i x

  -- A loop over the whole pool, at a window in use.
  pub sweep_all_lem :
      (j : ℕ) (x : World S)
      → j < length x.wm.windows_pool
      → state_at (sweep_all mods skip hook s x).wm j
        ≡ (if skip (state_at x.wm j) then state_at x.wm j else some s)
  sweep_all_lem j x used =
      sweep_lem (length x.wm.windows_pool) 0 j x (omega arith) (omega arith) (omega arith)

  pub length-sweep_all :
      (x : World S)
      → length (sweep_all mods skip hook s x).wm.windows_pool ≡ length x.wm.windows_pool
  length-sweep_all x = length-sweep (length x.wm.windows_pool) 0 x
