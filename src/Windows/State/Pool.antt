-- ===== src/Windows/State/Pool.antt =====
-- The pool of windows when a state in it changes.
use lfdk.Common.{
  ℕ, zero, suc, ◌<◌, ◌≡◌, ◌≢◌, refl, ap, Option, some, List, [], ◌∷◌, arith, length, get_elem?,
}
use mathlib.Core.Option.{none-ne-some}
use mathlib.Core.Option
use lfdk.Windows.State.{
  WinInfo, Window, windows_of, window_at, WinState, Manager, state_at, set_nth_state, set_state,
}

length-set_nth_state :
    (ws : List WinInfo) (i : ℕ) (s : WinState) → length (set_nth_state ws i s) ≡ length ws
unfolding set_nth_state
length-set_nth_state [] i s = refl
length-set_nth_state (w ∷ ws) zero s = refl
length-set_nth_state (w ∷ ws) (suc i) s = ap suc (length-set_nth_state ws i s)

abbrev state_in : List WinInfo → ℕ → Option WinState
state_in ws i = Option.map (λ w. w.win_state) (get_elem? ws i)

state_in_self :
    (ws : List WinInfo) (i : ℕ) (s : WinState)
    → i < length ws
    → state_in (set_nth_state ws i s) i ≡ some s
unfolding set_nth_state
state_in_self [] i s h = absurd (omega arith)
state_in_self (w ∷ ws) zero s h = refl
state_in_self (w ∷ ws) (suc i) s h = state_in_self ws i s (omega arith)

state_in-ne :
    (ws : List WinInfo) (i j : ℕ) (s : WinState)
    → i ≢ j
    → state_in (set_nth_state ws i s) j ≡ state_in ws j
unfolding set_nth_state
state_in-ne [] i j s ne = refl
state_in-ne (w ∷ ws) zero zero s ne = absurd (ne refl)
state_in-ne (w ∷ ws) zero (suc j) s ne = refl
state_in-ne (w ∷ ws) (suc i) zero s ne = refl
state_in-ne (w ∷ ws) (suc i) (suc j) s ne = state_in-ne ws i j s (λ e. ne (ap suc e))

abbrev window_in : List WinInfo → ℕ → Option Window
window_in ws i = Option.map (λ w. w.p_win) (get_elem? ws i)

window_in-set :
    (ws : List WinInfo) (i j : ℕ) (s : WinState)
    → window_in (set_nth_state ws i s) j ≡ window_in ws j
unfolding set_nth_state
window_in-set [] i j s = refl
window_in-set (w ∷ ws) zero zero s = refl
window_in-set (w ∷ ws) zero (suc j) s = refl
window_in-set (w ∷ ws) (suc i) zero s = refl
window_in-set (w ∷ ws) (suc i) (suc j) s = window_in-set ws i j s

windows_of-set_nth_state :
    (ws : List WinInfo) (i : ℕ) (s : WinState) → windows_of (set_nth_state ws i s) ≡ windows_of ws
unfolding set_nth_state windows_of
windows_of-set_nth_state [] i s = refl
windows_of-set_nth_state (w ∷ ws) zero s = refl
windows_of-set_nth_state (w ∷ ws) (suc i) s =
    ap (λ l. w.p_win ∷ l) (windows_of-set_nth_state ws i s)

-- A window in use has a state, and an index with a state is in use.
pub state_at-lt :
    (ws : List WinInfo) (i : ℕ) (s : WinState) → state_in ws i ≡ some s → i < length ws
state_at-lt [] i s h = absurd (none-ne-some s h)
state_at-lt (w ∷ ws) zero s h = omega arith
state_at-lt (w ∷ ws) (suc i) s h = omega (arith, state_at-lt ws i s h)

module _ (i : ℕ) (s : WinState) (wm : Manager) where
  pub length-set_state : length (set_state i s wm).windows_pool ≡ length wm.windows_pool
  unfolding set_state
  length-set_state = length-set_nth_state wm.windows_pool i s

  pub windows_of-set_state : windows_of (set_state i s wm).windows_pool ≡ windows_of wm.windows_pool
  unfolding set_state
  windows_of-set_state = windows_of-set_nth_state wm.windows_pool i s

  -- The state of a window in use changes, that of no other, and no window does.
  pub state_at-set_state : i < length wm.windows_pool → state_at (set_state i s wm) i ≡ some s
  unfolding set_state
  state_at-set_state = state_in_self wm.windows_pool i s

  pub state_at-set_state_ne : (j : ℕ) → i ≢ j → state_at (set_state i s wm) j ≡ state_at wm j
  unfolding set_state
  state_at-set_state_ne j = state_in-ne wm.windows_pool i j s

  pub window_at-set_state : (j : ℕ) → window_at (set_state i s wm) j ≡ window_at wm j
  unfolding set_state
  window_at-set_state j = window_in-set wm.windows_pool i j s
