-- ===== src/Windows/Hooks/Keeps.antt =====
-- What the functions of the modules leave alone, through the requests that they make.
use lfdk.Common.{Option, none, some, ℕ, ◌≡◌, ap, List, [], ◌∷◌, get_elem?, inl, inr, Bool-cases}
use mathlib.Core.Option
use lfdk.Windows.State.{Window, Manager, window_at, state_at}
use lfdk.Windows.Requests.{request_windows_focus, release_windows_focus, request_destroy_windows}
use lfdk.Windows.Requests.Keeps.{
  KeepsPool, keeps_self, keeps_trans, request-KeepsPool, request_xfer_control-KeepsPool,
}
use lfdk.Windows.Hooks.{
  Hook, Request, Answer, Modules, World, call_function, call_at, perform, perform_all, call_hook,
  run_hook, ask_focus, release, destroy, transfer,
}

pub perform-KeepsPool : (r : Request) (wm : Manager) → KeepsPool wm (perform r wm)
unfolding perform request_windows_focus release_windows_focus request_destroy_windows
perform-KeepsPool (ask_focus w h) wm = request-KeepsPool _ _ w h wm
perform-KeepsPool (release w h) wm = request-KeepsPool _ _ w h wm
perform-KeepsPool (destroy w h) wm = request-KeepsPool _ _ w h wm
perform-KeepsPool (transfer w h name) wm = request_xfer_control-KeepsPool w h name wm

-- Any requests, in any order, leave the pool, the states of the windows in it and the handle of
-- the foreground window as they are, and a box of at most 32 messages at most 32.
pub perform_all-KeepsPool : (rs : List Request) (wm : Manager) → KeepsPool wm (perform_all rs wm)
unfolding perform_all
perform_all-KeepsPool [] wm = keeps_self wm
perform_all-KeepsPool (r ∷ rs) wm =
    keeps_trans wm (perform r wm) (perform_all rs (perform r wm)) (perform-KeepsPool r wm)
      (perform_all-KeepsPool rs (perform r wm))

module _ {S : Type 0} (mods : Modules S) where
  call_function-KeepsPool :
      (f : Option (Manager → S → Answer S)) (x : World S) → KeepsPool x.wm (call_function f x).1.wm
  unfolding call_function
  call_function-KeepsPool none x = keeps_self x.wm
  call_function-KeepsPool (some f) x = elim (Bool-cases x.exited) [
    | inl over ↦ rw over (keeps_self x.wm)
    | inr runs ↦ rw runs (perform_all-KeepsPool (f x.wm x.state).requests x.wm)
  ]

  pub call_hook-KeepsPool :
      (hook : Hook) (w : Window) (x : World S) → KeepsPool x.wm (call_hook mods hook w x).1.wm
  call_hook-KeepsPool hook w x = call_function-KeepsPool (mods.function w hook) x

  call_at-KeepsPool :
      (hook : Hook) (w : Option Window) (x : World S) → KeepsPool x.wm (call_at mods hook w x).wm
  unfolding call_at
  call_at-KeepsPool hook none x = keeps_self x.wm
  call_at-KeepsPool hook (some w) x = call_hook-KeepsPool hook w x

  -- A function of a module leaves the pool and the foreground handle alone, whatever it does.
  pub run_hook-KeepsPool :
      (hook : Hook) (i : ℕ) (x : World S) → KeepsPool x.wm (run_hook mods hook i x).wm
  unfolding run_hook
  run_hook-KeepsPool hook i x = call_at-KeepsPool hook (window_at x.wm i) x

  pub state_at-run_hook :
      (hook : Hook) (i j : ℕ) (x : World S)
      → state_at (run_hook mods hook i x).wm j ≡ state_at x.wm j
  state_at-run_hook hook i j x =
      ap (λ ws. Option.map (λ w. w.win_state) (get_elem? ws j)) (run_hook-KeepsPool hook i x).pool

  pub window_at-run_hook :
      (hook : Hook) (i j : ℕ) (x : World S)
      → window_at (run_hook mods hook i x).wm j ≡ window_at x.wm j
  window_at-run_hook hook i j x =
      ap (λ ws. Option.map (λ w. w.p_win) (get_elem? ws j)) (run_hook-KeepsPool hook i x).pool
