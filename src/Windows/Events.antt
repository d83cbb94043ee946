-- ===== src/Windows/Events.antt =====
-- The other events of lfdk/lfdk.c: the key that switches windows, the key for the foreground window,
-- and the loops over all windows.
pub mod Sweep
pub mod Lifecycle
pub mod Keys
pub mod Running
pub mod Starting
use lfdk.Common.{
  ℕ, zero, suc, ◌+◌, Bool, true, false, Option, none, some, ℤ, pos, negsuc, ◌==◌, length,
  if◌then◌else◌, not, ◌||◌,
}
use lfdk.Windows.State.{
  WinState, not_start, inited, started, background, foreground, destroyed, exit, Window, Manager,
  window_at, state_at, set_state,
}
use lfdk.Windows.Requests.{request_windows_focus}
use lfdk.Windows.Hooks.{
  Hook, init, start_win, post_start_win, paint, destroy_win, module_exit, key_press, Modules, World,
  call_hook, run_hook, change,
}

-- Tests on the state at an index.
pub is_state : WinState → Option WinState → Bool
is_state background (some background) = true
is_state foreground (some foreground) = true
is_state inited (some inited) = true
is_state started (some started) = true
is_state exit (some exit) = true
is_state destroyed (some destroyed) = true
is_state _ _ = false

pub key_is : ℕ → Option Window → Bool
key_is key none = false
key_is key (some w) = w.short_key == key

-- The loop of `switch_key_press`, `left` windows before its end, from the index `i`.
pub switch_key_from : ℕ → ℕ → ℕ → Manager → Manager × Bool
switch_key_from key zero i wm = (wm, false)
switch_key_from key (suc left) i wm =
    let rest = switch_key_from key left (i + 1) wm in
    if is_state background (state_at wm i)
    then if key_is key (window_at wm i)
      then ((request_windows_focus (window_at wm i) (pos i) wm).0, true)
      else rest
    else rest

pub switch_key_press : ℕ → Manager → Manager × Bool
switch_key_press key wm = switch_key_from key (length wm.windows_pool) 0 wm

-- `ret` after a call, which a null pointer leaves as it is.
pub ret_after : Option ℤ → ℤ → ℤ
ret_after none before = before
ret_after (some r) before = r

unfoldable pub is_zero : ℤ → Bool
is_zero (pos k) = k == 0
is_zero (negsuc n) = false

module _ {S : Type 0} (mods : Modules S) where
  -- The loop of `handle_key_event`, which ends at the first foreground window.
  pub key_event_from : ℕ → ℕ → ℕ → World S → World S
  key_event_from key zero i x = x
  key_event_from key (suc left) i x =
      let rest = key_event_from key left (i + 1) x in
      if is_state foreground (state_at x.wm i) then run_hook mods (key_press key) i x else rest

  pub handle_key_event : ℕ → World S → World S
  handle_key_event key x = key_event_from key (length x.wm.windows_pool) 0 x

  -- The body of the loop of `handle_init_event`, with `rest` for what follows; the loop ends at the
  -- first function that fails. `ret` is the variable of that name.
  pub init_window : (ℤ → World S → World S × ℤ) → ℕ → ℤ → Option Window → World S → World S × ℤ
  init_window rest i ret none x = (x, ret)
  init_window rest i ret (some w) x =
      let called = call_hook mods init w x in
      let ret' = ret_after called.0 ret in
      if is_zero ret' then rest ret' (change (set_state i inited) called.1) else (called.1, ret')

  pub init_from : ℕ → ℕ → ℤ → World S → World S × ℤ
  init_from zero i ret x = (x, ret)
  init_from (suc left) i ret x =
      init_window (λ ret' y. init_from left (i + 1) ret' y) i ret (window_at x.wm i) x

  pub handle_init_event : World S → World S × ℤ
  handle_init_event x = init_from (length x.wm.windows_pool) 0 (pos 0) x

  -- The loop that four handlers share: at each index, unless the window's state says to skip it,
  -- the function is called and the state changes afterwards.
  pub sweep : (Option WinState → Bool) → Hook → WinState → ℕ → ℕ → World S → World S
  sweep skip hook s zero i x = x
  sweep skip hook s (suc left) i x =
      sweep skip hook s left (i + 1)
        (if skip (state_at x.wm i) then x else change (set_state i s) (run_hook mods hook i x))

  abbrev pub sweep_all : (Option WinState → Bool) → Hook → WinState → World S → World S
  sweep_all skip hook s x = sweep skip hook s (length x.wm.windows_pool) 0 x

  pub handle_start_win_event : World S → World S
  handle_start_win_event = sweep_all (λ s. not (is_state inited s)) start_win started

  pub handle_post_start_win_event : World S → World S
  handle_post_start_win_event = sweep_all (λ s. not (is_state started s)) post_start_win background

  pub handle_destroy_windows : World S → World S
  handle_destroy_windows =
      sweep_all (λ s. is_state destroyed s || is_state exit s) destroy_win destroyed

  pub handle_module_exit : World S → World S
  handle_module_exit = sweep_all (is_state exit) module_exit exit

  -- `handle_paint_windows`: the background windows in order, then the foreground window.
  pub paint_background : ℕ → ℕ → World S → World S
  paint_background zero i x = x
  paint_background (suc left) i x =
      paint_background left (i + 1)
        (if is_state background (state_at x.wm i) then run_hook mods paint i x else x)

  pub paint_at : ℤ → World S → World S
  paint_at (pos i) x = run_hook mods paint i x
  paint_at (negsuc n) x = x

  pub paint_foreground : World S → World S
  paint_foreground x = paint_at x.wm.cur_fore_window_handle x

  pub handle_paint_windows : World S → World S
  handle_paint_windows x = paint_foreground (paint_background (length x.wm.windows_pool) 0 x)
