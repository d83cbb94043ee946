-- ===== src/Windows/Events/Lifecycle.antt =====
-- The life of the windows: started in two rounds, destroyed and left in two more.
use lfdk.Common.{ℕ, ◌<◌, ◌≡◌, ◌∙◌, refl, Option, some, not, ◌||◌, arith, length, if◌then◌else◌}
use lfdk.Windows.State.{WinState, inited, started, background, destroyed, exit, state_at}
use lfdk.Windows.Hooks.{start_win, post_start_win, destroy_win, module_exit, Modules, World}
use lfdk.Windows.Events.{
  is_state, handle_start_win_event, handle_post_start_win_event, handle_destroy_windows,
  handle_module_exit,
}
use lfdk.Windows.Events.Sweep.{sweep_all_lem, length-sweep_all}

left_or_exit : (st : Option WinState) → (if is_state exit st then st else some exit) ≡ some exit
unfolding is_state
left_or_exit st = ground arith

module _ {S : Type 0} (mods : Modules S) where
  -- A window that is inited is in the background after the two starting events, whatever the
  -- functions called do.
  pub startup_lem :
      (x : World S) (i : ℕ)
      → i < length x.wm.windows_pool
      → state_at x.wm i ≡ some inited
      → state_at (handle_post_start_win_event mods (handle_start_win_event mods x)).wm i
        ≡ some background
  unfolding handle_post_start_win_event handle_start_win_event is_state
  startup_lem x i used e =
      let skip = λ (st : Option WinState). not (is_state inited st) in
      let y = handle_start_win_event mods x in
      let used' : i < length y.wm.windows_pool =
        omega (arith, used, length-sweep_all mods skip start_win started x) in
      let at : state_at y.wm i ≡ some started =
        sweep_all_lem mods skip start_win started i x used ∙ rw e refl in
      sweep_all_lem mods (λ st. not (is_state started st)) post_start_win background i y used'
      ∙ rw at refl

  -- At the end every window in use is left, whatever its state was and whatever the functions
  -- called do.
  pub shutdown_lem :
      (x : World S) (i : ℕ)
      → i < length x.wm.windows_pool
      → state_at (handle_module_exit mods (handle_destroy_windows mods x)).wm i ≡ some exit
  unfolding handle_module_exit handle_destroy_windows is_state
  shutdown_lem x i used =
      let skip = λ (st : Option WinState). is_state destroyed st || is_state exit st in
      let y = handle_destroy_windows mods x in
      let used' : i < length y.wm.windows_pool =
        omega (arith, used, length-sweep_all mods skip destroy_win destroyed x) in
      sweep_all_lem mods (is_state exit) module_exit exit i y used' ∙ left_or_exit (state_at y.wm i)

  pub length-shutdown :
      (x : World S)
      → length (handle_module_exit mods (handle_destroy_windows mods x)).wm.windows_pool
        ≡ length x.wm.windows_pool
  unfolding handle_module_exit handle_destroy_windows
  length-shutdown x =
      let skip = λ (st : Option WinState). is_state destroyed st || is_state exit st in
      length-sweep_all mods (is_state exit) module_exit exit (handle_destroy_windows mods x)
      ∙ length-sweep_all mods skip destroy_win destroyed x
