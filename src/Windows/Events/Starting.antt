-- ===== src/Windows/Events/Starting.antt =====
-- The starting events of lfdk/lfdk.c bring the windows to a state in which the keys can be handled.
use mathlib.Core.Path.{subst}
use mathlib.Core.Option
use lfdk.Common.{
  ℕ, zero, suc, ◌+◌, ◌≤◌, ◌≡◌, ◌≢◌, sym, ap, ◌∙◌, inl, inr, Bool, Option, none, some, List, ℤ, pos,
  negsuc, length, get_elem?, Bool-cases,
}
use lfdk.Windows.State.{
  Window, Manager, WinState, inited, started, foreground, background, windows_of, state_at,
  window_at, set_state,
}
use lfdk.Windows.State.Pool.{windows_of-set_state, length-set_state}
use lfdk.Windows.Requests.Keeps.{KeepsPool}
use lfdk.Windows.Requests.Sound.{IsSound, SoundBox}
use lfdk.Windows.Hooks.{Hook, Modules, World, init, start_win, post_start_win, call_hook, run_hook}
use lfdk.Windows.Hooks.Keeps.{run_hook-KeepsPool, call_hook-KeepsPool}
use lfdk.Windows.Hooks.Known.{KnownTargets, run_hook-IsSound, call_hook-IsSound}
use lfdk.Windows.Messages.Focus.{NoForeground, set_state-NoForeground, NoForeground-FocusOk}
use lfdk.Windows.Events.{
  is_zero, ret_after, init_window, init_from, handle_init_event, sweep, handle_start_win_event,
  handle_post_start_win_event,
}
use lfdk.Windows.Events.Running.{Running}

-- No window has the focus yet; the box may hold requests already.
pub record Starting (ws : List Window) (wm : Manager) : Type 0 where
  pub windows : windows_of wm.windows_pool ≡ ws
  pub room : length wm.msg_box ≤ 32
  pub sound : IsSound wm
  pub away : wm.cur_fore_window_handle ≡ negsuc 0
  pub idle : NoForeground wm

pub Starting-Running : (ws : List Window) (wm : Manager) → Starting ws wm → Running ws wm
Starting-Running ws wm ok = record {
  windows = ok.windows;
  room = ok.room;
  sound = ok.sound;
  focus = NoForeground-FocusOk wm 0 ok.idle ok.away;
}

KeepsPool-Starting :
    (ws : List Window) (wm wm' : Manager)
    → KeepsPool wm wm'
    → IsSound wm'
    → Starting ws wm
    → Starting ws wm'
KeepsPool-Starting ws wm wm' kept sound ok = record {
  windows = ap windows_of kept.pool ∙ ok.windows;
  room = kept.box ok.room;
  sound = sound;
  away = kept.handle ∙ ok.away;
  idle = λ j e.
      ok.idle j (ap (λ l. Option.map (λ w. w.win_state) (get_elem? l j)) (sym kept.pool) ∙ e);
}

module _ (ws : List Window) (i : ℕ) (s : WinState) (wm : Manager)
    (other : some s ≢ some foreground) where
  set_state-Starting : Starting ws wm → Starting ws (set_state i s wm)
  unfolding set_state
  set_state-Starting ok = record {
    windows = windows_of-set_state i s wm ∙ ok.windows;
    room = ok.room;
    sound = subst (λ n. SoundBox n wm.msg_box) (sym (length-set_state i s wm)) ok.sound;
    away = ok.away;
    idle = set_state-NoForeground i s wm other (λ j e. absurd (ok.idle j e));
  }

inited-other : some inited ≢ some foreground
inited-other e = cc

started-other : some started ≢ some foreground
started-other e = cc

background-other : some background ≢ some foreground
background-other e = cc

module _ {S : Type 0} (mods : Modules S) (ws : List Window) (known : KnownTargets mods ws) where
  known_at : (x : World S) → Starting ws x.wm → KnownTargets mods (windows_of x.wm.windows_pool)
  known_at x ok = subst (λ l. KnownTargets mods l) (sym ok.windows) known

  run_hook-Starting :
      (hook : Hook) (i : ℕ) (x : World S)
      → Starting ws x.wm
      → Starting ws (run_hook mods hook i x).wm
  run_hook-Starting hook i x ok =
      KeepsPool-Starting ws x.wm _ (run_hook-KeepsPool mods hook i x)
        (run_hook-IsSound mods hook x (known_at x ok) ok.sound i) ok

  call_hook-Starting :
      (hook : Hook) (w : Window) (x : World S)
      → Starting ws x.wm
      → Starting ws (call_hook mods hook w x).1.wm
  call_hook-Starting hook w x ok =
      KeepsPool-Starting ws x.wm _ (call_hook-KeepsPool mods hook w x)
        (call_hook-IsSound mods hook x (known_at x ok) ok.sound w) ok

  module _ (skip : Option WinState → Bool) (hook : Hook) (s : WinState)
      (other : some s ≢ some foreground) where
    sweep-Starting :
        (left i : ℕ) (x : World S)
        → Starting ws x.wm
        → Starting ws (sweep mods skip hook s left i x).wm
    unfolding sweep
    sweep-Starting zero i x ok = ok
    sweep-Starting (suc left) i x ok =
        sweep-Starting left (i + 1) _ (elim (Bool-cases (skip (state_at x.wm i))) [
          | inl over ↦ rw over ok
          | inr here ↦ rw here (
              set_state-Starting ws i s (run_hook mods hook i x).wm other
                (run_hook-Starting hook i x ok))
        ])

  init_window-Starting :
      (rest : ℤ → World S → World S × ℤ) (i : ℕ) (ret : ℤ) (w : Option Window) (x : World S)
      → Starting ws x.wm
      → ((r : ℤ) (y : World S) → Starting ws y.wm → Starting ws (rest r y).0.wm)
      → Starting ws (init_window mods rest i ret w x).0.wm
  unfolding init_window
  init_window-Starting rest i ret none x ok later = ok
  init_window-Starting rest i ret (some w) x ok later =
      let called = call_hook mods init w x in
      let after : Starting ws called.1.wm = call_hook-Starting init w x ok in
      elim (Bool-cases (is_zero (ret_after called.0 ret))) [
        | inl fine ↦
            rw fine (later _ _ (set_state-Starting ws i inited called.1.wm inited-other after))
        | inr failed ↦ rw failed after
      ]

  init_from-Starting :
      (left i : ℕ) (ret : ℤ) (x : World S)
      → Starting ws x.wm
      → Starting ws (init_from mods left i ret x).0.wm
  unfolding init_from
  init_from-Starting zero i ret x ok = ok
  init_from-Starting (suc left) i ret x ok =
      init_window-Starting _ i ret (window_at x.wm i) x ok
        (λ r y ok'. init_from-Starting left (i + 1) r y ok')

  pub handle_init_event-Starting :
      (x : World S) → Starting ws x.wm → Starting ws (handle_init_event mods x).0.wm
  unfolding handle_init_event
  handle_init_event-Starting x ok = init_from-Starting (length x.wm.windows_pool) 0 (pos 0) x ok

  -- After the starting events of windows of which none has the focus, the keys can be handled.
  pub start_events-Running :
      (x : World S)
      → Starting ws x.wm
      → Running ws (handle_post_start_win_event mods (handle_start_win_event mods x)).wm
  unfolding handle_post_start_win_event handle_start_win_event
  start_events-Running x ok =
      let y = handle_start_win_event mods x in
      Starting-Running ws _ (
        sweep-Starting _ post_start_win background background-other (length y.wm.windows_pool) 0 y
          (sweep-Starting _ start_win started started-other (length x.wm.windows_pool) 0 x ok))
