-- ===== src/Windows/Events/Running.antt =====
-- What holds between the steps of the events of lfdk/lfdk.c: kept by the functions of the modules,
-- by the keys and by painting.
use mathlib.Core.Path.{subst}
use mathlib.Core.Option
use lfdk.Common.{
  ℕ, zero, suc, ◌+◌, ◌≤◌, ◌≡◌, sym, ap, ◌∙◌, inl, inr, Option, List, ℤ, pos, negsuc, length,
  get_elem?, Bool-cases,
}
use lfdk.Windows.State.{
  Window, Manager, need_focus, foreground, background, windows_of, state_at, window_at,
}
use lfdk.Windows.Requests.{code, request_windows_focus}
use lfdk.Windows.Requests.Keeps.{KeepsPool, request-KeepsPool}
use lfdk.Windows.Requests.Sound.{IsSound, request-IsSound}
use lfdk.Windows.Hooks.{Hook, Modules, World, paint, key_press, run_hook}
use lfdk.Windows.Hooks.Keeps.{run_hook-KeepsPool}
use lfdk.Windows.Hooks.Known.{KnownTargets, run_hook-IsSound}
use lfdk.Windows.Messages.Focus.{FocusOk}
use lfdk.Windows.Events.{
  is_state, key_is, switch_key_from, switch_key_press, key_event_from, handle_key_event,
  paint_background, paint_foreground, handle_paint_windows, paint_at,
}

-- The windows are `ws`, the box has at most 32 messages, each between windows in use, and only
-- the window of the handle is in the foreground.
pub record Running (ws : List Window) (wm : Manager) : Type 0 where
  pub windows : windows_of wm.windows_pool ≡ ws
  pub room : length wm.msg_box ≤ 32
  pub sound : IsSound wm
  pub focus : FocusOk wm

module _ {wm wm' : Manager} (kept : KeepsPool wm wm') where
  same_state : (i : ℕ) → state_at wm' i ≡ state_at wm i
  same_state i = ap (λ l. Option.map (λ w. w.win_state) (get_elem? l i)) kept.pool

  KeepsPool-FocusOk : FocusOk wm → FocusOk wm'
  KeepsPool-FocusOk ok = record {
    only = λ i e. kept.handle ∙ ok.only i (sym (same_state i) ∙ e);
    held = λ i e. same_state i ∙ ok.held i (sym kept.handle ∙ e);
  }

  KeepsPool-Running : {ws : List Window} → Running ws wm → IsSound wm' → Running ws wm'
  KeepsPool-Running ok sound = record {
    windows = ap windows_of kept.pool ∙ ok.windows;
    room = kept.box ok.room;
    sound = sound;
    focus = KeepsPool-FocusOk ok.focus;
  }

-- The key that switches windows.
ask-Running :
    (ws : List Window) (w : Option Window) (h : ℤ) (wm : Manager)
    → Running ws wm
    → Running ws (request_windows_focus w h wm).0
unfolding request_windows_focus
ask-Running ws w h wm ok =
    KeepsPool-Running (request-KeepsPool need_focus (code (pos 0)) w h wm) ok
      (request-IsSound need_focus (code (pos 0)) w h wm ok.sound)

switch_key_from-Running :
    (ws : List Window) (key left i : ℕ) (wm : Manager)
    → Running ws wm
    → Running ws (switch_key_from key left i wm).0
unfolding switch_key_from
switch_key_from-Running ws key zero i wm ok = ok
switch_key_from-Running ws key (suc left) i wm ok =
    let later = switch_key_from-Running ws key left (i + 1) wm ok in
    elim (Bool-cases (is_state background (state_at wm i))) [
      | inl back ↦ rw back (elim (Bool-cases (key_is key (window_at wm i))) [
        | inl here ↦ rw here (ask-Running ws (window_at wm i) (pos i) wm ok)
        | inr other ↦ rw other later
      ])
      | inr front ↦ rw front later
    ]

pub switch_key_press-Running :
    (ws : List Window) (key : ℕ) (wm : Manager)
    → Running ws wm
    → Running ws (switch_key_press key wm).0
unfolding switch_key_press
switch_key_press-Running ws key wm ok =
    switch_key_from-Running ws key (length wm.windows_pool) 0 wm ok

module _ {S : Type 0} (mods : Modules S) (ws : List Window) (known : KnownTargets mods ws) where
  -- A call of a module's function.
  run_hook-Running :
      (hook : Hook) (i : ℕ) (x : World S) → Running ws x.wm → Running ws (run_hook mods hook i x).wm
  run_hook-Running hook i x ok = KeepsPool-Running (run_hook-KeepsPool mods hook i x) ok (
      run_hook-IsSound mods hook x (subst (λ l. KnownTargets mods l) (sym ok.windows) known)
        ok.sound i)

  key_event_from-Running :
      (key left i : ℕ) (x : World S)
      → Running ws x.wm
      → Running ws (key_event_from mods key left i x).wm
  unfolding key_event_from
  key_event_from-Running key zero i x ok = ok
  key_event_from-Running key (suc left) i x ok =
      elim (Bool-cases (is_state foreground (state_at x.wm i))) [
        | inl front ↦ rw front (run_hook-Running (key_press key) i x ok)
        | inr behind ↦ rw behind (key_event_from-Running key left (i + 1) x ok)
      ]

  pub handle_key_event-Running :
      (key : ℕ) (x : World S) → Running ws x.wm → Running ws (handle_key_event mods key x).wm
  unfolding handle_key_event
  handle_key_event-Running key x ok = key_event_from-Running key (length x.wm.windows_pool) 0 x ok

  paint_background-Running :
      (left i : ℕ) (x : World S) → Running ws x.wm → Running ws (paint_background mods left i x).wm
  unfolding paint_background
  paint_background-Running zero i x ok = ok
  paint_background-Running (suc left) i x ok =
      paint_background-Running left (i + 1) _
        (elim (Bool-cases (is_state background (state_at x.wm i))) [
          | inl back ↦ rw back (run_hook-Running paint i x ok)
          | inr other ↦ rw other ok
        ])

  paint_at-Running : (h : ℤ) (x : World S) → Running ws x.wm → Running ws (paint_at mods h x).wm
  unfolding paint_at
  paint_at-Running (pos i) x ok = run_hook-Running paint i x ok
  paint_at-Running (negsuc n) x ok = ok

  pub handle_paint_windows-Running :
      (x : World S) → Running ws x.wm → Running ws (handle_paint_windows mods x).wm
  unfolding handle_paint_windows paint_foreground
  handle_paint_windows-Running x ok =
      paint_at-Running _ _ (paint_background-Running (length x.wm.windows_pool) 0 x ok)
