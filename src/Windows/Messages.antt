-- ===== src/Windows/Messages.antt =====
-- `handle_message_event` of lfdk/lfdk.c. A message is handled in the order of the source: the old
-- window loses the focus before the handle changes, and the new window gets it afterwards.
pub mod Focus
pub mod Loop
pub mod Unknown
use lfdk.Common.{
  ℕ, zero, suc, Bool, true, false, Option, none, some, List, [], ◌∷◌, ℤ, pos, negsuc, ◌==◌, ltb,
  leb, length, if◌then◌else◌, not, ◌&&◌,
}
use lfdk.Windows.State.{
  WinState, background, foreground, destroyed, Message, no_used, need_focus, release_focus,
  xfer_control, destroy_window, MsgInfo, Manager, state_at, set_state, set_foreground,
}
use lfdk.Windows.Hooks.{lost_focus, get_focus, destroy_win, Modules, World, run_hook, change}

-- The outcome of a message: the next state, with `p_cur_wnd` as an index, or an access outside
-- the windows in use.
pub data Outcome (S : Type 0) : Type 0 where
  next : World S → Option ℕ → Outcome S
  fault : Outcome S

pub is_foreground : Option WinState → Bool
is_foreground (some foreground) = true
is_foreground _ = false

pub is_handle : ℤ → ℕ → Bool
is_handle (pos k) i = k == i
is_handle (negsuc n) i = false

-- `p_cur_wnd` after `if( cur_fore_window_handle >= 0 ) p_cur_wnd = ...`: it keeps its value
-- otherwise, which an earlier message may have set.
pub current : ℤ → Option ℕ → Option ℕ
current (pos k) cur = some k
current (negsuc n) cur = cur

pub is_some : Option ℕ → Bool
is_some none = false
is_some (some i) = true

module _ {S : Type 0} (mods : Modules S) where
  -- The old window, if any, loses the focus.
  pub lose_focus : Option ℕ → World S → World S
  lose_focus none x = x
  lose_focus (some i) x = change (set_state i background) (run_hook mods lost_focus i x)

  -- The window at the index becomes the foreground window, then its function is called.
  pub gain_focus : ℕ → World S → World S
  gain_focus i x =
      run_hook mods get_focus i
        (change (set_state i foreground) (change (set_foreground (pos i)) x))

  pub switch_focus : Option ℕ → ℕ → World S → World S
  switch_focus cur i x = gain_focus i (lose_focus cur x)

  pub handle_need_focus : ℕ → Option ℕ → World S → Outcome S
  handle_need_focus sender cur x =
      let cur' = current x.wm.cur_fore_window_handle cur in
      if is_handle x.wm.cur_fore_window_handle sender
      then next x cur
      else next (switch_focus cur' sender x) cur'

  pub handle_release_focus : ℕ → Option ℕ → World S → Outcome S
  handle_release_focus sender cur x =
      if is_foreground (state_at x.wm sender)
      then next
          (change (set_foreground (negsuc 0))
            (change (set_state sender background) (run_hook mods lost_focus sender x)))
          cur
      else next x cur

  -- A target of -1 stands for no window: the code reads `windows_pool[ -1 ]`.
  pub xfer_to : ℤ → Option ℕ → World S → Outcome S
  xfer_to (negsuc n) cur x = fault
  xfer_to (pos i) cur x = next (switch_focus cur i x) cur

  pub handle_xfer_control : ℕ → ℤ → Option ℕ → World S → Outcome S
  handle_xfer_control sender target cur x =
      let cur' = current x.wm.cur_fore_window_handle cur in
      if is_handle target sender
      then next x cur
      else if is_some cur' && not (is_handle x.wm.cur_fore_window_handle sender)
      then next x cur'
      else xfer_to target cur' x

  pub handle_destroy_window : ℕ → Option ℕ → World S → Outcome S
  handle_destroy_window sender cur x =
      let y =
        if is_handle x.wm.cur_fore_window_handle sender
        then change (set_foreground (negsuc 0)) x
        else x in
      next (change (set_state sender destroyed) (run_hook mods destroy_win sender y)) cur

  -- The `switch` on the message.
  pub handle_message : Message → ℕ → ℤ → Option ℕ → World S → Outcome S
  handle_message no_used sender target cur x = next x cur
  handle_message need_focus sender target cur x = handle_need_focus sender cur x
  handle_message release_focus sender target cur x = handle_release_focus sender cur x
  handle_message xfer_control sender target cur x = handle_xfer_control sender target cur x
  handle_message destroy_window sender target cur x = handle_destroy_window sender cur x

  -- What follows a message in the loop.
  pub resume : (World S → Option ℕ → Option (Outcome S)) → Outcome S → Option (Outcome S)
  resume rest fault = some fault
  resume rest (next y cur) = rest y cur

  -- The loop: the message on top leaves the box and is handled. The loop ends with the box empty;
  -- the functions called may fill it again, so it runs on fuel, and `none` is fuel spent.
  pub loop_on : ℕ → List MsgInfo → Option ℕ → World S → Option (Outcome S)
  loop_on fuel [] cur x = some (next x cur)
  loop_on zero (msg ∷ rest) cur x = none
  loop_on (suc fuel) (msg ∷ rest) cur x =
      resume (λ y cur'. loop_on fuel y.wm.msg_box cur' y)
        (handle_message msg.msg msg.sender_handle msg.target_handle cur
          (change (λ wm. record wm { msg_box = rest }) x))

  -- `p_cur_wnd` begins as a null pointer.
  pub handle_message_event : ℕ → World S → Option (Outcome S)
  handle_message_event fuel x = loop_on fuel x.wm.msg_box none x
