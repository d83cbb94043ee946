-- ===== src/Windows/State.antt =====
-- The data of the window manager of lfdk/lfdk.h. `windows_pool` and `msg_box` are given by their
-- parts in use, so their lengths are `windows_used_len` and `msg_used_len`; the message box is a
-- stack, with the last message first.
pub mod Pool
use Prim.Native.String.{String}
use lfdk.Common.{ℕ, zero, suc, Option, List, [], ◌∷◌, ℤ, negsuc, get_elem?}
use mathlib.Core.Option

pub data WinState : Type 0 where
  not_start inited started post_started disabled : WinState
  background foreground destroyed exit : WinState

pub data Message : Type 0 where
  no_used need_focus release_focus xfer_control destroy_window : Message

-- `st_window_info` without its function pointers: those are the hooks of `Hooks`.
pub record Window : Type 0 where
  pub name : String
  pub short_key : ℕ

-- `st_win_info`.
pub record WinInfo : Type 0 where
  pub p_win : Window
  pub win_state : WinState

-- `msg_info`. The sender is stored as checked, not negative; the target may be -1.
pub record MsgInfo : Type 0 where
  pub msg : Message
  pub sender_handle : ℕ
  pub target_handle : ℤ

-- `st_windows_manager_info` without `cmd_info`.
pub record Manager : Type 0 where
  pub windows_pool : List WinInfo
  pub msg_box : List MsgInfo
  pub cur_fore_window_handle : ℤ

abbrev pub windows_pool_size : ℕ
windows_pool_size = 32

abbrev pub msg_size : ℕ
msg_size = 32

-- `ERR_BUF_OVERFLOW` is `ERROR_MIN`, and `ERR_INVALID_PARAM` stands 4 behind it.
abbrev pub err_buf_overflow : ℤ
err_buf_overflow = negsuc 31

abbrev pub err_invalid_param : ℤ
err_invalid_param = negsuc 27

-- The window at an index, and its state.
abbrev pub window_at : Manager → ℕ → Option Window
window_at wm i = Option.map (λ w. w.p_win) (get_elem? wm.windows_pool i)

abbrev pub state_at : Manager → ℕ → Option WinState
state_at wm i = Option.map (λ w. w.win_state) (get_elem? wm.windows_pool i)

-- The windows of a pool without their states.
unfoldable pub windows_of : List WinInfo → List Window
windows_of [] = []
windows_of (w ∷ ws) = w.p_win ∷ windows_of ws

pub set_nth_state : List WinInfo → ℕ → WinState → List WinInfo
set_nth_state [] i s = []
set_nth_state (w ∷ ws) zero s = record w { win_state = s } ∷ ws
set_nth_state (w ∷ ws) (suc i) s = w ∷ set_nth_state ws i s

-- `windows_pool[ i ].win_state = s`.
unfoldable pub set_state : ℕ → WinState → Manager → Manager
unfolding set_nth_state
set_state i s wm = record wm { windows_pool = set_nth_state wm.windows_pool i s }

unfoldable pub set_foreground : ℤ → Manager → Manager
set_foreground h wm = record wm { cur_fore_window_handle = h }
