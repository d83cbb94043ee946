-- ===== src/Windows/Requests.antt =====
-- The calls that lfdk/lfdk.c offers to the modules: registration and the requests, which put a
-- message in the box for later.
pub mod Keeps
pub mod Register
pub mod Sound
pub mod Unknown
use Prim.Native.String.{String}
use text.Mathlib.Text.{◌==◌ as str_eq}
use lfdk.Common.{
  ℕ, Bool, ◌+◌, Option, none, some, List, [], ◌∷◌, ◌++◌, ℤ, pos, negsuc, ltb, leb, length,
  get_elem?, if◌then◌else◌, is_none,
}
use lfdk.Windows.State.{
  WinState, not_start, Message, need_focus, release_focus, xfer_control, destroy_window, Window,
  WinInfo, Manager, windows_pool_size, msg_size, err_buf_overflow, err_invalid_param,
}

-- What a call returns. `request_xfer_control` and `request_destroy_windows` end without a `return`
-- where they succeed.
pub data Ret : Type 0 where
  code : ℤ → Ret
  unspecified : Ret

pub register_windows : Window → Manager → Manager × ℤ
register_windows w wm =
    if ltb windows_pool_size (length wm.windows_pool + 1) then (wm, err_buf_overflow) else (
      record wm {
        windows_pool = wm.windows_pool ++ (record { p_win = w; win_state = not_start } ∷ []);
      },
      pos (length wm.windows_pool),
    )

-- The checks that each request begins with: a window (no null pointer), a handle in use, and the
-- same name behind it.
pub if_named : Window → Option WinInfo → Option WinInfo
if_named w none = none
if_named w (some info) = if str_eq info.p_win.name w.name then some info else none

unfoldable pub valid_sender : Option Window → ℤ → Manager → Option WinInfo
unfolding if_named
valid_sender none h wm = none
valid_sender (some w) (negsuc n) wm = none
valid_sender (some w) (pos i) wm = if_named w (get_elem? wm.windows_pool i)

abbrev pub handle_index : ℤ → ℕ
handle_index (pos i) = i
handle_index (negsuc n) = 0

-- The end of each request: the message goes on top of the box.
pub post : Message → ℕ → ℤ → Manager → Manager
post msg sender target wm = record wm {
  msg_box = record { msg = msg; sender_handle = sender; target_handle = target } ∷ wm.msg_box;
}

pub box_is_full : Manager → Bool
box_is_full wm = leb msg_size (length wm.msg_box)

-- A request with the message `msg` and without a target.
pub request : Message → Ret → Option Window → ℤ → Manager → Manager × Ret
request msg done w h wm =
    if is_none (valid_sender w h wm)
    then (wm, code err_invalid_param)
    else if box_is_full wm
    then (wm, code err_buf_overflow)
    else (post msg (handle_index h) (pos 0) wm, done)

unfoldable pub request_windows_focus : Option Window → ℤ → Manager → Manager × Ret
request_windows_focus = request need_focus (code (pos 0))

unfoldable pub release_windows_focus : Option Window → ℤ → Manager → Manager × Ret
release_windows_focus = request release_focus (code (pos 0))

unfoldable pub request_destroy_windows : Option Window → ℤ → Manager → Manager × Ret
request_destroy_windows = request destroy_window unspecified

-- The search loop of `request_xfer_control` from the index `i`: the first window of that name.
unfoldable pub find_name : String → List WinInfo → ℕ → ℤ
find_name func_name [] i = negsuc 0
find_name func_name (w ∷ ws) i =
    let rest = find_name func_name ws (i + 1) in
    if str_eq w.p_win.name func_name then pos i else rest

pub target_of : Option String → List WinInfo → ℤ
target_of none ws = negsuc 0
target_of (some func_name) ws = find_name func_name ws 0

pub request_xfer_control : Option Window → ℤ → Option String → Manager → Manager × Ret
request_xfer_control w h func_name wm =
    if is_none (valid_sender w h wm)
    then (wm, code err_invalid_param)
    else if box_is_full wm
    then (wm, code err_buf_overflow)
    else if is_none func_name
    then (wm, code err_invalid_param)
    else (post xfer_control (handle_index h) (target_of func_name wm.windows_pool) wm, unspecified)

-- `request_window_state`: the state, or the error code.
pub request_window_state : Option Window → ℤ → Manager → Option WinState
request_window_state w h wm = elim (valid_sender w h wm) [
  | none ↦ none
  | some info ↦ some info.win_state
]
