-- ===== src/Windows/Messages/Unknown.antt =====
-- The transfer of control to a name that no window has.
use Prim.Native.String.{String}
use lfdk.Common.{ℕ, suc, ◌<◌, ◌≡◌, refl, some, pos, negsuc, ◌==◌, arith, length, true}
use lfdk.Windows.State.{Window, WinInfo}
use lfdk.Windows.Requests.{valid_sender, find_name, request_xfer_control}
use lfdk.Windows.Hooks.{Modules, World, change}
use lfdk.Windows.Messages.{
  fault, handle_message_event, loop_on, resume, handle_message, handle_xfer_control, xfer_to,
  current, is_some, is_handle,
}
use lfdk.Windows.Requests.Unknown.{request_unknown}

same_number : (i : ℕ) → (i == i) ≡ true
same_number i = ground arith

-- When the foreground window requests a transfer of control to a name that no window has, the
-- request is accepted, and the next handling of messages reads `windows_pool[ -1 ]`.
pub unknown_target_faults :
    {S : Type 0} (mods : Modules S) (w : Window) (info : WinInfo) (i fuel : ℕ) (name : String)
    (x : World S)
    → valid_sender (some w) (pos i) x.wm ≡ some info
    → length x.wm.msg_box < 32
    → find_name name x.wm.windows_pool 0 ≡ negsuc 0
    → x.wm.cur_fore_window_handle ≡ pos i
    → handle_message_event mods
        (suc fuel)
        (change (λ wm. (request_xfer_control (some w) (pos i) (some name) wm).0) x)
      ≡ some fault
unfolding handle_message_event loop_on resume handle_message handle_xfer_control xfer_to current
    is_handle is_some
unknown_target_faults mods w info i fuel name x valid room unknown front =
    rw (request_unknown w info i name x.wm valid room unknown) (rw (front, same_number i) refl)
