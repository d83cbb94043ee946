-- ===== src/Windows/Requests/Unknown.antt =====
-- A request for a transfer of control to a name that no window has.
use Prim.Native.String.{String}
use lfdk.Common.{ℕ, ◌∷◌, ◌<◌, ◌≡◌, refl, some, pos, negsuc, arith, length, false}
use lfdk.Windows.State.{Window, WinInfo, xfer_control, Manager}
use lfdk.Windows.Requests.{
  valid_sender, find_name, request_xfer_control, box_is_full, post, target_of,
}

box_has_room : (wm : Manager) → length wm.msg_box < 32 → box_is_full wm ≡ false
unfolding box_is_full
box_has_room wm h = ground arith

-- It posts the target -1.
pub request_unknown :
    (w : Window) (info : WinInfo) (i : ℕ) (name : String) (wm : Manager)
    → valid_sender (some w) (pos i) wm ≡ some info
    → length wm.msg_box < 32
    → find_name name wm.windows_pool 0 ≡ negsuc 0
    → (request_xfer_control (some w) (pos i) (some name) wm).0 ≡ record wm {
      msg_box =
          record { msg = xfer_control; sender_handle = i; target_handle = negsuc 0 } ∷ wm.msg_box;
    }
unfolding request_xfer_control target_of post
request_unknown w info i name wm valid room unknown = rw (valid, box_has_room wm room, unknown) refl
