-- ===== src/Tests/Desktop.antt =====
-- A manager with two windows, and the theorems on lfdk/lfdk.c on it.
use lfdk.Common.{
  ℕ, suc, ◌≡◌, refl, sym, ap, Option, none, some, List, [], ◌∷◌, pos, negsuc, arith, pos-injective,
  zero, false, ◌==◌, if◌then◌else◌, ltb_ℤ,
}
use lfdk.Windows.State.{
  inited, background, foreground, need_focus, xfer_control, Window, Manager, state_at, windows_of,
}
use lfdk.Windows.Requests.{valid_sender, find_name, request_xfer_control}
use lfdk.Windows.Hooks.{
  Hook, Request, Answer, Modules, World, change, lost_focus, get_focus, destroy_win,
}
use lfdk.Windows.Hooks.Quiet.{QuietFocus, IsQuiet}
use lfdk.Windows.Messages.{next, fault, handle_message, handle_message_event}
use lfdk.Windows.Messages.Focus.{FocusOk, AfterMessage, HasTarget, handle_message-FocusOk}
use lfdk.Windows.Messages.Loop.{handle_message_event_finishes}
use lfdk.Windows.Requests.Sound.{SoundBox, InUse, empty, more}
use lfdk.Windows.Messages.Unknown.{unknown_target_faults}
use lfdk.Windows.Events.{handle_key_event}
use lfdk.Windows.Events.Keys.{deliver, handle_key_event_lem}

abbrev pub memory_window : Window
memory_window = record { name = "Memory"; short_key = 5 }

abbrev pub cmos_window : Window
cmos_window = record { name = "CMOS"; short_key = 6 }

-- The first window is in the foreground; the second asks for the focus.
abbrev desktop : Manager
desktop = record {
  windows_pool =
      record { p_win = memory_window; win_state = foreground }
      ∷ record { p_win = cmos_window; win_state = background }
      ∷ [];
  msg_box = record { msg = need_focus; sender_handle = 1; target_handle = pos 0 } ∷ [];
  cur_fore_window_handle = pos 0;
}

abbrev starting : Manager
starting = record {
  windows_pool =
      record { p_win = memory_window; win_state = inited }
      ∷ record { p_win = cmos_window; win_state = inited }
      ∷ [];
  msg_box = [];
  cur_fore_window_handle = negsuc 0;
}

-- Functions that count their calls while their window is in the foreground, as the `paint` functions
-- do, that request nothing, and that end the program at the tenth call.
abbrev pub counting : Modules ℕ
counting = record {
  function = λ w hook. some (λ wm n. record {
    state = if ltb_ℤ wm.cur_fore_window_handle (pos 0) then n else suc n;
    requests = [];
    ret = pos 0;
    exits = n == 9;
  });
}

requests_of : Option (Manager → ℕ → Answer ℕ) → Manager → ℕ → List Request
requests_of none wm s = []
requests_of (some f) wm s = (f wm s).requests

pub counting_asks :
    (w : Window) (hook : Hook) (f : Manager → ℕ → Answer ℕ) (wm : Manager) (s : ℕ)
    → counting.function w hook ≡ some f
    → (f wm s).requests ≡ []
unfolding requests_of
counting_asks w hook f wm s e = ap (λ g. requests_of g wm s) (sym e)

pub counting-IsQuiet : (hook : Hook) → IsQuiet counting hook
unfolding IsQuiet requests_of
counting-IsQuiet hook w f wm s e = ap (λ g. requests_of g wm s) (sym e)

pub counting-QuietFocus : QuietFocus counting
counting-QuietFocus = record {
  losing = counting-IsQuiet lost_focus;
  getting = counting-IsQuiet get_focus;
  destroying = counting-IsQuiet destroy_win;
}

abbrev at_work : World ℕ
at_work = record { wm = desktop; state = 0; exited = false }

desktop_only : (i : ℕ) → state_at desktop i ≡ some foreground → pos 0 ≡ pos i
desktop_only zero e = refl
desktop_only (suc zero) e = cc
desktop_only (suc (suc i)) e = cc

desktop-FocusOk : FocusOk desktop
desktop-FocusOk = record {
  only = desktop_only;
  held = λ i e. ap (λ k. state_at desktop k) (sym (pos-injective e));
}

desktop-SoundBox : SoundBox 2 desktop.msg_box
unfolding InUse
desktop-SoundBox = more _ [] (omega arith) (omega arith) empty

memory_is_valid :
    valid_sender (some memory_window) (pos 0) desktop
    ≡ some (record { p_win = memory_window; win_state = foreground })
unfolding valid_sender
memory_is_valid = refl

no_such_name : find_name "PCI" desktop.windows_pool 0 ≡ negsuc 0
unfolding find_name
no_such_name = refl

target_in_use : HasTarget (pos 1) desktop
unfolding HasTarget
target_in_use = omega arith

handle_message-FocusOk_example :
    AfterMessage (λ y. FocusOk y.wm) (handle_message counting xfer_control 0 (pos 1) none at_work)
handle_message-FocusOk_example =
    handle_message-FocusOk counting xfer_control 0 (pos 1) none at_work desktop-FocusOk
      (omega arith) (λ e. target_in_use)

handle_message_event_finishes_example :
    (y : World ℕ) × (cur : Option ℕ) × (handle_message_event counting 1 at_work ≡ some (next y cur))
    × (y.wm.msg_box ≡ [])
    × FocusOk y.wm
    × (windows_of y.wm.windows_pool ≡ windows_of desktop.windows_pool)
handle_message_event_finishes_example =
    handle_message_event_finishes counting counting-QuietFocus 1 at_work (omega arith)
      desktop-SoundBox desktop-FocusOk

unknown_target_faults_example :
    handle_message_event counting 1
      (change (λ wm. (request_xfer_control (some memory_window) (pos 0) (some "PCI") wm).0) at_work)
    ≡ some fault
unknown_target_faults_example =
    unknown_target_faults counting memory_window
      (record { p_win = memory_window; win_state = foreground }) 0 0 "PCI" at_work memory_is_valid
      (omega arith) no_such_name refl

handle_key_event_lem_example :
    handle_key_event counting 65 at_work ≡ deliver counting 65 (pos 0) at_work
handle_key_event_lem_example = handle_key_event_lem counting 65 at_work desktop-FocusOk
