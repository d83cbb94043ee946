-- ===== src/Tests/Program.antt =====
-- The theorems on `main` of lfdk/lfdk.c and on the log at one run each.
use mathlib.Core.Path.{subst}
use lfdk.Common.{
  ℕ, zero, suc, ◌≡◌, refl, sym, false, true, none, some, List, [], ◌∷◌, ℤ, pos, negsuc, arith,
  if◌then◌else◌, replicate, take, NoNul,
}
use lfdk.Windows.State.{not_start, foreground, Window, Manager, windows_of, state_at}
use lfdk.Windows.Requests.Sound.{empty}
use lfdk.Windows.Hooks.{World}
use lfdk.Windows.Hooks.Known.{KnownTargets, AllKnown}
use lfdk.Windows.Events.Running.{Running}
use lfdk.Windows.Events.Starting.{Starting, Starting-Running}
use lfdk.Log.{LogState, is_zero_fd, passes, debug_k_log}
use lfdk.Log.Kernel.{kernel_prints, debug_k_log_prints}
use lfdk.Main.Loop.{LoopEnd, main_loop}
use lfdk.Main.Loop.Rounds.{quits, EndsWell, main_loop_runs}
use lfdk.Main.Options.{CmdOption, max_bus, mmio_base, debug_level, Settings, read_options}
use lfdk.Main.Options.Bounds.{WithinLimits, read_options-WithinLimits}
use lfdk.Main.Program.{Held, SystemAnswers, Finish, lfdk_main}
use lfdk.Main.Program.Returns.{FinishesWell, starts, lfdk_main_finishes}
use lfdk.Tests.Desktop.{memory_window, cmos_window, counting, counting-QuietFocus, counting_asks}

abbrev two_windows : List Window
two_windows = memory_window ∷ cmos_window ∷ []

abbrev registered : Manager
registered = record {
  windows_pool =
      record { p_win = memory_window; win_state = not_start }
      ∷ record { p_win = cmos_window; win_state = not_start }
      ∷ [];
  msg_box = [];
  cur_fore_window_handle = negsuc 0;
}

abbrev before_start : World ℕ
before_start = record { wm = registered; state = 0; exited = false }

same_windows : windows_of registered.windows_pool ≡ two_windows
unfolding windows_of
same_windows = refl

no_focus : (i : ℕ) → ¬ (state_at registered i ≡ some foreground)
no_focus zero e = cc
no_focus (suc zero) e = cc
no_focus (suc (suc i)) e = cc

registered-Starting : Starting two_windows registered
registered-Starting = record {
  windows = same_windows;
  room = omega arith;
  sound = empty;
  away = refl;
  idle = no_focus;
}

counting-KnownTargets : KnownTargets counting two_windows
unfolding KnownTargets AllKnown
counting-KnownTargets w hook f wm s e =
    subst (λ rs. AllKnown two_windows rs) (sym (counting_asks w hook f wm s e)) tt

-- The key that asks for the second window, no key, and the key that quits.
abbrev keys : List ℤ
keys = pos 6 ∷ negsuc 0 ∷ pos b'q' ∷ []

main_loop_runs_example :
    (r : LoopEnd ℕ) × (main_loop counting 32 keys before_start ≡ some r)
    × EndsWell (λ y. Running two_windows y.wm) (quits keys) r
main_loop_runs_example =
    main_loop_runs counting two_windows counting-QuietFocus counting-KnownTargets 32 keys
      before_start (omega arith) (Starting-Running two_windows registered registered-Starting)

abbrev logs : LogState
logs = record { debug_fd = none; k_log_fd = pos 0; k_buf = replicate 256 0 }

abbrev nothing_held : Held
nothing_held = record { device_open = false; log = logs; screen_open = false }

abbrev system : SystemAnswers
system = record { fd = pos 3; log_opened = true }

abbrev defaults : Settings
defaults = record {
  device = replicate 40 0;
  pciname = replicate 40 0;
  maxpcibus = pos 255;
  debug_lv = pos 4;
  phy_pcix_mmio_base = 0;
}

abbrev options : List CmdOption
options = max_bus (pos 16) ∷ mmio_base (pos 0xe000_0000) ∷ debug_level (pos 9) ∷ []

lfdk_main_finishes_example :
    (f : Finish ℕ) × (lfdk_main counting options defaults system 32 keys before_start nothing_held
      ≡ some f)
    × FinishesWell
        (starts counting (read_options options defaults) system before_start)
        (quits keys)
        f
lfdk_main_finishes_example =
    lfdk_main_finishes counting two_windows counting-QuietFocus counting-KnownTargets 32
      (omega arith) keys options defaults system before_start nothing_held
      (record { device = refl; screen = refl; kernel_log = refl }) registered-Starting

defaults-WithinLimits : WithinLimits defaults
defaults-WithinLimits = record {
  bus = refl;
  level = refl;
  base = omega arith;
  device_size = refl;
  names_size = refl;
}

abbrev chosen : Settings
chosen = record defaults { maxpcibus = pos 16; phy_pcix_mmio_base = 0xe000_0000; debug_lv = pos 5 }

options_read : read_options options defaults ≡ some chosen
unfolding read_options
options_read = refl

read_options-WithinLimits_example : WithinLimits chosen
read_options-WithinLimits_example =
    read_options-WithinLimits options defaults chosen defaults-WithinLimits options_read

abbrev message : List ℕ
message = b'o' ∷ b'k' ∷ []

message-NoNul : NoNul message
unfolding NoNul
message-NoNul = omega arith

abbrev with_device : LogState
with_device = record logs { k_log_fd = pos 3 }

has_device : is_zero_fd with_device.k_log_fd ≡ false
unfolding is_zero_fd
has_device = refl

debug_k_log_prints_example :
    kernel_prints (debug_k_log (pos 4) (pos 1) message with_device).1 (replicate 512 0)
    ≡ (if passes (pos 1) (pos 4) then some (some (take 255 message)) else none)
debug_k_log_prints_example =
    debug_k_log_prints (pos 4) (pos 1) message with_device (replicate 512 0) message-NoNul
      has_device refl refl
