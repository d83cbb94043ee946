-- ===== src/Main/Program.antt =====
-- `main` of lfdk/lfdk.c behind its options: the device, the log, the windows and the screen, with
-- the labels at its end. A failing call of the device inside a module's function ends the program
-- there by `exit( 1 )`, behind the call of `endwin`.
pub mod Returns
use lfdk.Common.{
  ℕ, Bool, true, false, Option, none, some, List, ℤ, pos, negsuc, ◌==◌, not, if◌then◌else◌,
}
use mathlib.Core.Option
use lfdk.Windows.State.{Manager}
use lfdk.Windows.Hooks.{Modules, World}
use lfdk.Windows.Events.{
  is_zero, handle_init_event, handle_start_win_event, handle_post_start_win_event,
  handle_destroy_windows, handle_module_exit,
}
use lfdk.Log.{LogState, debug_init, debug_exit}
use lfdk.Main.Options.{CmdOption, Settings, read_options}
use lfdk.Main.Loop.{LoopEnd, waiting, left, exited_in, crashed, main_loop}

-- What the program holds: the device file, the log and the screen of curses.
pub record Held : Type 0 where
  pub device_open : Bool
  pub log : LogState
  pub screen_open : Bool

-- What the system answers: the descriptor of `open`, and whether `fopen` gives a file.
pub record SystemAnswers : Type 0 where
  pub fd : ℤ
  pub log_opened : Bool

-- `ERR_OPEN_DEV` is `ERROR_MIN` + 1.
abbrev pub err_open_dev : ℤ
err_open_dev = negsuc 30

pub data Finish (S : Type 0) : Type 0 where
  ended : World S → Held → ℤ → Finish S
  in_loop : World S → Held → Finish S
  exit_1 : World S → Held → Finish S
  crash : Finish S

unfoldable pub is_negative : ℤ → Bool
is_negative (pos n) = false
is_negative (negsuc n) = true

module _ {S : Type 0} where
  -- The labels, each with those below it: `close( fd )`, `debug_exit`, `endwin`.
  pub err_init_dbg : World S → Held → ℤ → Finish S
  err_init_dbg x h ret = ended x (record h { device_open = false }) ret

  pub err_init_ev : World S → Held → ℤ → Finish S
  err_init_ev x h ret = err_init_dbg x (record h { log = debug_exit h.log }) ret

  pub err_out : World S → Held → ℤ → Finish S
  err_out x h ret = err_init_ev x (record h { screen_open = false }) ret

  -- What follows a call of modules' functions, unless one of them ended the program.
  pub unless_exited : World S → Held → Finish S → Finish S
  unless_exited x h rest = if x.exited then exit_1 x (record h { screen_open = false }) else rest

  module _ (mods : Modules S) where
    -- Behind the loop.
    pub after_loop : Held → LoopEnd S → Finish S
    after_loop h (waiting x) = in_loop x h
    after_loop h crashed = crash
    after_loop h (exited_in x) = exit_1 x (record h { screen_open = false })
    after_loop h (left x) =
        let y = handle_module_exit mods (handle_destroy_windows mods x) in
        unless_exited y h (err_out y h (pos 0))

    -- From `initscr` on; the two starting events always answer 0.
    pub run_windows : ℕ → List ℤ → World S → Held → Option (Finish S)
    run_windows fuel keys x h =
        let h' = record h { screen_open = true } in
        let y = handle_post_start_win_event mods (handle_start_win_event mods x) in
        let looped = Option.map (after_loop h') (main_loop mods fuel keys y) in
        if y.exited then some (exit_1 y (record h' { screen_open = false })) else looped

    -- From `handle_init_event` on.
    pub run_inited : ℕ → List ℤ → World S → Held → Option (Finish S)
    run_inited fuel keys x h =
        let (y, ret) = handle_init_event mods x in
        let running = run_windows fuel keys y h in
        if y.exited
        then some (exit_1 y h)
        else if is_zero ret
        then running
        else some (err_init_ev y h ret)

    -- From `open` on, with the debug level.
    pub run_main : SystemAnswers → ℤ → ℕ → List ℤ → World S → Held → Option (Finish S)
    run_main sys debug_lv fuel keys x h =
        let opened = record h { device_open = true } in
        let (log, ret) = debug_init sys.log_opened sys.fd h.log in
        let logging = record opened { log = log } in
        if is_negative sys.fd
        then some (ended x h err_open_dev)
        else if is_zero debug_lv
        then run_inited fuel keys x opened
        else if is_zero ret
        then run_inited fuel keys x logging
        else some (err_init_dbg x logging ret)

    -- The whole of `main`: an option that is refused returns 1.
    pub after_options :
        Option Settings → SystemAnswers → ℕ → List ℤ → World S → Held → Option (Finish S)
    after_options none sys fuel keys x h = some (ended x h (pos 1))
    after_options (some s) sys fuel keys x h = run_main sys s.debug_lv fuel keys x h

    pub lfdk_main :
        List CmdOption → Settings → SystemAnswers → ℕ → List ℤ → World S → Held → Option (Finish S)
    lfdk_main os s sys fuel keys x h = after_options (read_options os s) sys fuel keys x h
