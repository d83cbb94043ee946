-- ===== src/Windows/Hooks.antt =====
-- The calls of the modules' functions in lfdk/lfdk.c. A module is code behind function pointers, so
-- what a function does is a parameter: it sees the manager (`request_window_state`) and the module's
-- own state, and it gives the module's state afterwards, the requests that it makes of the manager,
-- in order, and whether the macro `LFDD_IOCTL` ended the program by `exit( 1 )` in it.
pub mod Keeps
pub mod Known
pub mod Quiet
use Prim.Native.String.{String}
use lfdk.Common.{ℕ, ◌+◌, Option, none, some, List, [], ◌∷◌, ℤ, Bool, if◌then◌else◌}
use lfdk.Windows.State.{Window, Manager, window_at}
use lfdk.Windows.Requests.{
  request_windows_focus, release_windows_focus, request_destroy_windows, request_xfer_control,
}

pub data Hook : Type 0 where
  init start_win post_start_win lost_focus get_focus paint destroy_win module_exit : Hook
  key_press : ℕ → Hook

-- A request as a module's function makes it: the window and the handle that it passes.
pub data Request : Type 0 where
  ask_focus release destroy : Option Window → ℤ → Request
  transfer : Option Window → ℤ → Option String → Request

-- What a function answers: the module's state, the requests made, the value returned, and whether
-- it ended the program.
pub record Answer (S : Type 0) : Type 0 where
  pub state : S
  pub requests : List Request
  pub ret : ℤ
  pub exits : Bool

-- The function of a window for a hook, `none` for a null pointer.
pub record Modules (S : Type 0) : Type 0 where
  pub function : Window → Hook → Option (Manager → S → Answer S)

-- `exited` once a function has ended the program: nothing is called any more, and what the loops
-- around the call still do to the manager has no meaning.
pub record World (S : Type 0) : Type 0 where
  pub wm : Manager
  pub state : S
  pub exited : Bool

pub perform : Request → Manager → Manager
perform (ask_focus w h) wm = (request_windows_focus w h wm).0
perform (release w h) wm = (release_windows_focus w h wm).0
perform (destroy w h) wm = (request_destroy_windows w h wm).0
perform (transfer w h name) wm = (request_xfer_control w h name wm).0

pub perform_all : List Request → Manager → Manager
perform_all [] wm = wm
perform_all (r ∷ rs) wm = perform_all rs (perform r wm)

-- `if( p_win->hook ) p_win->hook( ... )`, with the value returned, if any.
pub call_function : {S : Type 0} → Option (Manager → S → Answer S) → World S → Option ℤ × World S
call_function none x = (none, x)
call_function (some f) x =
    let answer = f x.wm x.state in
    if x.exited then (none, x) else (
      some answer.ret,
      record { wm = perform_all answer.requests x.wm; state = answer.state; exited = answer.exits },
    )

abbrev pub call_hook : {S : Type 0} → Modules S → Hook → Window → World S → Option ℤ × World S
call_hook mods hook w x = call_function (mods.function w hook) x

-- The same for the window at an index of the pool, where there is one.
pub call_at : {S : Type 0} → Modules S → Hook → Option Window → World S → World S
call_at mods hook none x = x
call_at mods hook (some w) x = (call_hook mods hook w x).1

pub run_hook : {S : Type 0} → Modules S → Hook → ℕ → World S → World S
run_hook mods hook i x = call_at mods hook (window_at x.wm i) x

-- A change of the manager alone.
abbrev pub change : {S : Type 0} → (Manager → Manager) → World S → World S
change f x = record x { wm = f x.wm }
