-- ===== src/Main/Program/Returns.antt =====
-- How `main` returns.
use mathlib.Core.Path.{subst}
use mathlib.Core.Option
use lfdk.Common.{
  ℕ, sym, ◌∙◌, if◌then◌else◌, ◌≤◌, ◌<◌, ◌≡◌, ◌&&◌, ◌||◌, refl, ap, inl, inr, Bool, true, false,
  Option, none, some, List, [], ℤ, pos, arith, length, not, Bool-cases,
}
use lfdk.Windows.State.{Window, exit, state_at}
use lfdk.Windows.Hooks.{Modules, World}
use lfdk.Windows.Hooks.Quiet.{QuietFocus}
use lfdk.Windows.Hooks.Known.{KnownTargets}
use lfdk.Windows.Events.{
  is_zero, handle_init_event, handle_start_win_event, handle_post_start_win_event,
  handle_destroy_windows, handle_module_exit,
}
use lfdk.Windows.Events.Starting.{Starting, handle_init_event-Starting, start_events-Running}
use lfdk.Windows.Events.Running.{Running}
use lfdk.Windows.Events.Lifecycle.{shutdown_lem, length-shutdown}
use lfdk.Log.{debug_init, debug_exit}
use lfdk.Main.Options.{CmdOption, Settings, read_options}
use lfdk.Main.Loop.{main_loop, LoopEnd, waiting, left, exited_in, crashed}
use lfdk.Main.Loop.Rounds.{quits, EndsWell, main_loop_runs}
use lfdk.Main.Program.{
  Held, SystemAnswers, Finish, ended, in_loop, exit_1, crash, unless_exited, is_negative,
  err_init_dbg, err_init_ev, err_out, lfdk_main, after_options, after_loop, run_windows, run_inited,
  run_main,
}

-- The device and the screen are closed, and the kernel log is not used any more.
pub record AllReleased (h : Held) : Type 0 where
  pub device : h.device_open ≡ false
  pub screen : h.screen_open ≡ false
  pub kernel_log : h.log.k_log_fd ≡ pos 0

-- Every window in use is left.
unfoldable pub AllExited : {S : Type 0} → World S → Type 0
AllExited x = (i : ℕ) → i < length x.wm.windows_pool → state_at x.wm i ≡ some exit

-- How a run ends, for whether the loop was reached and whether a quit key is among the keys.
unfoldable pub FinishesWell : {S : Type 0} → Bool → Bool → Finish S → Type 0
FinishesWell true gone (ended x h ret) = AllReleased h × (ret ≡ pos 0) × (gone ≡ true) × AllExited x
FinishesWell false gone (ended x h ret) = AllReleased h × (is_zero ret ≡ false)
FinishesWell true gone (in_loop x h) = gone ≡ false
FinishesWell false gone (in_loop x h) = ⊥
FinishesWell reached gone (exit_1 x h) = (h.screen_open ≡ false) × (x.exited ≡ true)
FinishesWell reached gone crash = ⊥

module _ {S : Type 0} (mods : Modules S) where
  -- The loop is reached when the device opens, a log that is wanted opens, and the functions of
  -- `init` answer 0.
  unfoldable pub reaches_loop : SystemAnswers → ℤ → World S → Bool
  reaches_loop sys debug_lv x =
      not (is_negative sys.fd)
      && ((is_zero debug_lv || sys.log_opened) && is_zero (handle_init_event mods x).1)

  -- With the options, of which none may be refused.
  unfoldable pub starts : Option Settings → SystemAnswers → World S → Bool
  starts none sys x = false
  starts (some s) sys x = reaches_loop sys s.debug_lv x

  module _ (ws : List Window) (quiet : QuietFocus mods) (known : KnownTargets mods ws) (fuel : ℕ)
      (enough : 32 ≤ fuel) (keys : List ℤ) where
    -- A run that finishes well.
    EndsMain : Bool → Option (Finish S) → Type 0
    EndsMain reached r = (f : Finish S) × (r ≡ some f) × FinishesWell reached (quits keys) f

    exit_holds :
        (reached : Bool) (x : World S) (h : Held)
        → h.screen_open ≡ false
        → x.exited ≡ true
        → FinishesWell reached (quits keys) (exit_1 x h)
    unfolding FinishesWell
    exit_holds true x h dark over = (dark, over)
    exit_holds false x h dark over = (dark, over)

    after_loop-FinishesWell :
        (r : LoopEnd S) (h : Held)
        → h.device_open ≡ true
        → EndsWell (λ y. Running ws y.wm) (quits keys) r
        → FinishesWell true (quits keys) (after_loop mods h r)
    unfolding after_loop EndsWell FinishesWell unless_exited err_out err_init_ev err_init_dbg
        debug_exit AllExited is_zero
    after_loop-FinishesWell (waiting x) h held ok = ok.0
    after_loop-FinishesWell crashed h held ok = ok
    after_loop-FinishesWell (exited_in x) h held ok = (refl, ok)
    after_loop-FinishesWell (left x) h held ok =
        let y = handle_module_exit mods (handle_destroy_windows mods x) in
        let choice = λ (b : Bool).
          FinishesWell true (quits keys)
            (if b then exit_1 y (record h { screen_open = false }) else err_out y h (pos 0)) in
        elim (Bool-cases y.exited) [
          | inl over ↦ subst choice (sym over) (refl, over)
          | inr runs ↦ subst choice (sym runs) (
            record { device = refl; screen = refl; kernel_log = refl },
            refl,
            ok.0,
            λ i used. shutdown_lem mods x i (omega (arith, used, length-shutdown mods x)),
          )
        ]

    run_windows-EndsMain :
        (x : World S) (h : Held)
        → h.device_open ≡ true
        → Starting ws x.wm
        → EndsMain true (run_windows mods fuel keys x h)
    unfolding run_windows EndsMain FinishesWell
    run_windows-EndsMain x h held ok =
        let y = handle_post_start_win_event mods (handle_start_win_event mods x) in
        let (r, e, good) =
          main_loop_runs mods ws quiet known fuel keys _ enough
            (start_events-Running mods ws known x ok) in
        let looped =
          Option.map (after_loop mods (record h { screen_open = true }))
            (main_loop mods fuel keys y) in
        let choice =
          λ (b : Bool). if b then some (exit_1 y (record h { screen_open = false })) else looped in
        elim (Bool-cases y.exited) [
          | inl over ↦ (exit_1 y (record h { screen_open = false }), ap choice over, (refl, over))
          | inr runs ↦ (
            _,
            ap choice runs ∙ ap (Option.map (after_loop mods (record h { screen_open = true }))) e,
            after_loop-FinishesWell r (record h { screen_open = true }) held good,
          )
        ]

    run_inited-EndsMain :
        (x : World S) (h : Held)
        → h.device_open ≡ true
        → h.screen_open ≡ false
        → Starting ws x.wm
        → EndsMain (is_zero (handle_init_event mods x).1) (run_inited mods fuel keys x h)
    unfolding run_inited EndsMain FinishesWell err_init_ev err_init_dbg debug_exit
    run_inited-EndsMain x h held dark ok =
        let done = handle_init_event-Starting mods ws known x ok in
        let (y, ret) = handle_init_event mods x in
        let going =
          if is_zero ret then run_windows mods fuel keys y h else some (err_init_ev y h ret) in
        let choice =
          λ (b : Bool). EndsMain (is_zero ret) (if b then some (exit_1 y h) else going) in
        elim (Bool-cases y.exited) [
          | inl over ↦
              subst choice (sym over) (exit_1 y h, refl, exit_holds (is_zero ret) y h dark over)
          | inr runs ↦
              subst choice (sym runs) (elim (Bool-cases (is_zero (handle_init_event mods x).1)) [
                | inl fine ↦ rw fine (run_windows-EndsMain (handle_init_event mods x).0 h held done)
                | inr failed ↦
                    rw failed (
                      _,
                      refl,
                      (record { device = refl; screen = dark; kernel_log = refl }, failed),
                    )
              ])
        ]

    run_main_finishes :
        (sys : SystemAnswers) (debug_lv : ℤ) (x : World S) (h : Held)
        → AllReleased h
        → Starting ws x.wm
        → (f : Finish S) × (run_main mods sys debug_lv fuel keys x h ≡ some f)
          × FinishesWell (reaches_loop sys debug_lv x) (quits keys) f
    unfolding run_main reaches_loop FinishesWell debug_init err_init_dbg is_zero EndsMain
    run_main_finishes sys debug_lv x h free ok = elim (Bool-cases (is_negative sys.fd)) [
      | inl missing ↦ simp missing (_, refl, (free, refl))
      | inr opened ↦ elim (Bool-cases (is_zero debug_lv)) [
        | inl silent ↦
            simp (opened, silent)
              (run_inited-EndsMain x (record h { device_open = true }) refl free.screen ok)
        | inr wanted ↦ elim (Bool-cases sys.log_opened) [
          | inl written ↦
              simp (opened, wanted, written)
                (run_inited-EndsMain x
                  (record h {
                    device_open = true;
                    log = record h.log { debug_fd = some []; k_log_fd = sys.fd };
                  })
                  refl free.screen ok)
          | inr refused ↦
              simp (opened, wanted, refused)
                (
                  _,
                  refl,
                  (
                    record { device = refl; screen = free.screen; kernel_log = free.kernel_log },
                    refl,
                  ),
                )
        ]
      ]
    ]

    after_options-EndsMain :
        (o : Option Settings) (sys : SystemAnswers) (x : World S) (h : Held)
        → AllReleased h
        → Starting ws x.wm
        → EndsMain (starts o sys x) (after_options mods o sys fuel keys x h)
    unfolding after_options starts FinishesWell is_zero EndsMain
    after_options-EndsMain none sys x h free ok = (_, refl, (free, refl))
    after_options-EndsMain (some s) sys x h free ok = run_main_finishes sys s.debug_lv x h free ok

    -- The functions that messages call make no requests, control is transferred to known names, no
    -- window has the focus yet, nothing is held, and there is fuel for 32 messages in each round.
    -- Then `main` never reads outside the pool. Where a function ends the program by `exit( 1 )`,
    -- `main` ends there, with the screen closed. Otherwise, when no option is refused, the device
    -- opens, a log that is wanted opens and the modules initialise, it returns exactly when a quit
    -- key is pressed, with 0 and with every window left; and in all other cases it returns a value
    -- that is not 0. Where it returns, the device and the screen are closed and the kernel log is
    -- not used any more.
    pub lfdk_main_finishes :
        (os : List CmdOption) (s : Settings) (sys : SystemAnswers) (x : World S) (h : Held)
        → AllReleased h
        → Starting ws x.wm
        → (f : Finish S) × (lfdk_main mods os s sys fuel keys x h ≡ some f)
          × FinishesWell (starts (read_options os s) sys x) (quits keys) f
    unfolding lfdk_main EndsMain
    lfdk_main_finishes os s sys x h free ok =
        after_options-EndsMain (read_options os s) sys x h free ok
