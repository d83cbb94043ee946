-- ===== src/Main/Loop/Rounds.antt =====
-- The rounds of the loop of `main`: each ends, none reads outside the pool, and the quit key leaves.
use lfdk.Common.{
  ℕ, ◌≤◌, ◌≡◌, refl, sym, ap, ◌∙◌, inl, inr, Bool, true, false, Option, none, some, if◌then◌else◌,
  List, [], ◌∷◌, ℤ, length, arith, Bool-cases, ◌||◌,
}
use mathlib.Core.Path.{subst}
use mathlib.Core.Option
use lfdk.Windows.State.{Window}
use lfdk.Windows.Requests.Sound.{SoundBox, empty}
use lfdk.Windows.Hooks.{Modules, World}
use lfdk.Windows.Hooks.Quiet.{QuietFocus}
use lfdk.Windows.Hooks.Known.{KnownTargets}
use lfdk.Windows.Messages.{next, handle_message_event}
use lfdk.Windows.Messages.Loop.{handle_message_event_finishes}
use lfdk.Windows.Events.{switch_key_press, handle_paint_windows}
use lfdk.Windows.Events.Running.{
  Running, switch_key_press-Running, handle_key_event-Running, handle_paint_windows-Running,
}
use lfdk.Main.Loop.{
  key_code, is_quit, is_key, LoopEnd, waiting, left, exited_in, crashed, key_round, paint_after,
  round, after_round, main_loop,
}

-- The quit key is among the keys.
unfoldable pub quits : List ℤ → Bool
quits [] = false
quits (ibuf ∷ keys) = is_quit ibuf || quits keys

-- What the rounds leave, for the state and whether a quit key is among the keys.
unfoldable pub EndsWell : {S : Type 0} → (World S → Type 0) → Bool → LoopEnd S → Type 0
EndsWell P gone (left x) = (gone ≡ true) × P x
EndsWell P gone (waiting x) = (gone ≡ false) × P x
EndsWell P gone (exited_in x) = x.exited ≡ true
EndsWell P gone crashed = ⊥

module _ {S : Type 0} (mods : Modules S) (ws : List Window) (quiet : QuietFocus mods)
    (known : KnownTargets mods ws) where
  key_round-Running :
      (ibuf : ℤ) (x : World S) → Running ws x.wm → Running ws (key_round mods ibuf x).wm
  unfolding key_round
  key_round-Running ibuf x ok =
      let y = record x { wm = (switch_key_press (key_code ibuf) x.wm).0 } in
      let there : Running ws y.wm = switch_key_press-Running ws (key_code ibuf) x.wm ok in
      elim (Bool-cases (switch_key_press (key_code ibuf) x.wm).1) [
        | inl switched ↦ rw switched there
        | inr same ↦ rw same (elim (Bool-cases (is_key ibuf)) [
          | inl pressed ↦
              rw pressed (handle_key_event-Running mods ws known (key_code ibuf) y there)
          | inr idle ↦ rw idle there
        ])
      ]

  -- A round ends with a state in which the same holds again.
  round-Running :
      (fuel : ℕ) (ibuf : ℤ) (x : World S)
      → 32 ≤ fuel
      → Running ws x.wm
      → (y : World S) × (cur : Option ℕ) × (round mods fuel ibuf x ≡ some (next y cur))
        × Running ws y.wm
  unfolding round paint_after
  round-Running fuel ibuf x enough ok =
      let pressed = key_round-Running ibuf x ok in
      let (y, cur, done, none_left, focus, windows) =
        handle_message_event_finishes mods quiet fuel (key_round mods ibuf x)
          (omega (arith, pressed.room)) pressed.sound pressed.focus in
      let z = key_round mods ibuf x in
      let handled = Option.map (paint_after mods) (handle_message_event mods fuel z) in
      let choice = λ (b : Bool). if b then some (next z none) else handled in
      elim (Bool-cases z.exited) [
        | inl over ↦ (z, none, ap choice over, pressed)
        | inr runs ↦ (
          handle_paint_windows mods y,
          cur,
          ap choice runs ∙ ap (λ r. Option.map (paint_after mods) r) done,
          handle_paint_windows-Running mods ws known y (record {
            windows = windows ∙ pressed.windows;
            room = omega (arith, ap length none_left);
            sound = subst (λ b. SoundBox (length y.wm.windows_pool) b) (sym none_left) empty;
            focus = focus;
          }),
        )
      ]

  -- When the functions that messages call make no requests and control is transferred to known
  -- names only, the loop of `main` runs through any keys with fuel for 32 messages in each round:
  -- it never reads outside the pool. Unless a function called ends the program, it is left exactly
  -- when a quit key is among the keys, and at its end the windows are the same, the box has at most
  -- 32 messages, all between windows in use, and only the window of the handle is in the foreground.
  pub main_loop_runs :
      (fuel : ℕ) (keys : List ℤ) (x : World S)
      → 32 ≤ fuel
      → Running ws x.wm
      → (r : LoopEnd S) × (main_loop mods fuel keys x ≡ some r)
        × EndsWell (λ y. Running ws y.wm) (quits keys) r
  unfolding main_loop quits EndsWell after_round
  main_loop_runs fuel [] x enough ok = (waiting x, refl, (refl, ok))
  main_loop_runs fuel (ibuf ∷ keys) x enough ok = elim (Bool-cases (is_quit ibuf)) [
    | inl quit ↦ rw quit (left x, refl, (refl, ok))
    | inr other ↦
        let (y, cur, done, ok') = round-Running fuel ibuf x enough ok in
        let choice = λ (b : Bool). if b then some (exited_in y) else main_loop mods fuel keys y in
        let (r, e, good) = main_loop_runs fuel keys y enough ok' in
        rw (other, done)
          (elim (Bool-cases y.exited) [
            | inl over ↦ (exited_in y, ap choice over, over)
            | inr runs ↦ (r, ap choice runs ∙ e, good)
          ])
  ]
