-- ===== src/Main/Loop.antt =====
-- The `for( ; ; )` loop of `main` in lfdk/lfdk.c. The keys are what `getch()` returns, round after
-- round, -1 when no key was pressed; `doupdate()` and `usleep()` change nothing of the model.
pub mod Rounds
use lfdk.Common.{
  ℕ, ◌-◌, ◌^◌, Bool, true, false, Option, none, some, List, [], ◌∷◌, ℤ, pos, negsuc, ◌==◌, ltb,
  if◌then◌else◌, ◌||◌,
}
use mathlib.Core.Option
use lfdk.Windows.State.{Manager}
use lfdk.Windows.Hooks.{Modules, World}
use lfdk.Windows.Messages.{Outcome, next, fault, handle_message_event}
use lfdk.Windows.Events.{switch_key_press, handle_key_event, handle_paint_windows}

-- `(uint32_t)ibuf`.
unfoldable pub key_code : ℤ → ℕ
key_code (pos n) = n
key_code (negsuc n) = 2 ^ 32 - 1 - n

-- `( ibuf == 'q' ) || ( ibuf == 'Q' )`.
unfoldable pub is_quit : ℤ → Bool
is_quit (pos n) = n == b'q' || n == b'Q'
is_quit (negsuc n) = false

-- `ibuf > 0`.
unfoldable pub is_key : ℤ → Bool
is_key (pos n) = ltb 0 n
is_key (negsuc n) = false

-- How the rounds end: no more keys are given, the quit key left the loop, a function ended the
-- program, or a message was answered by an access outside the pool.
pub data LoopEnd (S : Type 0) : Type 0 where
  waiting left exited_in : World S → LoopEnd S
  crashed : LoopEnd S

module _ {S : Type 0} (mods : Modules S) where
  -- The key switches windows, or goes to the foreground window.
  pub key_round : ℤ → World S → World S
  key_round ibuf x =
      let pressed = switch_key_press (key_code ibuf) x.wm in
      let y = record x { wm = pressed.0 } in
      if pressed.1 then y else if is_key ibuf then handle_key_event mods (key_code ibuf) y else y

  pub paint_after : Outcome S → Outcome S
  paint_after fault = fault
  paint_after (next y cur) = next (handle_paint_windows mods y) cur

  -- One round of the loop after `getch()`; a function of the key event may end the program.
  pub round : ℕ → ℤ → World S → Option (Outcome S)
  round fuel ibuf x =
      let y = key_round ibuf x in
      let handled = Option.map paint_after (handle_message_event mods fuel y) in
      if y.exited then some (next y none) else handled

  -- What follows a round.
  pub after_round : (World S → Option (LoopEnd S)) → Option (Outcome S) → Option (LoopEnd S)
  after_round rest none = none
  after_round rest (some fault) = some crashed
  after_round rest (some (next y cur)) =
      let later = rest y in if y.exited then some (exited_in y) else later

  pub main_loop : ℕ → List ℤ → World S → Option (LoopEnd S)
  main_loop fuel [] x = some (waiting x)
  main_loop fuel (ibuf ∷ keys) x =
      let rest = after_round (λ y. main_loop fuel keys y) (round fuel ibuf x) in
      if is_quit ibuf then some (left x) else rest
