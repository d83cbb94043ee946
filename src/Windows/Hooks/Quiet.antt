-- ===== src/Windows/Hooks/Quiet.antt =====
-- Functions of the modules that make no requests.
use lfdk.Common.{ℕ, ◌≡◌, refl, ap, Option, none, some, [], inl, inr, Bool-cases}
use lfdk.Windows.State.{Window, Manager, window_at}
use lfdk.Windows.Hooks.{
  Hook, Answer, Modules, World, perform_all, call_function, call_at, run_hook, lost_focus,
  get_focus, destroy_win,
}

-- The functions of a hook make no requests.
unfoldable pub IsQuiet : {S : Type 0} → Modules S → Hook → Type 0
IsQuiet {S} mods hook =
    (w : Window) (f : Manager → S → Answer S) (wm : Manager) (s : S)
    → mods.function w hook ≡ some f
    → (f wm s).requests ≡ []

-- The functions that messages call make no requests.
pub record QuietFocus {S : Type 0} (mods : Modules S) : Type 0 where
  pub losing : IsQuiet mods lost_focus
  pub getting : IsQuiet mods get_focus
  pub destroying : IsQuiet mods destroy_win

module _ {S : Type 0} (mods : Modules S) (hook : Hook) (still : IsQuiet mods hook)
    (x : World S) where
  call_function_box :
      (w : Window) (f : Option (Manager → S → Answer S))
      → mods.function w hook ≡ f
      → (call_function f x).1.wm.msg_box ≡ x.wm.msg_box
  unfolding call_function perform_all IsQuiet
  call_function_box w none e = refl
  call_function_box w (some f) e = elim (Bool-cases x.exited) [
    | inl over ↦ rw over refl
    | inr runs ↦ rw runs (ap (λ rs. (perform_all rs x.wm).msg_box) (still w f x.wm x.state e))
  ]

  call_at_box : (w : Option Window) → (call_at mods hook w x).wm.msg_box ≡ x.wm.msg_box
  unfolding call_at
  call_at_box none = refl
  call_at_box (some w) = call_function_box w (mods.function w hook) refl

  pub run_hook_box : (i : ℕ) → (run_hook mods hook i x).wm.msg_box ≡ x.wm.msg_box
  unfolding run_hook
  run_hook_box i = call_at_box (window_at x.wm i)
