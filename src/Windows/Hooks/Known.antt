-- ===== src/Windows/Hooks/Known.antt =====
-- The box stays sound while the functions of the modules transfer control to names that some
-- window has.
use mathlib.Core.Path.{subst}
use lfdk.Common.{◌≡◌, refl, sym, ap, Option, none, some, List, [], ◌∷◌, ℕ, inl, inr, Bool-cases}
use lfdk.Windows.State.{Window, Manager, windows_of, window_at}
use lfdk.Windows.Requests.{request_windows_focus, release_windows_focus, request_destroy_windows}
use lfdk.Windows.Requests.Sound.{IsKnownName, IsSound, request-IsSound, transfer-IsSound}
use lfdk.Windows.Hooks.{
  Hook, Request, Answer, Modules, World, ask_focus, release, destroy, transfer, perform,
  perform_all, call_function, call_at, call_hook, run_hook,
}
use lfdk.Windows.Hooks.Keeps.{perform-KeepsPool}

-- A transfer of control is to a name that some window has, or to none at all.
unfoldable pub IsKnown : List Window → Request → Type 0
IsKnown ws (transfer w h name) = IsKnownName ws name
IsKnown ws r = Unit {0}

unfoldable pub AllKnown : List Window → List Request → Type 0
AllKnown ws [] = Unit {0}
AllKnown ws (r ∷ rs) = IsKnown ws r × AllKnown ws rs

-- The functions of all modules transfer control to known names only.
unfoldable pub KnownTargets : {S : Type 0} → Modules S → List Window → Type 0
KnownTargets {S} mods ws =
    (w : Window) (hook : Hook) (f : Manager → S → Answer S) (wm : Manager) (s : S)
    → mods.function w hook ≡ some f
    → AllKnown ws (f wm s).requests

perform-IsSound :
    (r : Request) (wm : Manager)
    → IsKnown (windows_of wm.windows_pool) r
    → IsSound wm
    → IsSound (perform r wm)
unfolding perform IsKnown request_windows_focus release_windows_focus request_destroy_windows
perform-IsSound (ask_focus w h) wm known ok = request-IsSound _ _ w h wm ok
perform-IsSound (release w h) wm known ok = request-IsSound _ _ w h wm ok
perform-IsSound (destroy w h) wm known ok = request-IsSound _ _ w h wm ok
perform-IsSound (transfer w h name) wm known ok = transfer-IsSound w h name wm known ok

perform_all-IsSound :
    (rs : List Request) (wm : Manager)
    → AllKnown (windows_of wm.windows_pool) rs
    → IsSound wm
    → IsSound (perform_all rs wm)
unfolding perform_all AllKnown
perform_all-IsSound [] wm known ok = ok
perform_all-IsSound (r ∷ rs) wm known ok =
    perform_all-IsSound rs (perform r wm)
      (subst (λ ws. AllKnown ws rs) (sym (ap windows_of (perform-KeepsPool r wm).pool)) known.1)
      (perform-IsSound r wm known.0 ok)

module _ {S : Type 0} (mods : Modules S) (hook : Hook) (x : World S)
    (known : KnownTargets mods (windows_of x.wm.windows_pool)) (ok : IsSound x.wm) where
  call_function-IsSound :
      (w : Window) (f : Option (Manager → S → Answer S))
      → mods.function w hook ≡ f
      → IsSound (call_function f x).1.wm
  unfolding call_function KnownTargets
  call_function-IsSound w none e = ok
  call_function-IsSound w (some f) e = elim (Bool-cases x.exited) [
    | inl over ↦ rw over ok
    | inr runs ↦
        rw runs
          (perform_all-IsSound (f x.wm x.state).requests x.wm (known w hook f x.wm x.state e) ok)
  ]

  pub call_hook-IsSound : (w : Window) → IsSound (call_hook mods hook w x).1.wm
  call_hook-IsSound w = call_function-IsSound w (mods.function w hook) refl

  call_at-IsSound : (w : Option Window) → IsSound (call_at mods hook w x).wm
  unfolding call_at
  call_at-IsSound none = ok
  call_at-IsSound (some w) = call_hook-IsSound w

  -- Whatever a function of a module does, the messages in the box stay between windows in use.
  pub run_hook-IsSound : (i : ℕ) → IsSound (run_hook mods hook i x).wm
  unfolding run_hook
  run_hook-IsSound i = call_at-IsSound (window_at x.wm i)
