-- ===== src/Windows/Events/Keys.antt =====
-- `handle_key_event`: who gets a key.
use mathlib.Core.Bool.{true≢false}
use lfdk.Common.{
  ℕ, zero, suc, ◌+◌, ◌≤◌, ◌<◌, ◌≡◌, ◌≢◌, refl, sym, ap, ◌∙◌, inl, inr, Option, some, true, ℤ, pos,
  negsuc, arith, length, Bool-cases, pos-injective, negsuc-≢-pos,
}
use lfdk.Windows.State.{WinState, foreground, state_at}
use lfdk.Windows.State.Pool.{state_at-lt}
use lfdk.Windows.Hooks.{key_press, Modules, World, run_hook}
use lfdk.Windows.Messages.Focus.{FocusOk}
use lfdk.Windows.Events.{is_state, key_event_from, handle_key_event}

is_state-foreground : (st : Option WinState) → is_state foreground st ≡ true → st ≡ some foreground
unfolding is_state
is_state-foreground st e = ground arith

module _ {S : Type 0} (mods : Modules S) (key : ℕ) where
  -- The key goes to the window of the handle, if there is one.
  pub deliver : ℤ → World S → World S
  deliver (pos i) x = run_hook mods (key_press key) i x
  deliver (negsuc n) x = x

  no_one_gets :
      (left i : ℕ) (x : World S)
      → ((j : ℕ) → state_at x.wm j ≢ some foreground)
      → key_event_from mods key left i x ≡ x
  unfolding key_event_from
  no_one_gets zero i x none_there = refl
  no_one_gets (suc left) i x none_there =
      elim (Bool-cases (is_state foreground (state_at x.wm i))) [
        | inl front ↦ absurd (none_there i (is_state-foreground (state_at x.wm i) front))
        | inr behind ↦ rw behind (no_one_gets left (i + 1) x none_there)
      ]

  one_gets :
      (left i k : ℕ) (x : World S)
      → i ≤ k
      → k < i + left
      → state_at x.wm k ≡ some foreground
      → ((j : ℕ) → state_at x.wm j ≡ some foreground → k ≡ j)
      → key_event_from mods key left i x ≡ run_hook mods (key_press key) k x
  unfolding key_event_from is_state
  one_gets zero i k x low high there alone = absurd (omega arith)
  one_gets (suc left) i k x low high there alone =
      elim (Bool-cases (is_state foreground (state_at x.wm i))) [
        | inl front ↦ rw front (
            ap (λ j. run_hook mods (key_press key) j x)
              (sym (alone i (is_state-foreground (state_at x.wm i) front))))
        | inr behind ↦
            let ne : k ≢ i = λ e. true≢false (
              sym (ap (λ j. is_state foreground (state_at x.wm j)) (sym e) ∙ rw there refl)
              ∙ behind) in
            rw behind (one_gets left (i + 1) k x (ground arith) (omega arith) there alone)
      ]

  by_handle :
      (h : ℤ) (x : World S)
      → x.wm.cur_fore_window_handle ≡ h
      → FocusOk x.wm
      → handle_key_event mods key x ≡ deliver h x
  unfolding handle_key_event deliver
  by_handle (pos k) x e ok =
      let there = ok.held k e in
      one_gets (length x.wm.windows_pool) 0 k x (omega arith)
        (omega (arith, state_at-lt x.wm.windows_pool k foreground there)) there
        (λ j f. pos-injective (sym e ∙ ok.only j f))
  by_handle (negsuc n) x e ok =
      no_one_gets (length x.wm.windows_pool) 0 x (λ j f. negsuc-≢-pos (sym e ∙ ok.only j f))

  -- While only the window of the handle is in the foreground, a key that is no switch goes to the
  -- function of that window alone, and to none when the handle is negative.
  pub handle_key_event_lem :
      (x : World S)
      → FocusOk x.wm
      → handle_key_event mods key x ≡ deliver x.wm.cur_fore_window_handle x
  handle_key_event_lem x ok = by_handle x.wm.cur_fore_window_handle x refl ok
