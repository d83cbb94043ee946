-- ===== src/Windows/Messages/Focus.antt =====
-- One foreground window: its state and the manager's handle agree, whatever the messages and
-- whatever the modules' functions request.
use mathlib.Core.Option.{none-ne-some, some-injective}
use mathlib.Core.Option
use mathlib.Core.Bool.{true≢false}
use lfdk.Common.{
  get_elem?, ℕ, ◌<◌, ◌≡◌, ◌≢◌, refl, sym, ap, ◌∙◌, inl, inr, Option, none, some, not, ◌&&◌, ℤ, pos,
  negsuc, ◌==◌, arith, true, false, length, pos-injective, negsuc-≢-pos, Bool-cases,
}
use lfdk.Windows.State.{
  WinState, background, foreground, destroyed, Message, no_used, need_focus, release_focus,
  xfer_control, destroy_window, Manager, state_at, set_state, set_foreground,
}
use lfdk.Windows.State.Pool.{
  length-set_state, state_at-set_state, state_at-set_state_ne, state_at-lt,
}
use lfdk.Windows.Requests.Keeps.{KeepsPool}
use lfdk.Windows.Hooks.{lost_focus, get_focus, destroy_win, Modules, World, run_hook, change}
use lfdk.Windows.Hooks.Keeps.{run_hook-KeepsPool, state_at-run_hook}
use lfdk.Windows.Messages.{
  xfer_to, Outcome, next, fault, is_foreground, is_handle, current, is_some, lose_focus, gain_focus,
  switch_focus, handle_need_focus, handle_release_focus, handle_xfer_control, handle_destroy_window,
  handle_message,
}

-- The window that the handle names is in the foreground, and no other window is.
pub record FocusOk (wm : Manager) : Type 0 where
  pub only : (i : ℕ) → state_at wm i ≡ some foreground → wm.cur_fore_window_handle ≡ pos i
  pub held : (i : ℕ) → wm.cur_fore_window_handle ≡ pos i → state_at wm i ≡ some foreground

-- There is a state after a message, and this holds of it.
unfoldable pub AfterMessage : {S : Type 0} → (World S → Type 0) → Outcome S → Type 0
AfterMessage P (next x cur) = P x
AfterMessage P fault = ⊥

-- The target is a window in use.
unfoldable pub HasTarget : ℤ → Manager → Type 0
HasTarget (pos i) wm = i < length wm.windows_pool
HasTarget (negsuc n) wm = ⊥

background-≢-foreground : some background ≢ some foreground
background-≢-foreground e = cc

destroyed-≢-foreground : some destroyed ≢ some foreground
destroyed-≢-foreground e = cc

-- No window of the pool is in the foreground.
abbrev pub NoForeground : Manager → Type 0
NoForeground wm = (j : ℕ) → state_at wm j ≢ some foreground

-- A window is not in the foreground after its state became another.
changed_away :
    (k : ℕ) (s : WinState) (wm : Manager) (j : ℕ)
    → some s ≢ some foreground
    → state_at (set_state k s wm) j ≡ some foreground
    → k ≢ j
changed_away k s wm j other e k_eq_j =
    let used = state_at-lt (set_state k s wm).windows_pool j foreground e in
    other (
      sym (state_at-set_state k s wm (omega (arith, used, k_eq_j, length-set_state k s wm)))
      ∙ ap (λ i. state_at (set_state k s wm) i) k_eq_j
      ∙ e)

-- When every foreground window is the one at `k`, none is left after the state at `k` changed.
pub set_state-NoForeground :
    (k : ℕ) (s : WinState) (wm : Manager)
    → some s ≢ some foreground
    → ((j : ℕ) → state_at wm j ≡ some foreground → k ≡ j)
    → NoForeground (set_state k s wm)
set_state-NoForeground k s wm other alone j e =
    let ne = changed_away k s wm j other e in
    ne (alone j (sym (state_at-set_state_ne k s wm j ne) ∙ e))

pub NoForeground-FocusOk :
    (wm : Manager) (n : ℕ) → NoForeground wm → wm.cur_fore_window_handle ≡ negsuc n → FocusOk wm
NoForeground-FocusOk wm n none_there away = record {
  only = λ i e. absurd (none_there i e);
  held = λ i e. absurd (negsuc-≢-pos (sym away ∙ e));
}

module _ {S : Type 0} (mods : Modules S) where
  -- The window that had the focus and no other was in the foreground, so none is.
  lose_focus_lem :
      (cur : Option ℕ) (x : World S)
      → FocusOk x.wm
      → ((i : ℕ) → x.wm.cur_fore_window_handle ≡ pos i → cur ≡ some i)
      → NoForeground (lose_focus mods cur x).wm
  unfolding lose_focus
  lose_focus_lem none x ok covers = λ j e. none-ne-some j (covers j (ok.only j e))
  lose_focus_lem (some k) x ok covers =
      set_state-NoForeground k background (run_hook mods lost_focus k x).wm background-≢-foreground
        (λ j e.
          some-injective k j
            (covers j (ok.only j (sym (state_at-run_hook mods lost_focus k j x) ∙ e))))

  -- A window in use that gets the focus is then the only foreground window.
  gain_focus_lem :
      (i : ℕ) (x : World S)
      → NoForeground x.wm
      → i < length x.wm.windows_pool
      → FocusOk (gain_focus mods i x).wm
  unfolding gain_focus set_state set_foreground
  gain_focus_lem i x none_there used =
      let y = change (set_state i foreground) (change (set_foreground (pos i)) x) in
      let handle = (run_hook-KeepsPool mods get_focus i y).handle in
      record {
        only = λ j e. elim (Bool-cases (i == j)) [
          | inl same ↦ handle ∙ ap pos (ground arith)
          | inr differ ↦ absurd (
              none_there j (
                sym (
                  state_at-set_state_ne i foreground (set_foreground (pos i) x.wm) j (ground arith))
                ∙ sym (state_at-run_hook mods get_focus i j y)
                ∙ e))
        ];
        held = λ j e.
            let i_eq_j : i ≡ j = pos-injective (sym handle ∙ e) in
            state_at-run_hook mods get_focus i j y
            ∙ ap (λ k. state_at y.wm k) (sym i_eq_j)
            ∙ state_at-set_state i foreground (set_foreground (pos i) x.wm) used;
      }

  length-lose_focus :
      (cur : Option ℕ) (x : World S)
      → length (lose_focus mods cur x).wm.windows_pool ≡ length x.wm.windows_pool
  unfolding lose_focus
  length-lose_focus none x = refl
  length-lose_focus (some k) x =
      length-set_state k background (run_hook mods lost_focus k x).wm
      ∙ ap length (run_hook-KeepsPool mods lost_focus k x).pool

  switch_focus-FocusOk :
      (cur : Option ℕ) (i : ℕ) (x : World S)
      → FocusOk x.wm
      → i < length x.wm.windows_pool
      → FocusOk (switch_focus mods (current x.wm.cur_fore_window_handle cur) i x).wm
  unfolding switch_focus current
  switch_focus-FocusOk cur i x ok used =
      let cur' = current x.wm.cur_fore_window_handle cur in
      gain_focus_lem i (lose_focus mods cur' x)
        (lose_focus_lem cur' x ok (λ k e. ap (λ h. current h cur) e))
        (omega (arith, used, length-lose_focus cur' x))

  is_foreground_lem : (s : Option WinState) → is_foreground s ≡ true → s ≡ some foreground
  unfolding is_foreground
  is_foreground_lem s e = ground arith

  transfer-FocusOk :
      (target : ℤ) (cur : Option ℕ) (x : World S)
      → FocusOk x.wm
      → HasTarget target x.wm
      → AfterMessage
          (λ y. FocusOk y.wm)
          (xfer_to mods target (current x.wm.cur_fore_window_handle cur) x)
  unfolding xfer_to AfterMessage HasTarget
  transfer-FocusOk (negsuc n) cur x ok there = absurd there
  transfer-FocusOk (pos i) cur x ok used = switch_focus-FocusOk cur i x ok used

  release-FocusOk :
      (sender : ℕ) (cur : Option ℕ) (x : World S)
      → FocusOk x.wm
      → AfterMessage (λ y. FocusOk y.wm) (handle_release_focus mods sender cur x)
  unfolding handle_release_focus lose_focus set_foreground AfterMessage
  release-FocusOk sender cur x ok = elim (Bool-cases (is_foreground (state_at x.wm sender))) [
    | inl front ↦ rw front (
        let handle = ok.only sender (is_foreground_lem (state_at x.wm sender) front) in
        NoForeground-FocusOk
          (change (set_foreground (negsuc 0)) (lose_focus mods (some sender) x)).wm 0
          (lose_focus_lem (some sender) x ok (λ k e. ap some (pos-injective (sym handle ∙ e))))
          refl)
    | inr behind ↦ rw behind ok
  ]

  is_handle-pos : (h : ℤ) (i : ℕ) → is_handle h i ≡ true → h ≡ pos i
  unfolding is_handle
  is_handle-pos (pos k) i e = ap pos (ground arith)
  is_handle-pos (negsuc n) i e = absurd (ground arith)

  same_number : (i : ℕ) → (i == i) ≡ true
  same_number i = ground arith

  pos-is_handle : (h : ℤ) (i : ℕ) → h ≡ pos i → is_handle h i ≡ true
  unfolding is_handle
  pos-is_handle h i e = rw e (same_number i)

  -- A window that is not the foreground one may be destroyed at will.
  destroy_behind-FocusOk :
      (i : ℕ) (x y : World S)
      → FocusOk x.wm
      → is_handle x.wm.cur_fore_window_handle i ≡ false
      → KeepsPool x.wm y.wm
      → FocusOk (set_state i destroyed y.wm)
  unfolding set_state
  destroy_behind-FocusOk i x y ok behind keeps =
      let same : (j : ℕ) → state_at y.wm j ≡ state_at x.wm j =
        λ j. ap (λ ws. Option.map (λ w. w.win_state) (get_elem? ws j)) keeps.pool in
      let away : (j : ℕ) → x.wm.cur_fore_window_handle ≡ pos j → i ≢ j = λ j e i_eq_j.
        true≢false
          (sym (pos-is_handle x.wm.cur_fore_window_handle i (e ∙ ap pos (sym i_eq_j))) ∙ behind) in
      record {
        only = λ j e.
            let ne = changed_away i destroyed y.wm j destroyed-≢-foreground e in
            keeps.handle
            ∙ ok.only j (sym (same j) ∙ sym (state_at-set_state_ne i destroyed y.wm j ne) ∙ e);
        held = λ j e.
            let h = sym keeps.handle ∙ e in
            state_at-set_state_ne i destroyed y.wm j (away j h) ∙ same j ∙ ok.held j h;
      }

  destroy-FocusOk :
      (sender : ℕ) (cur : Option ℕ) (x : World S)
      → FocusOk x.wm
      → AfterMessage (λ y. FocusOk y.wm) (handle_destroy_window mods sender cur x)
  unfolding handle_destroy_window AfterMessage set_state set_foreground
  destroy-FocusOk sender cur x ok =
      elim (Bool-cases (is_handle x.wm.cur_fore_window_handle sender)) [
        | inl front ↦ rw front (
            let y = change (set_foreground (negsuc 0)) x in
            let z = run_hook mods destroy_win sender y in
            let handle = is_handle-pos x.wm.cur_fore_window_handle sender front in
            NoForeground-FocusOk (set_state sender destroyed z.wm) 0
              (set_state-NoForeground sender destroyed z.wm destroyed-≢-foreground (λ j e.
                pos-injective (
                  sym handle
                  ∙ ok.only j (sym (state_at-run_hook mods destroy_win sender j y) ∙ e))))
              (run_hook-KeepsPool mods destroy_win sender y).handle)
        | inr behind ↦ rw behind (
            destroy_behind-FocusOk sender x (run_hook mods destroy_win sender x) ok behind
              (run_hook-KeepsPool mods destroy_win sender x))
      ]

  xfer-FocusOk :
      (sender : ℕ) (target : ℤ) (cur : Option ℕ) (x : World S)
      → FocusOk x.wm
      → HasTarget target x.wm
      → AfterMessage (λ y. FocusOk y.wm) (handle_xfer_control mods sender target cur x)
  unfolding handle_xfer_control AfterMessage HasTarget
  xfer-FocusOk sender target cur x ok there =
      let handle = x.wm.cur_fore_window_handle in
      elim (Bool-cases (is_handle target sender)) [
        | inl own ↦ rw own ok
        | inr other ↦
            rw other
              (elim (Bool-cases (is_some (current handle cur) && not (is_handle handle sender))) [
                | inl denied ↦ rw denied ok
                | inr free ↦ rw free (transfer-FocusOk target cur x ok there)
              ])
      ]

  -- When the window that the handle names, if any, is in the foreground and no other is, the sender
  -- is a window in use and, in a transfer of control, the target is one too, then each message is
  -- handled without an access outside the pool, and the same holds afterwards, whatever the
  -- functions called do.
  pub handle_message-FocusOk :
      (msg : Message) (sender : ℕ) (target : ℤ) (cur : Option ℕ) (x : World S)
      → FocusOk x.wm
      → sender < length x.wm.windows_pool
      → (msg ≡ xfer_control → HasTarget target x.wm)
      → AfterMessage (λ y. FocusOk y.wm) (handle_message mods msg sender target cur x)
  unfolding handle_message handle_need_focus AfterMessage
  handle_message-FocusOk no_used sender target cur x ok used there = ok
  handle_message-FocusOk need_focus sender target cur x ok used there =
      elim (Bool-cases (is_handle x.wm.cur_fore_window_handle sender)) [
        | inl own ↦ rw own ok
        | inr other ↦ rw other (switch_focus-FocusOk cur sender x ok used)
      ]
  handle_message-FocusOk release_focus sender target cur x ok used there =
      release-FocusOk sender cur x ok
  handle_message-FocusOk xfer_control sender target cur x ok used there =
      xfer-FocusOk sender target cur x ok (there refl)
  handle_message-FocusOk destroy_window sender target cur x ok used there =
      destroy-FocusOk sender cur x ok
