-- ===== src/Windows/Messages/Loop.antt =====
-- The loop of `handle_message_event` ends with the box empty when the functions that it calls make
-- no requests, and the messages are between windows in use.
use mathlib.Core.Path.{subst}
use lfdk.Common.{
  ℕ, zero, suc, ◌≤◌, ◌≡◌, refl, sym, ap, ◌∙◌, inl, inr, Option, none, some, List, [], ◌∷◌, not,
  ◌&&◌, ℤ, pos, negsuc, arith, length, Bool-cases,
}
use lfdk.Windows.State.{
  WinState, background, foreground, destroyed, Message, no_used, need_focus, release_focus,
  xfer_control, destroy_window, MsgInfo, Manager, state_at, set_state, set_foreground, windows_of,
}
use lfdk.Windows.State.Pool.{length-set_state, windows_of-set_state}
use lfdk.Windows.Requests.Sound.{InUse, SoundBox, more}
use lfdk.Windows.Hooks.{Hook, lost_focus, get_focus, destroy_win, Modules, World, run_hook, change}
use lfdk.Windows.Hooks.Quiet.{IsQuiet, QuietFocus, run_hook_box}
use lfdk.Windows.Hooks.Keeps.{run_hook-KeepsPool}
use lfdk.Windows.Messages.{
  Outcome, next, fault, is_foreground, is_handle, current, is_some, lose_focus, gain_focus,
  switch_focus, xfer_to, handle_need_focus, handle_release_focus, handle_xfer_control,
  handle_destroy_window, handle_message, loop_on, handle_message_event, resume,
}
use lfdk.Windows.Messages.Focus.{FocusOk, AfterMessage, HasTarget, handle_message-FocusOk}

-- The box and the windows stay.
record Kept {S : Type 0} (x y : World S) : Type 0 where
  box : y.wm.msg_box ≡ x.wm.msg_box
  size : length y.wm.windows_pool ≡ length x.wm.windows_pool
  windows : windows_of y.wm.windows_pool ≡ windows_of x.wm.windows_pool

module _ {S : Type 0} where
  hold_self : (x : World S) → Kept x x
  hold_self x = record { box = refl; size = refl; windows = refl }

  hold_trans : (x y z : World S) → Kept x y → Kept y z → Kept x z
  hold_trans x y z p q = record {
    box = q.box ∙ p.box;
    size = q.size ∙ p.size;
    windows = q.windows ∙ p.windows;
  }

  set_state-Kept : (i : ℕ) (s : WinState) (x : World S) → Kept x (change (set_state i s) x)
  unfolding set_state
  set_state-Kept i s x = record {
    box = refl;
    size = length-set_state i s x.wm;
    windows = windows_of-set_state i s x.wm;
  }

  set_foreground-Kept : (h : ℤ) (x : World S) → Kept x (change (set_foreground h) x)
  unfolding set_foreground
  set_foreground-Kept h x = record { box = refl; size = refl; windows = refl }

  -- The outcome is a state that is kept.
  KeptOutcome : World S → Outcome S → Type 0
  KeptOutcome x (next y cur) = Kept x y
  KeptOutcome x fault = ⊥

module _ {S : Type 0} (mods : Modules S) (quiet : QuietFocus mods) where
  run_hook-Kept :
      (hook : Hook) (i : ℕ) (x : World S) → IsQuiet mods hook → Kept x (run_hook mods hook i x)
  run_hook-Kept hook i x still = record {
    box = run_hook_box mods hook still x i;
    size = ap length (run_hook-KeepsPool mods hook i x).pool;
    windows = ap windows_of (run_hook-KeepsPool mods hook i x).pool;
  }

  lose_focus-Kept : (cur : Option ℕ) (x : World S) → Kept x (lose_focus mods cur x)
  unfolding lose_focus
  lose_focus-Kept none x = hold_self x
  lose_focus-Kept (some i) x =
      hold_trans x (run_hook mods lost_focus i x) _ (run_hook-Kept lost_focus i x quiet.losing)
        (set_state-Kept i background (run_hook mods lost_focus i x))

  gain_focus-Kept : (i : ℕ) (x : World S) → Kept x (gain_focus mods i x)
  unfolding gain_focus
  gain_focus-Kept i x =
      let y = change (set_foreground (pos i)) x in
      let z = change (set_state i foreground) y in
      hold_trans x y _ (set_foreground-Kept (pos i) x) (
        hold_trans y z _ (set_state-Kept i foreground y)
          (run_hook-Kept get_focus i z quiet.getting))

  switch_focus-Kept : (cur : Option ℕ) (i : ℕ) (x : World S) → Kept x (switch_focus mods cur i x)
  unfolding switch_focus
  switch_focus-Kept cur i x =
      hold_trans x (lose_focus mods cur x) _ (lose_focus-Kept cur x)
        (gain_focus-Kept i (lose_focus mods cur x))

  kept_release :
      (sender : ℕ) (cur : Option ℕ) (x : World S)
      → KeptOutcome x (handle_release_focus mods sender cur x)
  unfolding handle_release_focus KeptOutcome lose_focus
  kept_release sender cur x = elim (Bool-cases (is_foreground (state_at x.wm sender))) [
    | inl front ↦ rw front (
        hold_trans x (lose_focus mods (some sender) x) _ (lose_focus-Kept (some sender) x)
          (set_foreground-Kept (negsuc 0) (lose_focus mods (some sender) x)))
    | inr behind ↦ rw behind (hold_self x)
  ]

  kept_destroy :
      (sender : ℕ) (cur : Option ℕ) (x : World S)
      → KeptOutcome x (handle_destroy_window mods sender cur x)
  unfolding handle_destroy_window KeptOutcome
  kept_destroy sender cur x =
      let ends : (y : World S)
          → Kept y (change (set_state sender destroyed) (run_hook mods destroy_win sender y)) =
        λ y.
          hold_trans y (run_hook mods destroy_win sender y) _
            (run_hook-Kept destroy_win sender y quiet.destroying)
            (set_state-Kept sender destroyed (run_hook mods destroy_win sender y)) in
      elim (Bool-cases (is_handle x.wm.cur_fore_window_handle sender)) [
        | inl front ↦ rw front (
            hold_trans x (change (set_foreground (negsuc 0)) x) _ (set_foreground-Kept (negsuc 0) x)
              (ends (change (set_foreground (negsuc 0)) x)))
        | inr behind ↦ rw behind (ends x)
      ]

  kept_xfer_to :
      (target : ℤ) (cur : Option ℕ) (x : World S)
      → InUse target (length x.wm.windows_pool)
      → KeptOutcome x (xfer_to mods target cur x)
  unfolding xfer_to KeptOutcome InUse
  kept_xfer_to (pos i) cur x used = switch_focus-Kept cur i x
  kept_xfer_to (negsuc n) cur x used = used

  kept_message :
      (msg : Message) (sender : ℕ) (target : ℤ) (cur : Option ℕ) (x : World S)
      → InUse target (length x.wm.windows_pool)
      → KeptOutcome x (handle_message mods msg sender target cur x)
  unfolding handle_message handle_need_focus handle_xfer_control KeptOutcome
  kept_message no_used sender target cur x used = hold_self x
  kept_message need_focus sender target cur x used =
      elim (Bool-cases (is_handle x.wm.cur_fore_window_handle sender)) [
        | inl own ↦ rw own (hold_self x)
        | inr other ↦
            rw other (switch_focus-Kept (current x.wm.cur_fore_window_handle cur) sender x)
      ]
  kept_message release_focus sender target cur x used = kept_release sender cur x
  kept_message xfer_control sender target cur x used =
      let handle = x.wm.cur_fore_window_handle in
      elim (Bool-cases (is_handle target sender)) [
        | inl own ↦ rw own (hold_self x)
        | inr other ↦
            rw other
              (elim (Bool-cases (is_some (current handle cur) && not (is_handle handle sender))) [
                | inl denied ↦ rw denied (hold_self x)
                | inr free ↦ rw free (kept_xfer_to target (current handle cur) x used)
              ])
      ]
  kept_message destroy_window sender target cur x used = kept_destroy sender cur x

  InUse-HasTarget : (t : ℤ) (wm : Manager) → InUse t (length wm.windows_pool) → HasTarget t wm
  unfolding InUse HasTarget
  InUse-HasTarget (pos i) wm h = h
  InUse-HasTarget (negsuc n) wm h = h

  -- The step of the loop and what it leaves for the rest.
  Finishes : World S → Option (Outcome S) → Type 0
  Finishes x r =
      (y : World S) × (cur : Option ℕ) × (r ≡ some (next y cur))
      × (y.wm.msg_box ≡ [])
      × FocusOk y.wm
      × (windows_of y.wm.windows_pool ≡ windows_of x.wm.windows_pool)

  later-Finishes : (x y : World S) (r : Option (Outcome S)) → Kept x y → Finishes y r → Finishes x r
  unfolding Finishes
  later-Finishes x y r kept (z, cur, same, done, ok, windows) =
      (z, cur, same, done, ok, windows ∙ kept.windows)

  resume-Finishes :
      (rest : World S → Option ℕ → Option (Outcome S)) (y : World S) (o : Outcome S)
      → KeptOutcome y o
      → AfterMessage (λ z. FocusOk z.wm) o
      → ((z : World S) (cur : Option ℕ) → Kept y z → FocusOk z.wm → Finishes z (rest z cur))
      → Finishes y (resume mods rest o)
  unfolding resume KeptOutcome AfterMessage
  resume-Finishes rest y fault kept ok later = absurd kept
  resume-Finishes rest y (next z cur) kept ok later =
      later-Finishes y z (rest z cur) kept (later z cur kept ok)

  loop_on-Finishes :
      (fuel : ℕ) (box : List MsgInfo) (cur : Option ℕ) (x : World S)
      → x.wm.msg_box ≡ box
      → length box ≤ fuel
      → SoundBox (length x.wm.windows_pool) box
      → FocusOk x.wm
      → Finishes x (loop_on mods fuel box cur x)
  unfolding loop_on Finishes
  loop_on-Finishes fuel [] cur x same enough sound ok = (x, cur, refl, same, ok, refl)
  loop_on-Finishes zero (msg ∷ rest) cur x same enough sound ok = absurd (omega arith)
  loop_on-Finishes (suc fuel) (msg ∷ rest) cur x same enough (more _ _ sender target sound) ok =
      let y = change (λ wm. record wm { msg_box = rest }) x in
      resume-Finishes (λ z cur'. loop_on mods fuel z.wm.msg_box cur' z) y
        (handle_message mods msg.msg msg.sender_handle msg.target_handle cur y)
        (kept_message msg.msg msg.sender_handle msg.target_handle cur y target)
        (handle_message-FocusOk mods msg.msg msg.sender_handle msg.target_handle cur y
          (record { only = ok.only; held = ok.held }) sender
          (λ e. InUse-HasTarget msg.target_handle y.wm target))
        (λ z cur' kept ok'.
          loop_on-Finishes fuel z.wm.msg_box cur' z refl (omega (arith, ap length kept.box))
            (subst (λ b. SoundBox (length z.wm.windows_pool) b) (sym kept.box)
              (subst (λ n. SoundBox n rest) (sym kept.size) sound))
            ok')

  -- When the window of the handle is alone in the foreground, the functions that messages call
  -- make no requests and every message in the box is between windows in use, fuel for the
  -- messages in the box is enough: the loop ends without an access outside the pool, with the box
  -- empty and only the window of the handle in the foreground, and the windows are those of before.
  pub handle_message_event_finishes :
      (fuel : ℕ) (x : World S)
      → length x.wm.msg_box ≤ fuel
      → SoundBox (length x.wm.windows_pool) x.wm.msg_box
      → FocusOk x.wm
      → (y : World S) × (cur : Option ℕ) × (handle_message_event mods fuel x ≡ some (next y cur))
        × (y.wm.msg_box ≡ [])
        × FocusOk y.wm
        × (windows_of y.wm.windows_pool ≡ windows_of x.wm.windows_pool)
  unfolding handle_message_event Finishes
  handle_message_event_finishes fuel x enough sound ok =
      loop_on-Finishes fuel x.wm.msg_box none x refl enough sound ok
