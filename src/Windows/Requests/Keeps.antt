-- ===== src/Windows/Requests/Keeps.antt =====
-- What the requests of lfdk/lfdk.c leave alone.
use Prim.Native.String.{String}
use lfdk.Common.{
  ℕ, ◌≤◌, ◌≡◌, refl, ◌∙◌, inl, inr, Option, ℤ, false, pos, arith, length, Bool-cases, is_none,
}
use lfdk.Windows.State.{Window, Message, xfer_control, Manager}
use lfdk.Windows.Requests.{
  Ret, valid_sender, box_is_full, handle_index, post, request, request_xfer_control, target_of,
}

-- A request keeps the pool and the handle of the foreground window, and a box of at most 32
-- messages.
pub record KeepsPool (before after : Manager) : Type 0 where
  pub pool : after.windows_pool ≡ before.windows_pool
  pub handle : after.cur_fore_window_handle ≡ before.cur_fore_window_handle
  pub box : length before.msg_box ≤ 32 → length after.msg_box ≤ 32

pub keeps_self : (wm : Manager) → KeepsPool wm wm
keeps_self wm = record { pool = refl; handle = refl; box = λ h. h }

pub keeps_trans : (a b c : Manager) → KeepsPool a b → KeepsPool b c → KeepsPool a c
keeps_trans a b c p q = record {
  pool = q.pool ∙ p.pool;
  handle = q.handle ∙ p.handle;
  box = λ h. q.box (p.box h);
}

post-KeepsPool :
    (msg : Message) (i : ℕ) (t : ℤ) (wm : Manager)
    → box_is_full wm ≡ false
    → KeepsPool wm (post msg i t wm)
unfolding post box_is_full
post-KeepsPool msg i t wm room = record { pool = refl; handle = refl; box = λ h. ground arith }

pub request-KeepsPool :
    (msg : Message) (done : Ret) (w : Option Window) (h : ℤ) (wm : Manager)
    → KeepsPool wm (request msg done w h wm).0
unfolding request
request-KeepsPool msg done w h wm = elim (Bool-cases (is_none (valid_sender w h wm))) [
  | inl e ↦ rw e (keeps_self wm)
  | inr e ↦ rw e (elim (Bool-cases (box_is_full wm)) [
    | inl full ↦ rw full (keeps_self wm)
    | inr room ↦ rw room (post-KeepsPool msg (handle_index h) (pos 0) wm room)
  ])
]

pub request_xfer_control-KeepsPool :
    (w : Option Window) (h : ℤ) (name : Option String) (wm : Manager)
    → KeepsPool wm (request_xfer_control w h name wm).0
unfolding request_xfer_control
request_xfer_control-KeepsPool w h name wm = elim (Bool-cases (is_none (valid_sender w h wm))) [
  | inl e ↦ rw e (keeps_self wm)
  | inr e ↦ rw e (elim (Bool-cases (box_is_full wm)) [
    | inl full ↦ rw full (keeps_self wm)
    | inr room ↦ rw room (elim (Bool-cases (is_none name)) [
      | inl f ↦ rw f (keeps_self wm)
      | inr f ↦
          rw f
            (post-KeepsPool xfer_control (handle_index h) (target_of name wm.windows_pool) wm room)
    ])
  ])
]
