-- ===== src/Windows/Requests/Sound.antt =====
-- The messages that the requests of lfdk/lfdk.c post are between windows in use.
use mathlib.Core.Path.{subst}
use mathlib.Core.Bool.{true≢false}
use mathlib.Core.Option.{none-ne-some}
use Prim.Native.String.{String}
use text.Mathlib.Text.{◌==◌ as str_eq}
use lfdk.Common.{
  ℕ, zero, suc, ◌+◌, ◌<◌, ◌≡◌, sym, ap, ◌∙◌, inl, inr, Bool, true, false, ◌||◌, Option, none, some,
  List, [], ◌∷◌, ℤ, pos, negsuc, arith, length, get_elem?, Bool-cases, Option-cases, is_none,
}
use lfdk.Windows.State.{Window, WinInfo, Message, MsgInfo, Manager, windows_of}
use lfdk.Windows.Requests.{
  Ret, if_named, valid_sender, find_name, target_of, handle_index, box_is_full, post, request,
  request_xfer_control,
}

-- A window in use, given as a handle.
unfoldable pub InUse : ℤ → ℕ → Type 0
InUse (pos i) n = i < n
InUse (negsuc k) n = ⊥

-- Every message of a box is between windows in use, of `n` windows.
pub data SoundBox (n : ℕ) : List MsgInfo → Type 0 where
  empty : SoundBox n []
  more :
      (msg : MsgInfo) (rest : List MsgInfo)
      → msg.sender_handle < n
      → InUse msg.target_handle n
      → SoundBox n rest
      → SoundBox n (msg ∷ rest)

-- Some window has the name.
unfoldable pub has_name : String → List Window → Bool
has_name name [] = false
has_name name (w ∷ ws) = str_eq w.name name || has_name name ws

-- A name to transfer control to is that of some window, or a null pointer.
unfoldable pub IsKnownName : List Window → Option String → Type 0
IsKnownName ws none = Unit {0}
IsKnownName ws (some name) = has_name name ws ≡ true

-- The box of a manager is sound for the windows in use.
abbrev pub IsSound : Manager → Type 0
IsSound wm = SoundBox (length wm.windows_pool) wm.msg_box

-- A name that some window has is found.
find_name-InUse :
    (name : String) (ws : List WinInfo) (i : ℕ)
    → has_name name (windows_of ws) ≡ true
    → InUse (find_name name ws i) (i + length ws)
unfolding find_name has_name windows_of InUse
find_name-InUse name [] i h = absurd (true≢false (sym h))
find_name-InUse name (w ∷ ws) i h = elim (Bool-cases (str_eq w.p_win.name name)) [
  | inl here ↦ rw here (omega arith)
  | inr there ↦ rw there (
      subst (λ n. InUse (find_name name ws (i + 1)) n) (omega arith)
        (find_name-InUse name ws (i + 1)
          (ap (λ b. b || has_name name (windows_of ws)) (sym there) ∙ h)))
]

target-InUse :
    (name : String) (ws : List WinInfo)
    → has_name name (windows_of ws) ≡ true
    → InUse (find_name name ws 0) (length ws)
target-InUse name ws h =
    subst (λ n. InUse (find_name name ws 0) n) (omega arith) (find_name-InUse name ws 0 h)

-- A sender that passes the checks is in use.
index-lt : {A : Type 0} (xs : List A) (i : ℕ) {a : A} → get_elem? xs i ≡ some a → i < length xs
index-lt [] i e = absurd (none-ne-some _ e)
index-lt (x ∷ xs) zero e = omega arith
index-lt (x ∷ xs) (suc i) e = omega (arith, index-lt xs i e)

sender-lt :
    (w : Option Window) (h : ℤ) (wm : Manager)
    → is_none (valid_sender w h wm) ≡ false
    → handle_index h < length wm.windows_pool
unfolding valid_sender
sender-lt none h wm e = absurd (true≢false e)
sender-lt (some w) (negsuc n) wm e = absurd (true≢false e)
sender-lt (some w) (pos i) wm e = elim (Option-cases (get_elem? wm.windows_pool i)) [
  | inl missing ↦ absurd (true≢false (ap (λ o. is_none (if_named w o)) (sym missing) ∙ e))
  | inr (info, found) ↦ index-lt wm.windows_pool i found
]

pub request-IsSound :
    (msg : Message) (done : Ret) (w : Option Window) (h : ℤ) (wm : Manager)
    → IsSound wm
    → IsSound (request msg done w h wm).0
unfolding request post InUse
request-IsSound msg done w h wm ok = elim (Bool-cases (is_none (valid_sender w h wm))) [
  | inl e ↦ rw e ok
  | inr e ↦ rw e (elim (Bool-cases (box_is_full wm)) [
    | inl full ↦ rw full ok
    | inr room ↦ let used = sender-lt w h wm e in rw room (more _ wm.msg_box used (omega arith) ok)
  ])
]

pub transfer-IsSound :
    (w : Option Window) (h : ℤ) (name : Option String) (wm : Manager)
    → IsKnownName (windows_of wm.windows_pool) name
    → IsSound wm
    → IsSound (request_xfer_control w h name wm).0
unfolding request_xfer_control post IsKnownName target_of
transfer-IsSound w h none wm known ok = elim (Bool-cases (is_none (valid_sender w h wm))) [
  | inl e ↦ rw e ok
  | inr e ↦
      rw e (elim (Bool-cases (box_is_full wm)) [ inl full ↦ rw full ok | inr room ↦ rw room ok ])
]
transfer-IsSound w h (some name) wm known ok = elim (Bool-cases (is_none (valid_sender w h wm))) [
  | inl e ↦ rw e ok
  | inr e ↦ rw e (elim (Bool-cases (box_is_full wm)) [
    | inl full ↦ rw full ok
    | inr room ↦
        rw room
          (more _ wm.msg_box (sender-lt w h wm e) (target-InUse name wm.windows_pool known) ok)
  ])
]
