-- ===== src/Main/Options/Paths.antt =====
-- The path buffers of `main` as texts.
use lfdk.Common.{
  ℕ, zero, suc, text_of, NoNul, not_nul, ◌≤◌, ◌<◌, ◌≡◌, refl, none, some, List, [], ◌∷◌, arith,
  length,
}
use lfdk.Main.Options.{device_path, Settings, copy_path, set_option, lfdk_max_path}

copy_path_fits :
    (n : ℕ) (text : List ℕ) → NoNul text → length text < n → text_of (copy_path n text) ≡ some text
unfolding copy_path text_of NoNul
copy_path_fits zero text ok h = absurd (omega arith)
copy_path_fits (suc n) [] ok h = refl
copy_path_fits (suc n) (c ∷ text) ok h =
    rw (not_nul c ok.0, copy_path_fits n text ok.1 (omega arith)) refl

copy_path_runs_on :
    (n : ℕ) (text : List ℕ) → NoNul text → n ≤ length text → text_of (copy_path n text) ≡ none
unfolding copy_path text_of NoNul
copy_path_runs_on zero text ok h = refl
copy_path_runs_on (suc n) [] ok h = absurd (omega arith)
copy_path_runs_on (suc n) (c ∷ text) ok h =
    rw (not_nul c ok.0, copy_path_runs_on n text ok.1 (omega arith)) refl

-- A device path without a 0 in it is what `open` reads from the buffer when it is shorter than 40
-- bytes. A path of 40 bytes or more leaves a buffer without an end, behind which `open` reads on.
pub device_path_reads :
    (text : List ℕ) (s : Settings)
    → NoNul text
    → (s' : Settings) × (set_option (device_path text) s ≡ some s')
      × (length text < 40 → text_of s'.device ≡ some text)
      × (40 ≤ length text → text_of s'.device ≡ none)
unfolding set_option
device_path_reads text s ok = (
  record s { device = copy_path lfdk_max_path text },
  refl,
  λ h. copy_path_fits 40 text ok h,
  λ h. copy_path_runs_on 40 text ok h,
)
