-- ===== src/Common/Texts.antt =====
-- Buffers of bytes read as texts that end in 0.
use mathlib.Core.Option
use Prim.Native.Nat.{ℕ}
use mathlib.Core.Path.{◌≡◌, refl}
use mathlib.Core.Logic.{◌≢◌}
use mathlib.Core.Bool.{false}
use mathlib.Core.Option.{Option, none, some}
use mathlib.Core.List.{List, [], ◌∷◌, ◌++◌}
use native.Mathlib.Omega.{arith}
use lfdk.Common.Tests.{◌==◌, if◌then◌else◌}

-- A buffer read as a text: the bytes before the first 0; `none` when a read runs on behind the
-- buffer.
unfoldable pub text_of : List ℕ → Option (List ℕ)
text_of [] = none
text_of (c ∷ cs) = let rest = text_of cs in if c == 0 then some [] else Option.map (λ t. c ∷ t) rest

-- A text has no 0 in it.
unfoldable pub NoNul : List ℕ → Type 0
NoNul [] = Unit {0}
NoNul (c ∷ cs) = (c ≢ 0) × NoNul cs

pub not_nul : (c : ℕ) → c ≢ 0 → (c == 0) ≡ false
not_nul c h = ground arith

-- A text with a 0 behind it is read back, whatever follows.
pub text_of-ended : (text rest : List ℕ) → NoNul text → text_of (text ++ (0 ∷ rest)) ≡ some text
unfolding text_of NoNul
text_of-ended [] rest ok = refl
text_of-ended (c ∷ text) rest ok = rw (not_nul c ok.0, text_of-ended text rest ok.1) refl

-- A text without a 0 behind it is not.
pub text_of-endless : (text : List ℕ) → NoNul text → text_of text ≡ none
unfolding text_of NoNul
text_of-endless [] ok = refl
text_of-endless (c ∷ text) ok = rw (not_nul c ok.0, text_of-endless text ok.1) refl
