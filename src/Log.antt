-- ===== src/Log.antt =====
-- The log of lfdk/debug.c: lines in a file, and lines for the kernel log through the device. The
-- text is that which `vfprintf` and `vsnprintf` form from their arguments.
pub mod Kernel
use lfdk.Common.{
  ℕ, Bool, true, false, Option, none, some, List, [], ◌∷◌, ◌++◌, ℤ, pos, negsuc, ltb_ℤ, length,
  ◌==◌, not, if◌then◌else◌, ◌||◌,
}

-- `debug_fd` with the texts written, and the two other globals. `k_log_fd` is 0 for none.
pub record LogState : Type 0 where
  pub debug_fd : Option (List (List ℕ))
  pub k_log_fd : ℤ
  pub k_buf : List ℕ

-- `ERR_OPEN_FILE` is `ERROR_MIN` + 2.
abbrev pub err_open_file : ℤ
err_open_file = negsuc 29

-- `lv <= win_manager.cmd_info.debug_lv`.
unfoldable pub passes : ℤ → ℤ → Bool
passes lv debug_lv = not (ltb_ℤ debug_lv lv)

unfoldable pub is_zero_fd : ℤ → Bool
is_zero_fd (pos n) = n == 0
is_zero_fd (negsuc n) = false

-- `opened` tells whether `fopen` gave a file.
unfoldable pub debug_init : Bool → ℤ → LogState → LogState × ℤ
debug_init false fd_lfdd s = (record s { debug_fd = none }, err_open_file)
debug_init true fd_lfdd s = (record s { debug_fd = some []; k_log_fd = fd_lfdd }, pos 0)

-- The text is added to the file.
unfoldable pub add_line : List ℕ → Option (List (List ℕ)) → Option (List (List ℕ))
add_line text none = none
add_line text (some lines) = some (lines ++ (text ∷ []))

unfoldable pub debug_log : ℤ → ℤ → List ℕ → LogState → LogState
unfolding passes add_line
debug_log debug_lv lv text s =
    if passes lv debug_lv then record s { debug_fd = add_line text s.debug_fd } else s

-- `vsnprintf( buffer, size, … )`: the text at the front, cut to leave room for a final 0; the bytes
-- behind the 0 stay.
unfoldable pub format_into : List ℕ → List ℕ → List ℕ
format_into text [] = []
format_into text (b ∷ []) = 0 ∷ []
format_into [] (b ∷ c ∷ rest) = 0 ∷ c ∷ rest
format_into (t ∷ text) (b ∷ c ∷ rest) = t ∷ format_into text (c ∷ rest)

-- The whole buffer is written to the device; `some` is that write. `ret` is 0 when the count that
-- `write` answers is the size of the buffer, and the count otherwise.
unfoldable pub debug_k_log : ℤ → ℤ → List ℕ → LogState → LogState × Option (List ℕ)
unfolding passes is_zero_fd format_into
debug_k_log debug_lv lv text s =
    let k_buf' = format_into text s.k_buf in
    if is_zero_fd s.k_log_fd
    then (s, none)
    else if passes lv debug_lv
    then (record s { k_buf = k_buf' }, some k_buf')
    else (s, none)

-- The file is closed, and `debug_fd` is not cleared: no call may follow.
unfoldable pub debug_exit : LogState → LogState
debug_exit s = record s { k_log_fd = pos 0 }
