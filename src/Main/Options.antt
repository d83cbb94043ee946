-- ===== src/Main/Options.antt =====
-- The loop over the options of `main` in lfdk/lfdk.c. What `getopt`, `atoi` and `strtoll` read from
-- the command line is given: a list of options with their values. A text is its bytes before the
-- final 0.
pub mod Bounds
pub mod Paths
use lfdk.Common.{
  ℕ, zero, suc, ◌-◌, ◌^◌, Bool, true, false, Option, none, some, List, [], ◌∷◌, ℤ, pos, negsuc,
  ◌==◌, ltb, leb, ltb_ℤ, replicate, if◌then◌else◌, not,
}

-- The options of "D:b:n:d:hB:"; `h` and a character that `getopt` does not know share a branch.
pub data CmdOption : Type 0 where
  device_path pci_names : List ℕ → CmdOption
  max_bus debug_level mmio_base : ℤ → CmdOption
  show_usage : CmdOption

-- What the options set: two buffers, `maxpcibus` and two fields of `cmd_info`.
pub record Settings : Type 0 where
  pub device : List ℕ
  pub pciname : List ℕ
  pub maxpcibus : ℤ
  pub debug_lv : ℤ
  pub phy_pcix_mmio_base : ℕ

abbrev pub lfdk_max_path : ℕ
lfdk_max_path = 40

abbrev pub lfdk_max_pcibus : ℕ
lfdk_max_pcibus = 256

-- `DEBUG_MAX` of debug.h.
abbrev pub debug_max : ℕ
debug_max = 6

-- `strncpy( buffer, text, n )`: the text is cut at `n` bytes, and the rest of the buffer is 0.
pub copy_path : ℕ → List ℕ → List ℕ
copy_path zero text = []
copy_path (suc n) [] = 0 ∷ copy_path n []
copy_path (suc n) (c ∷ text) = c ∷ copy_path n text

-- A 64-bit signed value as `uint64_t`.
pub to_uint64 : ℤ → ℕ
to_uint64 (pos n) = n
to_uint64 (negsuc n) = 2 ^ 64 - 1 - n

-- `debug_level >= DEBUG_MAX ? DEBUG_MAX-1 : debug_level`.
pub cap_level : ℤ → ℤ
cap_level l = if ltb_ℤ l (pos debug_max) then l else pos (debug_max - 1)

-- A case of the `switch`; `none` is `return 1`.
pub set_option : CmdOption → Settings → Option Settings
unfolding copy_path to_uint64 cap_level
set_option (device_path text) s = some (record s { device = copy_path lfdk_max_path text })
set_option (pci_names text) s = some (record s { pciname = copy_path lfdk_max_path text })
set_option (max_bus n) s =
    if ltb_ℤ n (pos lfdk_max_pcibus) then some (record s { maxpcibus = n }) else none
set_option (debug_level n) s = some (record s { debug_lv = cap_level n })
set_option (mmio_base n) s =
    if leb (2 ^ 32) (to_uint64 n)
    then none
    else some (record s { phy_pcix_mmio_base = to_uint64 n })
set_option show_usage s = none

-- The loop goes on after an option that does not return.
pub next_option : (Settings → Option Settings) → Option Settings → Option Settings
next_option rest none = none
next_option rest (some s) = rest s

unfoldable pub read_options : List CmdOption → Settings → Option Settings
unfolding set_option next_option
read_options [] s = some s
read_options (o ∷ os) s = next_option (λ s'. read_options os s') (set_option o s)
