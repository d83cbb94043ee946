-- ===== src/Main/Options/Bounds.antt =====
-- What the options of `main` may set.
use mathlib.Core.Path.{subst}
use lfdk.Common.{
  ℕ, zero, suc, ◌<◌, ◌^◌, ◌≡◌, refl, ap, inl, inr, true, Option, none, some, List, [], ◌∷◌, ℤ, pos,
  arith, length, leb, ltb_ℤ, Bool-cases,
}
use lfdk.Main.Options.{
  CmdOption, device_path, pci_names, max_bus, debug_level, mmio_base, show_usage, Settings,
  copy_path, to_uint64, cap_level, set_option, next_option, read_options,
}

-- The bus number is below 256, the level below `DEBUG_MAX`, the base below 4 GB, and the buffers
-- have their 40 bytes.
pub record WithinLimits (s : Settings) : Type 0 where
  pub bus : ltb_ℤ s.maxpcibus (pos 256) ≡ true
  pub level : ltb_ℤ s.debug_lv (pos 6) ≡ true
  pub base : s.phy_pcix_mmio_base < 2 ^ 32
  pub device_size : length s.device ≡ 40
  pub names_size : length s.pciname ≡ 40

-- What holds of the settings, where the program did not return.
Allowed : Option Settings → Type 0
Allowed none = Unit {0}
Allowed (some s) = WithinLimits s

length-copy_path : (n : ℕ) (text : List ℕ) → length (copy_path n text) ≡ n
unfolding copy_path
length-copy_path zero text = refl
length-copy_path (suc n) [] = ap suc (length-copy_path n [])
length-copy_path (suc n) (c ∷ text) = ap suc (length-copy_path n text)

cap_level-lt : (l : ℤ) → ltb_ℤ (cap_level l) (pos 6) ≡ true
unfolding cap_level
cap_level-lt l = elim (Bool-cases (ltb_ℤ l (pos 6))) [
  | inl low ↦ rw low low
  | inr high ↦ rw high refl
]

module _ (s : Settings) (ok : WithinLimits s) where
  set_option-Allowed : (o : CmdOption) → Allowed (set_option o s)
  unfolding set_option Allowed
  set_option-Allowed (device_path text) = record {
    bus = ok.bus;
    level = ok.level;
    base = ok.base;
    device_size = length-copy_path 40 text;
    names_size = ok.names_size;
  }
  set_option-Allowed (pci_names text) = record {
    bus = ok.bus;
    level = ok.level;
    base = ok.base;
    device_size = ok.device_size;
    names_size = length-copy_path 40 text;
  }
  set_option-Allowed (max_bus n) = elim (Bool-cases (ltb_ℤ n (pos 256))) [
    | inl low ↦ rw low (record {
      bus = low;
      level = ok.level;
      base = ok.base;
      device_size = ok.device_size;
      names_size = ok.names_size;
    })
    | inr high ↦ rw high tt
  ]
  set_option-Allowed (debug_level n) = record {
    bus = ok.bus;
    level = cap_level-lt n;
    base = ok.base;
    device_size = ok.device_size;
    names_size = ok.names_size;
  }
  set_option-Allowed (mmio_base n) = elim (Bool-cases (leb (2 ^ 32) (to_uint64 n))) [
    | inl high ↦ rw high tt
    | inr low ↦ rw low (record {
      bus = ok.bus;
      level = ok.level;
      base = ground arith;
      device_size = ok.device_size;
      names_size = ok.names_size;
    })
  ]
  set_option-Allowed show_usage = tt

next_option-Allowed :
    (rest : Settings → Option Settings) (o : Option Settings)
    → Allowed o
    → ((s : Settings) → WithinLimits s → Allowed (rest s))
    → Allowed (next_option rest o)
unfolding next_option Allowed
next_option-Allowed rest none ok later = tt
next_option-Allowed rest (some s) ok later = later s ok

read_options-Allowed :
    (os : List CmdOption) (s : Settings) → WithinLimits s → Allowed (read_options os s)
unfolding read_options Allowed
read_options-Allowed [] s ok = ok
read_options-Allowed (o ∷ os) s ok =
    next_option-Allowed (λ s'. read_options os s') (set_option o s) (set_option-Allowed s ok o)
      (λ s' ok'. read_options-Allowed os s' ok')

-- When the settings are within their limits before the options are read, they are so afterwards
-- for every command line with which `main` goes on, whatever numbers the options carry: the
-- highest bus below 256, the debug level below `DEBUG_MAX`, the base below 4 GB, and 40 bytes in
-- each path buffer.
pub read_options-WithinLimits :
    (os : List CmdOption) (s s' : Settings)
    → WithinLimits s
    → read_options os s ≡ some s'
    → WithinLimits s'
unfolding Allowed
read_options-WithinLimits os s s' ok e = subst Allowed e (read_options-Allowed os s ok)
