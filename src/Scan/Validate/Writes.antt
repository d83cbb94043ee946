-- ===== src/Scan/Validate/Writes.antt =====
-- What `validate_pcie_w_single` leaves on a device whose register can be written.
use lfdk.Common.{ℕ, ◌%◌, ◌<◌, ◌≡◌, ◌≢◌, refl, ap, ◌∙◌, true, false, ◌==◌, arith}
use lfdk.Driver.Structs.{Command, Pcix}
use lfdk.Screens.PciList.{PciData}
use lfdk.Scan.Calls.{Calls}
use lfdk.Scan.Validate.{
  passed, failed, continue_with, write_limit, after_call, call, write_and_check,
  validate_pcie_w_single,
}

-- The request for the register at 0x2C of a device, with whatever else it holds.
abbrev pub for_test : PciData → Pcix → Pcix
for_test dev p = record p {
  bus = dev.bus;
  dev = dev.dev;
  fun = dev.fun;
  phy_base = dev.phy_base;
  reg = 0x2C;
}

-- In a settled world both calls on that register succeed and leave the world settled: a read gives
-- the value of the register and keeps it, and a write stores the value given, cut to the width of
-- the command.
pub record WritesStick {S : Type 0} (ioctl : Calls S) (dev : PciData) (r_mode w_mode : Command)
    : Type 1 where
  pub Settled : S → Type 0
  pub register : S → ℕ
  pub register-lt : (s : S) → Settled s → register s < write_limit w_mode
  pub read :
      (p : Pcix) (s : S)
      → Settled s
      → (ioctl r_mode (for_test dev p) s).0 ≡ (0, record (for_test dev p) { buf = register s })
  pub read-Settled : (p : Pcix) (s : S) → Settled s → Settled (ioctl r_mode (for_test dev p) s).1
  pub register-read :
      (p : Pcix) (s : S) → Settled s → register (ioctl r_mode (for_test dev p) s).1 ≡ register s
  pub write :
      (p : Pcix) (s : S) → Settled s → (ioctl w_mode (for_test dev p) s).0 ≡ (0, for_test dev p)
  pub write-Settled : (p : Pcix) (s : S) → Settled s → Settled (ioctl w_mode (for_test dev p) s).1
  pub register-write :
      (p : Pcix) (s : S)
      → Settled s
      → register (ioctl w_mode (for_test dev p) s).1 ≡ p.buf % write_limit w_mode

module _ {S : Type 0} {ioctl : Calls S} {dev : PciData} {r_mode w_mode : Command}
    (sticks : WritesStick ioctl dev r_mode w_mode) where
  open sticks use {Settled, register, read, write, read-Settled, write-Settled}

  call_read :
      (p : Pcix) (s : S)
      → Settled s
      → call ioctl r_mode (for_test dev p, s) ≡ (
        passed (register s),
        (record (for_test dev p) { buf = register s }, (ioctl r_mode (for_test dev p) s).1),
      )
  unfolding call after_call
  call_read p s ok =
      ap (λ a. after_call ioctl failed (a, (ioctl r_mode (for_test dev p) s).1)) (read p s ok)

  call_write :
      (p : Pcix) (s : S)
      → Settled s
      → call ioctl w_mode (for_test dev p, s)
        ≡ (passed p.buf, (for_test dev p, (ioctl w_mode (for_test dev p) s).1))
  unfolding call after_call
  call_write p s ok =
      ap (λ a. after_call ioctl failed (a, (ioctl w_mode (for_test dev p) s).1)) (write p s ok)

  same_number : (n : ℕ) → (n == n) ≡ true
  same_number n = ground arith

  -- The world after a value was written and read back.
  abbrev written : ℕ → Pcix → S → S
  written value p s =
      let q = for_test dev (record p { buf = value }) in (ioctl r_mode q (ioctl w_mode q s).1).1

  written-Settled : (value : ℕ) (p : Pcix) (s : S) → Settled s → Settled (written value p s)
  written-Settled value p s ok =
      let q : Pcix = record p { buf = value } in
      read-Settled q (ioctl w_mode (for_test dev q) s).1 (write-Settled q s ok)

  write_and_check_lem :
      (value : ℕ) (p : Pcix) (s : S)
      → Settled s
      → value % write_limit w_mode ≡ value
      → write_and_check ioctl r_mode w_mode value (for_test dev p, s)
        ≡ (passed tt, (record (for_test dev p) { buf = value }, written value p s))
  unfolding write_and_check continue_with
  write_and_check_lem value p s ok fits =
      let q : Pcix = record p { buf = value } in
      let s' = (ioctl w_mode (for_test dev q) s).1 in
      let stored : register s' ≡ value = sticks.register-write q s ok ∙ fits in
      rw (call_write q s ok, call_read q s' (write-Settled q s ok), stored, same_number value) refl

  register-written :
      (value : ℕ) (p : Pcix) (s : S)
      → Settled s
      → value % write_limit w_mode ≡ value
      → register (written value p s) ≡ value
  register-written value p s ok fits =
      let q : Pcix = record p { buf = value } in
      sticks.register-read q (ioctl w_mode (for_test dev q) s).1 (write-Settled q s ok)
      ∙ sticks.register-write q s ok
      ∙ fits

  zero_fits : (c : Command) → 0 % write_limit c ≡ 0
  unfolding write_limit
  zero_fits Command.pci_write_byte = omega arith
  zero_fits c = omega arith

  pattern_fits : (n : ℕ) (c : Command) → n % write_limit c % write_limit c ≡ n % write_limit c
  unfolding write_limit
  pattern_fits n Command.pci_write_byte = omega arith
  pattern_fits n c = omega arith

  small_fits : (n : ℕ) (c : Command) → n < write_limit c → n % write_limit c ≡ n
  unfolding write_limit
  small_fits n Command.pci_write_byte h = omega arith
  small_fits n c h = omega arith

  -- On a device with a base whose register at 0x2C keeps, in a settled world, what is written to it,
  -- the validation of the writes passes from a settled world, and it leaves in the register the
  -- value that was there before.
  pub validate_pcie_w_single_lem :
      (p : Pcix) (s : S)
      → Settled s
      → dev.phy_base ≢ 0
      → let r = validate_pcie_w_single ioctl dev r_mode w_mode (p, s) in
        (r.0 ≡ passed tt) × (register r.1.1 ≡ register s)
  unfolding validate_pcie_w_single continue_with
  validate_pcie_w_single_lem p s ok base =
      let has_base : (dev.phy_base == 0) ≡ false = ground arith in
      let old = register s in
      let s1 = (ioctl r_mode (for_test dev p) s).1 in
      let ok1 = read-Settled p s ok in
      let pattern = 0x12345678 % write_limit w_mode in
      let fits = small_fits old w_mode (sticks.register-lt s ok) in
      let s2 = written 0 p s1 in
      let ok2 = written-Settled 0 p s1 ok1 in
      let s3 = written pattern p s2 in
      let ok3 = written-Settled pattern p s2 ok2 in
      let runs : validate_pcie_w_single ioctl dev r_mode w_mode (p, s)
          ≡ (passed tt, (record (for_test dev p) { buf = old }, written old p s3)) =
        rw
          (
            has_base,
            call_read p s ok,
            write_and_check_lem 0 (record p { buf = old }) s1 ok1 (zero_fits w_mode),
            write_and_check_lem pattern (record p { buf = 0 }) s2 ok2
                (pattern_fits 0x12345678 w_mode),
          )
          (write_and_check_lem old (record p { buf = pattern }) s3 ok3 fits) in
      (ap (λ r. r.0) runs, ap (λ r. register r.1.1) runs ∙ register-written old p s3 ok3 fits)
