-- ===== src/Scan/Validate.antt =====
-- The validation functions of lfdk/lib_pci_scan.c, of which `ValidationPCIE` is called nowhere: they
-- compare the two ways to a register, and try its writes. `lfdd_pci_data` is passed on, with the
-- world of the calls.
pub mod Reads
pub mod Writes
use lfdk.Common.{
  ℕ, ◌%◌, ◌^◌, Bool, true, false, Option, none, some, List, [], ◌∷◌, ◌==◌, not, get_or,
  if◌then◌else◌,
}
use lfdk.Driver.Structs.{
  Command, pci_read_byte, pci_read_word, pci_read_dword, pci_write_byte, pci_write_word,
  pci_write_dword, pci_read_256byte, Pcix,
}
use lfdk.Screens.PciList.{PciData}
use lfdk.Scan.Calls.{Calls}

-- How a function goes on: with a value, by `return ERR_TEST_FAIL`, or by the `exit( 1 )` of the
-- macro `LFDD_IOCTL`.
pub data Verdict {ℓ} (A : Type ℓ) : Type ℓ where
  passed : A → Verdict A
  failed exited : Verdict A

abbrev pub Test : Type 0 → Type 0 → Type 0
Test S A = Pcix × S → Verdict A × (Pcix × S)

module _ {S : Type 0} where
  pub continue_with :
      {A B : Type 0} → (A → Test S B) → Verdict A × (Pcix × S) → Verdict B × (Pcix × S)
  continue_with f (passed a, s) = f a s
  continue_with f (failed, s) = (failed, s)
  continue_with f (exited, s) = (exited, s)

  infixl 5 ◌>>=◌ ◌>>◌
  abbrev pub ◌>>=◌ : {A B : Type 0} → Test S A → (A → Test S B) → Test S B
  ◌>>=◌ t f s = continue_with f (t s)

  abbrev pub ◌>>◌ : {B : Type 0} → Test S (Unit {0}) → Test S B → Test S B
  ◌>>◌ t k = t >>= λ _. k

  abbrev pub require : Bool → Test S (Unit {0})
  require true s = (passed tt, s)
  require false s = (failed, s)

  -- A change of `lfdd_pci_data`.
  abbrev pub assign : (Pcix → Pcix) → Test S (Unit {0})
  assign f (p, w) = (passed tt, (f p, w))

-- `validate_reg_map`.
abbrev pub validate_reg_map : List ℕ
validate_reg_map = 0x00 ∷ 0x01 ∷ 0x02 ∷ 0x03 ∷ 0x08 ∷ 0x09 ∷ 0x0A ∷ 0x0B ∷ []

-- `REG_TEST`, and the mask of a command that writes.
abbrev pub reg_test : ℕ
reg_test = 0x2C

unfoldable pub write_limit : Command → ℕ
write_limit Command.pci_write_byte = 2 ^ 8
write_limit Command.pci_write_word = 2 ^ 16
write_limit c = 2 ^ 32

pub same_bytes : List ℕ → List ℕ → List ℕ → Bool
same_bytes [] first second = true
same_bytes (reg ∷ regs) first second =
    let rest = same_bytes regs first second in
    if get_or first reg 0 == get_or second reg 0 then rest else false

module _ {S : Type 0} (ioctl : Calls S) where
  -- A call, whose failure ends the function or the program.
  pub after_call : Verdict ℕ → (ℕ × Pcix) × S → Verdict ℕ × (Pcix × S)
  after_call otherwise ((ret, p), w) = (if ret == 0 then passed p.buf else otherwise, (p, w))

  pub call : Command → Test S ℕ
  call c (p, w) = after_call failed (ioctl c p w)

  pub call_or_exit : Command → Test S ℕ
  call_or_exit c (p, w) = after_call exited (ioctl c p w)

  -- A round of `validate_pcie_r_single`: the register through the base, and through the ports.
  pub compare_reg : PciData → Command → ℕ → Test S (Unit {0})
  compare_reg dev mode reg = do
    assign (λ p. record p { phy_base = dev.phy_base; reg = reg })
    tmp_buf ← call mode
    assign (λ p. record p { phy_base = 0; reg = reg })
    buf ← call mode
    require (tmp_buf == buf)

  pub compare_regs : PciData → Command → List ℕ → Test S (Unit {0})
  compare_regs dev mode [] = λ s. (passed tt, s)
  compare_regs dev mode (reg ∷ regs) = compare_reg dev mode reg >> compare_regs dev mode regs

  pub validate_pcie_r_single : PciData → Command → Test S (Unit {0})
  validate_pcie_r_single dev mode = do
    require (not (dev.phy_base == 0))
    assign (λ p. record p { bus = dev.bus; dev = dev.dev; fun = dev.fun })
    compare_regs dev mode validate_reg_map

  pub read_block : Test S (List ℕ)
  read_block = call_or_exit Command.pci_read_256byte >>= λ _ s. (passed s.0.mass_buf, s)

  pub validate_pcie_r_256b : PciData → Test S (Unit {0})
  validate_pcie_r_256b dev = do
    assign (λ p. record p {
      bus = dev.bus;
      dev = dev.dev;
      fun = dev.fun;
      reg = 0;
      phy_base = dev.phy_base;
    })
    tmp_buf ← read_block
    assign (λ p. record p { reg = 0; phy_base = 0 })
    mass_buf ← read_block
    require (same_bytes validate_reg_map tmp_buf mass_buf)

  -- A value is written and has to be read back.
  pub write_and_check : Command → Command → ℕ → Test S (Unit {0})
  write_and_check r_mode w_mode value = do
    assign (λ p. record p { buf = value })
    call w_mode >>= λ _. call r_mode >>= λ buf. require (buf == value)

  pub validate_pcie_w_single : PciData → Command → Command → Test S (Unit {0})
  validate_pcie_w_single dev r_mode w_mode = do
    require (not (dev.phy_base == 0))
    assign (λ p. record p {
      bus = dev.bus;
      dev = dev.dev;
      fun = dev.fun;
      phy_base = dev.phy_base;
      reg = reg_test;
    })
    tmp_buf ← call r_mode
    write_and_check r_mode w_mode 0
    write_and_check r_mode w_mode (0x12345678 % write_limit w_mode)
    write_and_check r_mode w_mode tmp_buf

  -- The body of the loop of `ValidationPCIE`.
  pub validate_device : PciData → Test S (Unit {0})
  validate_device dev = do
    validate_pcie_r_single dev Command.pci_read_byte
    validate_pcie_r_single dev Command.pci_read_word
    validate_pcie_r_single dev Command.pci_read_dword
    validate_pcie_r_256b dev
    validate_pcie_w_single dev Command.pci_read_byte Command.pci_write_byte
    validate_pcie_w_single dev Command.pci_read_word Command.pci_write_word
    validate_pcie_w_single dev Command.pci_read_dword Command.pci_write_dword

  -- `ValidationPCIE`, over the records in use.
  pub validation_pcie : List PciData → Test S (Unit {0})
  validation_pcie [] = λ s. (passed tt, s)
  validation_pcie (dev ∷ devs) =
      if dev.phy_base == 0
      then validation_pcie devs
      else (validate_device dev >> validation_pcie devs)
