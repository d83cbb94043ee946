-- ===== src/Scan/Validate/Reads.antt =====
-- What `validate_pcie_r_single` finds on a device whose registers keep their values.
use lfdk.Common.{
  ℕ, ◌≡◌, refl, ap, ◌∙◌, inl, inr, Bool, true, false, ◌&&◌, not, List, [], ◌∷◌, ◌==◌, if◌then◌else◌,
  Bool-cases,
}
use lfdk.Driver.Structs.{Command, Pcix}
use lfdk.Screens.PciList.{PciData}
use lfdk.Scan.Calls.{Calls}
use lfdk.Scan.Validate.{
  Verdict, passed, failed, Test, continue_with, require, validate_reg_map, after_call, call,
  compare_reg, compare_regs, validate_pcie_r_single,
}

-- The calls of one command succeed and give the same value at each register, by a base, in every
-- world that is settled, and leave the world settled.
pub record AnswersReads {S : Type 0} (ioctl : Calls S) (mode : Command) : Type 1 where
  pub Settled : S → Type 0
  pub value : ℕ → ℕ → ℕ → ℕ → ℕ → ℕ
  pub answer :
      (p : Pcix) (s : S)
      → Settled s
      → (ioctl mode p s).0 ≡ (0, record p { buf = value p.phy_base p.bus p.dev p.fun p.reg })
  pub answer-Settled : (p : Pcix) (s : S) → Settled s → Settled (ioctl mode p s).1

module _ {S : Type 0} {ioctl : Calls S} {mode : Command} (reads : AnswersReads ioctl mode) where
  open reads use {Settled, value, answer, answer-Settled}

  -- Through the base and through the ports each register of the list has the same value.
  pub ways_agree : ℕ → ℕ → ℕ → ℕ → List ℕ → Bool
  ways_agree base bus dev fun [] = true
  ways_agree base bus dev fun (reg ∷ regs) =
      value base bus dev fun reg == value 0 bus dev fun reg && ways_agree base bus dev fun regs

  call_lem :
      (p : Pcix) (s : S)
      → Settled s
      → call ioctl mode (p, s) ≡ (
        passed (value p.phy_base p.bus p.dev p.fun p.reg),
        (record p { buf = value p.phy_base p.bus p.dev p.fun p.reg }, (ioctl mode p s).1),
      )
  unfolding call after_call
  call_lem p s ok = ap (λ a. after_call ioctl failed (a, (ioctl mode p s).1)) (answer p s ok)

  verdict_of : Bool → Verdict (Unit {0})
  verdict_of true = passed tt
  verdict_of false = failed

  require_lem : (b : Bool) (s : Pcix × S) → require b s ≡ (verdict_of b, s)
  unfolding verdict_of
  require_lem true s = refl
  require_lem false s = refl

  module _ (dev : PciData) (p : Pcix) (s : S) (ok : Settled s) where
    first_read : ℕ → Pcix
    first_read reg = record p { phy_base = dev.phy_base; reg = reg }

    second_read : ℕ → Pcix
    second_read reg = record p {
      phy_base = 0;
      reg = reg;
      buf = value dev.phy_base p.bus p.dev p.fun reg;
    }

    compare_reg_lem :
        (reg : ℕ)
        → compare_reg ioctl dev mode reg (p, s) ≡ (
          verdict_of (value dev.phy_base p.bus p.dev p.fun reg == value 0 p.bus p.dev p.fun reg),
          (
            record p { phy_base = 0; reg = reg; buf = value 0 p.bus p.dev p.fun reg },
            (ioctl mode (second_read reg) (ioctl mode (first_read reg) s).1).1,
          ),
        )
    unfolding compare_reg continue_with first_read second_read
    compare_reg_lem reg =
        let after = answer-Settled (first_read reg) s ok in
        rw (call_lem (first_read reg) s ok) (
          rw (call_lem (second_read reg) (ioctl mode (first_read reg) s).1 after) (require_lem _ _))

  next_reg :
      (same : Bool) (rest : Bool) (t : Test S (Unit {0})) (st : Pcix × S)
      → (t st).0 ≡ verdict_of rest
      → (continue_with (λ _. t) (verdict_of same, st)).0 ≡ verdict_of (same && rest)
  unfolding continue_with verdict_of
  next_reg true rest t st e = e
  next_reg false rest t st e = refl

  verdict_lem : (b : Bool) → verdict_of b ≡ (if b then passed tt else failed)
  unfolding verdict_of
  verdict_lem true = refl
  verdict_lem false = refl

  compare_regs_lem :
      (regs : List ℕ) (dev : PciData) (p : Pcix) (s : S)
      → Settled s
      → (compare_regs ioctl dev mode regs (p, s)).0
        ≡ verdict_of (ways_agree dev.phy_base p.bus p.dev p.fun regs)
  unfolding compare_regs ways_agree verdict_of
  compare_regs_lem [] dev p s ok = refl
  compare_regs_lem (reg ∷ regs) dev p s ok =
      let same = value dev.phy_base p.bus p.dev p.fun reg == value 0 p.bus p.dev p.fun reg in
      let p' : Pcix = record p { phy_base = 0; reg = reg; buf = value 0 p.bus p.dev p.fun reg } in
      let s' =
        (ioctl mode (second_read dev p s ok reg) (ioctl mode (first_read dev p s ok reg) s).1).1 in
      let ok' =
        answer-Settled (second_read dev p s ok reg) _
          (answer-Settled (first_read dev p s ok reg) s ok) in
      ap (λ r. (continue_with (λ _. compare_regs ioctl dev mode regs) r).0)
        (compare_reg_lem dev p s ok reg)
      ∙ next_reg same (ways_agree dev.phy_base p.bus p.dev p.fun regs)
          (compare_regs ioctl dev mode regs) (p', s') (compare_regs_lem regs dev p' s' ok')

  -- On a device whose registers keep their values, the validation of the reads passes exactly for
  -- a device with a base on which both ways agree at each of the eight registers, and fails
  -- otherwise: vendor 0x00 and 0x01, device 0x02 and 0x03, revision and class 0x08 to 0x0B.
  pub validate_pcie_r_single_lem :
      (dev : PciData) (p : Pcix) (s : S)
      → Settled s
      → (validate_pcie_r_single ioctl dev mode (p, s)).0 ≡ (
          if not (dev.phy_base == 0)
            && ways_agree dev.phy_base dev.bus dev.dev dev.fun
                (0x00 ∷ 0x01 ∷ 0x02 ∷ 0x03 ∷ 0x08 ∷ 0x09 ∷ 0x0A ∷ 0x0B ∷ [])
          then passed tt
          else failed)
  unfolding validate_pcie_r_single continue_with
  validate_pcie_r_single_lem dev p s ok = elim (Bool-cases (dev.phy_base == 0)) [
    | inl no_base ↦ rw no_base refl
    | inr base ↦ rw base (
        compare_regs_lem validate_reg_map dev
          (record p { bus = dev.bus; dev = dev.dev; fun = dev.fun }) s ok
        ∙ verdict_lem (ways_agree dev.phy_base dev.bus dev.dev dev.fun validate_reg_map))
  ]
