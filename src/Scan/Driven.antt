-- ===== src/Scan/Driven.antt =====
-- The driver of lfdd as the calls of the search: a device on the configuration ports answers them.
use lfdk.Scan.Names.{NamesFile}
use lfdk.Common.{
  ℕ, ◌+◌, ◌*◌, ◌/◌, ◌%◌, ◌^◌, ◌≤◌, ◌≡◌, ◌⊎◌, inl, inr, refl, ap, ◌∙◌, ◌==◌, Option, [], length, leb,
  take, if◌then◌else◌,
}
use lfdk.Driver.Structs.{Command, Pcix}
use lfdk.Driver.Machine.{Machine, Driver}
use lfdk.Driver.Address.{device_bits, cal_pcix_addr, addr32}
use lfdk.Driver.Bus.{ConfigPorts, byte_at}
use lfdk.Driver.Pci.Registers.{read_word_refines, read_dword_refines}
use lfdk.Driver.Ioctl.{Arg, Reply, efault, einval, left, UserAccess, ioctl}
use lfdk.Driver.Ioctl.EndToEnd.{CopiesAll, ioctl-pci_read_word, ioctl-pci_read_dword}
use lfdk.Scan.Devices.{ScanState, going, full, scan_pci_device, max_pcibuf}
use lfdk.Scan.Devices.Found.{listed, all_present, NoFault}
use lfdk.Scan.Devices.Visit.{scan-take}
use lfdk.Scan.Calls.{Calls, AnswersWords, AnswersDwords}

-- What `ioctl` returns to the program: 0, the count of bytes not copied, or -1 for an error.
abbrev pub returned : Reply → ℕ
returned efault = 1
returned einval = 1
returned (left n) = n

-- A call with a structure of the program; the other fields of the argument are not read.
abbrev pub call_driver : (m : Machine) (user : UserAccess) → Arg → Calls (Driver m)
call_driver m user arg c p d =
    let ((reply, arg'), d') = ioctl m user c (record arg { pcix = p }) d in
    ((returned reply, arg'.pcix), d')

-- The configuration address of a register.
abbrev pub port_address : ℕ → ℕ → ℕ → ℕ → ℕ
port_address bus dev fun reg =
    addr32
      (record { bus = bus; dev = dev; fun = fun; reg = reg; phy_base = 0; buf = 0; mass_buf = [] })

address_lem : (p : Pcix) → p.phy_base ≡ 0 → addr32 p ≡ port_address p.bus p.dev p.fun p.reg
unfolding addr32 cal_pcix_addr device_bits
address_lem p e = simp e refl

module _ {m : Machine} (ports : ConfigPorts m) (user : UserAccess) (copies : CopiesAll user)
    (arg : Arg) (f : ℕ → ℕ) where
  open ports use {config}

  -- The bytes of configuration space are `f`.
  abbrev pub Holds : Driver m → Type 0
  Holds d = (a : ℕ) → byte_at (config d.hw) a ≡ f a

  -- A word, which at the last byte of a dword is that byte alone, and a dword of these bytes.
  abbrev pub word_of : ℕ → ℕ
  word_of a = f a + (if a % 4 == 3 then 0 else f (a + 1) * 256)

  abbrev pub dword_of : ℕ → ℕ
  dword_of a =
      let b = a / 4 * 4 in f b + f (b + 1) * 2 ^ 8 + f (b + 2) * 2 ^ 16 + f (b + 3) * 2 ^ 24

  pub read_word_lem :
      (p : Pcix) (d : Driver m)
      → p.phy_base ≡ 0
      → Holds d
      → (call_driver m user arg Command.pci_read_word p d).0
        ≡ (0, record p { buf = word_of (port_address p.bus p.dev p.fun p.reg) })
  read_word_lem p d e h = rw (ioctl-pci_read_word (record arg { pcix = p }) d copies) (
      ap (λ (v : ℕ). (0, record p { buf = v }))
        ((read_word_refines ports p d e 0).0
          ∙ rw (h (addr32 p), h (addr32 p + 1)) (ap word_of (address_lem p e))))

  pub read_word-Holds :
      (p : Pcix) (d : Driver m)
      → p.phy_base ≡ 0
      → Holds d
      → Holds (call_driver m user arg Command.pci_read_word p d).1
  read_word-Holds p d e h a =
      rw (ioctl-pci_read_word (record arg { pcix = p }) d copies)
        ((read_word_refines ports p d e a).1 ∙ h a)

  no_base : (p : Pcix) → (p.phy_base ≡ 0) ⊎ (p.phy_base ≡ 0) → p.phy_base ≡ 0
  no_base p (inl e) = e
  no_base p (inr e) = e

  pub read_dword_lem :
      (p : Pcix) (d : Driver m)
      → (p.phy_base ≡ 0) ⊎ (p.phy_base ≡ 0)
      → Holds d
      → (call_driver m user arg Command.pci_read_dword p d).0
        ≡ (0, record p { buf = dword_of (port_address p.bus p.dev p.fun p.reg) })
  read_dword_lem p d given h =
      let e = no_base p given in
      let b = addr32 p / 4 * 4 in
      rw (ioctl-pci_read_dword (record arg { pcix = p }) d copies) (
        ap (λ (v : ℕ). (0, record p { buf = v }))
          ((read_dword_refines ports p d e 0).0
            ∙ rw (h b, h (b + 1), h (b + 2), h (b + 3)) (ap dword_of (address_lem p e))))

  pub read_dword-Holds :
      (p : Pcix) (d : Driver m)
      → (p.phy_base ≡ 0) ⊎ (p.phy_base ≡ 0)
      → Holds d
      → Holds (call_driver m user arg Command.pci_read_dword p d).1
  read_dword-Holds p d given h a =
      rw (ioctl-pci_read_dword (record arg { pcix = p }) d copies)
        ((read_dword_refines ports p d (no_base p given) a).1 ∙ h a)

  unfoldable pub driver_words : AnswersWords (call_driver m user arg)
  driver_words = record {
    Settled = Holds;
    word = λ bus dev fun reg. word_of (port_address bus dev fun reg);
    read_word = read_word_lem;
    read_word-Settled = read_word-Holds;
  }

  unfoldable pub driver_dwords : AnswersDwords (call_driver m user arg) Holds 0
  driver_dwords = record {
    dword = λ base bus dev fun reg. dword_of (port_address bus dev fun reg);
    read_dword = read_dword_lem;
    read_dword-Settled = read_dword-Holds;
  }

  -- Through the driver, on ports that behave as documented, with copies that succeed, an array of
  -- at least 200 records and a file of names, if any, on which each search gives texts, the search
  -- without a base lists in the order of the loops the place and ids of the functions whose vendor
  -- id in configuration space, the two bytes at the address of the register 0, is not all ones: all
  -- of them, or the first 200, and then it ends by the return of 1.
  pub scan_through_driver :
      (file : Option NamesFile) (maxpcibus : ℕ) (st : ScanState (Driver m))
      → NoFault file
      → max_pcibuf ≤ length st.lfdd_pci_list
      → Holds st.world
      → let r = scan_pci_device (call_driver m user arg) file 0 maxpcibus st in
        let all =
          all_present (λ bus dev fun reg. word_of (port_address bus dev fun reg)) maxpcibus in
        (listed (r.1) ≡ take 200 all)
        × (r.0 ≡ (if leb 200 (length all) then full else going))
        × ((r.1).pci_list_len ≡ length (take 200 all))
  unfolding driver_words driver_dwords
  scan_through_driver file maxpcibus st safe array holds =
      scan-take (call_driver m user arg) driver_words 0 driver_dwords file safe maxpcibus st array
        holds
