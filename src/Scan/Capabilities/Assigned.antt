-- ===== src/Scan/Capabilities/Assigned.antt =====
-- Which base the walk over the capabilities gives a device.
use lfdk.Scan.Capabilities.Ids.{
  contains, capability_ids, low_byte_lem, high_byte_lem, last_id, last_id-contains,
}
use lfdk.Common.{
  ℕ, zero, suc, ◌/◌, ◌%◌, ◌≡◌, refl, ap, ◌∙◌, ◌==◌, not, ◌&&◌, Bool-cases, inl, inr, Option, none,
  some, if◌then◌else◌,
}
use lfdk.Driver.Structs.{Command, Pcix}
use lfdk.Screens.PciList.{PciData}
use lfdk.Scan.Calls.{Calls, AnswersWords, AnswersDwords}
use lfdk.Scan.Capabilities.{
  Walk, go_on, ◌>>=◌, pure, low_byte, high_byte, checked, read_word_at, read_first_dword, walk,
  compare_first_dwords, find_base, given_base, assign_mmio_base,
}

go_on-some :
    {S A B : Type 0} (o : Option A × (Pcix × S)) (f : A → Walk S B) (a : A)
    → o.0 ≡ some a
    → go_on o f ≡ f a (o.1).0 (o.1).1
go_on-some (none, (p, s)) f a e = absurd (cc)
go_on-some (some x, (p, s)) f a e = let same : x ≡ a = cc in ap (λ y. f y p s) same

module _ {S : Type 0} {ioctl : Calls S} (words : AnswersWords ioctl) (bus dev fun : ℕ) where
  open words use {Settled, word, read_word, read_word-Settled}

  -- A request to the device without a base, in a settled world.
  abbrev pub AtDevice : Pcix → S → Type 0
  AtDevice p s = (p.bus ≡ bus) × (p.dev ≡ dev) × (p.fun ≡ fun) × (p.phy_base ≡ 0) × Settled s

  abbrev Gives : {A : Type 0} → Walk S A → A → Type 0
  Gives w a =
      (p : Pcix) (s : S) → AtDevice p s → ((w p s).0 ≡ some a) × AtDevice (w p s).1.0 (w p s).1.1

  Gives-pure : {A : Type 0} (a : A) → Gives (pure a) a
  Gives-pure a p s h = (refl, h)

  Gives-bind :
      {A B : Type 0} (w : Walk S A) (f : A → Walk S B) (a : A) (b : B)
      → Gives w a
      → Gives (f a) b
      → Gives (w >>= f) b
  Gives-bind w f a b hw hf p s h =
      let given = hw p s h in
      rw (go_on-some (w p s) f a given.0) (hf (w p s).1.0 (w p s).1.1 given.1)

  Gives-read : (reg : ℕ) → Gives (read_word_at ioctl reg) (word bus dev fun reg)
  unfolding read_word_at checked
  Gives-read reg p s h =
      let p' : Pcix = record p { reg = reg } in
      let e : (ioctl Command.pci_read_word p' s).0 ≡ (0, record p' { buf = word bus dev fun reg }) =
        read_word p' s h.3 h.4
        ∙ ap (λ (v : ℕ). (0, record p' { buf = v })) (rw (h.0, h.1, h.2) refl) in
      rw e (refl, (h.0, h.1, h.2, h.3, read_word-Settled p' s h.3 h.4))

  -- The words of the device.
  abbrev pub registers : ℕ → ℕ
  registers reg = word bus dev fun reg

  Gives-walk : (n id next : ℕ) → Gives (walk ioctl n id next) (last_id registers n id next)
  unfolding walk last_id
  Gives-walk zero id next = Gives-pure id
  Gives-walk (suc n) id next = elim (Bool-cases (not (next == 0) && not (id == 0x10))) [
    | inl go ↦ rw go (
        Gives-bind (read_word_at ioctl next) (λ buf. walk ioctl n (low_byte buf) (high_byte buf))
          (registers next) (last_id registers n (registers next % 256) (registers next / 256 % 256))
          (Gives-read next)
          (rw (low_byte_lem (registers next), high_byte_lem (registers next))
            (Gives-walk n (registers next % 256) (registers next / 256 % 256))))
    | inr end ↦ rw end (Gives-pure id)
  ]

  -- What the end of the function gives: the base, and a settled world.
  abbrev EndsWith : Walk S ℕ → ℕ → Type 0
  EndsWith w base =
      (p : Pcix) (s : S) → AtDevice p s → (given_base (w p s).0 ≡ base) × Settled (w p s).1.1

  EndsWith-bind :
      {A : Type 0} (w : Walk S A) (f : A → Walk S ℕ) (a : A) (base : ℕ)
      → Gives w a
      → EndsWith (f a) base
      → EndsWith (w >>= f) base
  EndsWith-bind w f a base hw hf p s h =
      let given = hw p s h in
      rw (go_on-some (w p s) f a given.0) (hf (w p s).1.0 (w p s).1.1 given.1)

  module _ (base : ℕ) (dwords : AnswersDwords ioctl Settled base) where
    open dwords use {dword, read_dword, read_dword-Settled}

    abbrev pub first_dword : ℕ → ℕ
    first_dword b = dword b bus dev fun 0

    Gives-first_dword : Gives (read_first_dword ioctl 0) (first_dword 0)
    unfolding read_first_dword checked
    Gives-first_dword p s h =
        let p' : Pcix = record p { reg = 0; phy_base = 0; buf = 0 } in
        let e : (ioctl Command.pci_read_dword p' s).0 ≡ (0, record p' { buf = first_dword 0 }) =
          read_dword p' s (inl refl) h.4
          ∙ ap (λ (v : ℕ). (0, record p' { buf = v })) (rw (h.0, h.1, h.2) refl) in
        rw e (refl, (h.0, h.1, h.2, refl, read_dword-Settled p' s (inl refl) h.4))

    -- The base, where the first dword read by it is the one read by the ports, and not 0.
    abbrev pub agreed : ℕ
    agreed = if not (first_dword 0 == 0) && first_dword 0 == first_dword base then base else 0

    EndsWith-by_base :
        (by_ports : ℕ)
        → EndsWith
            (read_first_dword ioctl base >>= λ by_base.
              pure (if by_ports == by_base then base else 0))
            (if by_ports == first_dword base then base else 0)
    unfolding read_first_dword checked given_base
    EndsWith-by_base by_ports p s h =
        let p' : Pcix = record p { reg = 0; phy_base = base; buf = 0 } in
        let e : (ioctl Command.pci_read_dword p' s).0 ≡ (0, record p' { buf = first_dword base }) =
          read_dword p' s (inr refl) h.4
          ∙ ap (λ (v : ℕ). (0, record p' { buf = v })) (rw (h.0, h.1, h.2) refl) in
        rw e (refl, read_dword-Settled p' s (inr refl) h.4)

    EndsWith-compare : EndsWith (compare_first_dwords ioctl base) agreed
    unfolding compare_first_dwords
    EndsWith-compare =
        EndsWith-bind (read_first_dword ioctl 0) _ (first_dword 0) agreed Gives-first_dword
          (elim (Bool-cases (first_dword 0 == 0)) [
            | inl e ↦ rw e (unfold given_base in λ p s h. (refl, h.4))
            | inr e ↦ rw e (EndsWith-by_base (first_dword 0))
          ])

    EndsWith-find :
        EndsWith
          (find_base ioctl base)
          (if contains 0x10 (capability_ids registers) then agreed else 0)
    unfolding find_base capability_ids
    EndsWith-find =
        let head = registers (registers 0x34 % 256) in
        let id = last_id registers 64 (head % 256) (head / 256 % 256) in
        EndsWith-bind (read_word_at ioctl 0x34) _ (registers 0x34) _ (Gives-read 0x34) (
          rw (low_byte_lem (registers 0x34)) (
            EndsWith-bind (read_word_at ioctl (registers 0x34 % 256)) _ head _
              (Gives-read (registers 0x34 % 256))
              (rw (low_byte_lem head, high_byte_lem head)
                (EndsWith-bind (walk ioctl 64 (head % 256) (head / 256 % 256)) _ id _
                  (Gives-walk 64 (head % 256) (head / 256 % 256))
                  (rw (← last_id-contains registers 64 (head % 256) (head / 256 % 256))
                    (elim (Bool-cases (id == 0x10)) [
                      | inl e ↦ rw e EndsWith-compare
                      | inr e ↦ rw e (unfold given_base in λ p s h. (refl, h.4))
                    ]))))))

    -- A device that answers every read is given the base exactly where one of the capabilities
    -- linked from the register that it names at 0x34, the first and at most 64 more, is that of PCI
    -- Express, and the first dword read by the base is the one read by the ports and not 0. It is
    -- given 0 otherwise, and keeps its record where no base is known.
    pub assign_mmio_base_lem :
        (entry : PciData) (p : Pcix) (s : S)
        → AtDevice p s
        → (assign_mmio_base ioctl base entry p s).0 ≡ (
            if base == 0 then entry else record entry {
              phy_base = if contains 0x10 (capability_ids registers) then agreed else 0;
            })
    unfolding assign_mmio_base
    assign_mmio_base_lem entry p s h = elim (Bool-cases (base == 0)) [
      | inl e ↦ rw e refl
      | inr e ↦ rw e (ap (λ (b : ℕ). record entry { phy_base = b }) (EndsWith-find p s h).0)
    ]

    pub assign_mmio_base-Settled :
        (entry : PciData) (p : Pcix) (s : S)
        → AtDevice p s
        → Settled ((assign_mmio_base ioctl base entry p s).1).1
    unfolding assign_mmio_base
    assign_mmio_base-Settled entry p s h = elim (Bool-cases (base == 0)) [
      | inl e ↦ rw e h.4
      | inr e ↦ rw e (EndsWith-find p s h).1
    ]

-- Nothing else of the record changes.
pub only_base_assigned :
    {S : Type 0} (ioctl : Calls S) (base : ℕ) (entry : PciData) (p : Pcix) (s : S)
    → let entry' = (assign_mmio_base ioctl base entry p s).0 in
      entry' ≡ record entry { phy_base = entry'.phy_base }
unfolding assign_mmio_base
only_base_assigned ioctl base entry p s = elim (Bool-cases (base == 0)) [
  | inl e ↦ rw e refl
  | inr e ↦ rw e refl
]
