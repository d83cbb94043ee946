-- ===== src/Scan/Devices/Visit.antt =====
-- The body of the loops of `ScanPCIDevice` adds the device that answers, and the whole search lists
-- the first 200 of them.
use lfdk.Scan.Names.{NamesFile}
use lfdk.Common.{
  ℕ, suc, ◌+◌, ◌%◌, ◌^◌, ◌≤◌, ◌<◌, ◌≡◌, ◌≢◌, refl, sym, ap, ◌∙◌, arith, ◌==◌, leb, true, false,
  Bool-cases, inl, inr, List, [], ◌∷◌, ◌++◌, length, take, set, get_or, Option, none, some,
  if◌then◌else◌, mask_half_word, append_nil, take-all, take-append, length-take, take-set,
  length-set, length-append,
}
use lfdk.Driver.Structs.{Command, Pcix}
use lfdk.Screens.PciList.{PciData}
use lfdk.Scan.Calls.{Calls, AnswersWords, AnswersDwords}
use lfdk.Scan.Capabilities.{assign_mmio_base}
use lfdk.Scan.Capabilities.Assigned.{AtDevice, assign_mmio_base-Settled, only_base_assigned}
use lfdk.Scan.Devices.{
  ScanState, Flow, going, full, exits, faults, Part, count_from, no_device, named, read_or_exit,
  keep_record, visit, scan_pci_device, max_pcibuf,
}
use lfdk.Scan.Devices.Found.{
  Found, found_of, found_all, listed, present, all_present, NoFault, IsScanning, Outcome, Adds,
  for_each-Adds, found_all-append, length-found_all, named_found,
}

module _ {S : Type 0} {ioctl : Calls S} (words : AnswersWords ioctl) (base : ℕ)
    (dwords : AnswersDwords ioctl words.Settled base) (file : Option NamesFile) where
  open words use {Settled, word, read_word, read_word-Settled}

  read_goes_on :
      (p : Pcix) (st : ScanState S) (next : ℕ → Part S)
      → p.phy_base ≡ 0
      → Settled st.world
      → let v = word p.bus p.dev p.fun p.reg in
        read_or_exit ioctl file base p st next
        ≡ next v (record st {
          lfdd_pci_data = record p { buf = v };
          world = (ioctl Command.pci_read_word p (st.world)).1;
        })
  unfolding read_or_exit
  read_goes_on p st next none_given ok = rw (read_word p st.world none_given ok) refl

  module _ (bus dev fun : ℕ) where
    listed_more :
        (st : ScanState S) (e : PciData)
        → IsScanning Settled st
        → found_all (take (st.pci_list_len + 1) (set st.lfdd_pci_list st.pci_list_len e))
          ≡ listed st ++ found_of e ∷ []
    unfolding found_all
    listed_more st e ok =
        let n : st.pci_list_len + 1 ≡ suc st.pci_list_len = omega arith in
        let inside : st.pci_list_len < length st.lfdd_pci_list = omega (arith, ok.room, ok.array) in
        rw (n, take-set st.pci_list_len st.lfdd_pci_list e inside)
          (found_all-append (take st.pci_list_len st.lfdd_pci_list) (e ∷ []))

    keep-Outcome :
        (o : Option PciData) (k : Found) (st : ScanState S)
        → o ≢ none
        → ((e : PciData) → o ≡ some e → found_of e ≡ k)
        → IsScanning Settled st
        → AtDevice words bus dev fun st.lfdd_pci_data st.world
        → Outcome Settled (listed st ++ k ∷ []) (keep_record ioctl file base o st)
    unfolding keep_record
    keep-Outcome none k st given same ok at = absurd (given refl)
    keep-Outcome (some e) k st given same ok at =
        let r = assign_mmio_base ioctl base e st.lfdd_pci_data st.world in
        let found : found_of r.0 ≡ k =
          ap found_of (only_base_assigned ioctl base e st.lfdd_pci_data st.world) ∙ same e refl in
        let more : found_all (take (st.pci_list_len + 1) (set st.lfdd_pci_list st.pci_list_len r.0))
            ≡ listed st ++ k ∷ [] =
          listed_more st r.0 ok ∙ ap (λ x. listed st ++ x ∷ []) found in
        let longer : length (set st.lfdd_pci_list st.pci_list_len r.0) ≡ length st.lfdd_pci_list =
          length-set {0} st.lfdd_pci_list st.pci_list_len r.0 in
        let array = set st.lfdd_pci_list st.pci_list_len r.0 in
        let filled : length (found_all (take (st.pci_list_len + 1) array)) ≡ st.pci_list_len + 1 =
          length-found_all (take (st.pci_list_len + 1) array)
          ∙ length-take (st.pci_list_len + 1) array (omega (arith, longer, ok.array, ok.room)) in
        elim (Bool-cases (leb 200 (st.pci_list_len + 1))) [
          | inl h ↦ rw h (
            [],
            sym (append_nil (found_all (take (st.pci_list_len + 1) array)) ∙ more),
            ground (arith, ok.room, filled),
            ground (arith, ok.room),
          )
          | inr h ↦ rw h (
            more,
            record {
              room = ground (arith, ok.room);
              array = omega (arith, longer, ok.array);
              settled =
                  assign_mmio_base-Settled words bus dev fun base dwords e st.lfdd_pci_data st.world
                    at;
            },
          )
        ]

    module _ (safe : NoFault file) where
      visit-Adds : Adds Settled (visit ioctl file base bus dev fun) (present word bus dev fun)
      unfolding visit present
      visit-Adds st ok =
          let p : Pcix = record (st.lfdd_pci_data) {
            bus = bus;
            dev = dev;
            fun = fun;
            reg = 0;
            phy_base = 0;
          } in
          let vendor = word bus dev fun 0 in
          let p1 : Pcix = record p { buf = vendor } in
          let world1 = (ioctl Command.pci_read_word p (st.world)).1 in
          let settled1 = read_word-Settled p st.world refl ok.settled in
          let st1 : ScanState S = record st { lfdd_pci_data = p1; world = world1 } in
          let p2 : Pcix = record p1 { reg = 2 } in
          let device = word bus dev fun 2 in
          let st2 : ScanState S = record st {
            lfdd_pci_data = record p2 { buf = device };
            world = (ioctl Command.pci_read_word p2 world1).1;
          } in
          let settled2 = read_word-Settled p2 world1 refl settled1 in
          let old = get_or st.lfdd_pci_list st.pci_list_len no_device in
          let seen : PciData = record old {
            bus = bus;
            dev = dev;
            fun = fun;
            venid = vendor % 2 ^ 16;
            devid = device % 2 ^ 16;
          } in
          rw (read_goes_on p st _ refl ok.settled, mask_half_word vendor)
            (elim (Bool-cases (vendor % 65536 == 0xffff)) [
              | inl h ↦ rw h (
                sym (append_nil (listed st)),
                record { room = ok.room; array = ok.array; settled = settled1 },
              )
              | inr h ↦
                  rw (h, read_goes_on p2 st1 _ refl settled1)
                    (keep-Outcome (named file seen) (found_of seen) st2 (safe seen)
                      (λ e' g. named_found file seen e' g)
                      (record { room = ok.room; array = ok.array; settled = settled2 })
                      (refl, refl, refl, refl, settled2))
            ])

le-leb : (n : ℕ) → 200 ≤ n → leb 200 n ≡ true
le-leb n h = ground arith

-- What the end of the loops says of the list.
Outcome-take :
    {S : Type 0} (Settled : S → Type 0) (all : List Found) (r : Flow × ScanState S)
    → Outcome Settled all r
    → (listed (r.1) ≡ take 200 all)
      × (r.0 ≡ (if leb 200 (length all) then full else going))
      × ((r.1).pci_list_len ≡ length (take 200 all))
Outcome-take Settled all (exits, st) o = absurd o
Outcome-take Settled all (faults, st) o = absurd o
Outcome-take Settled all (going, st) o =
    let n : length (listed st) ≡ st.pci_list_len =
      length-found_all (take st.pci_list_len st.lfdd_pci_list)
      ∙ length-take st.pci_list_len st.lfdd_pci_list (omega (arith, (o.1).room, (o.1).array)) in
    let m : length all ≡ st.pci_list_len = rw (← o.0) n in
    let few : length all ≤ 200 = omega (arith, m, (o.1).room) in
    let short : leb 200 (length all) ≡ false = ground (arith, m, (o.1).room) in
    rw (short, take-all 200 all few) (o.0, refl, sym m)
Outcome-take Settled all (full, st) (extra, e, n, len) =
    let split : take 200 all ≡ listed st = ap (take 200) e ∙ take-append 200 (listed st) extra n in
    let more : length all ≡ length (listed st) + length extra =
      ap length e ∙ length-append (listed st) extra in
    let long : leb 200 (length all) ≡ true = le-leb (length all) (omega (arith, more, n)) in
    rw (long, split) (refl, refl, len ∙ sym n)

-- When the devices answer their reads, the array has at least 200 records and each search in the file
-- of names, if there is one, gives texts, the search lists, in the order of bus, device and function, the place and ids
-- of the functions with a vendor id that is not all ones: all of them, or the first 200, and then
-- it ends by the return of 1.
pub scan-take :
    {S : Type 0} (ioctl : Calls S) (words : AnswersWords ioctl) (base : ℕ)
    → AnswersDwords ioctl words.Settled base
    → (file : Option NamesFile) → NoFault file
    → (maxpcibus : ℕ) (st : ScanState S) → max_pcibuf ≤ length st.lfdd_pci_list
    → words.Settled st.world
    → let r = scan_pci_device ioctl file base maxpcibus st in
      let all = all_present words.word maxpcibus in
      (listed (r.1) ≡ take 200 all)
      × (r.0 ≡ (if leb 200 (length all) then full else going))
      × ((r.1).pci_list_len ≡ length (take 200 all))
unfolding scan_pci_device all_present
scan-take ioctl words base dwords file safe maxpcibus st array settled =
    let start = record st { pci_list_len = 0 } in
    Outcome-take words.Settled (all_present words.word maxpcibus)
      (scan_pci_device ioctl file base maxpcibus st)
      (unfold found_all in
        for_each-Adds words.Settled (count_from 0 maxpcibus) _ _
          (λ bus. for_each-Adds words.Settled (count_from 0 32) _ _ (λ dev.
            for_each-Adds words.Settled (count_from 0 8) _ _
              (λ fun. visit-Adds words base dwords file bus dev fun safe)))
          start (record { room = omega arith; array = array; settled = settled }))
