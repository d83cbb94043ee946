-- ===== src/Scan/Devices.antt =====
-- `ScanPCIDevice` of lfdk/lib_pci_scan.c: all functions of all devices, and the list of those that
-- are there. The drawing is left out. The counters are bytes; the number of buses is below 256.
pub mod Found
pub mod Visit
pub mod Printed
use lfdk.Common.{
  ℕ, zero, suc, ◌+◌, ◌^◌, ◌==◌, leb, not, List, [], ◌∷◌, ◌++◌, Option, none, some, bit_and, get_or,
  set, u16, if◌then◌else◌,
}
use lfdk.Driver.Structs.{Command, Pcix}
use lfdk.Screens.PciList.{PciData}
use lfdk.Scan.Calls.{Calls}
use lfdk.Scan.Names.{
  Texts, NamesResult, out_of_fuel, faulted, never_ends, NamesFile, names_found,
  get_vendor_and_device_texts,
}
use lfdk.Scan.Capabilities.{assign_mmio_base}

-- `LFDK_MAX_PCIBUF`.
abbrev pub max_pcibuf : ℕ
max_pcibuf = 200

-- The globals that the function changes, and the world of the calls.
pub record ScanState (S : Type 0) : Type 0 where
  pub lfdd_pci_data : Pcix
  pub lfdd_pci_list : List PciData
  pub pci_list_len : ℕ
  pub world : S

-- How a part of the loops ends: it goes on, it returns 1 with the list full, the program exits since
-- a call failed, or the read of the names writes behind its buffer.
pub data Flow : Type 0 where
  going full exits faults : Flow

abbrev pub Part : Type 0 → Type 0
Part S = ScanState S → Flow × ScanState S

-- The next part, if the first goes on.
pub and_then : {S : Type 0} → Flow × ScanState S → Part S → Flow × ScanState S
and_then (going, st) next = next st
and_then (full, st) next = (full, st)
and_then (exits, st) next = (exits, st)
and_then (faults, st) next = (faults, st)

-- `for` over a range, in its order.
pub for_each : {S : Type 0} → List ℕ → (ℕ → Part S) → Part S
for_each [] body st = (going, st)
for_each (n ∷ ns) body st = and_then (body n st) (for_each ns body)

-- The numbers from `n` on, `k` of them.
unfoldable pub count_from : ℕ → ℕ → List ℕ
count_from n zero = []
count_from n (suc k) = n ∷ count_from (n + 1) k

abbrev pub no_device : PciData
no_device = record {
  venid = 0;
  devid = 0;
  bus = 0;
  dev = 0;
  fun = 0;
  ventxt = [];
  devtxt = [];
  phy_base = 0;
}

-- The texts of a record, and the record with texts found.
abbrev pub texts_of : PciData → Texts
texts_of e = record { ventxt = e.ventxt; devtxt = e.devtxt }

-- `none` is a search that faults or never ends; one that ran out of fuel does not occur.
unfoldable pub with_names : PciData → NamesResult → Option PciData
with_names e out_of_fuel = none
with_names e faulted = none
with_names e never_ends = none
with_names e (names_found t) = some (record e { ventxt = t.ventxt; devtxt = t.devtxt })

-- `GetVendorAndDeviceTexts` with the file of names, which may not open: `none` is a search
-- without a result.
unfoldable pub named : Option NamesFile → PciData → Option PciData
named none e = some e
named (some file) e = with_names e (get_vendor_and_device_texts e.venid e.devid (texts_of e) file)

module _ {S : Type 0} (ioctl : Calls S) (pciname_file : Option NamesFile) (mmio_base : ℕ) where
  -- `LFDD_IOCTL`: the state after a call that succeeds, and the value read.
  pub read_or_exit : Pcix → ScanState S → (ℕ → Part S) → Flow × ScanState S
  read_or_exit p st next =
      let ((failed, p'), s') = ioctl Command.pci_read_word p (st.world) in
      let st' = record st { lfdd_pci_data = p'; world = s' } in
      if failed == 0 then next (p'.buf) st' else (exits, st')

  -- The end of a round: the record put in the list, and the test of its length.
  pub keep_record : Option PciData → Part S
  keep_record none st = (faults, st)
  keep_record (some e) st =
      let (e', (p', s')) = assign_mmio_base ioctl mmio_base e st.lfdd_pci_data st.world in
      let st' : ScanState S = record {
        lfdd_pci_data = p';
        lfdd_pci_list = set st.lfdd_pci_list st.pci_list_len e';
        pci_list_len = st.pci_list_len + 1;
        world = s';
      } in
      (if leb max_pcibuf (st.pci_list_len + 1) then full else going, st')

  -- The body of the loops.
  pub visit : ℕ → ℕ → ℕ → Part S
  visit bus dev fun st =
      let p = record (st.lfdd_pci_data) {
        bus = bus;
        dev = dev;
        fun = fun;
        reg = 0;
        phy_base = 0;
      } in
      read_or_exit p st (λ vendor st1.
        let found =
          read_or_exit (record (st1.lfdd_pci_data) { reg = u16 (st1.lfdd_pci_data.reg + 2) }) st1
            (λ device st2.
              let old = get_or st2.lfdd_pci_list st2.pci_list_len no_device in
              keep_record
                (named pciname_file (record old {
                  bus = bus;
                  dev = dev;
                  fun = fun;
                  venid = u16 vendor;
                  devid = u16 device;
                }))
                st2) in
        if not (bit_and vendor 0xffff == 0xffff) then found else (going, st1))

  -- The three loops.
  pub scan_pci_device : ℕ → Part S
  scan_pci_device maxpcibus st =
      for_each (count_from 0 maxpcibus)
        (λ bus.
          for_each (count_from 0 32) (λ dev. for_each (count_from 0 8) (λ fun. visit bus dev fun)))
        (record st { pci_list_len = 0 })
