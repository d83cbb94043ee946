-- ===== src/Tests/Search.antt =====
-- The theorems on the search for devices at one input each.
use lfdk.Common.{
  ℕ, ◌^◌, ◌≡◌, refl, arith, ◌==◌, none, some, List, [], ◌∷◌, ◌++◌, length, take, replicate, leb,
  if◌then◌else◌,
}
use lfdk.Driver.Structs.{Command}
use lfdk.Driver.Machine.{Driver}
use lfdk.Driver.Bus.{byte_at}
use lfdk.Scan.Calls.{Calls, AnswersWords, AnswersDwords}
use lfdk.Scan.Names.{Texts, whole, names_found, get_vendor_and_device_texts}
use lfdk.Scan.Names.Ends.{LinesFit, names_end}
use lfdk.Scan.Names.Entries.{Entry, vendor, device, note, other, AllEntries, print_all}
use lfdk.Scan.Names.Match.{names_of_device}
use lfdk.Scan.Capabilities.{assign_mmio_base}
use lfdk.Scan.Capabilities.Ids.{contains, capability_ids}
use lfdk.Scan.Capabilities.Assigned.{agreed, registers, assign_mmio_base_lem}
use lfdk.Scan.Mcfg.{find_mmio_in_mcfg, pci_scan_init}
use lfdk.Scan.Mcfg.Table.{print_table, base-print}
use lfdk.Scan.Devices.{ScanState, going, full, no_device, scan_pci_device, named}
use lfdk.Scan.Devices.Found.{listed, all_present, NoFault}
use lfdk.Scan.Devices.Visit.{scan-take}
use lfdk.Scan.Devices.Printed.{print_all-NoFault}
use lfdk.Scan.Driven.{call_driver, port_address, word_of, scan_through_driver}
use lfdk.Tests.Hardware.{machine, board, ports, fresh}
use lfdk.Tests.Requests.{argument}
use lfdk.Tests.Calls.{present, present-CopiesAll}

-- A file with two vendors, where a line of the second stands between.
abbrev first_lines : List Entry
first_lines = note 0 [] (0x50 ∷ 0x43 ∷ []) ∷ vendor 0x1022 (0x41 ∷ 0x4d ∷ 0x44 ∷ []) ∷ []

abbrev between_lines : List Entry
between_lines = device 0x1235 (0x58 ∷ []) ∷ []

abbrev last_lines : List Entry
last_lines =
    other 2 (0x31 ∷ 0x30 ∷ 0x32 ∷ 0x38 ∷ [])
    ∷ other 0 []
    ∷ other 0 (0x43 ∷ 0x20 ∷ 0x30 ∷ 0x30 ∷ [])
    ∷ note 1 (0x34 ∷ 0x33 ∷ []) (0x31 ∷ [])
    ∷ []

abbrev intel : List ℕ
intel = 0x49 ∷ 0x6e ∷ 0x74 ∷ []

abbrev host_bridge : List ℕ
host_bridge = 0x48 ∷ 0x42 ∷ []

abbrev file_lines : List Entry
file_lines =
    first_lines ++ vendor 0x8086 intel ∷ (between_lines ++ device 0x1237 host_bridge ∷ last_lines)

file_lines-AllEntries : AllEntries file_lines
file_lines-AllEntries = ground arith

abbrev no_texts : Texts
no_texts = record { ventxt = []; devtxt = [] }

names_of_device_example :
    get_vendor_and_device_texts 0x8086 0x1237 no_texts (whole (print_all file_lines))
    ≡ names_found (record { ventxt = intel; devtxt = host_bridge })
names_of_device_example =
    names_of_device 0x8086 0x1237 first_lines between_lines last_lines intel host_bridge no_texts
      (omega arith) (omega arith) file_lines-AllEntries (ground arith) (ground arith)

abbrev two_lines : List ℕ
two_lines = 0x38 ∷ 0x0a ∷ 0x09 ∷ []

two_lines-Fit : LinesFit 0 two_lines
unfolding LinesFit
two_lines-Fit = ground arith

names_end_example :
    (t : Texts) × (get_vendor_and_device_texts 0x8086 0x1237 no_texts (whole two_lines)
      ≡ names_found t)
names_end_example = names_end 0x8086 0x1237 no_texts two_lines two_lines-Fit

-- A device with the capabilities 0x01 and 0x10, at every place.
abbrev device_word : ℕ → ℕ
device_word reg =
    if reg == 0x34
    then 0x40
    else if reg == 0x40
    then 0x5001
    else if reg == 0x50
    then 0x0010
    else if reg == 0
    then 0x8086
    else 0x1237

abbrev answer : Calls (Unit {0})
answer Command.pci_read_dword p s = ((0, record p { buf = 0x1237_8086 }), s)
answer _ p s = ((0, record p { buf = device_word (p.reg) }), s)

abbrev answer_words : AnswersWords answer
answer_words = record {
  Settled = λ s. Unit {0};
  word = λ bus dev fun reg. device_word reg;
  read_word = λ p s e h. refl;
  read_word-Settled = λ p s e h. tt;
}

abbrev answer_dwords : AnswersDwords answer (λ s. Unit {0}) 0xe000_0000
answer_dwords = record {
  dword = λ base bus dev fun reg. 0x1237_8086;
  read_dword = λ p s e h. refl;
  read_dword-Settled = λ p s e h. tt;
}

assign_mmio_base_lem_example :
    (assign_mmio_base answer 0xe000_0000 no_device (argument.pcix) tt).0 ≡ (
      if 0xe000_0000 == 0 then no_device else record no_device {
        phy_base =
            if contains 0x10 (capability_ids (registers answer_words 2 5 1))
            then agreed answer_words 2 5 1 0xe000_0000 answer_dwords
            else 0;
      })
assign_mmio_base_lem_example =
    assign_mmio_base_lem answer_words 2 5 1 0xe000_0000 answer_dwords no_device (argument.pcix) tt
      (refl, refl, refl, refl, tt)

base-print_example :
    (find_mmio_in_mcfg
        (λ i. 7)
        (some (print_table (replicate 4 0x4d) 1 (replicate 34 0x20) 0xe000_0000 (replicate 8 0)))
      ≡ 0xe000_0000)
    × (pci_scan_init
          (λ i. 7)
          0
          (some (print_table (replicate 4 0x4d) 1 (replicate 34 0x20) 0xe000_0000 (replicate 8 0)))
        ≡ (if leb (2 ^ 32) 0xe000_0000 then 0 else 0xe000_0000))
base-print_example =
    base-print (λ i. 7) (replicate 4 0x4d) 1 (replicate 34 0x20) 0xe000_0000 (replicate 8 0) refl
      refl (omega arith) (omega arith)

abbrev start : ScanState (Unit {0})
start = record {
  lfdd_pci_data = argument.pcix;
  lfdd_pci_list = replicate 200 no_device;
  pci_list_len = 7;
  world = tt;
}

scan-take_example :
    (listed (scan_pci_device answer (some (whole (print_all file_lines))) 0xe000_0000 2 start).1
      ≡ take 200 (all_present (λ bus dev fun reg. device_word reg) 2))
    × ((scan_pci_device answer (some (whole (print_all file_lines))) 0xe000_0000 2 start).0 ≡ (
        if leb 200 (length (all_present (λ bus dev fun reg. device_word reg) 2))
        then full
        else going))
    × ((scan_pci_device answer
          (some (whole (print_all file_lines)))
          0xe000_0000
          2
          start).1.pci_list_len
        ≡ length (take 200 (all_present (λ bus dev fun reg. device_word reg) 2)))
scan-take_example =
    scan-take answer answer_words 0xe000_0000 answer_dwords (some (whole (print_all file_lines)))
      (print_all-NoFault file_lines file_lines-AllEntries) 2 start (omega arith) tt

-- The board's bytes of configuration space.
abbrev config_byte : ℕ → ℕ
config_byte a = byte_at (ports.config board) a

abbrev config_word : ℕ → ℕ → ℕ → ℕ → ℕ
config_word bus dev fun reg =
    word_of ports present present-CopiesAll argument config_byte (port_address bus dev fun reg)

abbrev boot : ScanState (Driver machine)
boot = record {
  lfdd_pci_data = argument.pcix;
  lfdd_pci_list = replicate 200 no_device;
  pci_list_len = 0;
  world = fresh;
}

no_file : NoFault none
unfolding named
no_file e = λ f. cc

scan_through_driver_example :
    (listed (scan_pci_device (call_driver machine present argument) none 0 1 boot).1
      ≡ take 200 (all_present config_word 1))
    × ((scan_pci_device (call_driver machine present argument) none 0 1 boot).0
        ≡ (if leb 200 (length (all_present config_word 1)) then full else going))
    × ((scan_pci_device (call_driver machine present argument) none 0 1 boot).1.pci_list_len
        ≡ length (take 200 (all_present config_word 1)))
scan_through_driver_example =
    scan_through_driver ports present present-CopiesAll argument config_byte none 1 boot no_file
      (omega arith) (λ a. refl)
