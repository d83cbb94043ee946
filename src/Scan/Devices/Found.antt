-- ===== src/Scan/Devices/Found.antt =====
-- The list that the search leaves, against the devices that answer.
use lfdk.Common.{
  ℕ, suc, ◌%◌, ◌^◌, ◌≤◌, ◌<◌, ◌≡◌, ◌≢◌, refl, sym, ap, ◌∙◌, arith, ◌==◌, List, [], ◌∷◌, ◌++◌,
  length, take, Option, none, some, if◌then◌else◌, append_assoc, append_nil,
}
use lfdk.Screens.PciList.{PciData}
use lfdk.Scan.Names.{NamesResult, NamesFile, out_of_fuel, faulted, never_ends, names_found}
use lfdk.Scan.Devices.{
  ScanState, Flow, going, full, exits, faults, Part, and_then, for_each, count_from, with_names,
  named, max_pcibuf,
}

-- What identifies a device: its place and its ids.
pub record Found : Type 0 where
  pub bus : ℕ
  pub dev : ℕ
  pub fun : ℕ
  pub venid : ℕ
  pub devid : ℕ

abbrev pub found_of : PciData → Found
found_of e = record { bus = e.bus; dev = e.dev; fun = e.fun; venid = e.venid; devid = e.devid }

unfoldable pub found_all : List PciData → List Found
found_all [] = []
found_all (e ∷ es) = found_of e ∷ found_all es

-- The records in use.
abbrev pub listed : {S : Type 0} → ScanState S → List Found
listed st = found_all (take st.pci_list_len st.lfdd_pci_list)

-- Lists of each number put together.
unfoldable pub gather : (ℕ → List Found) → List ℕ → List Found
gather f [] = []
gather f (n ∷ ns) = f n ++ gather f ns

-- The devices that answer, by the words at 0 and 2 of their registers: a vendor id of ones is none.
unfoldable pub present : (ℕ → ℕ → ℕ → ℕ → ℕ) → ℕ → ℕ → ℕ → List Found
present word bus dev fun =
    if word bus dev fun 0 % 2 ^ 16 == 0xffff
    then []
    else (record {
      bus = bus;
      dev = dev;
      fun = fun;
      venid = word bus dev fun 0 % 2 ^ 16;
      devid = word bus dev fun 2 % 2 ^ 16;
    })
      ∷ []

-- All of them on a number of buses, by bus, device and function.
unfoldable pub all_present : (ℕ → ℕ → ℕ → ℕ → ℕ) → ℕ → List Found
all_present word buses =
    gather
      (λ bus.
        gather (λ dev. gather (λ fun. present word bus dev fun) (count_from 0 8)) (count_from 0 32))
      (count_from 0 buses)

-- The names of a device are found or not; no line of the file is too long.
abbrev pub NoFault : Option NamesFile → Type 0
NoFault file = (e : PciData) → named file e ≢ none

pub found_all-append : (xs ys : List PciData) → found_all (xs ++ ys) ≡ found_all xs ++ found_all ys
unfolding found_all
found_all-append [] ys = refl
found_all-append (x ∷ xs) ys = ap (λ l. found_of x ∷ l) (found_all-append xs ys)

pub length-found_all : (xs : List PciData) → length (found_all xs) ≡ length xs
unfolding found_all
length-found_all [] = refl
length-found_all (x ∷ xs) = ap suc (length-found_all xs)

with_names_found :
    (e : PciData) (r : NamesResult) (e' : PciData)
    → with_names e r ≡ some e'
    → found_of e' ≡ found_of e
unfolding with_names
with_names_found e out_of_fuel e' h = absurd (cc)
with_names_found e faulted e' h = absurd (cc)
with_names_found e never_ends e' h = absurd (cc)
with_names_found e (names_found t) e' h = ground arith

pub named_found :
    (file : Option NamesFile) (e e' : PciData) → named file e ≡ some e' → found_of e' ≡ found_of e
unfolding named
named_found none e e' h = ground arith
named_found (some file) e e' h = with_names_found e _ e' h

module _ {S : Type 0} (Settled : S → Type 0) where
  -- A state in the loops: room for a record, and a world in which the devices answer.
  pub record IsScanning (st : ScanState S) : Type 0 where
    pub room : st.pci_list_len < max_pcibuf
    pub array : max_pcibuf ≤ length st.lfdd_pci_list
    pub settled : Settled st.world

  -- What a part of the loops adds to the list before it: all that it finds, or as much as makes the
  -- list full.
  abbrev pub Outcome : List Found → Flow × ScanState S → Type 0
  Outcome all (going, st) = (listed st ≡ all) × IsScanning st
  Outcome all (full, st) =
      (extra : List Found) × (all ≡ listed st ++ extra)
      × (length (listed st) ≡ max_pcibuf)
      × (st.pci_list_len ≡ max_pcibuf)
  Outcome all (exits, st) = ⊥
  Outcome all (faults, st) = ⊥

  abbrev pub Adds : Part S → List Found → Type 0
  Adds part found = (st : ScanState S) → IsScanning st → Outcome (listed st ++ found) (part st)

  and_then-Outcome :
      (before first second : List Found) (r : Flow × ScanState S) (next : Part S)
      → Outcome (before ++ first) r
      → Adds next second
      → Outcome (before ++ (first ++ second)) (and_then r next)
  unfolding and_then
  and_then-Outcome before first second (going, st) next o h =
      let e : listed st ++ second ≡ before ++ (first ++ second) =
        ap (λ l. l ++ second) o.0 ∙ append_assoc before first second in
      rw (← e) (h st o.1)
  and_then-Outcome before first second (full, st) next o h =
      let e : before ++ (first ++ second) ≡ listed st ++ (o.0 ++ second) =
        sym (append_assoc before first second)
        ∙ ap (λ l. l ++ second) (o.1)
        ∙ append_assoc (listed st) o.0 second in
      (o.0 ++ second, e, o.2, o.3)
  and_then-Outcome before first second (exits, st) next o h = absurd o
  and_then-Outcome before first second (faults, st) next o h = absurd o

  pub for_each-Adds :
      (ns : List ℕ) (body : ℕ → Part S) (f : ℕ → List Found)
      → ((n : ℕ) → Adds (body n) (f n))
      → Adds (for_each ns body) (gather f ns)
  unfolding for_each gather
  for_each-Adds [] body f h st ok = (sym (append_nil (listed st)), ok)
  for_each-Adds (n ∷ ns) body f h st ok =
      and_then-Outcome (listed st) (f n) (gather f ns) (body n st) (for_each ns body) (h n st ok)
        (for_each-Adds ns body f h)
