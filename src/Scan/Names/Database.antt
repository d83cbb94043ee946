-- ===== src/Scan/Names/Database.antt =====
-- The search for names over a file of PCI ids in its documented form, and what it finds.
use lfdk.Scan.Names.Entries.{
  Entry, vendor, device, note, other, begins_with_digits, compare_id-other, print_all, AllEntries,
  IsEntry, lookup_names, compare_id_lem, name_text_lem, read_as, read_entry, entry_length,
}
use lfdk.Common.{
  ℕ, zero, suc, ◌+◌, ◌<◌, ◌≡◌, refl, true, false, Bool, ◌&&◌, arith, List, [], ◌∷◌, length, ◌==◌,
  Bool-cases, inl, inr, take, pos, negsuc, if◌then◌else◌,
}
use lfdk.Scan.Names.{
  whole, has_text, line_read, read_from, read_line, Texts, Search, NamesResult, names_found,
  take_vendor, take_device, take_line, is_end, search_on, search_names, get_vendor_and_device_texts,
}

module _ (ven dev : ℕ) where
  abbrev search : Bool → Texts → Search
  search found t = record { findven = found; texts = t; done = false }

  no_vendor :
      (text : List ℕ) (s : Search)
      → begins_with_digits 4 text ≡ false
      → take_vendor ven dev text s ≡ s
  unfolding take_vendor
  no_vendor text s h = rw (compare_id-other ven text h) refl

  no_device :
      (text : List ℕ) (s : Search)
      → begins_with_digits 4 text ≡ false
      → take_device ven dev text s ≡ s
  unfolding take_device
  no_device text s h =
      rw (compare_id-other dev text h)
        (elim (Bool-cases s.findven) [ inl e ↦ rw e refl | inr e ↦ rw e refl ])

  other_tabs :
      (tabs : ℕ) (text : List ℕ) (s : Search)
      → (tabs < 2 → begins_with_digits 4 text ≡ false)
      → take_line ven dev (pos tabs) text s ≡ s
  unfolding take_line
  other_tabs zero text s h = no_vendor text s (h (omega arith))
  other_tabs (suc zero) text s h = no_device text s (h (omega arith))
  other_tabs (suc (suc n)) text s h = refl

  other_ignored :
      (tabs : ℕ) (text : List ℕ) (s : Search)
      → (tabs < 2 → begins_with_digits 4 text ≡ false)
      → take_line ven dev (if has_text text then pos tabs else negsuc 0) text s ≡ s
  other_ignored tabs text s h = elim (Bool-cases (has_text text)) [
    | inl e ↦ rw e (other_tabs tabs text s h)
    | inr e ↦ rw e (unfold take_line in refl)
  ]

  other_not_end :
      (tabs : ℕ) (text : List ℕ) → is_end (if has_text text then pos tabs else negsuc 0) ≡ false
  unfolding is_end
  other_not_end tabs text = elim (Bool-cases (has_text text)) [
    | inl e ↦ rw e refl
    | inr e ↦ rw e refl
  ]

  search_on_entry :
      (e : Entry) (rest : List ℕ) (found : Bool) (t : Texts) (es : List Entry)
      (next : Search → List ℕ → NamesResult)
      → ven < 65536
      → dev < 65536
      → IsEntry e
      → ((found' : Bool) (t' : Texts)
          → next (search found' t') rest ≡ names_found (lookup_names ven dev found' t' es))
      → search_on ven dev (line_read (read_as e rest)) (search found t) next
        ≡ names_found (lookup_names ven dev found t (e ∷ es))
  unfolding search_on take_line take_vendor take_device is_end lookup_names
  search_on_entry (vendor id name) rest found t es next hv hd h ih =
      rw (compare_id_lem ven id name hv h.0, name_text_lem id name h.1)
        (elim (Bool-cases (ven == id)) [
          | inl e ↦ rw e (ih true (record t { ventxt = take 75 name }))
          | inr e ↦ rw e (ih found t)
        ])
  search_on_entry (device id name) rest found t es next hv hd h ih =
      rw (compare_id_lem dev id name hd h.0, name_text_lem id name h.1)
        (elim (Bool-cases (found && dev == id)) [ inl e ↦ rw e refl | inr e ↦ rw e (ih found t) ])
  search_on_entry (note tabs text comment) rest found t es next hv hd h ih = ih found t
  search_on_entry (other tabs text) rest found t es next hv hd h ih =
      rw (other_ignored tabs text (search found t) h.1, other_not_end tabs text) (ih found t)

  search_all :
      (fuel : ℕ) (es : List Entry) (found : Bool) (t : Texts)
      → ven < 65536
      → dev < 65536
      → AllEntries es
      → length (print_all es) < fuel
      → search_names ven dev false fuel (search found t) (print_all es)
        ≡ names_found (lookup_names ven dev found t es)
  unfolding search_names print_all lookup_names
  search_all zero es found t hv hd h k = absurd (omega arith)
  search_all (suc fuel) [] found t hv hd h k =
      unfold read_line read_from search_on take_line is_end in refl
  search_all (suc fuel) (e ∷ es) found t hv hd h k =
      let shorter = entry_length e (print_all es) in
      rw (read_entry e (print_all es) h.0) (
        search_on_entry e (print_all es) found t es (search_names ven dev false fuel) hv hd h.0
          (λ found' t'. search_all fuel es found' t' hv hd h.1 (omega arith)))

-- Over a printed list of lines, with ids of 16 bits and
-- names of at most 506 bytes without comment sign, newline or tab, the search finds the texts that
-- the lines give: the last name of the vendor before the first fitting device line behind it.
pub texts-print :
    (ven dev : ℕ) (t : Texts) (es : List Entry)
    → ven < 65536
    → dev < 65536
    → AllEntries es
    → get_vendor_and_device_texts ven dev t (whole (print_all es))
      ≡ names_found (lookup_names ven dev false t es)
unfolding get_vendor_and_device_texts
texts-print ven dev t es hv hd h =
    search_all ven dev (length (print_all es) + 1) es false t hv hd h (omega arith)
