-- ===== src/Scan/Names/Safe.antt =====
-- A printed file of names gives texts: no line is too long for the buffer, and the search ends.
use lfdk.Common.{
  ℕ, zero, suc, ◌+◌, ◌<◌, ◌≡◌, refl, List, [], ◌∷◌, Bool-cases, inl, inr, ◌||◌, arith, length,
  false, true, Bool, if◌then◌else◌,
}
use lfdk.Scan.Names.{
  LineRead, line_read, read_from, read_line, whole, Texts, Search, NamesResult, names_found,
  take_line, is_end, search_on, search_names, get_vendor_and_device_texts,
}
use lfdk.Scan.Names.Entries.{
  Entry, vendor, device, note, other, AllEntries, print_all, read_as, read_entry, entry_length,
}

module _ (ven dev : ℕ) where
  abbrev Finds : NamesResult → Type 0
  Finds r = (t : Texts) × (r ≡ names_found t)

  line-Finds :
      (r : LineRead) (s : Search) (next : Search → List ℕ → NamesResult)
      → Finds (next (take_line ven dev r.tabs r.read_buffer s) r.rest)
      → Finds (search_on ven dev (line_read r) s next)
  unfolding search_on
  line-Finds r s next h =
      let s' = take_line ven dev r.tabs r.read_buffer s in
      elim (Bool-cases (s'.done || is_end r.tabs)) [
        | inl e ↦ rw e (s'.texts, refl)
        | inr e ↦ rw e h
      ]

  rest_of : (e : Entry) (rest : List ℕ) → (read_as e rest).rest ≡ rest
  rest_of (vendor id name) rest = refl
  rest_of (device id name) rest = refl
  rest_of (note tabs text comment) rest = refl
  rest_of (other tabs text) rest = refl

  at_end :
      (done : Bool) (t : Texts) (rest : NamesResult)
      → (if done || true then names_found t else rest) ≡ names_found t
  at_end true t rest = refl
  at_end false t rest = refl

  search-Finds :
      (fuel : ℕ) (s : Search) (es : List Entry)
      → AllEntries es
      → length (print_all es) < fuel
      → Finds (search_names ven dev false fuel s (print_all es))
  unfolding search_names print_all
  search-Finds zero s es h k = absurd (omega arith)
  search-Finds (suc fuel) s [] h k =
      unfold read_line read_from search_on take_line is_end in (s.texts, at_end s.done s.texts _)
  search-Finds (suc fuel) s (e ∷ es) h k = rw (read_entry e (print_all es) h.0) (
      line-Finds (read_as e (print_all es)) s (search_names ven dev false fuel) (
        (rw (rest_of e (print_all es)) (
          let r = read_as e (print_all es) in
          search-Finds fuel (take_line ven dev r.tabs r.read_buffer s) es h.1
            (omega (arith, k, entry_length e (print_all es)))))))

  pub texts-Finds :
      (texts : Texts) (es : List Entry)
      → AllEntries es
      → (t : Texts) × (get_vendor_and_device_texts ven dev texts (whole (print_all es))
          ≡ names_found t)
  unfolding get_vendor_and_device_texts
  texts-Finds texts es h = search-Finds (length (print_all es) + 1) _ es h (omega arith)
