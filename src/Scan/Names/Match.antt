-- ===== src/Scan/Names/Match.antt =====
-- Which lines of the file of PCI ids name a device.
use lfdk.Common.{ℕ, ◌<◌, ◌≡◌, ◌≢◌, refl, ◌∙◌, ap, true, false, List, [], ◌∷◌, ◌++◌, take, arith}
use lfdk.Scan.Names.{Texts, whole, names_found, get_vendor_and_device_texts}
use lfdk.Scan.Names.Entries.{
  Entry, vendor, device, note, other, AllEntries, print_all, lookup_names,
}
use lfdk.Scan.Names.Database.{texts-print}

-- No line of the vendor; no line of the vendor and no line with the id of the device.
abbrev pub NoVendor : ℕ → List Entry → Type 0
NoVendor ven [] = Unit {0}
NoVendor ven (vendor id name ∷ es) = (ven ≢ id) × NoVendor ven es
NoVendor ven (device id name ∷ es) = NoVendor ven es
NoVendor ven (note tabs text comment ∷ es) = NoVendor ven es
NoVendor ven (other tabs text ∷ es) = NoVendor ven es

abbrev pub NoMatch : ℕ → ℕ → List Entry → Type 0
NoMatch ven dev [] = Unit {0}
NoMatch ven dev (vendor id name ∷ es) = (ven ≢ id) × NoMatch ven dev es
NoMatch ven dev (device id name ∷ es) = (dev ≢ id) × NoMatch ven dev es
NoMatch ven dev (note tabs text comment ∷ es) = NoMatch ven dev es
NoMatch ven dev (other tabs text ∷ es) = NoMatch ven dev es

module _ (ven dev : ℕ) where
  skip_before :
      (before rest : List Entry) (t : Texts)
      → NoVendor ven before
      → lookup_names ven dev false t (before ++ rest) ≡ lookup_names ven dev false t rest
  unfolding lookup_names
  skip_before [] rest t h = refl
  skip_before (vendor id name ∷ es) rest t h = ground (arith, skip_before es rest t)
  skip_before (device id name ∷ es) rest t h = skip_before es rest t h
  skip_before (note tabs text comment ∷ es) rest t h = skip_before es rest t h
  skip_before (other tabs text ∷ es) rest t h = skip_before es rest t h

  skip_between :
      (between rest : List Entry) (t : Texts)
      → NoMatch ven dev between
      → lookup_names ven dev true t (between ++ rest) ≡ lookup_names ven dev true t rest
  unfolding lookup_names
  skip_between [] rest t h = refl
  skip_between (vendor id name ∷ es) rest t h = ground (arith, skip_between es rest t)
  skip_between (device id name ∷ es) rest t h = ground (arith, skip_between es rest t)
  skip_between (note tabs text comment ∷ es) rest t h = skip_between es rest t h
  skip_between (other tabs text ∷ es) rest t h = skip_between es rest t h

  at_vendor :
      (name : List ℕ) (rest : List Entry) (t : Texts)
      → lookup_names ven dev false t (vendor ven name ∷ rest)
        ≡ lookup_names ven dev true (record t { ventxt = take 75 name }) rest
  unfolding lookup_names
  at_vendor name rest t = ground arith

  at_device :
      (name : List ℕ) (rest : List Entry) (t : Texts)
      → lookup_names ven dev true t (device dev name ∷ rest) ≡ record t { devtxt = take 75 name }
  unfolding lookup_names
  at_device name rest t = ground arith

  -- In a file of vendors and devices with ids of 16 bits and names of at most 506 bytes without
  -- comment sign, newline or tab, of lines with a comment, also behind at most 512 other bytes, and
  -- of other lines of at most 512 bytes that have two tabs (subsystems) or begin with no id (empty
  -- lines, classes, subclasses), the texts are the first 75 bytes of two names: that of the
  -- vendor's first line, and that of the next line behind it with the id of the device, when the
  -- vendor has no other line before that one. Lines of other vendors may stand between the two.
  pub names_of_device :
      (before between after : List Entry) (vname dname : List ℕ) (t : Texts)
      → ven < 65536
      → dev < 65536
      → AllEntries (before ++ vendor ven vname ∷ (between ++ device dev dname ∷ after))
      → NoVendor ven before
      → NoMatch ven dev between
      → get_vendor_and_device_texts ven dev t
          (whole (print_all (before ++ vendor ven vname ∷ (between ++ device dev dname ∷ after))))
        ≡ names_found (record { ventxt = take 75 vname; devtxt = take 75 dname })
  names_of_device before between after vname dname t hv hd h none_before none_between =
      let tail = between ++ device dev dname ∷ after in
      let named = record t { ventxt = take 75 vname } in
      texts-print ven dev t (before ++ vendor ven vname ∷ tail) hv hd h
      ∙ ap names_found (
          skip_before before (vendor ven vname ∷ tail) t none_before
          ∙ at_vendor vname tail t
          ∙ skip_between between (device dev dname ∷ after) named none_between
          ∙ at_device dname after named)
