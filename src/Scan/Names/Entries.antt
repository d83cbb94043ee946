-- ===== src/Scan/Names/Entries.antt =====
-- The file of PCI ids in its documented form, and how its lines are read.
use mathlib.Core.Path.{subst}
use lfdk.Common.{
  ℕ, sym, zero, suc, ◌+◌, ◌/◌, ◌%◌, ◌≤◌, ◌<◌, ◌≡◌, ◌≢◌, refl, ap, ◌∙◌, true, Bool, ◌&&◌, ◌||◌,
  arith, List, [], ◌∷◌, ◌++◌, length, pos, negsuc, leb, ◌==◌, if◌then◌else◌, length-append, take,
  replicate, false, Bool-cases, inl, inr,
}
use lfdk.Scan.Names.{
  LineRead, line_read, has_text, read_from, read_line, skip_comment, hex_digit, hex4, compare_id,
  copied, name_text, Texts, starts_with,
}
use lfdk.Scan.Names.Lines.{AllPlain, IsPlain, read_from-plain, read_from-tabs}

-- The lines of the file: a vendor, a device of the vendor above, a line with a comment (tabs, what
-- stands before the comment sign, the comment), and any other line with its tabs: an empty line, a
-- subsystem, a class, a subclass.
pub data Entry : Type 0 where
  vendor : ℕ → List ℕ → Entry
  device : ℕ → List ℕ → Entry
  note : ℕ → List ℕ → List ℕ → Entry
  other : ℕ → List ℕ → Entry

-- The id, two blanks and the name.
abbrev pub id_line : ℕ → List ℕ → List ℕ
id_line id name = hex4 id ++ 0x20 ∷ 0x20 ∷ name

unfoldable pub print_entry : Entry → List ℕ → List ℕ
print_entry (vendor id name) rest = id_line id name ++ 0x0a ∷ rest
print_entry (device id name) rest = 0x09 ∷ (id_line id name ++ 0x0a ∷ rest)
print_entry (note tabs text comment) rest =
    replicate tabs 0x09 ++ (text ++ 0x23 ∷ (comment ++ 0x0a ∷ rest))
print_entry (other tabs text) rest = replicate tabs 0x09 ++ (text ++ 0x0a ∷ rest)

unfoldable pub print_all : List Entry → List ℕ
unfolding print_entry
print_all [] = []
print_all (e ∷ es) = print_entry e (print_all es)

-- No newline.
abbrev pub IsOneLine : List ℕ → Type 0
IsOneLine [] = Unit {0}
IsOneLine (c ∷ cs) = (c ≢ 0x0a) × IsOneLine cs

abbrev pub IsName : ℕ → List ℕ → Type 0
IsName id name = (id < 65536) × AllPlain name × (length name ≤ 506)

-- The text begins with so many digits of an id.
abbrev is_id_digit : ℕ → Bool
is_id_digit c = (leb 0x30 c && leb c 0x39) || (leb 0x61 c && leb c 0x66)

abbrev pub begins_with_digits : ℕ → List ℕ → Bool
begins_with_digits zero text = true
begins_with_digits (suc n) [] = false
begins_with_digits (suc n) (c ∷ cs) = is_id_digit c && begins_with_digits n cs

abbrev pub IsText : List ℕ → Type 0
IsText text = AllPlain text × (length text ≤ 512)

-- An other line has two tabs or more, or does not begin with an id.
abbrev pub IsEntry : Entry → Type 0
IsEntry (vendor id name) = IsName id name
IsEntry (device id name) = IsName id name
IsEntry (note tabs text comment) = IsText text × IsOneLine comment
IsEntry (other tabs text) = IsText text × (tabs < 2 → begins_with_digits 4 text ≡ false)

abbrev pub AllEntries : List Entry → Type 0
AllEntries [] = Unit {0}
AllEntries (e ∷ es) = IsEntry e × AllEntries es

-- The texts that the entries give: the vendor's last name, and the first name of the device behind
-- any line of the vendor.
unfoldable pub lookup_names : ℕ → ℕ → Bool → Texts → List Entry → Texts
lookup_names ven dev found t [] = t
lookup_names ven dev found t (vendor id name ∷ es) =
    lookup_names ven dev (ven == id || found)
      (if ven == id then record t { ventxt = take 75 name } else t) es
lookup_names ven dev found t (device id name ∷ es) =
    if found && dev == id
    then record t { devtxt = take 75 name }
    else lookup_names ven dev found t es
lookup_names ven dev found t (note tabs text comment ∷ es) = lookup_names ven dev found t es
lookup_names ven dev found t (other tabs text ∷ es) = lookup_names ven dev found t es

-- Two ids of 16 bits are the same if their four digits are.
digit-injective : (a b : ℕ) → a < 16 → b < 16 → (hex_digit a == hex_digit b) ≡ (a == b)
unfolding hex_digit
digit-injective a b h k = ground arith

-- Digits are not the beginning of a text that does not begin with as many digits.
abbrev AllDigits : List ℕ → Type 0
AllDigits [] = Unit {0}
AllDigits (d ∷ ds) = (is_id_digit d ≡ true) × AllDigits ds

no_start :
    (ds text : List ℕ)
    → AllDigits ds
    → begins_with_digits (length ds) text ≡ false
    → starts_with ds text ≡ false
unfolding starts_with
no_start [] text h k = absurd (ground arith)
no_start (d ∷ ds) [] h k = refl
no_start (d ∷ ds) (c ∷ cs) h k = elim (Bool-cases (d == c)) [
  | inl same ↦
      let d_eq_c : d ≡ c = ground arith in
      let digit : is_id_digit c ≡ true = subst (λ n. is_id_digit n ≡ true) d_eq_c h.0 in
      rw same (no_start ds cs h.1 (sym (rw digit refl) ∙ k))
  | inr differ ↦ rw differ refl
]

digit_is_digit : (a : ℕ) → a < 16 → is_id_digit (hex_digit a) ≡ true
unfolding hex_digit
digit_is_digit a h = ground arith

pub compare_id-other :
    (id : ℕ) (text : List ℕ) → begins_with_digits 4 text ≡ false → compare_id id text ≡ false
unfolding compare_id hex4
compare_id-other id text h =
    no_start (hex4 id) text
      (
        digit_is_digit (id / 4096 % 16) (omega arith),
        (
          digit_is_digit (id / 256 % 16) (omega arith),
          (
            digit_is_digit (id / 16 % 16) (omega arith),
            (digit_is_digit (id % 16) (omega arith), tt),
          ),
        ),
      )
      h

digit-IsPlain : (a : ℕ) → a < 16 → IsPlain (hex_digit a)
unfolding hex_digit
digit-IsPlain a h = ground arith

same_digits :
    (a b : ℕ)
    → a < 65536
    → b < 65536
    → ((a / 4096 % 16 == b / 4096 % 16)
        && ((a / 256 % 16 == b / 256 % 16)
            && ((a / 16 % 16 == b / 16 % 16) && ((a % 16 == b % 16) && true))))
      ≡ (a == b)
same_digits a b h k = ground arith

pub compare_id_lem :
    (a b : ℕ) (name : List ℕ) → a < 65536 → b < 65536 → compare_id a (id_line b name) ≡ (a == b)
unfolding compare_id hex4
compare_id_lem a b name h k =
    rw
      (
        digit-injective (a / 4096 % 16) (b / 4096 % 16) (omega arith) (omega arith),
        digit-injective (a / 256 % 16) (b / 256 % 16) (omega arith) (omega arith),
        digit-injective (a / 16 % 16) (b / 16 % 16) (omega arith) (omega arith),
        digit-injective (a % 16) (b % 16) (omega arith) (omega arith),
      )
      (same_digits a b h k)

copied-plain : (n : ℕ) (name : List ℕ) → AllPlain name → copied n name ≡ take n name
unfolding copied
copied-plain zero name h = refl
copied-plain (suc n) [] h = refl
copied-plain (suc n) (c ∷ cs) h = ground (arith, copied-plain n cs)

pub name_text_lem :
    (id : ℕ) (name : List ℕ) → AllPlain name → name_text (id_line id name) ≡ take 75 name
unfolding name_text hex4
name_text_lem id name h = copied-plain 75 name h

line-AllPlain : (id : ℕ) (name : List ℕ) → AllPlain name → AllPlain (id_line id name)
unfolding hex4
line-AllPlain id name h =
    let d = λ (n : ℕ) (k : n < 16). digit-IsPlain n k in
    (
      d (id / 4096 % 16) (omega arith),
      (
        d (id / 256 % 16) (omega arith),
        (
          d (id / 16 % 16) (omega arith),
          (d (id % 16) (omega arith), (omega arith, (omega arith, h))),
        ),
      ),
    )

starts_with_text : (id : ℕ) (name : List ℕ) → has_text (id_line id name) ≡ true
unfolding has_text hex4 hex_digit
starts_with_text id name = ground arith

line_length : (id : ℕ) (name : List ℕ) → length (id_line id name) ≡ length name + 6
unfolding hex4
line_length id name = omega arith

read_id_line :
    (tabs id : ℕ) (name rest : List ℕ)
    → IsName id name
    → read_from false tabs [] (id_line id name ++ 0x0a ∷ rest)
      ≡ line_read (record { tabs = pos tabs; read_buffer = id_line id name; rest = rest })
unfolding read_from hex4
read_id_line tabs id name rest h =
    read_from-plain false tabs [] (id_line id name) (0x0a ∷ rest) (line-AllPlain id name h.1)
      (omega (arith, h.2, line_length id name))
    ∙ rw (starts_with_text id name) refl

skip_comment_lem : (text rest : List ℕ) → IsOneLine text → skip_comment (text ++ 0x0a ∷ rest) ≡ rest
unfolding skip_comment
skip_comment_lem [] rest h = refl
skip_comment_lem (c ∷ cs) rest h = ground (arith, skip_comment_lem cs rest)

-- What the lines read as.
abbrev pub read_as : Entry → List ℕ → LineRead
read_as (vendor id name) rest = record { tabs = pos 0; read_buffer = id_line id name; rest = rest }
read_as (device id name) rest = record { tabs = pos 1; read_buffer = id_line id name; rest = rest }
read_as (note tabs text comment) rest = record { tabs = negsuc 0; read_buffer = text; rest = rest }
read_as (other tabs text) rest = record {
  tabs = if has_text text then pos tabs else negsuc 0;
  read_buffer = text;
  rest = rest;
}

tabs_first :
    (tabs : ℕ) (rest : List ℕ)
    → read_from false 0 [] (replicate tabs 0x09 ++ rest) ≡ read_from false tabs [] rest
tabs_first tabs rest =
    read_from-tabs false tabs 0 [] rest ∙ ap (λ (k : ℕ). read_from false k [] rest) (omega arith)

pub read_entry :
    (e : Entry) (rest : List ℕ)
    → IsEntry e
    → read_line false (print_entry e rest) ≡ line_read (read_as e rest)
unfolding read_line print_entry
read_entry (vendor id name) rest h = read_id_line 0 id name rest h
read_entry (device id name) rest h = unfold read_from in read_id_line 1 id name rest h
read_entry (note tabs text comment) rest h =
    tabs_first tabs (text ++ 0x23 ∷ (comment ++ 0x0a ∷ rest))
    ∙ read_from-plain false tabs [] text (0x23 ∷ (comment ++ 0x0a ∷ rest)) h.0.0
        (omega (arith, h.0.1))
    ∙ (unfold read_from in
        ap (λ (r : List ℕ). line_read (record { tabs = negsuc 0; read_buffer = text; rest = r }))
          (skip_comment_lem comment rest h.1))
read_entry (other tabs text) rest h =
    tabs_first tabs (text ++ 0x0a ∷ rest)
    ∙ read_from-plain false tabs [] text (0x0a ∷ rest) h.0.0 (omega (arith, h.0.1))
    ∙ (unfold read_from in refl)

pub entry_length : (e : Entry) (rest : List ℕ) → length rest < length (print_entry e rest)
unfolding print_entry
entry_length (vendor id name) rest =
    omega (arith, length-append {0} (id_line id name) (0x0a ∷ rest))
entry_length (device id name) rest =
    omega (arith, length-append {0} (id_line id name) (0x0a ∷ rest))
entry_length (note tabs text comment) rest =
    let line = comment ++ 0x0a ∷ rest in
    omega (
      arith,
      length-append {0} (replicate tabs 0x09) (text ++ 0x23 ∷ line),
      length-append {0} text (0x23 ∷ line),
      length-append {0} comment (0x0a ∷ rest),
    )
entry_length (other tabs text) rest = omega (
  arith,
  length-append {0} (replicate tabs 0x09) (text ++ 0x0a ∷ rest),
  length-append {0} text (0x0a ∷ rest),
)
