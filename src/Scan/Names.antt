-- ===== src/Scan/Names.antt =====
-- `ReadLine`, `CompareID` and `GetVendorAndDeviceTexts` of lfdk/lib_pci_scan.c: the names of a device
-- from the text file of PCI ids.
-- The file is a list of bytes that `read` gives one by one, and behind them the end of the file or
-- a `read` that fails, as on a directory.
pub mod Lines
pub mod Ends
pub mod Entries
pub mod Database
pub mod Match
pub mod Safe
use lfdk.Common.{
  ℕ, zero, suc, ◌+◌, ◌/◌, ◌%◌, ◌==◌, ltb, Bool, true, false, ◌&&◌, ◌||◌, not, List, [], ◌∷◌, ◌++◌,
  length, ℤ, pos, negsuc, if◌then◌else◌,
}

-- `LFDK_MAX_READBUF`.
abbrev pub max_readbuf : ℕ
max_readbuf = 512

-- `LFDK_MAX_PCINAME`.
abbrev pub max_pciname : ℕ
max_pciname = 75

-- The bytes of the file, and whether `read` fails behind them.
pub record NamesFile : Type 0 where
  pub bytes : List ℕ
  pub fails : Bool

-- A file that is read to its end.
abbrev pub whole : List ℕ → NamesFile
whole bytes = record { bytes = bytes; fails = false }

-- What `ReadLine` returns, `read_buffer` up to the bytes written, and the bytes of the file left.
pub record LineRead : Type 0 where
  pub tabs : ℤ
  pub read_buffer : List ℕ
  pub rest : List ℕ

-- `overflow` is a byte written behind the end of `read_buffer`. `read_error`: a `read` failed; its -1
-- counts as true in both loops, which take the unchanged `buf` over and over, so that the search
-- does not return: the tabs or the comment never end, or the bytes run over the end of the buffer.
pub data ReadResult : Type 0 where
  overflow read_error : ReadResult
  line_read : LineRead → ReadResult

-- The rest behind the end of a comment.
pub skip_comment : List ℕ → List ℕ
skip_comment [] = []
skip_comment (c ∷ cs) = if c == 0x0a then cs else skip_comment cs

-- `strlen( read_buffer )` is not 0: the first byte is not 0.
unfoldable pub has_text : List ℕ → Bool
has_text [] = false
has_text (c ∷ cs) = not (c == 0)

-- The comment ends before the bytes do.
unfoldable pub has_newline : List ℕ → Bool
has_newline [] = false
has_newline (c ∷ cs) = c == 0x0a || has_newline cs

-- The loop of `ReadLine`, with the tabs counted and the bytes kept up to here.
unfoldable pub read_from : Bool → ℕ → List ℕ → List ℕ → ReadResult
read_from fails tabs kept [] =
    if fails
    then read_error
    else line_read (record { tabs = negsuc 1; read_buffer = kept; rest = [] })
read_from fails tabs kept (c ∷ cs) =
    let next_tab = read_from fails (tabs + 1) kept cs in
    let next_byte = read_from fails tabs (kept ++ c ∷ []) cs in
    if c == 0x23
    then if fails && not (has_newline cs)
      then read_error
      else line_read (record { tabs = negsuc 0; read_buffer = kept; rest = skip_comment cs })
    else if c == 0x0a
    then line_read (record {
      tabs = if has_text kept then pos tabs else negsuc 0;
      read_buffer = kept;
      rest = cs;
    })
    else if c == 0x09
    then next_tab
    else if ltb (length kept) max_readbuf
    then next_byte
    else overflow

pub read_line : Bool → List ℕ → ReadResult
read_line fails file = read_from fails 0 [] file

-- A digit of `"%x"`.
unfoldable pub hex_digit : ℕ → ℕ
hex_digit d = if ltb d 10 then 0x30 + d else 0x57 + d

-- `"%4.4x"` of an id of 16 bits.
unfoldable pub hex4 : ℕ → List ℕ
unfolding hex_digit
hex4 id =
    hex_digit (id / 4096 % 16)
    ∷ hex_digit (id / 256 % 16)
    ∷ hex_digit (id / 16 % 16)
    ∷ hex_digit (id % 16)
    ∷ []

-- `strncmp` of as many bytes as the first text has, none of them 0; behind its end the buffer is 0.
unfoldable pub starts_with : List ℕ → List ℕ → Bool
starts_with [] buffer = true
starts_with (c ∷ cs) [] = false
starts_with (c ∷ cs) (b ∷ bs) = c == b && starts_with cs bs

-- `!CompareID( id )`.
unfoldable pub compare_id : ℕ → List ℕ → Bool
unfolding starts_with hex4
compare_id id buffer = starts_with (hex4 id) buffer

-- A text up to its first 0, and at most `n` bytes: what `strncpy` copies.
unfoldable pub copied : ℕ → List ℕ → List ℕ
copied zero text = []
copied (suc n) [] = []
copied (suc n) (c ∷ cs) = if c == 0 then [] else c ∷ copied n cs

unfoldable pub behind : ℕ → List ℕ → List ℕ
behind zero buffer = buffer
behind (suc n) [] = []
behind (suc n) (c ∷ cs) = behind n cs

-- The text that `strncpy( …, read_buffer + 6, LFDK_MAX_PCINAME )` leaves.
unfoldable pub name_text : List ℕ → List ℕ
unfolding copied behind
name_text buffer = copied max_pciname (behind 6 buffer)

-- The two texts of a device.
pub record Texts : Type 0 where
  pub ventxt : List ℕ
  pub devtxt : List ℕ

pub data NamesResult : Type 0 where
  out_of_fuel faulted never_ends : NamesResult
  names_found : Texts → NamesResult

-- What a line does in the loop of `GetVendorAndDeviceTexts`: `findven`, the texts and `done`.
pub record Search : Type 0 where
  pub findven : Bool
  pub texts : Texts
  pub done : Bool

-- `tabs == -2`.
unfoldable pub is_end : ℤ → Bool
is_end (pos n) = false
is_end (negsuc n) = n == 1

module _ (venid devid : ℕ) where
  pub take_vendor : List ℕ → Search → Search
  take_vendor buffer s =
      if compare_id venid buffer
      then record s { findven = true; texts = record (s.texts) { ventxt = name_text buffer } }
      else s

  pub take_device : List ℕ → Search → Search
  take_device buffer s =
      if s.findven && compare_id devid buffer
      then record s { texts = record (s.texts) { devtxt = name_text buffer }; done = true }
      else s

  -- The `switch` on the number of tabs.
  pub take_line : ℤ → List ℕ → Search → Search
  take_line (pos zero) buffer s = take_vendor buffer s
  take_line (pos (suc zero)) buffer s = take_device buffer s
  take_line (pos (suc (suc n))) buffer s = s
  take_line (negsuc n) buffer s = s

  -- One round of the loop, with the rounds that follow.
  pub search_on : ReadResult → Search → (Search → List ℕ → NamesResult) → NamesResult
  search_on overflow s next = faulted
  search_on read_error s next = never_ends
  search_on (line_read r) s next =
      let s' = take_line r.tabs r.read_buffer s in
      if s'.done || is_end r.tabs then names_found s'.texts else next s' r.rest

  -- The loop, with fuel.
  pub search_names : Bool → ℕ → Search → List ℕ → NamesResult
  search_names fails zero s file = out_of_fuel
  search_names fails (suc fuel) s file =
      search_on (read_line fails file) s (search_names fails fuel)

  -- `GetVendorAndDeviceTexts` on a file that can be opened, with enough fuel for it.
  pub get_vendor_and_device_texts : Texts → NamesFile → NamesResult
  get_vendor_and_device_texts texts file =
      search_names file.fails (length file.bytes + 1)
        (record { findven = false; texts = texts; done = false }) file.bytes
