-- ===== src/Screens/PciList/Cursor.antt =====
-- Where the cursor of the list stands.
use lfdk.Common.{ℕ, ◌+◌, ◌-◌, ltb, if◌then◌else◌, ◌<◌, ◌≡◌, arith, ℤ, pos, negsuc}
use lfdk.Screens.Hex.{Key, up, down, left, right, npage, ppage, backspace, f7, code}
use lfdk.Screens.PciList.{move_up, move_down, pci_list_key_press}

-- An index of a record of the list.
abbrev pub IsRecord : ℕ → ℤ → Type 0
IsRecord len (pos i) = i < len
IsRecord len (negsuc n) = ⊥

-- The steps saturate at the ends of a list that is not empty.
move_up_lem : (step i : ℕ) → move_up step (pos i) ≡ pos (i - step)
unfolding move_up
move_up_lem step i = ground arith

move_down_lem :
    (len step i : ℕ)
    → 0 < len
    → move_down len step (pos i) ≡ pos (if ltb (i + step) len then i + step else len - 1)
unfolding move_down
move_down_lem len step i h = ground arith

move_up-IsRecord : (len step i : ℕ) → i < len → IsRecord len (move_up step (pos i))
move_up-IsRecord len step i h = rw (move_up_lem step i) (omega arith)

move_down-IsRecord : (len step i : ℕ) → i < len → IsRecord len (move_down len step (pos i))
move_down-IsRecord len step i h = rw (move_down_lem len step i (omega arith)) (ground arith)

press-IsRecord :
    (len i : ℕ) (handle : ℤ) (key : Key)
    → i < len
    → IsRecord len (pci_list_key_press len handle key (pos i)).0
unfolding pci_list_key_press
press-IsRecord len i handle up h = move_up-IsRecord len 1 i h
press-IsRecord len i handle down h = move_down-IsRecord len 1 i h
press-IsRecord len i handle npage h = move_down-IsRecord len 20 i h
press-IsRecord len i handle ppage h = move_up-IsRecord len 20 i h
press-IsRecord len i handle (code c) h = ground arith
press-IsRecord len i handle left h = h
press-IsRecord len i handle right h = h
press-IsRecord len i handle backspace h = h
press-IsRecord len i handle f7 h = h

-- A key leaves the cursor on a record of the list when it was on one.
pub pci_list_key_press-IsRecord :
    (len : ℕ) (curr handle : ℤ) (key : Key)
    → IsRecord len curr
    → IsRecord len (pci_list_key_press len handle key curr).0
pci_list_key_press-IsRecord len (pos i) handle key h = press-IsRecord len i handle key h
pci_list_key_press-IsRecord len (negsuc n) handle key h = absurd h

-- On an empty list the keys that move down put the cursor at -1, wherever it was.
pub empty_list_lem :
    (i : ℕ) (handle : ℤ)
    → ((pci_list_key_press 0 handle down (pos i)).0 ≡ negsuc 0)
      × ((pci_list_key_press 0 handle npage (pos i)).0 ≡ negsuc 0)
unfolding pci_list_key_press move_down
empty_list_lem i handle = (ground arith, ground arith)
