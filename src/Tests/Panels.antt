-- ===== src/Tests/Panels.antt =====
-- The theorems on the screens at one state each.
use lfdk.Common.{true}
use lfdk.Screens.Mode.{word_mode}
use lfdk.Screens.Memory.{no_input, MemScreen}
use lfdk.Screens.Cmos.{CmosScreen}

abbrev page : MemScreen
page = record {
  x = 4;
  y = 2;
  input = no_input;
  wbuf = 0;
  display_mode = word_mode;
  phyaddr = 0x1_2300;
}

abbrev entry : CmosScreen
entry = record { x = 3; y = 1; entering = true; wbuf = 0x5a }
