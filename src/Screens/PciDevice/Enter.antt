-- ===== src/Screens/PciDevice/Enter.antt =====
-- The write that the enter key makes on the device screen.
use lfdk.Screens.Mode.{Mode}
