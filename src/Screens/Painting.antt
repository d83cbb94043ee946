-- ===== src/Screens/Painting.antt =====
-- The `paint` functions of the windows, which the manager calls for each window that has started.
use lfdk.Common.{Bool, true, false, Option, none, some, List, [], ◌∷◌, ℤ, if◌then◌else◌}
use lfdk.Windows.State.{WinState, foreground, Window, Manager}
use lfdk.Windows.Requests.{request_window_state}
use lfdk.Windows.Hooks.{Request, ask_focus, transfer}
use lfdk.Driver.Machine.{Machine, Driver}
use lfdk.Driver.Ioctl.{Arg, UserAccess}
use lfdk.Screens.Memory.{MemScreen}
use lfdk.Screens.Memory.Paint.{MemPainting, print_mem_screen}
use lfdk.Screens.Ports.{IoScreen}
use lfdk.Screens.Ports.Paint.{IoPainting, print_io_screen}
use lfdk.Screens.PciDevice.{PciScreen, PciTable}
use lfdk.Screens.PciDevice.Paint.{PciPainting, print_pci_screen}
use lfdk.Screens.Cmos.{CmosScreen}
use lfdk.Screens.Cmos.Paint.{CmosPainting, print_cmos_screen}

pub in_front : Option WinState → Bool
in_front (some foreground) = true
in_front _ = false

-- `request_window_state( ... ) == WM_FOREGROUND`.
pub is_shown : Option Window → ℤ → Manager → Bool
unfolding in_front
is_shown w h wm = in_front (request_window_state w h wm)

-- What a paint of a window leaves: the painting, if it is shown, and the world after it; `none` is
-- a program that ended.
pub painted_by : {A D : Type 0} → Option (A × D) → Option (Option A × D)
painted_by none = none
painted_by (some (a, d)) = some (some a, d)

module _ (m : Machine) (user : UserAccess) (w : Option Window) (h : ℤ) (wm : Manager) where
  pub mem_paint : MemScreen → Arg → Driver m → Option (Option MemPainting × Driver m)
  unfolding painted_by is_shown
  mem_paint s arg d =
      if is_shown w h wm then painted_by (print_mem_screen m user s arg d) else some (none, d)

  pub io_paint : IoScreen → Arg → Driver m → Option (Option IoPainting × Driver m)
  unfolding painted_by is_shown
  io_paint s arg d =
      if is_shown w h wm then painted_by (print_io_screen m user s arg d) else some (none, d)

  pub pci_dev_paint : PciTable → PciScreen → Arg → Driver m → Option (Option PciPainting × Driver m)
  unfolding painted_by is_shown
  pci_dev_paint t s arg d =
      if is_shown w h wm then painted_by (print_pci_screen m user t s arg d) else some (none, d)

  pub cmos_paint : CmosScreen → m.Hw → Option CmosPainting × m.Hw
  unfolding is_shown
  cmos_paint s hw =
      let printed = print_cmos_screen m s hw in
      if is_shown w h wm then (some printed.0, printed.1) else (none, hw)

  -- `pci_scan_paint` behind the search: control goes to the list.
  pub pci_scan_requests : List Request
  unfolding is_shown
  pci_scan_requests = if is_shown w h wm then transfer w h (some "PCI-LIST") ∷ [] else []

-- `pci_scan_start_win`.
pub pci_scan_start_win : Option Window → ℤ → List Request
pci_scan_start_win w h = ask_focus w h ∷ []
