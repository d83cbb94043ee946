-- ===== src/Screens/Device.antt =====
-- The calls of the driver as the screens of lfdk make them.
use lfdk.Common.{Option, none, some, ◌==◌, ◌≡◌, if◌then◌else◌, refl}
use lfdk.Driver.Structs.{Command}
use lfdk.Driver.Machine.{Machine, Driver}
use lfdk.Driver.Ioctl.{Arg, Reply, efault, einval, left, UserAccess, ioctl}

module _ (m : Machine) (user : UserAccess) where
  -- The macro `LFDD_IOCTL`: a call that does not return 0 ends the program, `none`.
  pub succeeded : (Reply × Arg) × Driver m → Option (Arg × Driver m)
  succeeded ((left n, arg), d) = if n == 0 then some (arg, d) else none
  succeeded ((efault, arg), d) = none
  succeeded ((einval, arg), d) = none

  pub lfdd_ioctl : Command → Arg → Driver m → Option (Arg × Driver m)
  unfolding succeeded
  lfdd_ioctl c arg d = succeeded (ioctl m user c arg d)

-- A call that copies everything and leaves nothing.
pub lfdd_ioctl-done :
    (m : Machine) (user : UserAccess) (c : Command) (arg arg' : Arg) (d d' : Driver m)
    → ioctl m user c arg d ≡ ((left 0, arg'), d')
    → lfdd_ioctl m user c arg d ≡ some (arg', d')
unfolding lfdd_ioctl succeeded
lfdd_ioctl-done m user c arg arg' d d' e = rw e refl

-- A call that the driver refuses ends the program.
pub lfdd_ioctl-refused :
    (m : Machine) (user : UserAccess) (c : Command) (arg arg' : Arg) (d d' : Driver m)
    → ioctl m user c arg d ≡ ((einval, arg'), d')
    → lfdd_ioctl m user c arg d ≡ none
unfolding lfdd_ioctl succeeded
lfdd_ioctl-refused m user c arg arg' d d' e = rw e refl
