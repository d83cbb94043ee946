-- ===== src/Driver/Ioctl/Replies.antt =====
-- The replies of `lfdd_ioctl`.
use lfdk.Common.{◌≡◌, none, arith, Bool, true, false, if◌then◌else◌}
use lfdk.Driver.Structs.{Command}
use lfdk.Driver.Machine.{Machine, Driver}
use lfdk.Driver.Ioctl.{Arg, UserAccess, efault, einval, ioctl, reading, writing}

-- The commands that lfdd.h declares and `lfdd_ioctl` has no case for.
unfoldable pub is_unserved : Command → Bool
is_unserved Command.io_read_word = true
is_unserved Command.io_read_dword = true
is_unserved Command.io_write_word = true
is_unserved Command.io_write_dword = true
is_unserved _ = false

-- When the caller's memory cannot be read, each command that has a case replies `-EFAULT` and
-- each of the four word and dword commands on ports `-EINVAL`; neither the machine, nor the
-- driver, nor the caller's memory changes.
pub ioctl_unreadable :
    (m : Machine) (user : UserAccess) (c : Command) (arg : Arg) (d : Driver m)
    → user.from_user arg ≡ none
    → ioctl m user c arg d ≡ ((if is_unserved c then einval else efault, arg), d)
unfolding ioctl reading writing is_unserved
ioctl_unreadable m user c arg d e = ground arith

-- The word and dword commands on ports are refused, whatever the caller's memory holds, and
-- nothing changes.
pub ioctl_unserved :
    (m : Machine) (user : UserAccess) (c : Command) (arg : Arg) (d : Driver m)
    → is_unserved c ≡ true
    → ioctl m user c arg d ≡ ((einval, arg), d)
unfolding ioctl is_unserved
ioctl_unserved m user c arg d e = ground arith
