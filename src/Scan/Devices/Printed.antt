-- ===== src/Scan/Devices/Printed.antt =====
-- A printed file of names is read without a fault.
use lfdk.Common.{◌∙◌, sym, ap, List, some}
use mathlib.Core.Option.{none-ne-some}
use lfdk.Scan.Names.{whole}
use lfdk.Scan.Names.Safe.{texts-Finds}
use lfdk.Scan.Names.Entries.{Entry, AllEntries, print_all}
use lfdk.Scan.Devices.{named, with_names, texts_of}
use lfdk.Scan.Devices.Found.{NoFault}

pub print_all-NoFault : (es : List Entry) → AllEntries es → NoFault (some (whole (print_all es)))
unfolding named with_names
print_all-NoFault es h e empty =
    let (t, found) = texts-Finds e.venid e.devid (texts_of e) es h in
    none-ne-some _ (sym empty ∙ ap (with_names e) found)
