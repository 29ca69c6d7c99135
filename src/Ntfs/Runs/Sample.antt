-- ===== src/Ntfs/Runs/Sample.antt =====
-- A runlist of three runs, the second a hole, for the tests.
use rohos_disk_browser.Prelude.{List, [], ◌∷◌}
use rohos_disk_browser.Ntfs.Runs.{Run, lcn_hole, lcn_enoent}

abbrev pub sample : List Run
sample =
    record { vcn = 0; lcn = 1000; length = 16 }
    ∷ record { vcn = 16; lcn = lcn_hole; length = 8 }
    ∷ record { vcn = 24; lcn = 500; length = 4 }
    ∷ record { vcn = 28; lcn = lcn_enoent; length = 0 }
    ∷ []
