-- ===== src/Afs/Tests.antt =====
-- A small disk for kernel/afs.c, and an instance of the theorem about `afs_read`.
use aeos.Base.{
  ℕ, List, replicate, ◌∷◌, ◌≡◌, true, some, none, refl, arith, [], zero, suc, sym, get_or,
  get_or-replicate, ◌<◌,
}
use aeos.Afs.{Device}
use aeos.Afs.Table.{Afs, Entry, zero_entry, zero_extent}
use mathlib.Core.Path.{subst}
use aeos.Afs.Space.{IsSpace, InDisk}
use aeos.Afs.Alloc.{InVolume}
use aeos.Afs.Files.{IsValid}
use aeos.Afs.Writes.{IsDisk, Keeps}
use aeos.Afs.Disjoint.{Call, write_call, delete_call, run, run-Keeps}
use aeos.Afs.Read.{copied}

-- A device whose contents are its directory; every sector reads as zeros.
abbrev Small : Type 0
Small = List Entry

abbrev small : Device Small
small = record {
  capacity = λ d. 1048576;
  read_sectors = λ d lba n. some (replicate 4096 0);
  write_sectors = λ d lba bytes n. (d, true);
  load_sb = λ d. none;
  flush_sb = λ d sb. (d, true);
  load_dir = λ d. some d;
  flush_dir = λ d dir. (dir, true);
}

-- One file, "a", of 5000 bytes
abbrev disk : Small
disk = record { name = 97 ∷ 0 ∷ []; start_lba = 2; size = 5000 } ∷ replicate 15 zero_entry

abbrev fs : Afs
fs = record {
  mounted = true;
  total_sectors = 2048;
  data_lba = 2;
  next_free_lba = 15;
  free_extents = record { start_lba = 12; count = 3 } ∷ replicate 31 zero_extent;
  free_extent_count = 1;
}

abbrev a_name : List ℕ
a_name = 97 ∷ 0 ∷ []

copied_10 : copied 5000 10 ≡ 4096
copied_10 = refl

small-IsDisk : IsDisk small
small-IsDisk = record { flushes = λ d dir ok. refl; keeps = λ d lba bytes n h. refl }

fs-IsSpace : IsSpace fs
fs-IsSpace = record {
  slots = refl;
  counted = omega arith;
  next_beyond = omega arith;
  next_small = omega arith;
  total_small = omega arith;
  inside = inside_free;
}
  where
    inside_free : (j : ℕ) → j < 1 → InDisk (get_or fs.free_extents j zero_extent)
    inside_free zero h = (omega arith, omega arith)
    inside_free (suc j) h = absurd (omega (arith, h))

disk-IsValid : IsValid fs disk
disk-IsValid = record {
  space = fs-IsSpace;
  entries = refl;
  inside = inside_disk;
  apart = λ s. ground arith;
}
  where
    inside_disk : (i : ℕ) → i < 16 → InVolume (get_or disk i zero_entry)
    inside_disk zero h = (omega arith, omega arith)
    inside_disk (suc i) h =
        subst InVolume (sym (get_or-replicate 15 i zero_entry zero_entry (omega (arith, h))))
          (omega arith, omega arith)

-- "a" deleted, and two files written
abbrev calls : List Call
calls =
    delete_call a_name
    ∷ write_call (98 ∷ 0 ∷ []) (replicate 600 1) 600
    ∷ write_call a_name (replicate 9000 2) 9000
    ∷ []

run-Keeps_example : Keeps small (run small calls (fs, disk)).0 (run small calls (fs, disk)).1
run-Keeps_example =
    run-Keeps small small-IsDisk (λ d dir. refl) calls (fs, disk) (disk, refl, disk-IsValid)
