-- ===== src/Afs/Disjoint.antt =====
-- Over the calls of kernel/afs.c that change files, no sector of the disk has two owners.
use aeos.Base.{
  ℕ, List, [], ◌∷◌, Option, Bool, some, none, get_or, set, not, ◌≡◌, ◌≤◌, ◌==◌, ◌||◌, if_ind, ltb,
  leb, arith, ap, sym, ◌∙◌, refl,
}
use mathlib.Core.Path.{subst}
use aeos.Afs.{Device, relocate, write_at, write_in, write, delete_found, delete_in, delete}
use aeos.Afs.Table.{
  Afs, Entry, zero_entry, sectors_of, find_file, find_or_create, rewritten, allocate,
}
use aeos.Afs.Alloc.{allocate-Allocated}
use aeos.Afs.Files.{IsValid, rewrite-IsValid, delete-IsValid}
use aeos.Afs.Slots.{AllChosen, found_below, find_or_create-AllChosen}
use aeos.Afs.Writes.{IsDisk, Keeps, store-Keeps, place-Keeps, DirWorks}

abbrev index_of : Option ℕ → ℕ
index_of none = 0
index_of (some i) = i

module _ {D : Type 0} (device : Device D) (laws : IsDisk device) (works : DirWorks device) where
  relocate-Keeps :
      (fs : Afs) (disk : D) (old : List Entry) (name src : List ℕ) (len : ℕ)
      (r : Option (ℕ × List Entry))
      → device.load_dir disk ≡ some old
      → IsValid fs old
      → len ≤ 1048576
      → AllChosen old name r
      → Keeps device
          (relocate device fs disk name src len r).0
          (relocate device fs disk name src len r).1.0
  relocate-Keeps fs disk old name src len none loaded v small c = (old, loaded, v)
  relocate-Keeps fs disk old name src len (some (i, dir)) loaded v small c =
      place-Keeps device laws works fs disk old dir name src len i (allocate fs (sectors_of len))
        loaded v c small (allocate-Allocated fs (sectors_of len) v.space (omega arith))

  write_at-Keeps :
      (fs : Afs) (disk : D) (dir : List Entry) (name src : List ℕ) (len : ℕ) (found : Option ℕ)
      → device.load_dir disk ≡ some dir
      → IsValid fs dir
      → len ≤ 1048576
      → find_file dir name ≡ found
      → Keeps device
          (write_at device fs disk name src len dir (rewritten dir (sectors_of len) found)).0
          (write_at device fs disk name src len dir (rewritten dir (sectors_of len) found)).1.0
  write_at-Keeps fs disk dir name src len none loaded v small e =
      relocate-Keeps fs disk dir name src len (find_or_create dir name) loaded v small
        (find_or_create-AllChosen dir name v.entries)
  write_at-Keeps fs disk dir name src len (some i) loaded v small e =
      let at = found_below dir name i v.entries e in
      if_ind
        (λ r.
          Keeps device (write_at device fs disk name src len dir r).0
            (write_at device fs disk name src len dir r).1.0)
        (leb (sectors_of len) (sectors_of (get_or dir i zero_entry).size)) _ _
        (λ fits.
          store-Keeps device laws works fs disk dir dir name src len
            (get_or dir i zero_entry).start_lba loaded v (ground (arith, at.1, (v.inside i at.0).0))
            (omega (arith, (v.inside i at.0).1)) small
            (λ k again.
              subst (λ j. IsValid fs (set dir j (record (get_or dir j zero_entry) { size = len })))
                (ap index_of (sym e ∙ again))
                (rewrite-IsValid fs dir i len v at.0 (ground (arith, fits)))))
        (λ f.
          relocate-Keeps fs disk dir name src len (find_or_create dir name) loaded v small
            (find_or_create-AllChosen dir name v.entries))

  write-Keeps :
      (fs : Afs) (disk : D) (name src : List ℕ) (len : ℕ)
      → Keeps device fs disk
      → Keeps device (write device fs disk name src len).0 (write device fs disk name src len).1.0
  unfolding write
  write-Keeps fs disk name src len (dir, loaded, v) =
      if_ind (λ (r : Afs × (D × Option ℕ)). Keeps device r.0 r.1.0)
        (not fs.mounted || (len == 0 || ltb 1048576 len)) _ _ (λ e. (dir, loaded, v))
        (λ e.
          subst
            (λ r.
              Keeps device (write_in device fs disk name src len r).0
                (write_in device fs disk name src len r).1.0)
            (sym loaded)
            (write_at-Keeps fs disk dir name src len _ loaded v (ground (arith, e)) refl))

  delete_found-Keeps :
      (fs : Afs) (disk : D) (dir : List Entry) (name : List ℕ) (found : Option ℕ)
      → device.load_dir disk ≡ some dir
      → IsValid fs dir
      → find_file dir name ≡ found
      → Keeps device
          (delete_found device fs disk dir found).0
          (delete_found device fs disk dir found).1.0
  delete_found-Keeps fs disk dir name none loaded v e = (dir, loaded, v)
  delete_found-Keeps fs disk dir name (some i) loaded v e = (
    _,
    laws.flushes disk _ (works disk _),
    delete-IsValid fs dir i v (found_below dir name i v.entries e).0,
  )

  delete-Keeps :
      (fs : Afs) (disk : D) (name : List ℕ)
      → Keeps device fs disk
      → Keeps device (delete device fs disk name).0 (delete device fs disk name).1.0
  unfolding delete
  delete-Keeps fs disk name (dir, loaded, v) =
      if_ind (λ (r : Afs × (D × Bool)). Keeps device r.0 r.1.0) fs.mounted _ _
        (λ e.
          subst
            (λ r.
              Keeps device (delete_in device fs disk name r).0
                (delete_in device fs disk name r).1.0)
            (sym loaded) (delete_found-Keeps fs disk dir name _ loaded v refl))
        (λ e. (dir, loaded, v))

-- The calls that change files
pub data Call : Type 0 where
  write_call : List ℕ → List ℕ → ℕ → Call
  delete_call : List ℕ → Call

-- The state after a call, and after a sequence of calls
abbrev pub call : {D : Type 0} → Device D → Call → Afs × D → Afs × D
call device (write_call name src len) (fs, disk) =
    let (fs', (disk', n)) = write device fs disk name src len in (fs', disk')
call device (delete_call name) (fs, disk) =
    let (fs', (disk', ok)) = delete device fs disk name in (fs', disk')

abbrev pub run : {D : Type 0} → Device D → List Call → Afs × D → Afs × D
run device [] s = s
run device (c ∷ calls) s = run device calls (call device c s)

call-Keeps :
    {D : Type 0} (device : Device D) (laws : IsDisk device) (works : DirWorks device) (c : Call)
    (s : Afs × D)
    → Keeps device s.0 s.1
    → Keeps device (call device c s).0 (call device c s).1
call-Keeps device laws works (write_call name src len) (fs, disk) k =
    write-Keeps device laws works fs disk name src len k
call-Keeps device laws works (delete_call name) (fs, disk) k =
    delete-Keeps device laws works fs disk name k

-- From a disk whose directory lies in it and where no sector has two owners, any sequence of `afs_write` and `afs_delete` in which no write of the directory fails leaves such a disk, whatever writes of data fail and whichever files are not found or do not fit: no two files, free extents or sectors from the bump pointer on share a sector.
pub run-Keeps :
    {D : Type 0} (device : Device D) (laws : IsDisk device) (works : DirWorks device)
    (calls : List Call) (s : Afs × D)
    → Keeps device s.0 s.1
    → Keeps device (run device calls s).0 (run device calls s).1
run-Keeps device laws works [] s k = k
run-Keeps device laws works (c ∷ calls) s k =
    run-Keeps device laws works calls (call device c s) (call-Keeps device laws works c s k)
