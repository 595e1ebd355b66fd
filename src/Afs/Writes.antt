-- ===== src/Afs/Writes.antt =====
-- What `afs_write` of kernel/afs.c leaves on the disk once it has its sectors.
use aeos.Base.{
  ℕ, List, Option, Bool, zero, suc, some, none, get_or, set, take, drop, add32, ◌+◌, ◌-◌, ◌/◌, ◌*◌,
  ◌≡◌, ◌<◌, ◌≤◌, ◌^◌, if◌then◌else◌, if_ind, ltb, arith, ap, sym, ◌∙◌, refl, length-set,
  get_or-set_self, true,
}
use mathlib.Core.Path.{subst}
use aeos.Afs.{Device, write_loop, commit, store, place}
use aeos.Afs.Table.{Afs, Entry, zero_entry, sectors_of, find_file}
use aeos.Afs.Alloc.{Allocated}
use aeos.Afs.Files.{IsValid, set-Changed, relocate-IsValid, reserve-IsValid}
use aeos.Afs.Slots.{Chosen}

-- What the block device promises: the directory sector holds what a successful flush wrote, and a write elsewhere leaves it alone. Of a flush that fails it promises nothing.
pub record IsDisk {D : Type 0} (device : Device D) : Type 0 where
  pub flushes :
      (disk : D) (dir : List Entry)
      → (device.flush_dir disk dir).1 ≡ true
      → device.load_dir (device.flush_dir disk dir).0 ≡ some dir
  pub keeps :
      (disk : D) (lba : ℕ) (bytes : List ℕ) (n : ℕ)
      → 1 < lba
      → device.load_dir (device.write_sectors disk lba bytes n).0 ≡ device.load_dir disk

-- The condition of a run in which no write of the directory sector fails
abbrev pub DirWorks : {D : Type 0} → Device D → Type 0
DirWorks {D} device = (disk : D) (dir : List Entry) → (device.flush_dir disk dir).1 ≡ true

-- The directory on the disk is well-formed and disjoint.
abbrev pub Keeps : {D : Type 0} → Device D → Afs → D → Type 0
Keeps device fs disk = (dir : List Entry) × (device.load_dir disk ≡ some dir) × IsValid fs dir

module _ {D : Type 0} (device : Device D) (laws : IsDisk device) (works : DirWorks device) where
  write_loop-load :
      (disk : D) (lba : ℕ) (src : List ℕ) (len off rounds : ℕ)
      → 1 < lba
      → lba < 2 ^ 31
      → off + rounds * 4096 < 2 ^ 22
      → device.load_dir (write_loop device disk lba src len off rounds).0 ≡ device.load_dir disk
  unfolding write_loop
  write_loop-load disk lba src len off zero lo hi small = refl
  write_loop-load disk lba src len off (suc rounds) lo hi small =
      let n = (if ltb 4096 (len - off) then 4096 else len - off) in
      let sent =
        device.write_sectors disk (add32 lba (off / 512)) (take n (drop off src)) (sectors_of n) in
      let here : device.load_dir sent.0 ≡ device.load_dir disk =
        laws.keeps disk (add32 lba (off / 512)) (take n (drop off src)) (sectors_of n)
          (omega (arith, lo, hi, small)) in
      if_ind (λ (r : D × Bool). device.load_dir r.0 ≡ device.load_dir disk) sent.1 _ _
        (λ e.
          write_loop-load sent.0 lba src len (off + 4096) rounds lo hi (omega (arith, small))
          ∙ here)
        (λ e. here)

  -- A write keeps the directory, or flushes one that the search for the name finds a slot in.
  pub store-Keeps :
      (fs : Afs) (disk : D) (old dir : List Entry) (name src : List ℕ) (len lba : ℕ)
      → device.load_dir disk ≡ some old
      → IsValid fs old
      → 1 < lba
      → lba < 2 ^ 31
      → len ≤ 1048576
      → ((k : ℕ)
          → find_file dir name ≡ some k
          → IsValid fs (set dir k (record (get_or dir k zero_entry) { size = len })))
      → Keeps device fs (store device disk dir name src len lba).0
  store-Keeps fs disk old dir name src len lba loaded v lo hi small then_valid =
      let looped = write_loop device disk lba src len 0 ((len + 4095) / 4096) in
      let kept =
        write_loop-load disk lba src len 0 ((len + 4095) / 4096) lo hi (omega (arith, small))
        ∙ loaded in
      if_ind (λ (r : D × Option ℕ). Keeps device fs r.0) looped.1 _ _
        (λ e. commit-Keeps looped.0 (find_file dir name) kept refl) (λ e. (old, kept, v))
    where
      commit-Keeps :
          (disk' : D) (found : Option ℕ)
          → device.load_dir disk' ≡ some old
          → find_file dir name ≡ found
          → Keeps device fs (commit device disk' dir len found).0
      commit-Keeps disk' none kept e = (old, kept, v)
      commit-Keeps disk' (some k) kept e = (_, laws.flushes disk' _ (works disk' _), then_valid k e)

  pub place-Keeps :
      (fs : Afs) (disk : D) (old dir : List Entry) (name src : List ℕ) (len i : ℕ)
      (r : Option ℕ × Afs)
      → device.load_dir disk ≡ some old
      → IsValid fs old
      → Chosen old name i dir
      → len ≤ 1048576
      → Allocated fs (sectors_of len) r
      → Keeps device
          (place device fs disk name src len i dir r).0
          (place device fs disk name src len i dir r).1.0
  place-Keeps fs disk old dir name src len i (none, fs') loaded v c small same =
      (old, loaded, subst (λ f. IsValid f old) (sym same) v)
  place-Keeps fs disk old dir name src len i (some lba, fs') loaded v c small t =
      store-Keeps fs' disk old at_lba name src len lba loaded
        (reserve-IsValid fs fs' old lba (sectors_of len) v t) t.beyond (omega (arith, t.fits)) small
        (λ k found.
          let same =
            c.2 (record (get_or dir i zero_entry) { start_lba = lba }) k refl t.beyond found in
          subst
            (λ j. IsValid fs' (set at_lba j (record (get_or at_lba j zero_entry) { size = len })))
            (sym same) moved)
    where
      at_lba : List Entry
      at_lba = set dir i (record (get_or dir i zero_entry) { start_lba = lba })

      last : List Entry
      last = set at_lba i (record (get_or at_lba i zero_entry) { size = len })

      first_set : get_or at_lba i zero_entry ≡ record (get_or dir i zero_entry) { start_lba = lba }
      first_set = get_or-set_self dir i _ zero_entry (omega (arith, c.0, c.1.0))

      second_set : get_or last i zero_entry ≡ record (get_or at_lba i zero_entry) { size = len }
      second_set = get_or-set_self at_lba i _ zero_entry (
          omega (
            arith,
            c.0,
            c.1.0,
            length-set dir i (record (get_or dir i zero_entry) { start_lba = lba }),
          ))

      moved : IsValid fs' last
      moved =
          relocate-IsValid fs fs' old last i lba len v c.0 t
            (set-Changed old at_lba i _ (set-Changed old dir i _ c.1))
            (ap (λ (e : Entry). e.start_lba) second_set ∙ ap (λ (e : Entry). e.start_lba) first_set)
            (ap (λ (e : Entry). e.size) second_set)
