-- ===== src/Afs.antt =====
-- The disk file system of kernel/afs.c, over a block device that is a parameter.
use aeos.Base.{
  List, replicate, Bool, ℕ, add32, ◌∷◌, if◌then◌else◌, get_or, Option, some, not, ◌+◌, [], ◌==◌,
  ◌/◌, ◌-◌, none, false, take, ◌||◌, true, ltb, set, suc, ◌++◌, drop, ◌&&◌, ◌%◌, ◌^◌, zero, ℤ, pos,
  negsuc,
}
use aeos.Afs.Table.{
  Afs, Entry, sector, chunk_size, max_files, magic_word, zero_entry, sectors_of, find_file,
  find_or_create, resume, rewritten, allocate, free_entry, count_files,
}
pub mod Table
pub mod Counts
pub mod Space
pub mod Alloc
pub mod Files
pub mod Slots
pub mod Writes
pub mod Disjoint
pub mod Read
pub mod Tests

-- `afs_superblock_t`
pub record Superblock : Type 0 where
  pub magic : ℕ
  pub version : ℕ
  pub total_sectors : ℕ
  pub data_start_lba : ℕ

-- What the block driver does, for a device with contents `D`: its size in bytes, sectors of the volume, and the superblock and the directory sector as the records they hold. A write gives the contents after it and whether it succeeded; `none` is a failed read.
pub record Device (D : Type 0) : Type 0 where
  pub capacity : D → ℕ
  pub read_sectors : D → ℕ → ℕ → Option (List ℕ)
  pub write_sectors : D → ℕ → List ℕ → ℕ → D × Bool
  pub load_sb : D → Option Superblock
  pub flush_sb : D → Superblock → D × Bool
  pub load_dir : D → Option (List Entry)
  pub flush_dir : D → List Entry → D × Bool

-- `(int)done`
abbrev pub int_of : ℕ → ℤ
int_of n = if ltb (n % 2 ^ 32) (2 ^ 31) then pos (n % 2 ^ 32) else negsuc (2 ^ 32 - 1 - n % 2 ^ 32)

-- A failed request ends `afs_read`.
abbrev pub after_read :
    (List ℕ → Option (Option (ℤ × List ℕ))) → Option (List ℕ) → Option (Option (ℤ × List ℕ))
after_read next none = some none
after_read next (some sectors) = next sectors

module _ {D : Type 0} (device : Device D) where
  -- The loop of `afs_read` from `done` bytes on; `buf` is the memory at the caller's buffer. The outer `none` is fuel run out, the inner a failed request.
  pub read_loop : D → ℕ → ℕ → ℕ → ℕ → ℕ → List ℕ → Option (Option (ℤ × List ℕ))
  read_loop disk lba size max zero at buf = none
  read_loop disk lba size max (suc fuel) at buf =
      let n = (if ltb chunk_size (size - at) then chunk_size else size - at) in
      let next = (λ (sectors : List ℕ).
        read_loop disk lba size max fuel (at + n)
          (take at buf ++ (take n sectors ++ drop (at + n) buf))) in
      if ltb at max && ltb at size
      then after_read next
          (device.read_sectors disk (add32 lba (at / sector % 2 ^ 32)) (sectors_of n))
      else some (some (int_of at, buf))

  -- The rest of `afs_read` once the file is found
  abbrev pub read_found : D → List Entry → ℕ → List ℕ → Option ℕ → Option (Option (ℤ × List ℕ))
  read_found disk dir max buf none = some none
  read_found disk dir max buf (some i) =
      let e = get_or dir i zero_entry in
      read_loop disk e.start_lba e.size max (e.size / chunk_size + 2) 0 buf

  abbrev pub read_in : D → List ℕ → ℕ → List ℕ → Option (List Entry) → Option (Option (ℤ × List ℕ))
  read_in disk name max buf none = some none
  read_in disk name max buf (some dir) = read_found disk dir max buf (find_file dir name)

  -- `afs_read`: the count and the buffer, or -1
  pub read : Afs → D → List ℕ → List ℕ → ℕ → Option (Option (ℤ × List ℕ))
  read fs disk name buf max =
      if not fs.mounted || max == 0
      then some none
      else read_in disk name max buf (device.load_dir disk)

  -- The loop of `afs_write` over chunks, `rounds` of them from the one at `off`, until a write fails
  unfoldable pub write_loop : D → ℕ → List ℕ → ℕ → ℕ → ℕ → D × Bool
  write_loop disk lba src len off zero = (disk, true)
  write_loop disk lba src len off (suc rounds) =
      let n = (if ltb chunk_size (len - off) then chunk_size else len - off) in
      let (disk', ok) =
        device.write_sectors disk (add32 lba (off / sector)) (take n (drop off src))
          (sectors_of n) in
      let rest = write_loop disk' lba src len (off + chunk_size) rounds in
      if ok then rest else (disk', false)

  -- The size is set and the directory written back.
  abbrev pub commit : D → List Entry → ℕ → Option ℕ → D × Option ℕ
  commit disk dir len none = (disk, none)
  commit disk dir len (some i) =
      let (disk', ok) =
        device.flush_dir disk (set dir i (record (get_or dir i zero_entry) { size = len })) in
      (disk', if ok then some len else none)

  -- From the loop on
  abbrev pub store : D → List Entry → List ℕ → List ℕ → ℕ → ℕ → D × Option ℕ
  store disk dir name src len lba =
      let (disk', ok) = write_loop disk lba src len 0 ((len + 4095) / chunk_size) in
      if ok then commit disk' dir len (find_file dir name) else (disk', none)

  -- A slot and sectors are found, and the slot takes its address.
  abbrev pub place :
      Afs → D → List ℕ → List ℕ → ℕ → ℕ → List Entry → Option ℕ × Afs → Afs × (D × Option ℕ)
  place fs disk name src len i dir (none, fs') = (fs', (disk, none))
  place fs disk name src len i dir (some lba, fs') = (
    fs',
    store disk (set dir i (record (get_or dir i zero_entry) { start_lba = lba })) name src len lba,
  )

  abbrev pub relocate :
      Afs → D → List ℕ → List ℕ → ℕ → Option (ℕ × List Entry) → Afs × (D × Option ℕ)
  relocate fs disk name src len none = (fs, (disk, none))
  relocate fs disk name src len (some (i, dir)) =
      place fs disk name src len i dir (allocate fs (sectors_of len))

  abbrev pub write_at : Afs → D → List ℕ → List ℕ → ℕ → List Entry → Option ℕ → Afs × (D × Option ℕ)
  write_at fs disk name src len dir (some lba) = (fs, store disk dir name src len lba)
  write_at fs disk name src len dir none = relocate fs disk name src len (find_or_create dir name)

  abbrev pub write_in : Afs → D → List ℕ → List ℕ → ℕ → Option (List Entry) → Afs × (D × Option ℕ)
  write_in fs disk name src len none = (fs, (disk, none))
  write_in fs disk name src len (some dir) =
      write_at fs disk name src len dir (rewritten dir (sectors_of len) (find_file dir name))

  -- `afs_write` of the `len` bytes at `src`: the disk, and the length or -1
  unfoldable pub write : Afs → D → List ℕ → List ℕ → ℕ → Afs × (D × Option ℕ)
  write fs disk name src len =
      if not fs.mounted || (len == 0 || ltb 1048576 len)
      then (fs, (disk, none))
      else write_in fs disk name src len (device.load_dir disk)

  abbrev pub flushed : Afs → D → List Entry → Afs × (D × Bool)
  flushed fs disk dir = (fs, device.flush_dir disk dir)

  abbrev pub delete_found : Afs → D → List Entry → Option ℕ → Afs × (D × Bool)
  delete_found fs disk dir none = (fs, (disk, false))
  delete_found fs disk dir (some i) =
      flushed (free_entry fs (get_or dir i zero_entry)) disk (set dir i zero_entry)

  abbrev pub delete_in : Afs → D → List ℕ → Option (List Entry) → Afs × (D × Bool)
  delete_in fs disk name none = (fs, (disk, false))
  delete_in fs disk name (some dir) = delete_found fs disk dir (find_file dir name)

  -- `afs_delete`: the disk, and whether it returns 0
  unfoldable pub delete : Afs → D → List ℕ → Afs × (D × Bool)
  delete fs disk name =
      if fs.mounted then delete_in fs disk name (device.load_dir disk) else (fs, (disk, false))

  abbrev pub resumed : Afs → Option (List Entry) → Afs
  resumed fs none = fs
  resumed fs (some dir) = record fs { next_free_lba = resume fs.next_free_lba dir }

  abbrev pub mount_sb : Afs → D → Option Superblock → Bool × Afs
  mount_sb fs disk none = (false, fs)
  mount_sb fs disk (some sb) =
      let mounted_fs : Afs = record fs {
        mounted = true;
        total_sectors = sb.total_sectors;
        data_lba = sb.data_start_lba;
        next_free_lba = sb.data_start_lba;
      } in
      if not (sb.magic == magic_word) || not (sb.version == 1)
      then (false, fs)
      else (true, resumed mounted_fs (device.load_dir disk))

  -- `afs_mount`
  pub mount : Afs → D → Bool × Afs
  mount fs disk =
      if device.capacity disk == 0 then (false, fs) else mount_sb fs disk (device.load_sb disk)

  -- `afs_format`: the disk, and whether it returns 0
  pub format : Afs → D → Afs × (D × Bool)
  format fs disk =
      let sb : Superblock = record {
        magic = magic_word;
        version = 1;
        total_sectors = device.capacity disk / sector % 2 ^ 32;
        data_start_lba = 2;
      } in
      let (disk', ok) = device.flush_sb disk sb in
      let (disk'', done) = device.flush_dir disk' (replicate max_files zero_entry) in
      let ready : Afs = record fs {
        mounted = true;
        total_sectors = sb.total_sectors;
        data_lba = sb.data_start_lba;
        next_free_lba = sb.data_start_lba;
      } in
      if device.capacity disk == 0
      then (fs, (disk, false))
      else if not ok
      then (fs, (disk', false))
      else if not done
      then (fs, (disk'', false))
      else (ready, (disk'', true))

  -- `afs_file_count`
  pub file_count : Afs → D → ℕ
  file_count fs disk =
      if fs.mounted
      then elim (device.load_dir disk) [ none ↦ 0 | some dir ↦ count_files dir ]
      else 0
