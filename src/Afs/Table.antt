-- ===== src/Afs/Table.antt =====
-- The directory of kernel/afs.c, its free extents and the allocation of sectors. The directory is its
-- sixteen entries; the layout of an entry in its 32 bytes is not followed.
use aeos.Base.{
  List, replicate, Bool, ℕ, add32, find_index, ◌∷◌, if◌then◌else◌, get_or, Option, leb, some, not,
  ◌+◌, [], ◌==◌, ◌/◌, ◌-◌, none, false, take, ◌&&◌, true, ltb, set, suc, zero,
}

abbrev pub sector : ℕ
sector = 512

abbrev pub chunk_size : ℕ
chunk_size = 4096

-- `AFS_MAGIC`, `AFS_MAX_FILES`, `AFS_NAME_LEN` and `AFS_MAX_FREE_EXTENTS`
abbrev pub magic_word : ℕ
magic_word = 0x31534645

abbrev pub max_files : ℕ
max_files = 16

abbrev pub name_len : ℕ
name_len = 24

abbrev pub max_extents : ℕ
max_extents = 32

-- `afs_dirent_t`; a start of 0 marks a free slot.
pub record Entry : Type 0 where
  pub name : List ℕ
  pub start_lba : ℕ
  pub size : ℕ

-- `afs_free_extent_t`
pub record Extent : Type 0 where
  pub start_lba : ℕ
  pub count : ℕ

-- `afs_state_t` and the free extents
pub record Afs : Type 0 where
  pub mounted : Bool
  pub total_sectors : ℕ
  pub data_lba : ℕ
  pub next_free_lba : ℕ
  pub free_extents : List Extent
  pub free_extent_count : ℕ

abbrev pub zero_entry : Entry
zero_entry = record { name = replicate 24 0; start_lba = 0; size = 0 }

abbrev pub zero_extent : Extent
zero_extent = record { start_lba = 0; count = 0 }

-- `(n + 511) / 512` on `uint32_t`
abbrev pub sectors_of : ℕ → ℕ
sectors_of n = add32 n 511 / sector

-- `fname_eq` on the memory at two names, whose bytes past the list are 0
unfoldable pub fname_eq : List ℕ → List ℕ → Bool
fname_eq [] [] = true
fname_eq [] (b ∷ bs) = b == 0
fname_eq (a ∷ as') [] = a == 0
fname_eq (a ∷ as') (b ∷ bs) =
    let rest = fname_eq as' bs in if a == b then (if a == 0 then true else rest) else false

-- The extent found is cut from its start, and replaced by the last when it is used up.
abbrev pub cut_extent : Afs → ℕ → ℕ → ℕ × Afs
cut_extent fs nlbas i =
    let e = get_or fs.free_extents i zero_extent in
    let left : Extent = record { start_lba = add32 e.start_lba nlbas; count = e.count - nlbas } in
    let extents = set fs.free_extents i left in
    (
      e.start_lba,
      (if left.count == 0
          then record fs {
            free_extents = set extents i (get_or extents (fs.free_extent_count - 1) zero_extent);
            free_extent_count = fs.free_extent_count - 1;
          }
          else record fs { free_extents = extents }),
    )

abbrev pub cut_found : Afs → ℕ → Option ℕ → ℕ × Afs
cut_found fs nlbas none = (0, fs)
cut_found fs nlbas (some i) = cut_extent fs nlbas i

-- `alloc_from_free_list`
unfoldable pub alloc_from_free_list : Afs → ℕ → ℕ × Afs
alloc_from_free_list fs nlbas =
    cut_found fs nlbas
      (find_index (λ e. leb nlbas e.count) (take fs.free_extent_count fs.free_extents))

-- `add_to_free_list`, whose result the caller ignores
unfoldable pub add_to_free_list : Afs → ℕ → ℕ → Afs
add_to_free_list fs start count = if leb max_extents fs.free_extent_count then fs else record fs {
  free_extents =
      set fs.free_extents fs.free_extent_count (record { start_lba = start; count = count });
  free_extent_count = fs.free_extent_count + 1;
}

-- `find_slot(name, 0)`: the index of the file of that name
unfoldable pub find_file : List Entry → List ℕ → Option ℕ
find_file dir name = find_index (λ e. if e.start_lba == 0 then false else fname_eq e.name name) dir

-- The name stored in a fresh slot: at most 23 characters, and zeros
pub store_name : List ℕ → ℕ → ℕ → List ℕ
store_name name j zero = 0 ∷ []
store_name name j (suc n) =
    let rest = store_name name (suc j) n in
    if get_or name j 0 == 0 then replicate (suc (suc n)) 0 else get_or name j 0 ∷ rest

abbrev pub fresh_slot : List Entry → List ℕ → Option ℕ → Option (ℕ × List Entry)
fresh_slot dir name none = none
fresh_slot dir name (some i) =
    some (i, set dir i (record { name = store_name name 0 23; start_lba = 0; size = 0 }))

abbrev pub slot_or : List Entry → List ℕ → Option ℕ → Option (ℕ × List Entry)
slot_or dir name (some i) = some (i, dir)
slot_or dir name none = fresh_slot dir name (find_index (λ e. e.start_lba == 0) dir)

-- `find_slot(name, 1)`: the slot of the file, or a fresh one
unfoldable pub find_or_create : List Entry → List ℕ → Option (ℕ × List Entry)
find_or_create dir name = slot_or dir name (find_file dir name)

-- The `uint32_t` end of a file's extent, as `afs_mount` computes it
abbrev pub extent_end : Entry → ℕ
extent_end e = add32 e.start_lba (sectors_of e.size)

-- The loop of `afs_mount` that moves the bump pointer past every file
pub resume : ℕ → List Entry → ℕ
resume next [] = next
resume next (e ∷ dir) =
    resume
      (if e.start_lba == 0 then next else if ltb next (extent_end e) then extent_end e else next)
      dir

-- Whether an existing file's extent still fits, and its address
abbrev pub rewritten : List Entry → ℕ → Option ℕ → Option ℕ
rewritten dir nlbas none = none
rewritten dir nlbas (some i) =
    let e = get_or dir i zero_entry in
    if leb nlbas (sectors_of e.size) then some e.start_lba else none

-- The bump pointer, where the free list has nothing; `none` is a full disk.
abbrev pub bump : ℕ → ℕ × Afs → Option ℕ × Afs
bump nlbas (lba, fs) =
    if not (lba == 0)
    then (some lba, fs)
    else if ltb fs.total_sectors (add32 fs.next_free_lba nlbas)
    then (none, fs)
    else (some fs.next_free_lba, record fs { next_free_lba = add32 fs.next_free_lba nlbas })

abbrev pub allocate : Afs → ℕ → Option ℕ × Afs
allocate fs nlbas = bump nlbas (alloc_from_free_list fs nlbas)

-- The extent of a deleted file goes to the free list.
abbrev pub free_entry : Afs → Entry → Afs
free_entry fs e =
    if not (e.start_lba == 0) && ltb 0 (sectors_of e.size)
    then add_to_free_list fs e.start_lba (sectors_of e.size)
    else fs

-- `afs_file_count` on the directory
pub count_files : List Entry → ℕ
count_files [] = 0
count_files (e ∷ dir) = (if e.start_lba == 0 then 0 else 1) + count_files dir
