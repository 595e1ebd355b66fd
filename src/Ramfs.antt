-- ===== src/Ramfs.antt =====
-- The flat file system in memory of kernel/ramfs.c: 32 files of at most 4 KiB.
use aeos.Base.{
  replicate, List, ℤ, map, Option, false, ℕ, Bool, pos, negsuc, find_index, add32, if◌then◌else◌,
  [], ltb, ◌==◌, ◌-◌, not, leb, ◌||◌, ◌^◌, sub32, get_or, suc, some, ◌∷◌, set, true, ◌+◌, zero,
  none,
}
pub mod Copy
pub mod Names
pub mod RoundTrip
pub mod Tests
pub mod Valid

abbrev pub max_files : ℕ
max_files = 32

abbrev pub max_name : ℕ
max_name = 16

abbrev pub max_size : ℕ
max_size = 4096

abbrev pub ok : ℤ
ok = pos 0

abbrev pub err_full : ℤ
err_full = negsuc 0

abbrev pub err_notfound : ℤ
err_notfound = negsuc 1

abbrev pub err_inval : ℤ
err_inval = negsuc 3

pub record File : Type 0 where
  pub name : List ℕ
  pub size : ℕ
  pub in_use : Bool
  pub bytes : List ℕ

pub record Ramfs : Type 0 where
  pub files : List File
  pub file_count : ℕ

abbrev pub zero_file : File
zero_file = record { name = replicate 16 0; size = 0; in_use = false; bytes = replicate 4096 0 }

-- The loop body of `ramfs_init`
abbrev pub clear : File → File
clear f = record f { in_use = false; size = 0 }

-- `ramfs_init`
abbrev pub init : Ramfs → Ramfs
init fs = record { files = map clear fs.files; file_count = 0 }

-- The inner loop of `find_file`: the index at which it stops. A name is the memory from its pointer on.
unfoldable pub first_diff : List ℕ → List ℕ → ℕ → ℕ → ℕ
first_diff a b j zero = j
first_diff a b j (suc n) =
    let rest = first_diff a b (suc j) n in if not (get_or a j 0 == get_or b j 0) then j else rest

abbrev pub same_name : List ℕ → List ℕ → Bool
same_name a b = let j = first_diff a b 0 max_name in j == max_name || get_or a j 0 == get_or b j 0

-- One round of the outer loop.
abbrev pub is_file : List ℕ → File → Bool
is_file name f = if not f.in_use then false else same_name f.name name

-- `find_file`
abbrev pub find_file : List File → List ℕ → Option ℕ
find_file files name = find_index (is_file name) files

-- The two loops of `ramfs_create` that store a name, from byte `j` on with `n` to go.
unfoldable pub store_name : List ℕ → ℕ → ℕ → List ℕ
store_name name j zero = []
store_name name j (suc n) =
    let rest = store_name name (suc j) n in
    if get_or name j 0 == 0 then replicate (suc n) 0 else get_or name j 0 ∷ rest

abbrev pub create_at : Ramfs → List ℕ → Option ℕ → ℤ × Ramfs
create_at fs name none = (err_full, fs)
create_at fs name (some i) = (
  ok,
  record {
    files = set fs.files i (record (get_or fs.files i zero_file) {
      name = store_name name 0 max_name;
      size = 0;
      in_use = true;
    });
    file_count = add32 fs.file_count 1;
  },
)

abbrev pub create_found : Ramfs → List ℕ → Option ℕ → ℤ × Ramfs
create_found fs name (some k) = (ok, fs)
create_found fs name none = create_at fs name (find_index (λ f. not f.in_use) fs.files)

-- `ramfs_create`
unfoldable pub create : Ramfs → List ℕ → ℤ × Ramfs
create fs name = create_found fs name (find_file fs.files name)

-- `for (i = …) dst[d + j] = src[s + j]`, from `j` on with `n` to go
unfoldable pub copy : List ℕ → ℕ → List ℕ → ℕ → ℕ → ℕ → List ℕ
copy dst d src s j zero = dst
copy dst d src s j (suc n) = copy (set dst (d + j) (get_or src (s + j) 0)) d src s (suc j) n

-- `copy_len`
abbrev pub copy_len : ℕ → ℕ → ℕ
copy_len len offset = if ltb (max_size - offset) len then max_size - offset else len

abbrev pub write_file : File → List ℕ → ℕ → ℕ → File
write_file f src len offset =
    let end = add32 offset (copy_len len offset) in
    record f {
      bytes = copy f.bytes offset src 0 0 (end - offset);
      size = if ltb f.size end then end else f.size;
    }

abbrev pub write_at : Ramfs → List ℕ → ℕ → ℕ → Option ℕ → ℤ × Ramfs
write_at fs src len offset none = (err_notfound, fs)
write_at fs src len offset (some k) = if leb max_size offset then (err_inval, fs) else (
  pos (copy_len len offset),
  record fs { files = set fs.files k (write_file (get_or fs.files k zero_file) src len offset) },
)

-- `ramfs_write`
unfoldable pub write : Ramfs → List ℕ → List ℕ → ℕ → ℕ → ℤ × Ramfs
write fs name src len offset = write_at fs src len offset (find_file fs.files name)

-- The conversion of an `uint32_t` to `int`
abbrev pub to_int : ℕ → ℤ
to_int x = if ltb x (2 ^ 31) then pos x else negsuc (2 ^ 32 - 1 - x)

-- The end of `ramfs_read` on a file; the buffer is what the caller passed.
abbrev pub read_file : File → List ℕ → ℕ → ℕ → ℤ × List ℕ
read_file f dst len offset =
    let end = if ltb f.size (add32 offset len) then f.size else add32 offset len in
    if leb f.size offset
    then (pos 0, dst)
    else (to_int (sub32 end offset), copy dst 0 f.bytes offset 0 (end - offset))

abbrev pub read_at : Ramfs → List ℕ → ℕ → ℕ → Option ℕ → ℤ × List ℕ
read_at fs dst len offset none = (err_notfound, dst)
read_at fs dst len offset (some k) = read_file (get_or fs.files k zero_file) dst len offset

-- `ramfs_read`
unfoldable pub read : Ramfs → List ℕ → List ℕ → ℕ → ℕ → ℤ × List ℕ
read fs name dst len offset = read_at fs dst len offset (find_file fs.files name)

abbrev pub delete_at : Ramfs → Option ℕ → ℤ × Ramfs
delete_at fs none = (err_notfound, fs)
delete_at fs (some k) = (
  ok,
  record {
    files = set fs.files k (clear (get_or fs.files k zero_file));
    file_count = sub32 fs.file_count 1;
  },
)

-- `ramfs_delete`
pub delete : Ramfs → List ℕ → ℤ × Ramfs
delete fs name = delete_at fs (find_file fs.files name)

abbrev pub is_found : Option ℕ → Bool
is_found none = false
is_found (some k) = true

-- `ramfs_exists`
pub exists : Ramfs → List ℕ → Bool
exists fs name = is_found (find_file fs.files name)

-- `ramfs_size`
pub size_of : Ramfs → List ℕ → ℕ
size_of fs name = elim (find_file fs.files name) [
  | none ↦ 0
  | some k ↦ (get_or fs.files k zero_file).size
]
