-- ===== src/Ramfs/Valid.antt =====
-- What every operation of kernel/ramfs.c keeps of each file.
use aeos.Ramfs.Copy.{length-copy}
use aeos.Base.{
  Bool, List, length, arith, ℕ, set, ◌<◌, find_index, All, length-replicate, ◌≡◌, Option-cases,
  some, length-set, map, not, find_index-some, ◌≤◌, ◌∙◌, get_or, refl, All-get_or, All-set, suc,
  ◌∷◌, inl, if_ind, length-map, inr, ℤ, ◌==◌, ap, leb, zero, [],
}
use aeos.Ramfs.{
  delete, zero_file, Ramfs, store_name, create, write, File, init, create_at, max_size, find_file,
  max_files, max_name, write_file, clear, is_file,
}

abbrev pub IsFile : File → Type 0
IsFile f = (length f.name ≡ max_name) × (f.size ≤ max_size) × (length f.bytes ≡ max_size)

abbrev pub IsTable : List File → Type 0
IsTable files = (length files ≡ max_files) × All IsFile files

abbrev pub IsValid : Ramfs → Type 0
IsValid fs = IsTable fs.files

length-store_name : (name : List ℕ) (j n : ℕ) → length (store_name name j n) ≡ n
unfolding store_name
length-store_name name j zero = refl
length-store_name name j (suc n) =
    if_ind (λ (l : List ℕ). length l ≡ suc n) (get_or name j 0 == 0) _ _
      (λ e. ap suc (length-replicate {A = ℕ} n 0)) (λ e. ap suc (length-store_name name (suc j) n))

pub zero_file-IsFile : IsFile zero_file
zero_file-IsFile = (refl, omega arith, length-replicate {A = ℕ} 4096 0)

pub found-IsFile :
    (fs : Ramfs) (k : ℕ) → IsValid fs → k < max_files → IsFile (get_or fs.files k zero_file)
found-IsFile fs k v h = All-get_or IsFile fs.files k zero_file v.1 (omega (arith, v.0))

pub set-IsTable :
    (files : List File) (k : ℕ) (f : File) → IsTable files → IsFile f → IsTable (set files k f)
set-IsTable files k f v h = (length-set files k f ∙ v.0, All-set IsFile files k f v.1 h)

-- What a search found is a file of the table.
pub found_lt :
    (fs : Ramfs) (test : File → Bool) (k : ℕ)
    → IsValid fs
    → find_index test fs.files ≡ some k
    → k < max_files
found_lt fs test k v e = omega (arith, v.0, (find_index-some test fs.files k e).0)

pub init-IsValid : (fs : Ramfs) → IsValid fs → IsValid (init fs)
init-IsValid fs v = (length-map clear fs.files ∙ v.0, cleared fs.files v.1)
  where
    cleared : (xs : List File) → All IsFile xs → All IsFile (map clear xs)
    cleared [] a = tt
    cleared (x ∷ xs) a = ((a.0.0, omega arith, a.0.2), cleared xs a.1)

create_at-IsValid :
    (fs : Ramfs) (name : List ℕ)
    → IsValid fs
    → IsValid (create_at fs name (find_index (λ f. not f.in_use) fs.files)).1
create_at-IsValid fs name v = elim (Option-cases (find_index (λ f. not f.in_use) fs.files)) [
  | inl e ↦ rw e v
  | inr (k, e) ↦ rw e (
      set-IsTable fs.files k _ v (
        length-store_name name 0 max_name,
        omega arith,
        (found-IsFile fs k v (found_lt fs (λ f. not f.in_use) k v e)).2,
      ))
]

pub create-IsValid : (fs : Ramfs) (name : List ℕ) → IsValid fs → IsValid (create fs name).1
unfolding create
create-IsValid fs name v = elim (Option-cases (find_file fs.files name)) [
  | inl e ↦ rw e (create_at-IsValid fs name v)
  | inr (k, e) ↦ rw e v
]

pub write_file-IsFile :
    (f : File) (src : List ℕ) (len offset : ℕ)
    → IsFile f
    → offset < max_size
    → IsFile (write_file f src len offset)
write_file-IsFile f src len offset v h =
    (v.0, ground (arith, v.1, h), length-copy f.bytes offset src 0 0 _ ∙ v.2)

pub write-IsValid :
    (fs : Ramfs) (name src : List ℕ) (len offset : ℕ)
    → IsValid fs
    → IsValid (write fs name src len offset).1
unfolding write
write-IsValid fs name src len offset v = elim (Option-cases (find_file fs.files name)) [
  | inl e ↦ rw e v
  | inr (k, e) ↦ rw e (
      if_ind (λ (r : ℤ × Ramfs). IsValid r.1) (leb max_size offset) _ _ (λ b. v)
        (λ b. set-IsTable fs.files k _ v (
          write_file-IsFile (get_or fs.files k zero_file) src len offset
            (found-IsFile fs k v (found_lt fs (is_file name) k v e)) (ground (arith, b)))))
]

pub delete-IsValid : (fs : Ramfs) (name : List ℕ) → IsValid fs → IsValid (delete fs name).1
unfolding delete
delete-IsValid fs name v = elim (Option-cases (find_file fs.files name)) [
  | inl e ↦ rw e v
  | inr (k, e) ↦ rw e (
      set-IsTable fs.files k _ v
        (let f = found-IsFile fs k v (found_lt fs (is_file name) k v e) in (f.0, omega arith, f.2)))
]

-- The calls that change the table, with their arguments
pub data Call : Type 0 where
  init_call : Call
  create_call : List ℕ → Call
  write_call : List ℕ → List ℕ → ℕ → ℕ → Call
  delete_call : List ℕ → Call

abbrev pub call : Call → Ramfs → Ramfs
call init_call fs = init fs
call (create_call name) fs = (create fs name).1
call (write_call name src len offset) fs = (write fs name src len offset).1
call (delete_call name) fs = (delete fs name).1

abbrev pub run : List Call → Ramfs → Ramfs
run [] fs = fs
run (c ∷ calls) fs = run calls (call c fs)

call-IsValid : (c : Call) (fs : Ramfs) → IsValid fs → IsValid (call c fs)
call-IsValid init_call fs v = init-IsValid fs v
call-IsValid (create_call name) fs v = create-IsValid fs name v
call-IsValid (write_call name src len offset) fs v = write-IsValid fs name src len offset v
call-IsValid (delete_call name) fs v = delete-IsValid fs name v

-- From a table of 32 files whose names fill their 16 bytes and whose sizes are within their 4096 bytes of data, any sequence of ramfs_init, ramfs_create, ramfs_write and ramfs_delete, whether the calls succeed or fail, leaves such a table.
pub run_files-IsValid : (calls : List Call) (fs : Ramfs) → IsValid fs → IsValid (run calls fs)
run_files-IsValid [] fs v = v
run_files-IsValid (c ∷ calls) fs v = run_files-IsValid calls (call c fs) (call-IsValid c fs v)
