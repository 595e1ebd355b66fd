-- ===== src/Ramfs/Tests.antt =====
-- Concrete runs of kernel/ramfs.c, and instances of the theorems about it.
use aeos.Ramfs.Names.{IsPadded, exists-create}
use aeos.Ramfs.RoundTrip.{ReadsBack, read-write}
use aeos.Ramfs.Valid.{
  IsValid, set-IsTable, IsFile, zero_file-IsFile, run, write_call, create_call, delete_call,
  run_files-IsValid,
}
use aeos.Base.{
  find_index, List, set, ℕ, ◌∷◌, replicate, ◌≡◌, [], true, some, length-replicate, refl, negsuc,
  pos, none, All-replicate, arith, suc, zero,
}
use aeos.Ramfs.{
  write, copy, File, create, Ramfs, zero_file, read_file, first_diff, find_file, read, exists, ok,
}

abbrev name_a : List ℕ
name_a = 97 ∷ 0 ∷ 0 ∷ 0 ∷ 0 ∷ 0 ∷ 0 ∷ 0 ∷ 0 ∷ 0 ∷ 0 ∷ 0 ∷ 0 ∷ 0 ∷ 0 ∷ 0 ∷ []

-- The same C string with another byte after its end.
abbrev name_a_dirty : List ℕ
name_a_dirty = 97 ∷ 0 ∷ 7 ∷ []

abbrev file_a : File
file_a = record zero_file { name = name_a; in_use = true }

abbrev one_file : Ramfs
one_file = record { files = set (replicate 32 zero_file) 0 file_a; file_count = 1 }

one_file-IsValid : IsValid one_file
one_file-IsValid =
    set-IsTable (replicate 32 zero_file) 0 file_a
      (length-replicate 32 zero_file, All-replicate IsFile 32 zero_file zero_file-IsFile)
      (refl, omega arith, length-replicate {A = ℕ} 4096 0)

found_a : find_file one_file.files name_a ≡ some 0
unfolding find_index first_diff
found_a = refl

-- Bytes after a name's end take part in the comparison.
missed_a : find_file one_file.files name_a_dirty ≡ none
unfolding find_index first_diff
missed_a = refl

-- A second file of the same C string is created.
created_twice : (create one_file name_a_dirty).1.file_count ≡ 2
unfolding create find_index first_diff
created_twice = refl

-- The end of the range wraps, and the call fails with a negative count.
read_wraps : (read_file (record file_a { size = 100 }) [] 0xFFFFFFFF 50).0 ≡ negsuc 0
unfolding copy
read_wraps = refl

-- Three bytes at offset 4094, of which two fit.
read-write_example :
    ((write one_file name_a (1 ∷ 2 ∷ 3 ∷ []) 3 4094).0 ≡ pos 2)
    × ReadsBack
        (1 ∷ 2 ∷ 3 ∷ [])
        2
        (read (write one_file name_a (1 ∷ 2 ∷ 3 ∷ []) 3 4094).1 name_a (9 ∷ 9 ∷ 9 ∷ []) 3 4094)
read-write_example =
    read-write one_file name_a (1 ∷ 2 ∷ 3 ∷ []) (9 ∷ 9 ∷ 9 ∷ []) 3 4094 0 one_file-IsValid found_a
      (omega arith) (omega arith) (omega arith)

name_b-IsPadded : IsPadded (98 ∷ 0 ∷ [])
name_b-IsPadded zero e = absurd (omega (arith, e))
name_b-IsPadded (suc zero) e = refl
name_b-IsPadded (suc (suc j)) e = refl

created_b : (create one_file (98 ∷ 0 ∷ [])).0 ≡ ok
unfolding create find_index first_diff
created_b = refl

exists-create_example : exists (create one_file (98 ∷ 0 ∷ [])).1 (98 ∷ 0 ∷ []) ≡ true
exists-create_example = exists-create one_file (98 ∷ 0 ∷ []) name_b-IsPadded created_b

-- A file filled past its end, another created, the first deleted
run_files_example : IsValid (
    run
      (write_call name_a (1 ∷ 2 ∷ 3 ∷ []) 3 4094
        ∷ create_call (98 ∷ 0 ∷ [])
        ∷ delete_call name_a
        ∷ [])
      one_file)
run_files_example =
    run_files-IsValid
      (write_call name_a (1 ∷ 2 ∷ 3 ∷ []) 3 4094
        ∷ create_call (98 ∷ 0 ∷ [])
        ∷ delete_call name_a
        ∷ [])
      one_file one_file-IsValid
