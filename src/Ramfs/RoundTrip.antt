-- ===== src/Ramfs/RoundTrip.antt =====
-- What `ramfs_write` of kernel/ramfs.c stored, `ramfs_read` gives back.
use aeos.Ramfs.Copy.{find_index-set, copy_read}
use aeos.Ramfs.Valid.{IsFile, IsValid, found_lt, found-IsFile}
use aeos.Ramfs.{
  File, Ramfs, copy_len, find_file, max_size, write_file, zero_file, is_file, read_file, write,
  read, to_int, copy,
}
use aeos.Base.{
  ℕ, List, ℤ, ◌<◌, ◌≡◌, pos, some, set, get_or, ◌+◌, ◌^◌, ◌≤◌, length, arith, ◌∙◌, refl, ◌⊎◌,
  if◌then◌else◌, ltb, leb, add32, false, get_or-set_self, sub32, ◌-◌, if_ind, ap,
}

-- The file read is the one written.
find_file-write :
    (fs : Ramfs) (name src : List ℕ) (len offset k : ℕ)
    → IsValid fs
    → find_file fs.files name ≡ some k
    → find_file (set fs.files k (write_file (get_or fs.files k zero_file) src len offset)) name
      ≡ some k
find_file-write fs name src len offset k v e =
    find_index-set (is_file name) fs.files k _ zero_file
      (omega (arith, v.0, found_lt fs (is_file name) k v e)) refl
    ∙ e

-- Reading back the bytes of one file.
abbrev pub ReadsBack : List ℕ → ℕ → ℤ × List ℕ → Type 0
ReadsBack src n r = (r.0 ≡ pos n) × ((j : ℕ) → j < n → get_or r.1 j 0 ≡ get_or src j 0)

file-ReadsBack :
    (f : File) (src dst : List ℕ) (len offset : ℕ)
    → IsFile f
    → offset < max_size
    → offset + len < 2 ^ 32
    → len ≤ length dst
    → ReadsBack src (copy_len len offset) (read_file (write_file f src len offset) dst len offset)
file-ReadsBack f src dst len offset v h w l =
    if_ind (ReadsBack src n) (leb g.size offset) _ _
      (λ e. (
        ap pos (nothing (ground (arith, e))),
        λ j u. absurd (omega (arith, u, nothing (ground (arith, e)))),
      ))
      (λ e. branch _ last)
  where
    n : ℕ
    n = copy_len len offset

    g : File
    g = write_file f src len offset

    n_bounds : (n ≤ len) × (offset + n ≤ max_size) × ((n ≡ len) ⊎ (offset + n ≡ max_size))
    n_bounds = ground (arith, h)

    size_ge : (offset + n ≤ g.size) × (g.size ≤ max_size)
    size_ge = ground (arith, v.1, n_bounds)

    nothing : g.size ≤ offset → 0 ≡ n
    nothing e = omega (arith, e, size_ge)

    last : (if ltb g.size (add32 offset len) then g.size else add32 offset len) ≡ offset + n
    last = ground (arith, size_ge, n_bounds, w)

    int_of : (x : ℕ) → x ≡ n → to_int x ≡ pos n
    int_of x e = ground (arith, e, n_bounds)

    branch :
        (end : ℕ)
        → end ≡ offset + n
        → ReadsBack src n (to_int (sub32 end offset), copy dst 0 g.bytes offset 0 (end - offset))
    branch end e = (
      int_of (sub32 end offset) (omega (arith, e, n_bounds)),
      λ j u.
          copy_read dst 0 g.bytes offset (end - offset) j j (offset + j)
            (omega (arith, e, n_bounds, l)) (omega (arith, e, u)) (omega arith) refl
          ∙ copy_read f.bytes offset src 0 (add32 offset n - offset) j (offset + j) j
              (omega (arith, n_bounds, v.2)) (omega (arith, u, n_bounds)) refl (omega arith),
    )

-- In a valid table, bytes written to a file that is there, at an offset inside a file and without wrapping, are reported as stored up to the end of the 4 KiB, and a read at the same offset into a buffer large enough returns that many bytes, the ones written.
pub read-write :
    (fs : Ramfs) (name src dst : List ℕ) (len offset k : ℕ)
    → IsValid fs
    → find_file fs.files name ≡ some k
    → offset < max_size
    → offset + len < 2 ^ 32
    → len ≤ length dst
    → ((write fs name src len offset).0 ≡ pos (copy_len len offset))
      × ReadsBack src
          (copy_len len offset)
          (read (write fs name src len offset).1 name dst len offset)
unfolding write read
read-write fs name src dst len offset k v e h w l =
    rw (e, ground_leb)
      (
        refl,
        rw (find_file-write fs name src len offset k v e, got)
            (file-ReadsBack (get_or fs.files k zero_file) src dst len offset
              (found-IsFile fs k v (found_lt fs (is_file name) k v e)) h w l),
      )
  where
    ground_leb : leb max_size offset ≡ false
    ground_leb = ground (arith, h)

    got :
        get_or
          (set fs.files k (write_file (get_or fs.files k zero_file) src len offset))
          k
          zero_file
        ≡ write_file (get_or fs.files k zero_file) src len offset
    got =
        get_or-set_self fs.files k _ zero_file
          (omega (arith, v.0, found_lt fs (is_file name) k v e))
