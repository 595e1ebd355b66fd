-- ===== src/Afs/Read.antt =====
-- How much `afs_read` of kernel/afs.c copies.
use aeos.Base.{ℕ, if◌then◌else◌, ltb, ◌+◌, ◌-◌, ◌/◌, ◌*◌}
use aeos.Afs.Table.{Afs, chunk_size}

-- The end of the copy: the file's size, or the first multiple of 4096 from `max` on.
abbrev pub copied : ℕ → ℕ → ℕ
copied size max = if ltb ((max + 4095) / 4096 * 4096) size then (max + 4095) / 4096 * 4096 else size

-- The bytes of the chunk at `at`
abbrev chunk : ℕ → ℕ → ℕ
chunk size at = if ltb chunk_size (size - at) then chunk_size else size - at
