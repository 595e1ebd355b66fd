-- ===== src/Afs/Files.antt =====
-- The files in the directory of kernel/afs.c, and the sectors they and the free space own.
use aeos.Base.{
  ℕ, List, length, get_or, set, ◌+◌, ◌≡◌, ◌≢◌, ◌<◌, ◌≤◌, ◌==◌, if_ind, arith, ap, sym, ◌∙◌, refl,
  ℕ_discrete, length-set, get_or-set_self, get_or-set_ne,
}
use mathlib.Core.Path.{subst}
use aeos.Afs.Table.{Afs, Entry, zero_entry, sectors_of, free_entry}
use aeos.Afs.Counts.{covers, covers_le, count_upto, count-change}
use aeos.Afs.Space.{spaces, IsSpace, Taken}
use aeos.Afs.Alloc.{entry_covers, InVolume, free_entry-spaces}

-- How many files cover sector `s`
abbrev pub files : List Entry → ℕ → ℕ
files dir s = count_upto (λ i. entry_covers (get_or dir i zero_entry) s) 16

-- A directory of sixteen entries that lie in the disk, a well-formed free list, and no sector with two owners among the files, the free extents and the sectors from the bump pointer on.
pub record IsValid (fs : Afs) (dir : List Entry) : Type 0 where
  pub space : IsSpace fs
  pub entries : length dir ≡ 16
  pub inside : (i : ℕ) → i < 16 → InVolume (get_or dir i zero_entry)
  pub apart : (s : ℕ) → files dir s + spaces fs s ≤ 1

-- The directories differ in slot `i` only.
abbrev pub Changed : List Entry → List Entry → ℕ → Type 0
Changed dir dir' i =
    (length dir' ≡ 16) × ((j : ℕ) → i ≢ j → get_or dir' j zero_entry ≡ get_or dir j zero_entry)

pub set-Changed :
    (dir dir' : List Entry) (i : ℕ) (e : Entry) → Changed dir dir' i → Changed dir (set dir' i e) i
set-Changed dir dir' i e c =
    (length-set dir' i e ∙ c.0, λ j ne. get_or-set_ne dir' i j e zero_entry ne ∙ c.1 j ne)

pub same-Changed : (dir : List Entry) (i : ℕ) → length dir ≡ 16 → Changed dir dir i
same-Changed dir i e = (e, λ j ne. refl)

-- A change of one slot that takes no more than was free or the slot's keeps every sector with one owner.
pub change-IsValid :
    (fs fs' : Afs) (dir dir' : List Entry) (i : ℕ)
    → IsValid fs dir
    → IsSpace fs'
    → i < 16
    → Changed dir dir' i
    → InVolume (get_or dir' i zero_entry)
    → ((s : ℕ)
        → spaces fs' s + entry_covers (get_or dir' i zero_entry) s
          ≤ spaces fs s + entry_covers (get_or dir i zero_entry) s)
    → IsValid fs' dir'
change-IsValid fs fs' dir dir' i v space lt c new le = record {
  space = space;
  entries = c.0;
  inside = λ j below. elim (ℕ_discrete i j) [
    | yes same ↦ subst (λ k. InVolume (get_or dir' k zero_entry)) same new
    | no other ↦ subst InVolume (sym (c.1 j other)) (v.inside j below)
  ];
  apart = λ s.
      let changed =
        count-change (λ j. entry_covers (get_or dir' j zero_entry) s)
          (λ j. entry_covers (get_or dir j zero_entry) s) 16 i lt
          (λ j below ne. ap (λ (e : Entry). entry_covers e s) (c.1 j ne)) in
      omega (arith, changed, le s, v.apart s);
}

-- `afs_delete` of slot `i`
pub delete-IsValid :
    (fs : Afs) (dir : List Entry) (i : ℕ)
    → IsValid fs dir
    → i < 16
    → IsValid (free_entry fs (get_or dir i zero_entry)) (set dir i zero_entry)
delete-IsValid fs dir i v lt =
    let e = get_or dir i zero_entry in
    let freed = free_entry-spaces fs e v.space (v.inside i lt) in
    let gone : get_or (set dir i zero_entry) i zero_entry ≡ zero_entry =
      get_or-set_self dir i zero_entry zero_entry (omega (arith, lt, v.entries)) in
    change-IsValid fs (free_entry fs e) dir (set dir i zero_entry) i v freed.0 lt
      (set-Changed dir dir i zero_entry (same-Changed dir i v.entries))
      (subst InVolume (sym gone) (omega arith, omega arith))
      (λ s.
        let none_left = ap (λ (x : Entry). entry_covers x s) gone in
        omega (arith, freed.1 s, none_left))

-- A file written again where it was
pub rewrite-IsValid :
    (fs : Afs) (dir : List Entry) (i len : ℕ)
    → IsValid fs dir
    → i < 16
    → sectors_of len ≤ sectors_of (get_or dir i zero_entry).size
    → IsValid fs (set dir i (record (get_or dir i zero_entry) { size = len }))
rewrite-IsValid fs dir i len v lt fits =
    let e = get_or dir i zero_entry in
    let new : Entry = record e { size = len } in
    let here : get_or (set dir i new) i zero_entry ≡ new =
      get_or-set_self dir i new zero_entry (omega (arith, lt, v.entries)) in
    change-IsValid fs fs dir (set dir i new) i v v.space lt
      (set-Changed dir dir i new (same-Changed dir i v.entries))
      (subst InVolume (sym here) ((v.inside i lt).0, omega (arith, (v.inside i lt).1, fits)))
      (λ s.
        let smaller = ap (λ (x : Entry). entry_covers x s) here in
        let le = covers_le e.start_lba (sectors_of len) (sectors_of e.size) s fits in
        ground (arith, smaller, le))

entry_covers_le :
    (e : Entry) (lba len s : ℕ)
    → e.start_lba ≡ lba
    → e.size ≡ len
    → entry_covers e s ≤ covers lba (sectors_of len) s
entry_covers_le e lba len s at size =
    let same : covers e.start_lba (sectors_of e.size) s ≡ covers lba (sectors_of len) s =
      ap (λ a. covers a (sectors_of e.size) s) at ∙ ap (λ n. covers lba (sectors_of n) s) size in
    if_ind (λ n. n ≤ covers lba (sectors_of len) s) (e.start_lba == 0) 0
      (covers e.start_lba (sectors_of e.size) s) (λ f. omega arith) (λ f. omega (arith, same))

-- A file moved to sectors that were taken
pub relocate-IsValid :
    (fs fs' : Afs) (dir dir' : List Entry) (i lba len : ℕ)
    → IsValid fs dir
    → i < 16
    → Taken fs (sectors_of len) (lba, fs')
    → Changed dir dir' i
    → (get_or dir' i zero_entry).start_lba ≡ lba
    → (get_or dir' i zero_entry).size ≡ len
    → IsValid fs' dir'
relocate-IsValid fs fs' dir dir' i lba len v lt t c at size =
    let there : sectors_of (get_or dir' i zero_entry).size ≡ sectors_of len = ap sectors_of size in
    change-IsValid fs fs' dir dir' i v t.space lt c
      (omega (arith, at, t.beyond), omega (arith, at, there, t.fits))
      (λ s.
        omega (arith, t.same_count s, entry_covers_le (get_or dir' i zero_entry) lba len s at size))

-- Taking sectors leaves the files as they are.
pub reserve-IsValid :
    (fs fs' : Afs) (dir : List Entry) (lba n : ℕ)
    → IsValid fs dir
    → Taken fs n (lba, fs')
    → IsValid fs' dir
reserve-IsValid fs fs' dir lba n v t = record {
  space = t.space;
  entries = v.entries;
  inside = v.inside;
  apart = λ s. omega (arith, v.apart s, t.same_count s);
}
