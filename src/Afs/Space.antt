-- ===== src/Afs/Space.antt =====
-- The free sectors of kernel/afs.c: what an allocation takes is what the free list and the bump pointer lose.
use aeos.Base.{
  ℕ, List, suc, length, get_or, set, add32, ◌+◌, ◌-◌, ◌≡◌, ◌≢◌, ◌<◌, ◌≤◌, ◌^◌, ◌==◌, if◌then◌else◌,
  if_ind, leb, arith, ap, sym, ◌∙◌, ℕ_discrete, length-set, get_or-set_self, get_or-set_ne,
}
use mathlib.Core.Path.{subst}
use aeos.Afs.Table.{Afs, Extent, zero_extent, cut_extent}
use aeos.Afs.Counts.{covers, covers-split, count_upto, count-same, count-change}

-- The share of extent `j` in sector `s`
abbrev pub extent_covers : List Extent → ℕ → ℕ → ℕ
extent_covers extents s j = let x = get_or extents j zero_extent in covers x.start_lba x.count s

-- How many free extents cover sector `s`, the sectors from the bump pointer on included
abbrev pub spaces : Afs → ℕ → ℕ
spaces fs s =
    count_upto (extent_covers fs.free_extents s) fs.free_extent_count
    + (if leb fs.next_free_lba s then 1 else 0)

-- An extent lies in the disk, after the superblock and the directory.
abbrev pub InDisk : Extent → Type 0
InDisk x = (1 < x.start_lba) × (x.start_lba + x.count < 2 ^ 31)

pub record IsSpace (fs : Afs) : Type 0 where
  pub slots : length fs.free_extents ≡ 32
  pub counted : fs.free_extent_count ≤ 32
  pub next_beyond : 1 < fs.next_free_lba
  pub next_small : fs.next_free_lba < 2 ^ 31
  pub total_small : fs.total_sectors < 2 ^ 31
  pub inside : (j : ℕ) → j < fs.free_extent_count → InDisk (get_or fs.free_extents j zero_extent)

-- `n` sectors from `lba` are taken.
pub record Taken (fs : Afs) (n : ℕ) (taken : ℕ × Afs) : Type 0 where
  pub space : IsSpace taken.1
  pub beyond : 1 < taken.0
  pub fits : taken.0 + n < 2 ^ 31
  pub same_count : (s : ℕ) → spaces taken.1 s + covers taken.0 n s ≡ spaces fs s

-- A cell of the list that was set twice, or once elsewhere
set_other :
    (l : List Extent) (i j : ℕ) (x y : Extent)
    → i ≢ j
    → get_or (set (set l i x) i y) j zero_extent ≡ get_or l j zero_extent
set_other l i j x y ne =
    get_or-set_ne (set l i x) i j y zero_extent ne ∙ get_or-set_ne l i j x zero_extent ne

set_twice :
    (l : List Extent) (i : ℕ) (x y : Extent)
    → i < length l
    → get_or (set (set l i x) i y) i zero_extent ≡ y
set_twice l i x y lt = get_or-set_self (set l i x) i y zero_extent (rw (length-set l i x) lt)

-- The last of `m` + 1 extents moves to place `i`, whose own is dropped.
remove_count :
    (l : List Extent) (m i : ℕ) (x : Extent) (s : ℕ)
    → i ≤ m
    → m < length l
    → count_upto (extent_covers (set (set l i x) i (get_or (set l i x) m zero_extent)) s) m
        + extent_covers l s i
      ≡ count_upto (extent_covers l s) (suc m)
remove_count l m i x s le lt = elim (ℕ_discrete i m) [
  | yes same ↦
      let kept =
        count-same (extent_covers (set (set l i x) i (get_or (set l i x) m zero_extent)) s)
          (extent_covers l s) m
          (λ j below.
            ap (λ (e : Extent). covers e.start_lba e.count s)
              (set_other l i j x _ (λ eq. omega (arith, below, same, eq)))) in
      let last = ap (extent_covers l s) same in omega (arith, kept, last)
  | no other ↦
      let changed =
        count-change (extent_covers (set (set l i x) i (get_or (set l i x) m zero_extent)) s)
          (extent_covers l s) m i (omega (arith, le, other))
          (λ j below ne.
            ap (λ (e : Extent). covers e.start_lba e.count s) (set_other l i j x _ ne)) in
      let moved : extent_covers (set (set l i x) i (get_or (set l i x) m zero_extent)) s i
          ≡ extent_covers l s m =
        ap (λ (e : Extent). covers e.start_lba e.count s)
          (set_twice l i x _ (omega (arith, le, lt)) ∙ get_or-set_ne l i m x zero_extent other) in
      omega (arith, changed, moved)
]

-- The cells below `n` have a property after a write of a cell that has it, when the others had it.
pub set-All :
    (P : Extent → Type 0) (l : List Extent) (n i : ℕ) (y : Extent)
    → i < length l
    → ((j : ℕ) → j < n → i ≢ j → P (get_or l j zero_extent))
    → P y
    → (j : ℕ) → j < n
    → P (get_or (set l i y) j zero_extent)
set-All P l n i y lt all new j below = elim (ℕ_discrete i j) [
  | yes same ↦
      subst P
        (sym (get_or-set_self l i y zero_extent lt)
          ∙ ap (λ k. get_or (set l i y) k zero_extent) same)
        new
  | no other ↦ subst P (sym (get_or-set_ne l i j y zero_extent other)) (all j below other)
]

-- What is left when the last of `m` + 1 extents moves to place `i`
remove-All :
    (P : Extent → Type 0) (l : List Extent) (m i : ℕ) (x : Extent)
    → i ≤ m
    → m < length l
    → ((j : ℕ) → j < suc m → P (get_or l j zero_extent))
    → (j : ℕ) → j < m
    → P (get_or (set (set l i x) i (get_or (set l i x) m zero_extent)) j zero_extent)
remove-All P l m i x le lt all j below = elim (ℕ_discrete i j) [
  | yes same ↦
      let apart : i ≢ m = λ eq. omega (arith, below, same, eq) in
      subst P
        (sym (set_twice l i x _ (omega (arith, le, lt)) ∙ get_or-set_ne l i m x zero_extent apart)
          ∙ ap (λ k. get_or (set (set l i x) i (get_or (set l i x) m zero_extent)) k zero_extent)
              same)
        (all m (omega arith))
  | no other ↦ subst P (sym (set_other l i j x _ other)) (all j (omega (arith, below)))
]

-- The extent used up leaves the list.
drop-Taken :
    (fs : Afs) (n i m : ℕ) (left : Extent)
    → IsSpace fs
    → fs.free_extent_count ≡ suc m
    → i ≤ m
    → (get_or fs.free_extents i zero_extent).count ≡ n
    → Taken fs n (
      (get_or fs.free_extents i zero_extent).start_lba,
      record fs {
        free_extents =
            set (set fs.free_extents i left) i (get_or (set fs.free_extents i left) m zero_extent);
        free_extent_count = m;
      },
    )
drop-Taken fs n i m left v e le used = record {
  space = record {
    slots =
        length-set (set fs.free_extents i left) i
          (get_or (set fs.free_extents i left) m zero_extent)
        ∙ length-set fs.free_extents i left
        ∙ v.slots;
    counted = omega (arith, v.counted, e);
    next_beyond = v.next_beyond;
    next_small = v.next_small;
    total_small = v.total_small;
    inside =
        remove-All InDisk fs.free_extents m i left le (omega (arith, v.slots, v.counted, e))
          (λ j below. v.inside j (omega (arith, e, below)));
  };
  beyond = (v.inside i (omega (arith, e, le))).0;
  fits = omega (arith, (v.inside i (omega (arith, e, le))).1, used);
  same_count = λ s.
      let removed =
        remove_count fs.free_extents m i left s le (omega (arith, v.slots, v.counted, e)) in
      let gone : covers (get_or fs.free_extents i zero_extent).start_lba n s
          ≡ extent_covers fs.free_extents s i =
        ap (λ k. covers (get_or fs.free_extents i zero_extent).start_lba k s) (sym used) in
      let whole = ap (count_upto (extent_covers fs.free_extents s)) e in
      omega (arith, removed, gone, whole);
}

shrink_count :
    (fs : Afs) (n i s : ℕ)
    → IsSpace fs
    → i < fs.free_extent_count
    → n < (get_or fs.free_extents i zero_extent).count
    → spaces
          (record fs {
            free_extents = set fs.free_extents i (record {
              start_lba = add32 (get_or fs.free_extents i zero_extent).start_lba n;
              count = (get_or fs.free_extents i zero_extent).count - n;
            });
          })
          s
        + covers (get_or fs.free_extents i zero_extent).start_lba n s
      ≡ spaces fs s
shrink_count fs n i s v lt le =
    let old = get_or fs.free_extents i zero_extent in
    let left : Extent = record { start_lba = add32 old.start_lba n; count = old.count - n } in
    let changed =
      count-change (extent_covers (set fs.free_extents i left) s) (extent_covers fs.free_extents s)
        fs.free_extent_count i lt
        (λ j below ne.
          ap (λ (e : Extent). covers e.start_lba e.count s)
            (get_or-set_ne fs.free_extents i j left zero_extent ne)) in
    let new : extent_covers (set fs.free_extents i left) s i
        ≡ covers (old.start_lba + n) (old.count - n) s =
      ap (λ (e : Extent). covers e.start_lba e.count s)
        (get_or-set_self fs.free_extents i left zero_extent (omega (arith, lt, v.slots, v.counted)))
      ∙ ap (λ a. covers a (old.count - n) s) (omega (arith, (v.inside i lt).1, le)) in
    let parts : covers old.start_lba old.count s
        ≡ covers old.start_lba n s + covers (old.start_lba + n) (old.count - n) s =
      ap (λ k. covers old.start_lba k s) (omega (arith, le))
      ∙ covers-split old.start_lba n (old.count - n) s in
    omega (arith, changed, new, parts)

-- The extent keeps what is left of it.
shrink-Taken :
    (fs : Afs) (n i : ℕ)
    → IsSpace fs
    → i < fs.free_extent_count
    → n < (get_or fs.free_extents i zero_extent).count
    → Taken fs n (
      (get_or fs.free_extents i zero_extent).start_lba,
      record fs {
        free_extents = set fs.free_extents i (record {
          start_lba = add32 (get_or fs.free_extents i zero_extent).start_lba n;
          count = (get_or fs.free_extents i zero_extent).count - n;
        });
      },
    )
shrink-Taken fs n i v lt le = record {
  space = record {
    slots = length-set fs.free_extents i _ ∙ v.slots;
    counted = v.counted;
    next_beyond = v.next_beyond;
    next_small = v.next_small;
    total_small = v.total_small;
    inside =
        set-All InDisk fs.free_extents fs.free_extent_count i _
          (omega (arith, lt, v.slots, v.counted)) (λ j below ne. v.inside j below)
          (
            omega (arith, (v.inside i lt).0, (v.inside i lt).1, le),
            omega (arith, (v.inside i lt).1, le),
          );
  };
  beyond = (v.inside i lt).0;
  fits = omega (arith, (v.inside i lt).1, le);
  same_count = λ s. shrink_count fs n i s v lt le;
}

-- `alloc_from_free_list` once an extent is found
pub cut_extent-Taken :
    (fs : Afs) (n i : ℕ)
    → IsSpace fs
    → i < fs.free_extent_count
    → n ≤ (get_or fs.free_extents i zero_extent).count
    → Taken fs n (cut_extent fs n i)
cut_extent-Taken fs n i v lt le =
    let e = get_or fs.free_extents i zero_extent in
    if_ind (λ fs'. Taken fs n (e.start_lba, fs')) (e.count - n == 0) _ _
      (λ none_left.
        drop-Taken fs n i (fs.free_extent_count - 1) _ v (omega (arith, lt)) (omega (arith, lt))
          (ground (arith, none_left, le)))
      (λ some_left. shrink-Taken fs n i v lt (ground (arith, some_left, le)))
