-- ===== src/Afs/Alloc.antt =====
-- Allocating and freeing sectors in kernel/afs.c.
use aeos.Base.{
  ℕ, List, Option, some, none, suc, length, get_or, set, take, find_index, find_index-some, add32,
  not, true, ltb, ◌+◌, ◌≡◌, ◌≢◌, ◌<◌, ◌≤◌, ◌⊎◌, inl, inr, ◌^◌, ◌==◌, ◌&&◌, if◌then◌else◌, if_ind,
  leb, arith, ap, sym, refl, ◌∙◌, length-set, length-take, get_or-take, get_or-set_self,
  get_or-set_ne,
}
use aeos.Afs.Table.{
  Afs, Extent, Entry, zero_extent, cut_found, alloc_from_free_list, bump, allocate,
  add_to_free_list, free_entry, sectors_of,
}
use aeos.Afs.Counts.{covers, count_upto, count-same}
use aeos.Afs.Space.{spaces, IsSpace, InDisk, set-All, Taken, extent_covers, cut_extent-Taken}

cut_found-Taken :
    (fs : Afs) (n : ℕ) (found : Option ℕ)
    → IsSpace fs
    → find_index (λ (e : Extent). leb n e.count) (take fs.free_extent_count fs.free_extents) ≡ found
    → (cut_found fs n found ≡ (0, fs)) ⊎ Taken fs n (cut_found fs n found)
cut_found-Taken fs n none v e = inl refl
cut_found-Taken fs n (some i) v e =
    let finds =
      find_index-some (λ (x : Extent). leb n x.count) (take fs.free_extent_count fs.free_extents) i
        e in
    let same =
      get_or-take fs.free_extent_count i fs.free_extents zero_extent
        (omega (arith, finds.0, length-take fs.free_extent_count fs.free_extents)) in
    let test : leb n (get_or fs.free_extents i zero_extent).count ≡ true =
      ap (λ (x : Extent). leb n x.count) (sym same) ∙ finds.1 zero_extent in
    inr (
      cut_extent-Taken fs n i v
        (omega (arith, finds.0, length-take fs.free_extent_count fs.free_extents))
        (ground (arith, test)))

alloc_from_free_list-Taken :
    (fs : Afs) (n : ℕ)
    → IsSpace fs
    → (alloc_from_free_list fs n ≡ (0, fs)) ⊎ Taken fs n (alloc_from_free_list fs n)
unfolding alloc_from_free_list
alloc_from_free_list-Taken fs n v = cut_found-Taken fs n _ v refl

-- What an allocation promises: the sectors taken, or that there are none and nothing changed.
abbrev pub Allocated : Afs → ℕ → Option ℕ × Afs → Type 0
Allocated fs n (none, fs') = fs' ≡ fs
Allocated fs n (some lba, fs') = Taken fs n (lba, fs')

bump-Allocated : (fs : Afs) (n : ℕ) → IsSpace fs → n < 2 ^ 31 → Allocated fs n (bump n (0, fs))
bump-Allocated fs n v small =
    if_ind (Allocated fs n) (ltb fs.total_sectors (add32 fs.next_free_lba n)) _ _ (λ full. refl)
      (λ room. record {
        space = record {
          slots = v.slots;
          counted = v.counted;
          next_beyond = ground (arith, v.next_beyond, v.next_small, small);
          next_small = ground (arith, room, v.total_small);
          total_small = v.total_small;
          inside = v.inside;
        };
        beyond = v.next_beyond;
        fits = ground (arith, room, v.total_small, v.next_small, small);
        same_count = λ s. ground (arith, v.next_small, small);
      })

bump_found-Allocated :
    (fs : Afs) (n : ℕ) (taken : ℕ × Afs) → Taken fs n taken → Allocated fs n (bump n taken)
bump_found-Allocated fs n (lba, fs') t =
    let found : not (lba == 0) ≡ true = ground (arith, t.beyond) in rw found t

-- Of a well-formed free list, an allocation of `n` sectors takes `n` sectors that were free, or finds none.
pub allocate-Allocated :
    (fs : Afs) (n : ℕ) → IsSpace fs → n < 2 ^ 31 → Allocated fs n (allocate fs n)
allocate-Allocated fs n v small = elim (alloc_from_free_list-Taken fs n v) [
  | inl e ↦ rw e (bump-Allocated fs n v small)
  | inr t ↦ bump_found-Allocated fs n (alloc_from_free_list fs n) t
]

-- What an entry of the directory covers
abbrev pub entry_covers : Entry → ℕ → ℕ
entry_covers e s = if e.start_lba == 0 then 0 else covers e.start_lba (sectors_of e.size) s

-- An entry is free or lies in the disk.
abbrev pub InVolume : Entry → Type 0
InVolume e = (e.start_lba ≢ 1) × (e.start_lba + sectors_of e.size < 2 ^ 31)

append_count :
    (l : List Extent) (m start n s : ℕ)
    → m < length l
    → count_upto (extent_covers (set l m (record { start_lba = start; count = n })) s) (m + 1)
      ≡ covers start n s + count_upto (extent_covers l s) m
append_count l m start n s lt =
    let y : Extent = record { start_lba = start; count = n } in
    let next : m + 1 ≡ suc m = omega arith in
    let one_more = ap (count_upto (extent_covers (set l m y) s)) next in
    let kept = count-same (extent_covers (set l m y) s) (extent_covers l s) m (λ j below.
      ap (λ (e : Extent). covers e.start_lba e.count s)
        (get_or-set_ne l m j y zero_extent (λ eq. omega (arith, below, eq)))) in
    let new : extent_covers (set l m y) s m ≡ covers start n s =
      ap (λ (e : Extent). covers e.start_lba e.count s) (get_or-set_self l m y zero_extent lt) in
    omega (arith, one_more, kept, new)

-- No sector becomes free but those of the extent that is added.
add_to_free_list-spaces :
    (fs : Afs) (start n : ℕ)
    → IsSpace fs
    → 1 < start
    → start + n < 2 ^ 31
    → IsSpace (add_to_free_list fs start n)
      × ((s : ℕ) → spaces (add_to_free_list fs start n) s ≤ spaces fs s + covers start n s)
unfolding add_to_free_list
add_to_free_list-spaces fs start n v lo hi =
    if_ind (λ fs'. IsSpace fs' × ((s : ℕ) → spaces fs' s ≤ spaces fs s + covers start n s))
      (leb 32 fs.free_extent_count) _ _ (λ full. (v, λ s. omega arith))
      (λ room. (
        record {
          slots = length-set fs.free_extents fs.free_extent_count _ ∙ v.slots;
          counted = ground (arith, room);
          next_beyond = v.next_beyond;
          next_small = v.next_small;
          total_small = v.total_small;
          inside =
              set-All InDisk fs.free_extents (fs.free_extent_count + 1) fs.free_extent_count _
                (ground (arith, room, v.slots))
                (λ j below ne. v.inside j (omega (arith, below, ne))) (lo, hi);
        },
        λ s. omega (
          arith,
          append_count fs.free_extents fs.free_extent_count start n s
              (ground (arith, room, v.slots)),
        ),
      ))

-- `afs_delete` frees no sector but those of the file.
pub free_entry-spaces :
    (fs : Afs) (e : Entry)
    → IsSpace fs
    → InVolume e
    → IsSpace (free_entry fs e)
      × ((s : ℕ) → spaces (free_entry fs e) s ≤ spaces fs s + entry_covers e s)
free_entry-spaces fs e v h =
    if_ind (λ fs'. IsSpace fs' × ((s : ℕ) → spaces fs' s ≤ spaces fs s + entry_covers e s))
      (not (e.start_lba == 0) && ltb 0 (sectors_of e.size)) _ _
      (λ used.
        let (space, count) =
          add_to_free_list-spaces fs e.start_lba (sectors_of e.size) v (ground (arith, used, h.0))
            h.1 in
        (space, λ s. ground (arith, count s, used)))
      (λ unused. (v, λ s. omega arith))
