-- ===== src/Afs/Slots.antt =====
-- The slot that `afs_write` of kernel/afs.c writes in, found by name before and after its address is set.
use aeos.Base.{
  ℕ, List, Option, Bool, true, false, some, none, length, get_or, set, find_index, find_index-some,
  find_index-none, ◌≡◌, ◌≢◌, ◌<◌, ◌==◌, if◌then◌else◌, ltb, arith, ap, sym, ◌∙◌, refl, ℕ_discrete,
  Bool-cases, inl, inr, length-set, get_or-set_self, get_or-set_ne,
}
use aeos.Afs.Table.{
  Entry, zero_entry, find_file, fname_eq, slot_or, fresh_slot, find_or_create, store_name,
}
use aeos.Afs.Files.{Changed, set-Changed, same-Changed}

-- The test of `find_slot`
abbrev pub named : List ℕ → Entry → Bool
named name e = if e.start_lba == 0 then false else fname_eq e.name name

-- Slot `i` is the one that `dir` has for `name`, or no slot has that name; `dir1` differs there only, and once it is used it is the first of that name, if any is.
abbrev pub Chosen : List Entry → List ℕ → ℕ → List Entry → Type 0
Chosen dir name i dir1 =
    (i < 16)
    × Changed dir dir1 i
    × ((e : Entry) (k : ℕ)
        → e.name ≡ (get_or dir1 i zero_entry).name
        → 1 < e.start_lba
        → find_file (set dir1 i e) name ≡ some k
        → k ≡ i)

named_again :
    (name : List ℕ) (a b : Entry)
    → named name a ≡ true
    → b.name ≡ a.name
    → 1 < b.start_lba
    → named name b ≡ true
named_again name a b test same used =
    let eq = ap (λ n. fname_eq n name) same in ground (arith, test, eq, used)

true_ne_false : true ≢ false
true_ne_false e = ground (arith, e)

-- What `find_slot(name, 0)` finds
pub found_below :
    (dir : List Entry) (name : List ℕ) (i : ℕ)
    → length dir ≡ 16
    → find_file dir name ≡ some i
    → (i < 16)
      × (named name (get_or dir i zero_entry) ≡ true)
      × ((j : ℕ) → j < i → named name (get_or dir j zero_entry) ≡ false)
unfolding find_file
found_below dir name i len e =
    let finds = find_index-some (named name) dir i e in
    (omega (arith, finds.0, len), finds.1 zero_entry, λ j lt. finds.2 j zero_entry lt)

-- The slot of a file that exists
existing-Chosen :
    (dir : List Entry) (name : List ℕ) (i : ℕ)
    → length dir ≡ 16
    → find_file dir name ≡ some i
    → Chosen dir name i dir
existing-Chosen dir name i len found =
    let old = found_below dir name i len found in
    (
      old.0,
      same-Changed dir i len,
      λ e k same used again. elim (ℕ_discrete k i) [
        | yes eq ↦ eq
        | no other ↦
            let new = found_below (set dir i e) name k (length-set dir i e ∙ len) again in
            let at_k : get_or (set dir i e) k zero_entry ≡ get_or dir k zero_entry =
              get_or-set_ne dir i k e zero_entry (λ eq. other (sym eq)) in
            let at_i : get_or (set dir i e) i zero_entry ≡ e =
              get_or-set_self dir i e zero_entry (omega (arith, old.0, len)) in
            let test_k = ap (named name) at_k in
            let test_i =
              ap (named name) at_i ∙ named_again name (get_or dir i zero_entry) e old.1 same used in
            elim (Bool-cases (ltb k i)) [
              | inl lt ↦ absurd (true_ne_false (sym new.1 ∙ test_k ∙ old.2 k (ground (arith, lt))))
              | inr ge ↦ absurd (true_ne_false (sym test_i ∙ new.2 i (ground (arith, ge, other))))
            ]
      ],
    )

-- A fresh slot, where no file has the name
fresh-Chosen :
    (dir : List Entry) (name : List ℕ) (i : ℕ)
    → length dir ≡ 16
    → i < 16
    → find_file dir name ≡ none
    → Chosen dir name i
        (set dir i (record { name = store_name name 0 23; start_lba = 0; size = 0 }))
unfolding find_file
fresh-Chosen dir name i len lt missing =
    let new : Entry = record { name = store_name name 0 23; start_lba = 0; size = 0 } in
    let changed = set-Changed dir dir i new (same-Changed dir i len) in
    (
      lt,
      changed,
      λ e k same used again. elim (ℕ_discrete k i) [
        | yes eq ↦ eq
        | no other ↦
            let twice = set-Changed dir (set dir i new) i e changed in
            let found = found_below (set (set dir i new) i e) name k twice.0 again in
            let test_k = ap (named name) (twice.1 k (λ eq. other (sym eq))) in
            absurd (
              true_ne_false (
                sym found.1
                ∙ test_k
                ∙ find_index-none (named name) dir missing k zero_entry
                    (omega (arith, found.0, len))))
      ],
    )

-- What `find_slot(name, 1)` gives
abbrev pub AllChosen : List Entry → List ℕ → Option (ℕ × List Entry) → Type 0
AllChosen dir name none = Unit
AllChosen dir name (some (i, dir1)) = Chosen dir name i dir1

fresh_slot-AllChosen :
    (dir : List Entry) (name : List ℕ) (r : Option ℕ)
    → length dir ≡ 16
    → find_file dir name ≡ none
    → find_index (λ (e : Entry). e.start_lba == 0) dir ≡ r
    → AllChosen dir name (fresh_slot dir name r)
fresh_slot-AllChosen dir name none len missing e = tt
fresh_slot-AllChosen dir name (some i) len missing e =
    let finds = find_index-some (λ (x : Entry). x.start_lba == 0) dir i e in
    fresh-Chosen dir name i len (omega (arith, finds.0, len)) missing

slot_or-AllChosen :
    (dir : List Entry) (name : List ℕ) (r : Option ℕ)
    → length dir ≡ 16
    → find_file dir name ≡ r
    → AllChosen dir name (slot_or dir name r)
slot_or-AllChosen dir name (some i) len e = existing-Chosen dir name i len e
slot_or-AllChosen dir name none len e = fresh_slot-AllChosen dir name _ len e refl

-- `find_slot(name, 1)` gives a slot of the name or a fresh one.
pub find_or_create-AllChosen :
    (dir : List Entry) (name : List ℕ)
    → length dir ≡ 16
    → AllChosen dir name (find_or_create dir name)
unfolding find_or_create
find_or_create-AllChosen dir name len = slot_or-AllChosen dir name _ len refl
