-- ===== src/Device/Find.antt =====
-- A device of kernel/device.c is found under the name it was registered with.
use aeos.Ramfs.{store_name}
use aeos.Ramfs.Names.{IsPadded, same_name_stored}
use mathlib.Core.Option
use aeos.Device.Valid.{IsValid, Points}
use aeos.Base.{
  find_index, List, Bool, ℕ, ◌≡◌, ◌<◌, length, get_or, none, true, take, ◌≢◌, suc, ◌++◌, set, ◌∷◌,
  [], ap, some, arith, refl, zero, Option, Bool-cases, inl, inr, leb, false, ◌-◌, ◌+◌, ◌%◌,
  get_or-set_self, length-take, ◌∙◌, not_==_of_ne, get_or-set_ne, get_or-take, length-set,
}
use aeos.Device.{Devices, register, open_by, matches, device_at, Device, blank}

take-set_end {ℓ} :
    {A : Type ℓ} (xs : List A) (n : ℕ) (v : A)
    → n < length xs
    → take (suc n) (set xs n v) ≡ take n xs ++ (v ∷ [])
take-set_end [] n v h = elim h [ ]
take-set_end (x ∷ xs) zero v h = refl
take-set_end (x ∷ xs) (suc n) v h = ap (λ l. x ∷ l) (take-set_end xs n v (omega (arith, h)))

-- The first place that passes, in a longer list, when none before does
find_index-append {ℓ} :
    {A : Type ℓ} (test : A → Bool) (xs : List A) (v : A)
    → find_index test xs ≡ none
    → test v ≡ true
    → find_index test (xs ++ (v ∷ [])) ≡ some (length xs)
unfolding find_index
find_index-append test [] v e h = rw h refl
find_index-append test (x ∷ xs) v e h = elim (Bool-cases (test x)) [
  | inl here ↦ absurd (ground (arith, rw here at e))
  | inr other ↦
      rw (other, find_index-append test xs v (none_rest (find_index test xs) (rw other at e)) h)
        refl
]
  where
    none_rest : (o : Option ℕ) → Option.map suc o ≡ none → o ≡ none
    none_rest none f = refl
    none_rest (some k) f = absurd (ground (arith, f))

-- Two tests that agree on a list's cells find the same.
find_index-agree {ℓ} :
    {A : Type ℓ} (test test' : A → Bool) (xs : List A) (z : A)
    → ((i : ℕ) → i < length xs → test (get_or xs i z) ≡ test' (get_or xs i z))
    → find_index test xs ≡ find_index test' xs
unfolding find_index
find_index-agree test test' [] z h = refl
find_index-agree test test' (x ∷ xs) z h =
    rw (h 0 (omega arith), find_index-agree test test' xs z (λ i lt. h (suc i) (omega (arith, lt))))
      refl

-- No place of the table below the count has this device.
abbrev IsNew : Devices → ℕ → Type 0
IsNew d p = (i : ℕ) → i < d.count → get_or d.table i 0 ≢ p

module _ (d : Devices) (name : List ℕ) (kind p : ℕ) (v : IsValid d) (points : Points d p)
    (room : d.count < 16) where
  fresh : Device
  fresh = record (device_at d p) {
    name = store_name name 0 16;
    kind = kind;
    id = d.count;
    open_count = 0;
    flags = 0;
  }

  stored : List Device
  stored = set d.store (p - 1) fresh

  get_or-stored : get_or stored (p - 1) blank ≡ fresh
  unfolding stored
  get_or-stored = get_or-set_self d.store (p - 1) fresh blank (omega (arith, points.0, points.1))

  old_place :
      IsNew d p
      → (i : ℕ) → i < d.count
      → matches stored name (get_or d.table i 0) ≡ matches d.store name (get_or d.table i 0)
  unfolding stored
  old_place new i lt =
      rw
        (get_or-set_ne d.store (p - 1) (get_or d.table i 0 - 1) fresh blank
          (λ e. new i lt (omega (arith, e, points.0, (v.used i lt).0))))
        refl

  none_still :
      IsNew d p
      → find_index (matches d.store name) (take d.count d.table) ≡ none
      → find_index (matches stored name) (take d.count d.table) ≡ none
  none_still new none_before =
      find_index-agree (matches stored name) (matches d.store name) (take d.count d.table) 0
        (λ i lt. rw (get_or-take d.count i d.table 0 (below i lt)) (old_place new i (below i lt)))
      ∙ none_before
    where
      below : (i : ℕ) → i < length (take d.count d.table) → i < d.count
      below i lt = omega (arith, lt, length-take d.count d.table)

  own_place : IsPadded name → matches stored name p ≡ true
  unfolding fresh
  own_place padded =
      rw (not_==_of_ne p 0 (λ e. omega (arith, e, points.0)), get_or-stored)
        (same_name_stored name padded)

  found :
      IsNew d p
      → IsPadded name
      → find_index (matches d.store name) (take d.count d.table) ≡ none
      → find_index (matches stored name) (take ((d.count + 1) % 256) (set d.table d.count p))
        ≡ some d.count
  found new padded none_before =
      ap (λ n. find_index (matches stored name) (take n (set d.table d.count p)))
        {x = (d.count + 1) % 256} {y = suc d.count} (omega (arith, room))
      ∙ ap (find_index (matches stored name))
          (take-set_end d.table d.count p (omega (arith, room, v.places)))
      ∙ find_index-append (matches stored name) (take d.count d.table) p
          (none_still new none_before) (own_place padded)
      ∙ ap some (omega (arith, length-take d.count d.table, room, v.places))

-- A device registered under a name whose buffer is zero from its end on, in a table with room where no device that is found under that name stands before and the device itself is new, is what device_open of the name gives; its count is then 1.
pub open_by-register :
    (d : Devices) (name : List ℕ) (kind p : ℕ)
    → IsValid d
    → Points d p
    → IsNew d p
    → IsPadded name
    → d.count < 16
    → find_index (matches d.store name) (take d.count d.table) ≡ none
    → let d' = (register d name kind p).1 in
      ((open_by d' name).0 ≡ p) × ((device_at (open_by d' name).1 p).open_count ≡ 1)
unfolding register open_by stored fresh
open_by-register d name kind p v points new padded room none_before =
    rw
      (
        not_full,
        found d name kind p v points room new padded none_before,
        get_or-set_self d.table d.count p 0 (omega (arith, room, v.places)),
      )
      (refl, once)
  where
    not_full : leb 16 d.count ≡ false
    not_full = ground (arith, room)

    fresh' : Device
    fresh' = fresh d name kind p v points room

    again : Device
    again =
        let w = get_or (set d.store (p - 1) fresh') (p - 1) blank in
        record w { open_count = (w.open_count + 1) % 256 }

    once : (get_or (set (set d.store (p - 1) fresh') (p - 1) again) (p - 1) blank).open_count ≡ 1
    once =
        ap (λ w. w.open_count)
          (get_or-set_self (set d.store (p - 1) fresh') (p - 1) again blank
            (omega (arith, length-set d.store (p - 1) fresh', points.0, points.1)))
        ∙ ap (λ w. (w.open_count + 1) % 256)
            (get_or-set_self d.store (p - 1) fresh' blank (omega (arith, points.0, points.1)))
