-- ===== src/Device/Valid.antt =====
-- What the calls of kernel/device.c keep of its table.
use aeos.Base.{
  length, List, ℕ, ◌<◌, ◌≡◌, get_or, Option-cases, if_ind, ◌==◌, replicate, ◌≤◌, find_index, ℤ,
  dec_lt, leb, get_or-replicate, length-set, take, ◌-◌, get_or_out, ◌∙◌, arith, get_or-set_ne, inl,
  inr, refl, ℕ_discrete, get_or-set_self, sym, length-take, find_index-some,
}
use aeos.Device.{open_by, Devices, register, close, init, Device, Callback, matches, with_device}

-- A pointer to a device of the store
abbrev pub Points : Devices → ℕ → Type 0
Points d p = (0 < p) × (p ≤ length d.store)

-- The table has its sixteen places; those below the count point to devices, and the rest are null.
pub record IsValid (d : Devices) : Type 0 where
  pub places : length d.table ≡ 16
  pub counted : d.count ≤ 16
  pub used : (i : ℕ) → i < d.count → Points d (get_or d.table i 0)
  pub free : (i : ℕ) → d.count ≤ i → get_or d.table i 0 ≡ 0

with_device-IsValid :
    (d : Devices) (p : ℕ) (v : Device) (calls : List Callback)
    → IsValid d
    → IsValid (record (with_device d p v) { callbacks = calls })
with_device-IsValid d p v calls valid = record {
  places = valid.places;
  counted = valid.counted;
  used = λ i h. (let (lo, hi) = valid.used i h in (lo, rw (length-set d.store (p - 1) v) hi));
  free = valid.free;
}

pub init-IsValid : (d : Devices) → IsValid (init d)
init-IsValid d = record {
  places = refl;
  counted = omega arith;
  used = λ i h. absurd (omega (arith, h));
  free = λ i h. blank_place i;
}
  where
    blank_place : (i : ℕ) → ◌≡◌ {A = ℕ} (get_or (replicate 16 0) i 0) 0
    blank_place i = elim (dec_lt i 16) [
      | yes lt ↦ get_or-replicate 16 i 0 0 lt
      | no ge ↦ get_or_out (replicate 16 0) i 0 (omega (arith, ge))
    ]

pub open_by-IsValid : (d : Devices) (name : List ℕ) → IsValid d → IsValid (open_by d name).1
unfolding open_by
open_by-IsValid d name v =
    elim (Option-cases (find_index (matches d.store name) (take d.count d.table))) [
      | inl e ↦ rw e v
      | inr (i, e) ↦ rw e (with_device-IsValid d _ _ _ v)
    ]

pub close-IsValid : (d : Devices) (p : ℕ) → IsValid d → IsValid (close d p)
unfolding close
close-IsValid d p v = if_ind IsValid (p == 0) _ _ (λ e. v) (λ e. with_device-IsValid d p _ _ v)

pub register-IsValid :
    (d : Devices) (name : List ℕ) (kind p : ℕ)
    → IsValid d
    → Points d p
    → IsValid (register d name kind p).1
unfolding register
register-IsValid d name kind p v h =
    if_ind (λ (r : ℤ × Devices). IsValid r.1) (leb 16 d.count) _ _ (λ full. v)
      (λ room. record {
        places = length-set d.table d.count p ∙ v.places;
        counted = ground (arith, room);
        used = λ i lt. rw (length-set d.store (p - 1) _) (elim (ℕ_discrete i d.count) [
          | yes last ↦
              rw (last, get_or-set_self d.table d.count p 0 (ground (arith, room, v.places))) h
          | no other ↦
              rw (get_or-set_ne d.table d.count i p 0 (λ e. other (sym e)))
                (v.used i (ground (arith, room, lt, other)))
        ]);
        free = λ i ge.
            get_or-set_ne d.table d.count i p 0 (ground (arith, room, ge))
            ∙ v.free i (ground (arith, room, ge));
      })

-- What device_open gives is null or points to a device, and the devices stay as many.
pub open_by-le : (d : Devices) (name : List ℕ) → IsValid d → (open_by d name).0 ≤ length d.store
unfolding open_by
open_by-le d name v =
    elim (Option-cases (find_index (matches d.store name) (take d.count d.table))) [
      | inl e ↦ rw e (omega arith)
      | inr (i, e) ↦ rw e (
          (v.used i (
            omega (
              arith,
              length-take d.count d.table,
              (find_index-some (matches d.store name) (take d.count d.table) i e).0,
            ))).1)
    ]

pub length-open_by :
    (d : Devices) (name : List ℕ) → length (open_by d name).1.store ≡ length d.store
unfolding open_by
length-open_by d name =
    elim (Option-cases (find_index (matches d.store name) (take d.count d.table))) [
      | inl e ↦ rw e refl
      | inr (i, e) ↦ rw e (length-set d.store (get_or d.table i 0 - 1) _)
    ]
