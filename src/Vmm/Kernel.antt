-- ===== src/Vmm/Kernel.antt =====
-- What `vmm_init` of boot/aarch64/vmm.c maps.
use aeos.Base.{
  ℕ, zero, suc, ◌+◌, ◌*◌, ◌/◌, ◌%◌, ◌^◌, ◌<◌, ◌≤◌, ◌≡◌, ◌≢◌, ◌⊎◌, Bool-cases, inl, inr, ◌&&◌, ◌||◌,
  ◌∙◌, if◌then◌else◌, ltb, ◌==◌, arith, refl, false, sym,
}
use mathlib.Core.Path.{subst}
use aeos.Vmm.{
  Mem, Static, clear, pgd_index, pud_index, pmd_index, table_of, ram_attrs, dev_attrs, map_block,
  map_ram, init, walk, walk_pgd, walk_pud, walk_pmd, get_phys,
}

-- The three tables are different pages.
pub record IsPlaced (st : Static) : Type 0 where
  pub pgd_page : st.pgd % 4096 ≡ 0
  pub pud_page : st.pud % 4096 ≡ 0
  pub pmd_page : st.pmd % 4096 ≡ 0
  pub pgd-pud : st.pgd ≢ st.pud
  pub pgd-pmd : st.pgd ≢ st.pmd
  pub pud-pmd : st.pud ≢ st.pmd

-- The entry of the last table for block `i` once `k` blocks of RAM are mapped
abbrev pub low_entry : ℕ → ℕ → ℕ
low_entry k i =
    if ltb i k
    then 0x40000000 + i * 0x200000 + ram_attrs
    else if i == 64 || i == 72 || i == 80
    then i * 0x200000 + dev_attrs
    else 0

pub record Mapped (st : Static) (k : ℕ) (mem : Mem) : Type 0 where
  pub top : (i : ℕ) → i < 512 → mem st.pgd i ≡ (if i == 0 then st.pud + 3 else 0)
  pub mid :
      (i : ℕ) → i < 512 → mem st.pud i ≡ (if i == 0 || (i == 1 && ltb 0 k) then st.pmd + 3 else 0)
  pub low : (i : ℕ) → i < 512 → mem st.pmd i ≡ low_entry k i

module _ (st : Static) (p : IsPlaced st) (va pa attrs : ℕ) (mem : Mem) where
  block_top :
      (i : ℕ)
      → map_block st va pa attrs mem st.pgd i
        ≡ (if i == pgd_index va then st.pud + 3 else mem st.pgd i)
  unfolding map_block
  block_top i = ground (arith, p.pgd-pmd, p.pgd-pud, p.pud_page)

  block_mid :
      (i : ℕ)
      → map_block st va pa attrs mem st.pud i
        ≡ (if i == pud_index va then st.pmd + 3 else mem st.pud i)
  unfolding map_block
  block_mid i = ground (arith, p.pud-pmd, p.pgd-pud, p.pmd_page)

  block_low :
      (i : ℕ)
      → map_block st va pa attrs mem st.pmd i
        ≡ (if i == pmd_index va then pa / 2 ^ 21 * 2 ^ 21 + attrs else mem st.pmd i)
  unfolding map_block
  block_low i = ground (arith, p.pud-pmd, p.pgd-pmd)

-- What the three calls of `memset` leave
abbrev zeroed : Static → Mem → Mem
zeroed st mem = clear (clear (clear mem st.pgd) st.pud) st.pmd

-- The devices are mapped, and no RAM.
module _ (st : Static) (p : IsPlaced st) (mem : Mem) (i : ℕ) (h : i < 512) where
  abbrev one : Mem
  one = map_block st 0x08000000 0x08000000 dev_attrs (zeroed st mem)

  abbrev two : Mem
  two = map_block st 0x09000000 0x09000000 dev_attrs one

  abbrev three : Mem
  three = map_block st 0x0A000000 0x0A000000 dev_attrs two

  zeroed_lem : (t : ℕ) → (t ≡ st.pgd) ⊎ (t ≡ st.pud) ⊎ (t ≡ st.pmd) → zeroed st mem t i ≡ 0
  zeroed_lem t (inl e) = ground (arith, e, h)
  zeroed_lem t (inr (inl e)) = ground (arith, e, h)
  zeroed_lem t (inr (inr e)) = ground (arith, e, h)

  devices_top : three st.pgd i ≡ (if i == 0 then st.pud + 3 else 0)
  devices_top =
      block_top st p 0x0A000000 0x0A000000 dev_attrs two i
      ∙ ground (
        arith,
        block_top st p 0x09000000 0x09000000 dev_attrs one i,
        block_top st p 0x08000000 0x08000000 dev_attrs (zeroed st mem) i,
        zeroed_lem st.pgd (inl refl),
      )

  devices_mid : three st.pud i ≡ (if i == 0 || (i == 1 && ltb 0 0) then st.pmd + 3 else 0)
  devices_mid =
      block_mid st p 0x0A000000 0x0A000000 dev_attrs two i
      ∙ ground (
        arith,
        block_mid st p 0x09000000 0x09000000 dev_attrs one i,
        block_mid st p 0x08000000 0x08000000 dev_attrs (zeroed st mem) i,
        zeroed_lem st.pud (inr (inl refl)),
      )

  devices_low : three st.pmd i ≡ low_entry 0 i
  devices_low =
      block_low st p 0x0A000000 0x0A000000 dev_attrs two i
      ∙ ground (
        arith,
        block_low st p 0x09000000 0x09000000 dev_attrs one i,
        block_low st p 0x08000000 0x08000000 dev_attrs (zeroed st mem) i,
        zeroed_lem st.pmd (inr (inr refl)),
      )

devices-Mapped :
    (st : Static) (p : IsPlaced st) (mem : Mem)
    → Mapped st 0 (
        map_block st 0x0A000000 0x0A000000 dev_attrs (
          map_block st 0x09000000 0x09000000 dev_attrs
            (map_block st 0x08000000 0x08000000 dev_attrs (zeroed st mem))))
devices-Mapped st p mem = record {
  top = λ i h. devices_top st p mem i h;
  mid = λ i h. devices_mid st p mem i h;
  low = λ i h. devices_low st p mem i h;
}

ram-Mapped :
    (st : Static) (p : IsPlaced st) (k : ℕ) (mem : Mem)
    → k < 64
    → Mapped st k mem
    → Mapped st
        (suc k)
        (map_block st (0x40000000 + k * 0x200000) (0x40000000 + k * 0x200000) ram_attrs mem)
ram-Mapped st p k mem h m = record {
  top = λ i l. block_top st p a a ram_attrs mem i ∙ ground (arith, m.top i l, h);
  mid = λ i l. block_mid st p a a ram_attrs mem i ∙ ground (arith, m.mid i l, h);
  low = λ i l. block_low st p a a ram_attrs mem i ∙ ground (arith, m.low i l, h);
}
  where
    a : ℕ
    a = 0x40000000 + k * 0x200000

map_ram-Mapped :
    (st : Static) (p : IsPlaced st) (n k : ℕ) (mem : Mem)
    → k + n ≡ 64
    → Mapped st k mem
    → Mapped st 64 (map_ram st (0x40000000 + k * 0x200000) n mem)
unfolding map_ram
map_ram-Mapped st p zero k mem e m = subst (λ j. Mapped st j mem) (omega (arith, e)) m
map_ram-Mapped st p (suc n) k mem e m =
    subst
      (λ a. Mapped st 64 (
        map_ram st a n
          (map_block st (0x40000000 + k * 0x200000) (0x40000000 + k * 0x200000) ram_attrs mem)))
      (omega arith)
      (map_ram-Mapped st p n (suc k) _ (omega (arith, e))
        (ram-Mapped st p k mem (omega (arith, e)) m))

pub init-Mapped : (st : Static) (mem : Mem) → IsPlaced st → Mapped st 64 (init st mem)
unfolding init
init-Mapped st mem p = map_ram-Mapped st p 64 0 _ refl (devices-Mapped st p mem)

-- The physical address behind an address of the lower 2 GiB by its 2 MiB block of the 1 GiB it lies in: the RAM, the three blocks of devices, or nothing.
abbrev pub behind : ℕ → ℕ → ℕ
behind block offset =
    if ltb block 64
    then 0x40000000 + block * 0x200000 + offset
    else if block == 64 || block == 72 || block == 80
    then block * 0x200000 + offset
    else 0

abbrev pub kernel_phys : ℕ → ℕ
kernel_phys va = if ltb va 0x80000000 then behind (va / 2 ^ 21 % 512) (va % 2 ^ 21) else 0

walk_low :
    (mem : Mem) (e block va : ℕ)
    → e ≡ low_entry 64 block
    → block < 512
    → walk_pmd mem e va ≡ behind block (va % 2 ^ 21)
walk_low mem e block va eq h = rw eq (ground (arith, h))

-- An entry that names a page leads there.
pub entry_odd : (t : ℕ) → t % 4096 ≡ 0 → ((t + 3) % 2 == 0) ≡ false
entry_odd t h = ground (arith, h)

pub entry_table : (t : ℕ) → t % 4096 ≡ 0 → table_of (t + 3) ≡ t
entry_table t h = omega (arith, h)

-- The two lower tables
abbrev pub Below : Static → Mem → Type 0
Below st mem =
    ((i : ℕ) → i < 512 → mem st.pud i ≡ (if i == 0 || (i == 1 && ltb 0 64) then st.pmd + 3 else 0))
    × ((i : ℕ) → i < 512 → mem st.pmd i ≡ low_entry 64 i)

walk_mid :
    (st : Static) (mem : Mem) (e va : ℕ)
    → st.pud % 4096 ≡ 0
    → st.pmd % 4096 ≡ 0
    → Below st mem
    → e ≡ (if pud_index va == 0 || (pud_index va == 1 && ltb 0 64) then st.pmd + 3 else 0)
    → walk_pud mem e va ≡ (if ltb (pud_index va) 2 then behind (pmd_index va) (va % 2 ^ 21) else 0)
walk_mid st mem e va pud_page pmd_page b eq = elim (Bool-cases (ltb (pud_index va) 2)) [
  | inl lt ↦
      let named : e ≡ st.pmd + 3 = eq ∙ ground (arith, lt) in
      rw (named, entry_odd st.pmd pmd_page, entry_table st.pmd pmd_page, lt)
        (walk_low mem (mem st.pmd (pmd_index va)) (pmd_index va) va
          (b.1 (pmd_index va) (omega arith)) (omega arith))
  | inr ge ↦ let none_there : e ≡ 0 = eq ∙ ground (arith, ge) in rw (none_there, ge) refl
]

pub walk_top :
    (st : Static) (mem : Mem) (e va : ℕ)
    → st.pud % 4096 ≡ 0
    → st.pmd % 4096 ≡ 0
    → Below st mem
    → e ≡ (if pgd_index va == 0 then st.pud + 3 else 0)
    → walk_pgd mem e va ≡ (
        if pgd_index va == 0
        then (if ltb (pud_index va) 2 then behind (pmd_index va) (va % 2 ^ 21) else 0)
        else 0)
walk_top st mem e va pud_page pmd_page b eq = elim (Bool-cases (pgd_index va == 0)) [
  | inl first ↦
      let named : e ≡ st.pud + 3 = eq ∙ ground (arith, first) in
      rw (named, entry_odd st.pud pud_page, entry_table st.pud pud_page, first)
        (walk_mid st mem (mem st.pud (pud_index va)) va pud_page pmd_page b
          (b.0 (pud_index va) (omega arith)))
  | inr other ↦ let none_there : e ≡ 0 = eq ∙ ground (arith, other) in rw (none_there, other) refl
]

split_halves :
    (va top mid b : ℕ)
    → ((va < 2 ^ 31) × (top ≡ 0) × (mid < 2)) ⊎ ((2 ^ 31 ≤ va) × ((top ≢ 0) ⊎ (2 ≤ mid)))
    → (if top == 0 then (if ltb mid 2 then b else 0) else 0) ≡ (if ltb va 0x80000000 then b else 0)
split_halves va top mid b (inl c) = ground (arith, c)
split_halves va top mid b (inr c) = ground (arith, c)

pub halves :
    (va : ℕ)
    → va < 2 ^ 48
    → (if pgd_index va == 0
        then (if ltb (pud_index va) 2 then behind (pmd_index va) (va % 2 ^ 21) else 0)
        else 0)
      ≡ kernel_phys va
halves va h =
    split_halves va (va / 2 ^ 39 % 512) (va / 2 ^ 30 % 512) (behind (pmd_index va) (va % 2 ^ 21))
      (omega (arith, h))

pub walk-kernel_phys :
    (st : Static) (mem : Mem) (va : ℕ)
    → IsPlaced st
    → Mapped st 64 mem
    → va < 2 ^ 48
    → get_phys st mem va ≡ kernel_phys va
unfolding walk
walk-kernel_phys st mem va p m h =
    walk_top st mem (mem st.pgd (pgd_index va)) va p.pud_page p.pmd_page (m.mid, m.low)
      (m.top (pgd_index va) (omega arith))
    ∙ halves va h

-- The walk looks at 48 bits of the address.
low_bits :
    (va : ℕ)
    → (pgd_index (va % 2 ^ 48) ≡ pgd_index va)
      × ((pud_index (va % 2 ^ 48) ≡ pud_index va)
          × ((pmd_index (va % 2 ^ 48) ≡ pmd_index va) × (va % 2 ^ 48 % 2 ^ 21 ≡ va % 2 ^ 21)))
low_bits va = omega arith

-- After `vmm_init`, `vmm_get_phys` of any address is that of the map for its low 48 bits: the RAM and the three device blocks at their own addresses, and, since the two gigabytes below 0x80000000 share one table, the RAM again at 0 to 0x07ffffff and the devices again from 0x48000000 on; nothing else is mapped.
pub get_phys-init :
    (st : Static) (mem : Mem) (va : ℕ)
    → IsPlaced st
    → get_phys st (init st mem) va ≡ kernel_phys (va % 2 ^ 48)
unfolding walk
get_phys-init st mem va p =
    let m = init-Mapped st mem p in
    let same = low_bits va in
    walk_top st (init st mem) (init st mem st.pgd (pgd_index va)) va p.pud_page p.pmd_page
      (m.mid, m.low) (m.top (pgd_index va) (omega arith))
    ∙ rw (sym same.0, sym same.1.0, sym same.1.1.0, sym same.1.1.1)
        (halves (va % 2 ^ 48) (omega arith))
