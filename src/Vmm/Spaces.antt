-- ===== src/Vmm/Spaces.antt =====
-- A new address space of boot/aarch64/vmm.c: `as_create`, then `as_map_block` in the user window.
use aeos.Base.{
  ℕ, ◌+◌, ◌*◌, ◌/◌, ◌%◌, ◌^◌, ◌<◌, ◌≤◌, ◌≡◌, ◌≢◌, ◌∙◌, if◌then◌else◌, true, false, not, some, ◌||◌,
  ◌==◌, leb, length, [], ◌∷◌, ◌++◌, arith, sym, refl,
}
use aeos.Pmm.{Pmm, alloc_page}
use aeos.Pmm.Valid
use aeos.Vmm.{
  Static, Space, Machine, write, clear, copy_top, pgd_index, pud_index, table_of, alloc_table,
  empty_space, as_create, next_table, as_map_block, walk, get_phys,
}
use aeos.Vmm.Kernel.{IsPlaced, Mapped, walk-kernel_phys}
use aeos.Vmm.Fresh.{InUse, IsFresh, alloc_page-IsFresh}
use aeos.Vmm.Built.{built, IsApart, built-block, built-kernel}

-- The page that the allocator gives next, and the allocator after it
abbrev page : Pmm → ℕ
page p = (alloc_page p).0

abbrev later : Pmm → Pmm
later p = (alloc_page p).1

alloc_table_fresh :
    (m : Machine) (s : Space)
    → Valid.IsValid m.pmm
    → 0 < m.pmm.free_count
    → length s.tables < 16
    → alloc_table m s ≡ (
      some (page m.pmm),
      (
        record { pmm = later m.pmm; mem = clear m.mem (page m.pmm) },
        record s { tables = s.tables ++ page m.pmm ∷ [] },
      ),
    )
unfolding alloc_table
alloc_table_fresh m s v some_free short =
    let f = alloc_page-IsFresh m.pmm v some_free in
    let works : (page m.pmm == 0 || leb 16 (length s.tables)) ≡ false =
      ground (arith, f.positive, short) in
    rw works refl

next_table_fresh :
    (m : Machine) (s : Space) (t i : ℕ)
    → Valid.IsValid m.pmm
    → 0 < m.pmm.free_count
    → length s.tables < 16
    → m.mem t i ≡ 0
    → next_table m s t i ≡ (
      some (page m.pmm),
      (
        record {
          pmm = later m.pmm;
          mem = write (clear m.mem (page m.pmm)) t i (table_of (page m.pmm) + 3);
        },
        record s { tables = s.tables ++ page m.pmm ∷ [] },
      ),
    )
unfolding next_table
next_table_fresh m s t i v some_free short empty =
    let none_there : (m.mem t i % 4 == 0) ≡ true = ground (arith, empty) in
    rw (none_there, alloc_table_fresh m s v some_free short) refl

-- The attributes with PTE_VALID
abbrev valid_attrs : ℕ → ℕ
valid_attrs attrs = if attrs % 2 == 0 then attrs + 1 else attrs

module _ (st : Static) (m : Machine) (va pa attrs : ℕ) (placed : IsPlaced st)
    (mapped : Mapped st 64 m.mem) (valid : Valid.IsValid m.pmm) (pgd_used : InUse m.pmm st.pgd)
    (pud_used : InUse m.pmm st.pud) (pmd_used : InUse m.pmm st.pmd) (enough : 3 ≤ m.pmm.free_count)
    (va_block : va % 2 ^ 21 ≡ 0) (pa_block : pa % 2 ^ 21 ≡ 0) (window : pgd_index va ≢ 0)
    (small : attrs < 2 ^ 21) (kind : attrs % 4 < 2) where
  p1 : Pmm
  p1 = later m.pmm

  p2 : Pmm
  p2 = later p1

  g : ℕ
  g = page m.pmm

  u : ℕ
  u = page p1

  d : ℕ
  d = page p2

  first : IsFresh m.pmm p1 g
  unfolding p1 g
  first = alloc_page-IsFresh m.pmm valid (omega (arith, enough))

  second : IsFresh p1 p2 u
  unfolding p2 u
  second = alloc_page-IsFresh p1 first.valid (omega (arith, enough, first.count_step))

  third : IsFresh p2 (later p2) d
  unfolding d
  third =
      alloc_page-IsFresh p2 second.valid
        (omega (arith, enough, first.count_step, second.count_step))

  apart : IsApart st g u d
  apart = record {
    u_page = second.page;
    d_page = third.page;
    g-u = second.other g first.used;
    g-d = third.other g (second.still g first.used);
    u-d = third.other u second.used;
    g-pgd = first.other st.pgd pgd_used;
    g-pud = first.other st.pud pud_used;
    g-pmd = first.other st.pmd pmd_used;
    u-pud = second.other st.pud (first.still st.pud pud_used);
    u-pmd = second.other st.pmd (first.still st.pmd pmd_used);
    d-pud = third.other st.pud (second.still st.pud (first.still st.pud pud_used));
    d-pmd = third.other st.pmd (second.still st.pmd (first.still st.pmd pmd_used));
  }

  -- The space that `as_create` makes, and the machine after it
  abbrev made : Space
  made = record { pgd = g; tables = g ∷ []; user_region = 0; live = true }

  abbrev created : Machine
  created = record { pmm = p1; mem = copy_top (clear m.mem g) st.pgd g }

  created_lem : as_create st true m ≡ (some made, created)
  unfolding as_create g p1
  created_lem =
      rw (alloc_table_fresh m empty_space valid (omega (arith, enough)) (omega arith)) refl

  abbrev value : ℕ
  value = pa / 2 ^ 21 * 2 ^ 21 + valid_attrs attrs

  abbrev last : Machine
  last = record { pmm = later p2; mem = built st m.mem g u d va value }

  abbrev owner : Space
  owner = record made { tables = g ∷ u ∷ d ∷ [] }

  created_top : created.mem g (pgd_index va) ≡ 0
  created_top = ground (arith, apart.g-pgd, mapped.top (pgd_index va) (omega arith), window)

  linked_mid : write (clear created.mem u) g (pgd_index va) (table_of u + 3) u (pud_index va) ≡ 0
  linked_mid = ground (arith, apart.g-u)

  valid_attrs_lem : (valid_attrs attrs < 2 ^ 21) × (valid_attrs attrs % 4 ≡ 1)
  valid_attrs_lem = ground (arith, small, kind)

  mapped_lem : as_map_block created made va pa attrs ≡ (true, (last, owner))
  unfolding as_map_block u d p2
  mapped_lem =
      let aligned : (not (va % 2 ^ 21 == 0) || not (pa % 2 ^ 21 == 0)) ≡ false =
        ground (arith, va_block, pa_block) in
      rw
        (
          aligned,
          next_table_fresh created made g (pgd_index va) first.valid
              (omega (arith, enough, first.count_step)) (omega arith) created_top,
          next_table_fresh
              (record {
                pmm = p2;
                mem = write (clear created.mem u) g (pgd_index va) (table_of u + 3);
              })
              (record made { tables = g ∷ u ∷ [] }) u (pud_index va) second.valid
              (omega (arith, enough, first.count_step, second.count_step)) (omega arith) linked_mid,
        )
        refl

  -- With three free pages, room on the heap for the handle (the `true` of `as_create`), attributes below 2^21 that are not those of a table, the kernel map in place and its three tables in pages that are in use, `as_create` and then `as_map_block` of an aligned block outside the kernel's window succeed; every address of the block then leads to its place in the physical block, and every address below 2^39 where the kernel's map leads.
  pub create-map_block :
      (s : Space) × (m1 : Machine) × (m2 : Machine) × (s2 : Space) × (as_create st true m
        ≡ (some s, m1))
      × (as_map_block m1 s va pa attrs ≡ (true, (m2, s2)))
      × ((off : ℕ) → off < 2 ^ 21 → walk m2.mem s2.pgd (va + off) ≡ pa + off)
      × ((w : ℕ) → w < 2 ^ 39 → walk m2.mem s2.pgd w ≡ get_phys st m.mem w)
  create-map_block = (
    made,
    created,
    last,
    owner,
    created_lem,
    mapped_lem,
    λ off lt.
        built-block st m.mem g u d va pa (valid_attrs attrs) off apart va_block pa_block
          valid_attrs_lem.0 valid_attrs_lem.1 lt,
    λ w lt.
        built-kernel st m.mem g u d va value w apart placed mapped window lt
        ∙ sym (walk-kernel_phys st m.mem w placed mapped (omega (arith, lt))),
  )
