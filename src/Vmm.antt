-- ===== src/Vmm.antt =====
-- The page tables of boot/aarch64/vmm.c. The memory of the tables is a function of a table's address
-- and an entry's index; the addresses of the three static tables are a parameter. Register writes and
-- the flushes of the TLB are not followed, nor which space is active.
pub mod Kernel
pub mod Fresh
pub mod Built
pub mod Spaces
pub mod Tests
use aeos.Base.{
  ℕ, zero, suc, ◌+◌, ◌-◌, ◌*◌, ◌/◌, ◌%◌, ◌^◌, Bool, true, false, not, ◌&&◌, ◌||◌, Option, none,
  some, List, [], ◌∷◌, ◌++◌, length, if◌then◌else◌, ltb, leb, ◌==◌,
}
use aeos.Pmm.{Pmm, alloc_page, free_page, free_pages}

abbrev pub Mem : Type 0
Mem = ℕ → ℕ → ℕ

-- `kernel_pgd`, `kernel_pud` and `kernel_pmd`
pub record Static : Type 0 where
  pub pgd : ℕ
  pub pud : ℕ
  pub pmd : ℕ

-- `t->entries[i] = v`
abbrev pub write : Mem → ℕ → ℕ → ℕ → Mem
write mem t i v a j = if a == t && j == i then v else mem a j

-- `memset(t, 0, sizeof(page_table_t))`
abbrev pub clear : Mem → ℕ → Mem
clear mem t a j = if a == t && ltb j 512 then 0 else mem a j

abbrev pub pgd_index : ℕ → ℕ
pgd_index va = va / 2 ^ 39 % 512

abbrev pub pud_index : ℕ → ℕ
pud_index va = va / 2 ^ 30 % 512

abbrev pub pmd_index : ℕ → ℕ
pmd_index va = va / 2 ^ 21 % 512

-- `e & ~0xFFFUL`
abbrev pub table_of : ℕ → ℕ
table_of e = e / 4096 * 4096

-- `PTE_AF | (MT_NORMAL << 2) | AP_RW_ALL | SH_INNER | PTE_BLOCK`
abbrev pub ram_attrs : ℕ
ram_attrs = 0x725

-- `PTE_AF | (MT_DEVICE << 2) | AP_RW_EL1 | SH_NONE | PTE_BLOCK`
abbrev pub dev_attrs : ℕ
dev_attrs = 0x401

-- `map_block`; the attributes are below 2^21.
pub map_block : Static → ℕ → ℕ → ℕ → Mem → Mem
map_block st va pa attrs mem =
    write
      (write (write mem st.pgd (pgd_index va) (table_of st.pud + 3)) st.pud (pud_index va)
        (table_of st.pmd + 3))
      st.pmd (pmd_index va) (pa / 2 ^ 21 * 2 ^ 21 + attrs)

-- The loop of `vmm_init` over the RAM, `n` blocks from `a` on
pub map_ram : Static → ℕ → ℕ → Mem → Mem
map_ram st a zero mem = mem
map_ram st a (suc n) mem = map_ram st (a + 0x200000) n (map_block st a a ram_attrs mem)

-- `vmm_init`: 64 blocks from 0x40000000 to 0x48000000
pub init : Static → Mem → Mem
init st mem =
    let zeroed = clear (clear (clear mem st.pgd) st.pud) st.pmd in
    map_ram st 0x40000000 64 (
      map_block st 0x0A000000 0x0A000000 dev_attrs (
        map_block st 0x09000000 0x09000000 dev_attrs
          (map_block st 0x08000000 0x08000000 dev_attrs zeroed)))

-- The last level of `vmm_get_phys`
abbrev pub walk_pte : ℕ → ℕ → ℕ
walk_pte e va = if e % 2 == 0 then 0 else e / 4096 * 4096 + va % 4096

abbrev pub walk_pmd : Mem → ℕ → ℕ → ℕ
walk_pmd mem e va =
    if e % 2 == 0
    then 0
    else if e % 4 == 1
    then e / 2 ^ 21 * 2 ^ 21 + va % 2 ^ 21
    else walk_pte (mem (table_of e) (va / 4096 % 512)) va

abbrev pub walk_pud : Mem → ℕ → ℕ → ℕ
walk_pud mem e va = if e % 2 == 0 then 0 else walk_pmd mem (mem (table_of e) (pmd_index va)) va

abbrev pub walk_pgd : Mem → ℕ → ℕ → ℕ
walk_pgd mem e va = if e % 2 == 0 then 0 else walk_pud mem (mem (table_of e) (pud_index va)) va

-- The walk of `vmm_get_phys` from a top-level table; 0 is failure.
pub walk : Mem → ℕ → ℕ → ℕ
walk mem pgd va = walk_pgd mem (mem pgd (pgd_index va)) va

-- `vmm_get_phys`
abbrev pub get_phys : Static → Mem → ℕ → ℕ
get_phys st mem va = walk mem st.pgd va

-- `AS_MAX_TABLES`
abbrev pub max_tables : ℕ
max_tables = 16

-- `struct addr_space`; `live` is the self-check.
pub record Space : Type 0 where
  pub pgd : ℕ
  pub tables : List ℕ
  pub user_region : ℕ
  pub live : Bool

-- The allocator and the memory that the operations on address spaces share
pub record Machine : Type 0 where
  pub pmm : Pmm
  pub mem : Mem

-- `as_alloc_table`: a page that is not taken up is lost.
pub alloc_table : Machine → Space → Option ℕ × (Machine × Space)
alloc_table m s =
    let (pa, pmm') = alloc_page m.pmm in
    if pa == 0 || leb max_tables (length s.tables) then (none, (record m { pmm = pmm' }, s)) else (
      some pa,
      (record { pmm = pmm'; mem = clear m.mem pa }, record s { tables = s.tables ++ pa ∷ [] }),
    )

-- The loop of `as_create` that shares the kernel's top-level entries
abbrev pub copy_top : Mem → ℕ → ℕ → Mem
copy_top mem from to a j = if a == to && ltb j 512 then mem from j else mem a j

abbrev pub empty_space : Space
empty_space = record { pgd = 0; tables = []; user_region = 0; live = true }

abbrev pub with_top : Static → Option ℕ × (Machine × Space) → Option Space × Machine
with_top st (none, (m, s)) = (none, m)
with_top st (some pgd, (m, s)) =
    (some (record s { pgd = pgd }), record m { mem = copy_top m.mem st.pgd pgd })

-- `as_create`, where the heap has room for the structure or not
pub as_create : Static → Bool → Machine → Option Space × Machine
as_create st room m =
    let made = with_top st (alloc_table m empty_space) in if room then made else (none, m)

abbrev pub linked : ℕ → ℕ → Option ℕ × (Machine × Space) → Option ℕ × (Machine × Space)
linked t i (none, (m, s)) = (none, (m, s))
linked t i (some pa, (m, s)) = (some pa, (record m { mem = write m.mem t i (table_of pa + 3) }, s))

-- The table that entry `i` of table `t` names; a fresh one where the entry names none
pub next_table : Machine → Space → ℕ → ℕ → Option ℕ × (Machine × Space)
next_table m s t i =
    let fresh = linked t i (alloc_table m s) in
    if m.mem t i % 4 == 0 then fresh else (some (table_of (m.mem t i)), (m, s))

abbrev pub map_last : ℕ → ℕ → ℕ → Option ℕ × (Machine × Space) → Bool × (Machine × Space)
map_last va pa attrs (none, ms) = (false, ms)
map_last va pa attrs (some pmd, (m, s)) = (
  true,
  (
    record m {
      mem =
          write m.mem pmd (pmd_index va)
            (pa / 2 ^ 21 * 2 ^ 21 + (if attrs % 2 == 0 then attrs + 1 else attrs));
    },
    s,
  ),
)

abbrev pub map_mid : ℕ → ℕ → ℕ → Option ℕ × (Machine × Space) → Bool × (Machine × Space)
map_mid va pa attrs (none, ms) = (false, ms)
map_mid va pa attrs (some pud, (m, s)) = map_last va pa attrs (next_table m s pud (pud_index va))

-- `as_map_block` of a space that is not null: whether it returns 0. The attributes are below 2^21.
pub as_map_block : Machine → Space → ℕ → ℕ → ℕ → Bool × (Machine × Space)
as_map_block m s va pa attrs =
    if not s.live || (not (va % 2 ^ 21 == 0) || not (pa % 2 ^ 21 == 0))
    then (false, (m, s))
    else if leb (max_tables - 2) (length s.tables)
    then (false, (m, s))
    else map_mid va pa attrs (next_table m s s.pgd (pgd_index va))

-- The loop of `as_destroy` over the owned tables
pub free_tables : Pmm → List ℕ → Pmm
free_tables p [] = p
free_tables p (t ∷ ts) = free_tables (free_page p t) ts

-- `as_destroy` of a space that is not null: the allocator, the space, and whether it was destroyed
pub as_destroy : Pmm → Space → Pmm × (Space × Bool)
as_destroy p s =
    let regions = (if s.user_region == 0 then p else free_pages p s.user_region 512) in
    if s.live
    then (free_tables regions s.tables, (record s { live = false }, true))
    else (p, (s, false))
