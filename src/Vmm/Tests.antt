-- ===== src/Vmm/Tests.antt =====
-- A placement of the kernel's tables for boot/aarch64/vmm.c, and instances of the theorems about it.
use aeos.Base.{ℕ, ◌≡◌, ◌<◌, ◌≤◌, ◌∙◌, ◌+◌, ◌^◌, arith, refl, some, true, ◌%◌}
use aeos.Pmm
use aeos.Pmm.{frame_to_phys, test_bit, total}
use aeos.Pmm.Count.{count_tail}
use aeos.Pmm.Start.{init_lem}
use aeos.Vmm.{Mem, Static, Space, Machine, init, as_create, as_map_block, walk, get_phys}
use aeos.Vmm.Kernel.{IsPlaced, init-Mapped, get_phys-init, kernel_phys}
use aeos.Vmm.Fresh.{InUse}
use aeos.Vmm.Spaces.{create-map_block}

abbrev tables : Static
tables = record { pgd = 0x40090000; pud = 0x40091000; pmd = 0x40092000 }

tables-IsPlaced : IsPlaced tables
tables-IsPlaced = record {
  pgd_page = refl;
  pud_page = refl;
  pmd_page = refl;
  pgd-pud = omega arith;
  pgd-pmd = omega arith;
  pud-pmd = omega arith;
}

abbrev empty_mem : Mem
empty_mem t i = 0

-- The null page is the first page of the RAM.
null_mapped : kernel_phys 0 ≡ 0x40000000
null_mapped = refl

get_phys-init_example :
    get_phys tables (init tables empty_mem) 0x1234 ≡ kernel_phys (0x1234 % 2 ^ 48)
get_phys-init_example = get_phys-init tables empty_mem 0x1234 tables-IsPlaced

abbrev machine : Machine
machine = record { pmm = Pmm.init; mem = init tables empty_mem }

machine-free : 3 ≤ machine.pmm.free_count
machine-free = omega (
  arith,
  init_lem.0.2,
  count_tail (test_bit Pmm.init.bitmap) 32765 total
      (λ i lo lt. init_lem.1 i lt ∙ ground (arith, lo)),
)

in_use : (f : ℕ) → f < 4736 → InUse Pmm.init (frame_to_phys f)
in_use f lt = (f, omega (arith, lt), refl, init_lem.1 f (omega (arith, lt)) ∙ ground (arith, lt))

-- A process's block, with the attributes USER_BLOCK_RWX
create-map_block_example :
    (s : Space) × (m1 : Machine) × (m2 : Machine) × (s2 : Space) × (as_create tables true machine
      ≡ (some s, m1))
    × (as_map_block m1 s 0x8000000000 0x42000000 0x724 ≡ (true, (m2, s2)))
    × ((off : ℕ) → off < 2 ^ 21 → walk m2.mem s2.pgd (0x8000000000 + off) ≡ 0x42000000 + off)
    × ((w : ℕ) → w < 2 ^ 39 → walk m2.mem s2.pgd w ≡ get_phys tables machine.mem w)
create-map_block_example =
    create-map_block tables machine 0x8000000000 0x42000000 0x724 tables-IsPlaced
      (init-Mapped tables empty_mem tables-IsPlaced) init_lem.0 (in_use 144 (omega arith))
      (in_use 145 (omega arith)) (in_use 146 (omega arith)) machine-free (omega arith) (omega arith)
      (omega arith) (omega arith) (omega arith)
