-- ===== src/Dtb/Tests.antt =====
-- A device tree of 100 bytes that boot/aarch64/loader.c reads, and instances of the theorems about it.
use aeos.Pmm.{kernel_base}
use aeos.Dtb.Walk.{walkers_end}
use aeos.Dtb.Uart.{dtb_find_uart, uart_round, is_uart}
use aeos.Dtb.Handover.{Handed, loader_main-Handed}
use aeos.Dtb.Reads.{dtb_memory-agree}
use aeos.Dtb.{Bytes, loop, rd32, strlen_from, starts, equals, cells, fdt_string}
use aeos.Dtb.Memory.{dtb_memory, Found, memory_round, is_memory}
use aeos.Base.{
  Option, ℕ, List, get_or, ◌∷◌, ◌≡◌, ◌<◌, ◌-◌, if◌then◌else◌, ltb, arith, some, ◌/◌, [], none, refl,
  ◌^◌, ◌%◌,
}
use aeos.Dtb.Loader.{Kernel, dtb_sniff, Bootinfo, loader_main, validate_kernel}

-- The header, a root with a memory node of 256 MB, and the one string "reg"
abbrev words : List ℕ
words =
    0xd00dfeed ∷ 100 ∷ 40 ∷ 96 ∷ 40 ∷ 17 ∷ 16 ∷ 0 ∷ 4 ∷ 56 ∷ 1 ∷ 0 ∷ 1 ∷ 0x6d656d6f ∷ 0x72790000 ∷ 3
    ∷ 12 ∷ 0 ∷ 0 ∷ 0x40000000 ∷ 0x10000000 ∷ 2 ∷ 2 ∷ 9 ∷ 0x72656700 ∷ []

abbrev tree : Bytes
tree i = get_or words (i / 4) 0 / 256 ^ (3 - i % 4) % 256

-- The same bytes, and others behind them
abbrev other_tree : Bytes
other_tree i = if ltb i 100 then tree i else 255

abbrev memory_at : ℕ → Bytes
memory_at ptr a = tree (a - ptr)

abbrev image : Kernel
image = record { start = kernel_base; end = 0x400a0000; image_end = 0x40090000 }

memory_found : dtb_memory tree 100 ≡ some (some (0x40000000, 0x10000000))
unfolding dtb_memory loop memory_round rd32 strlen_from starts equals cells is_memory fdt_string
memory_found = refl

booted :
    loader_main (memory_at 0x44000000) image 0x44000000
    ≡ some (
        some (record {
          magic = 0x41453053;
          version = 0x00010001;
          ram_base = 0x40000000;
          ram_size = 0x10000000;
          uart_base = 0x09000000;
          dtb_ptr = 0x44000000;
          dtb_size = 100;
          kernel_size = 0x10000;
          flags = 3;
          reserved = 0;
        }))
unfolding dtb_memory loop memory_round rd32 strlen_from starts equals cells is_memory fdt_string
    loader_main dtb_sniff validate_kernel dtb_find_uart uart_round is_uart
booted = refl

-- The lowest address of memory is refused, since the room behind it is a multiple of 2 ^ 32.
refused_at_start : dtb_sniff (memory_at 0x40000000) 0x40000000 ≡ none
unfolding dtb_sniff rd32
refused_at_start = refl

walkers_end_example :
    ((r : Found) × (dtb_memory tree 100 ≡ some r)) × ((u : ℕ) × (dtb_find_uart tree 100 ≡ some u))
walkers_end_example = walkers_end tree 100

trees-agree : (i : ℕ) → i < 100 → tree i ≡ other_tree i
trees-agree i h = ground (arith, h)

dtb_memory-agree_example : dtb_memory tree 100 ≡ dtb_memory other_tree 100
dtb_memory-agree_example = dtb_memory-agree tree other_tree 100 trees-agree (omega arith)

loader_main-Handed_example :
    (r : Option Bootinfo) × ((loader_main (memory_at 0x44000000) image 0x44000000 ≡ some r)
      × Handed (memory_at 0x44000000) image r)
loader_main-Handed_example = loader_main-Handed (memory_at 0x44000000) image 0x44000000
