-- ===== src/Dtb/Loader.antt =====
-- `dtb_sniff`, `validate_kernel` and `loader_main` of boot/aarch64/loader.c, whose banner and messages
-- are left out. Memory is a function of the address; a null pointer to the boot information is `none`.
use aeos.Pmm.{ram_start, kernel_base, ram_end}
use aeos.Dtb.Uart.{dtb_find_uart}
use aeos.Dtb.{Bytes, rd32}
use aeos.Dtb.Memory.{Found, dtb_memory}
use aeos.Base.{
  ℕ, Bool, ◌+◌, if◌then◌else◌, false, Option, sub64, ◌%◌, ◌==◌, ltb, some, ◌&&◌, none, ◌||◌, true,
  ◌^◌, leb, not,
}

pub record Kernel : Type 0 where
  pub start : ℕ
  pub end : ℕ
  pub image_end : ℕ

-- `bootinfo_t` of kernel/bootinfo.h
pub record Bootinfo : Type 0 where
  pub magic : ℕ
  pub version : ℕ
  pub ram_base : ℕ
  pub ram_size : ℕ
  pub uart_base : ℕ
  pub dtb_ptr : ℕ
  pub dtb_size : ℕ
  pub kernel_size : ℕ
  pub flags : ℕ
  pub reserved : ℕ

abbrev pub default_uart : ℕ
default_uart = 0x09000000

abbrev pub kernel_min_size : ℕ
kernel_min_size = 4096

abbrev pub default_ram_size : ℕ
default_ram_size = 0x8000000

abbrev pub dtb_ptr_limit : ℕ
dtb_ptr_limit = 0x440000000

abbrev pub dtb_magic : ℕ
dtb_magic = 0xd00dfeed

abbrev pub blob : Bytes → ℕ → Bytes
blob memory ptr = λ i. memory (ptr + i)

-- `dtb_sniff`: the size it finds; the room behind the pointer is cut to 32 bits.
unfoldable pub dtb_sniff : Bytes → ℕ → Option ℕ
dtb_sniff memory ptr =
    let size = rd32 (blob memory ptr) 4 in
    if ltb ptr ram_start || (leb dtb_ptr_limit ptr || not (ptr % 8 == 0))
    then none
    else if not (rd32 (blob memory ptr) 0 == dtb_magic)
    then none
    else if size == 0 || ltb (sub64 dtb_ptr_limit ptr % 2 ^ 32) size
    then none
    else some size

unfoldable pub validate_kernel : Kernel → Bool
validate_kernel k =
    if ltb k.start kernel_base
    then false
    else if ltb (sub64 k.end k.start) kernel_min_size
    then false
    else if ltb ram_end k.end
    then false
    else true

-- The test of what `dtb_memory` finds
abbrev pub measured : Found → Bool
measured none = false
measured (some (mem_base, mem_size)) =
    mem_base == ram_start && (leb kernel_min_size mem_size && leb mem_size (2 ^ 32))

abbrev pub ram_of : Found → ℕ
ram_of none = default_ram_size
ram_of (some (mem_base, mem_size)) =
    if measured (some (mem_base, mem_size)) then mem_size else default_ram_size

-- What is filled in; the flags are added, since none is set twice.
abbrev pub filled : Kernel → ℕ → ℕ → ℕ → ℕ → ℕ → Bootinfo
filled k ptr size uart ram flags = record {
  magic = 0x41453053;
  version = 0x00010001;
  ram_base = ram_start;
  ram_size = ram;
  uart_base = uart;
  dtb_ptr = ptr;
  dtb_size = size;
  kernel_size = sub64 k.image_end k.start % 2 ^ 32;
  flags = flags;
  reserved = 0;
}

abbrev pub with_dtb : Kernel → ℕ → ℕ → ℕ → Found → Bootinfo
with_dtb k ptr size ubase found =
    filled k ptr size (if ubase == 0 then default_uart else ubase) (ram_of found)
      (1 + (if ubase == 0 then 0 else 4) + (if measured found then 2 else 0))

abbrev pub with_walks : Kernel → ℕ → ℕ → Option ℕ → Option Found → Option (Option Bootinfo)
with_walks k ptr size none found = none
with_walks k ptr size (some ubase) none = none
with_walks k ptr size (some ubase) (some found) = some (some (with_dtb k ptr size ubase found))

abbrev pub after_sniff : Bytes → Kernel → ℕ → Option ℕ → Option (Option Bootinfo)
after_sniff memory k ptr none = some (some (filled k 0 0 default_uart default_ram_size 0))
after_sniff memory k ptr (some size) =
    with_walks k ptr size (dtb_find_uart (blob memory ptr) size) (dtb_memory (blob memory ptr) size)

-- `loader_main`; the outer `none` is a walker that runs on.
unfoldable pub loader_main : Bytes → Kernel → ℕ → Option (Option Bootinfo)
loader_main memory k ptr =
    let booted = after_sniff memory k ptr (dtb_sniff memory ptr) in
    if validate_kernel k then booted else some none
