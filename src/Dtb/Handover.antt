-- ===== src/Dtb/Handover.antt =====
-- What `loader_main` of boot/aarch64/loader.c hands to the kernel.
use aeos.Pmm.{ram_start}
use aeos.Dtb.Walk.{walkers_end}
use mathlib.Core.Path.{ap₂}
use aeos.Dtb.Uart.{dtb_find_uart}
use aeos.Dtb.Memory.{Found, dtb_memory}
use aeos.Dtb.{Bytes}
use aeos.Dtb.Loader.{
  dtb_sniff, loader_main, Kernel, Bootinfo, kernel_min_size, validate_kernel, blob, dtb_ptr_limit,
  with_dtb, default_ram_size, default_uart, after_sniff, ram_of, measured, filled,
}
use aeos.Base.{
  ℕ, ◌≡◌, ◌<◌, Option, some, ◌≤◌, ◌%◌, ◌^◌, ◌+◌, false, ◌/◌, true, none, Bool-cases, arith, ◌∙◌,
  refl, ap, inr, inl,
}

-- A blob that is taken lies in the window, is aligned, and ends in the window; the lowest address of memory is never taken.
abbrev pub BlobFits : ℕ → ℕ → Type 0
BlobFits ptr size =
    (ram_start < ptr) × ((ptr % 8 ≡ 0) × ((0 < size) × (ptr + size ≤ dtb_ptr_limit)))

dtb_sniff-BlobFits :
    (memory : Bytes) (ptr size : ℕ) → dtb_sniff memory ptr ≡ some size → BlobFits ptr size
unfolding dtb_sniff
dtb_sniff-BlobFits memory ptr size e = ground (arith, e)

-- The boot information is consistent with the blob and within the bounds the kernel relies on.
pub record Consistent (memory : Bytes) (bi : Bootinfo) : Type 0 where
  pub ram_low : kernel_min_size ≤ bi.ram_size
  pub ram_high : bi.ram_size ≤ 2 ^ 32
  pub ram_default : bi.flags / 2 % 2 ≡ 0 → bi.ram_size ≡ default_ram_size
  pub ram_read :
      bi.flags / 2 % 2 ≡ 1
      → dtb_memory (blob memory bi.dtb_ptr) bi.dtb_size ≡ some (some (ram_start, bi.ram_size))
  pub uart_default : bi.flags / 4 % 2 ≡ 0 → bi.uart_base ≡ default_uart
  pub uart_read :
      bi.flags / 4 % 2 ≡ 1 → dtb_find_uart (blob memory bi.dtb_ptr) bi.dtb_size ≡ some bi.uart_base
  pub no_dtb : bi.flags % 2 ≡ 0 → (bi.dtb_ptr ≡ 0) × (bi.dtb_size ≡ 0)
  pub dtb : bi.flags % 2 ≡ 1 → BlobFits bi.dtb_ptr bi.dtb_size

-- What `loader_main` gives: nothing when the kernel's image is refused, and else consistent information.
abbrev pub Handed : Bytes → Kernel → Option Bootinfo → Type 0
Handed memory k none = validate_kernel k ≡ false
Handed memory k (some bi) = (validate_kernel k ≡ true) × Consistent memory bi

ram_low_lem : (found : Found) → kernel_min_size ≤ ram_of found
ram_low_lem none = omega arith
ram_low_lem (some (mem_base, mem_size)) = ground arith

ram_high_lem : (found : Found) → ram_of found ≤ 2 ^ 32
ram_high_lem none = omega arith
ram_high_lem (some (mem_base, mem_size)) = ground arith

ram_default_lem : (found : Found) → measured found ≡ false → ram_of found ≡ default_ram_size
ram_default_lem none e = refl
ram_default_lem (some (mem_base, mem_size)) e = rw e refl

ram_read_lem : (found : Found) → measured found ≡ true → found ≡ some (ram_start, ram_of found)
ram_read_lem none e = absurd (ground (arith, e))
ram_read_lem (some (mem_base, mem_size)) e =
    ap₂ (λ x y. some (x, y)) (ground (arith, e)) (rw e refl)

with_dtb-Consistent :
    (memory : Bytes) (k : Kernel) (ptr size ubase : ℕ) (found : Found)
    → BlobFits ptr size
    → dtb_find_uart (blob memory ptr) size ≡ some ubase
    → dtb_memory (blob memory ptr) size ≡ some found
    → Consistent memory (with_dtb k ptr size ubase found)
with_dtb-Consistent memory k ptr size ubase found fits uart ram = record {
  ram_low = ram_low_lem found;
  ram_high = ram_high_lem found;
  ram_default = λ f. ram_default_lem found (ground (arith, f));
  ram_read = λ f. ram ∙ ap some (ram_read_lem found (ground (arith, f)));
  uart_default = λ f. ground (arith, f);
  uart_read = λ f. uart ∙ ap some (ground (arith, f));
  no_dtb = λ f. absurd (ground (arith, f));
  dtb = λ f. fits;
}

after_sniff-Handed :
    (memory : Bytes) (k : Kernel) (ptr : ℕ) (s : Option ℕ)
    → dtb_sniff memory ptr ≡ s
    → (bi : Bootinfo) × ((after_sniff memory k ptr s ≡ some (some bi)) × Consistent memory bi)
after_sniff-Handed memory k ptr none e = (
  filled k 0 0 default_uart default_ram_size 0,
  (
    refl,
    record {
      ram_low = omega arith;
      ram_high = omega arith;
      ram_default = λ f. refl;
      ram_read = λ f. absurd (omega (arith, f));
      uart_default = λ f. refl;
      uart_read = λ f. absurd (omega (arith, f));
      no_dtb = λ f. (refl, refl);
      dtb = λ f. absurd (omega (arith, f));
    },
  ),
)
after_sniff-Handed memory k ptr (some size) e =
    let ((found, ram), (ubase, uart)) = walkers_end (blob memory ptr) size in
    (
      with_dtb k ptr size ubase found,
      (
        rw (uart, ram) refl,
        with_dtb-Consistent memory k ptr size ubase found (dtb_sniff-BlobFits memory ptr size e)
            uart ram,
      ),
    )

-- `loader_main` ends for every memory, and gives nothing exactly when it refuses the kernel's image; else the boot information is consistent.
pub loader_main-Handed :
    (memory : Bytes) (k : Kernel) (ptr : ℕ)
    → (r : Option Bootinfo) × ((loader_main memory k ptr ≡ some r) × Handed memory k r)
unfolding loader_main
loader_main-Handed memory k ptr = elim (Bool-cases (validate_kernel k)) [
  | inr bad ↦ (none, (rw bad refl, bad))
  | inl good ↦
      let (bi, (e, c)) = after_sniff-Handed memory k ptr (dtb_sniff memory ptr) refl in
      (some bi, (rw good e, (good, c)))
]
