-- ===== src/Vmm/Built.antt =====
-- The tables of a new address space of boot/aarch64/vmm.c once one block is mapped, and what they map.
use aeos.Base.{ℕ, ◌+◌, ◌*◌, ◌/◌, ◌%◌, ◌^◌, ◌<◌, ◌≡◌, ◌≢◌, ◌∙◌, true, false, ◌==◌, arith, ap, sym}
use aeos.Vmm.{Mem, Static, write, clear, copy_top, pgd_index, pud_index, pmd_index, table_of, walk}
use aeos.Vmm.Kernel.{IsPlaced, Mapped, kernel_phys, walk_top, halves, entry_odd, entry_table}

-- The top-level table `g`, and the two tables `u` and `d` below it
abbrev pub built : Static → Mem → ℕ → ℕ → ℕ → ℕ → ℕ → Mem
built st mem g u d va v =
    write
      (write
        (clear (write (clear (copy_top (clear mem g) st.pgd g) u) g (pgd_index va) (table_of u + 3))
          d)
        u (pud_index va) (table_of d + 3))
      d (pmd_index va) v

-- The new pages are pages, and none of them is another or one of the kernel's.
pub record IsApart (st : Static) (g u d : ℕ) : Type 0 where
  pub u_page : u % 4096 ≡ 0
  pub d_page : d % 4096 ≡ 0
  pub g-u : u ≢ g
  pub g-d : d ≢ g
  pub u-d : d ≢ u
  pub g-pgd : g ≢ st.pgd
  pub g-pud : g ≢ st.pud
  pub g-pmd : g ≢ st.pmd
  pub u-pud : u ≢ st.pud
  pub u-pmd : u ≢ st.pmd
  pub d-pud : d ≢ st.pud
  pub d-pmd : d ≢ st.pmd

module _ (st : Static) (mem : Mem) (g u d va v : ℕ) (a : IsApart st g u d) where
  built_first : built st mem g u d va v g (pgd_index va) ≡ u + 3
  built_first = ground (arith, a.g-u, a.g-d, a.u_page)

  built_second : built st mem g u d va v u (pud_index va) ≡ d + 3
  built_second = ground (arith, a.u-d, a.d_page)

  built_last : built st mem g u d va v d (pmd_index va) ≡ v
  built_last = ground arith

  built_top : (i : ℕ) → i < 512 → i ≢ pgd_index va → built st mem g u d va v g i ≡ mem st.pgd i
  built_top i h ne = ground (arith, a.g-u, a.g-d, a.g-pgd, h, ne)

  built_pud : (i : ℕ) → built st mem g u d va v st.pud i ≡ mem st.pud i
  built_pud i = ground (arith, a.g-pud, a.u-pud, a.d-pud)

  built_pmd : (i : ℕ) → built st mem g u d va v st.pmd i ≡ mem st.pmd i
  built_pmd i = ground (arith, a.g-pmd, a.u-pmd, a.d-pmd)

-- A walk that meets a block.
walk_block :
    (mem : Mem) (g u d va pa attrs : ℕ)
    → u % 4096 ≡ 0
    → d % 4096 ≡ 0
    → pa % 2 ^ 21 ≡ 0
    → attrs < 2 ^ 21
    → attrs % 4 ≡ 1
    → mem g (pgd_index va) ≡ u + 3
    → mem u (pud_index va) ≡ d + 3
    → mem d (pmd_index va) ≡ pa / 2 ^ 21 * 2 ^ 21 + attrs
    → walk mem g va ≡ pa + va % 2 ^ 21
unfolding walk
walk_block mem g u d va pa attrs u_page d_page aligned small kind first second last =
    let valid : ((pa / 2 ^ 21 * 2 ^ 21 + attrs) % 2 == 0) ≡ false = ground (arith, kind) in
    let block : ((pa / 2 ^ 21 * 2 ^ 21 + attrs) % 4 == 1) ≡ true = ground (arith, kind) in
    rw
      (
        first,
        entry_odd u u_page,
        entry_table u u_page,
        second,
        entry_odd d d_page,
        entry_table d d_page,
        last,
        valid,
        block,
      )
      (omega (arith, aligned, small))

-- The new block, at every address of its 2 MiB.
pub built-block :
    (st : Static) (mem : Mem) (g u d va pa attrs off : ℕ)
    → IsApart st g u d
    → va % 2 ^ 21 ≡ 0
    → pa % 2 ^ 21 ≡ 0
    → attrs < 2 ^ 21
    → attrs % 4 ≡ 1
    → off < 2 ^ 21
    → walk (built st mem g u d va (pa / 2 ^ 21 * 2 ^ 21 + attrs)) g (va + off) ≡ pa + off
built-block st mem g u d va pa attrs off a va_block pa_block small kind inside =
    let v = pa / 2 ^ 21 * 2 ^ 21 + attrs in
    let same1 : pgd_index (va + off) ≡ pgd_index va = omega (arith, va_block, inside) in
    let same2 : pud_index (va + off) ≡ pud_index va = omega (arith, va_block, inside) in
    let same3 : pmd_index (va + off) ≡ pmd_index va = omega (arith, va_block, inside) in
    walk_block (built st mem g u d va v) g u d (va + off) pa attrs a.u_page a.d_page pa_block small
      kind (ap (built st mem g u d va v g) same1 ∙ built_first st mem g u d va v a)
      (ap (built st mem g u d va v u) same2 ∙ built_second st mem g u d va v a)
      (ap (built st mem g u d va v d) same3 ∙ built_last st mem g u d va v a)
    ∙ omega (arith, va_block, inside)

-- The kernel's part is the kernel's map.
pub built-kernel :
    (st : Static) (mem : Mem) (g u d va v w : ℕ)
    → IsApart st g u d
    → IsPlaced st
    → Mapped st 64 mem
    → pgd_index va ≢ 0
    → w < 2 ^ 39
    → walk (built st mem g u d va v) g w ≡ kernel_phys w
unfolding walk
built-kernel st mem g u d va v w a p m above low =
    let first : pgd_index w ≡ 0 = omega (arith, low) in
    walk_top st (built st mem g u d va v) (built st mem g u d va v g (pgd_index w)) w p.pud_page
      p.pmd_page
      (
        λ i h. built_pud st mem g u d va v a i ∙ m.mid i h,
        λ i h. built_pmd st mem g u d va v a i ∙ m.low i h,
      )
      (built_top st mem g u d va v a (pgd_index w) (omega arith) (λ e. above (sym e ∙ first))
        ∙ m.top (pgd_index w) (omega arith))
    ∙ halves w (omega (arith, low))
