-- ===== src/Dtb/Reads.antt =====
-- `dtb_memory` of boot/aarch64/loader.c reads no byte outside the blob.
use aeos.Base.{
  ℕ, zero, suc, ◌+◌, ◌*◌, ◌-◌, ◌^◌, ◌%◌, ◌≤◌, ◌<◌, ◌≡◌, ◌≢◌, Bool, true, false, not, ◌&&◌, ◌||◌,
  Option, none, some, List, [], ◌∷◌, length, if◌then◌else◌, Bool-cases, inl, inr, leb, ltb, ◌==◌,
  arith, refl, ap, sym, ◌∙◌,
}
use mathlib.Core.Path.{ap₂}
use aeos.Dtb.{
  Bytes, Limits, State, Round, stop, leave, next, loop, after_round, rd32, strlen, strlen_from,
  starts, cells, padded, start, limits, struct_size, struct_off, strings_off, strings_size,
  fdt_string, equals,
}
use aeos.Dtb.Memory.{
  is_memory, begin_round, read_reg, root_prop, named_prop, prop_value, prop_round, memory_round,
  dtb_memory, has_blocks, memory_text, reg_text, address_cells_text, size_cells_text,
}

-- Two tests alike, and the branches alike where they are taken
if_cong {ℓ} :
    {A : Type ℓ} (c c' : Bool) (x x' y y' : A)
    → c ≡ c'
    → (c ≡ true → x ≡ x')
    → (c ≡ false → y ≡ y')
    → (if c then x else y) ≡ (if c' then x' else y')
if_cong c c' x x' y y' e f g = elim (Bool-cases c) [
  | inl t ↦ rw (sym e, t) (f t)
  | inr t ↦ rw (sym e, t) (g t)
]

after-agree :
    {A : Type 0} {again again' : State → Option A} (exit : State → A) (w : State) (r : Round A)
    → ((w' : State) → again w' ≡ again' w')
    → after_round again exit w r ≡ after_round again' exit w r
after-agree exit w (stop a) e = refl
after-agree exit w leave e = refl
after-agree exit w (next w') e = e w'

-- No character of a literal is its end.
abbrev NonZero : List ℕ → Type 0
NonZero [] = Unit
NonZero (c ∷ cs) = (c ≢ 0) × NonZero cs

module _ (b b' : Bytes) (size : ℕ) (agree : (i : ℕ) → i < size → b i ≡ b' i) where
  rd32-agree : (i : ℕ) → i + 4 ≤ size → rd32 b i ≡ rd32 b' i
  unfolding rd32
  rd32-agree i h = omega (
    arith,
    agree i (omega (arith, h)),
    agree (i + 1) (omega (arith, h)),
    agree (i + 2) (omega (arith, h)),
    agree (i + 3) (omega (arith, h)),
  )

  strlen_from-agree : (s n : ℕ) → s + n ≤ size → strlen_from b s n ≡ strlen_from b' s n
  unfolding strlen_from
  strlen_from-agree s zero h = refl
  strlen_from-agree s (suc n) h =
      if_cong (b s == 0) (b' s == 0) _ _ _ _ (ap (λ c. c == 0) (agree s (omega (arith, h))))
        (λ e. refl) (λ e. ap suc (strlen_from-agree (s + 1) n (omega (arith, h))))

  starts-agree :
      (s : ℕ) (literal : List ℕ)
      → s + length literal ≤ size
      → starts b s literal ≡ starts b' s literal
  unfolding starts
  starts-agree s [] h = refl
  starts-agree s (c ∷ literal) h =
      if_cong (b s == c) (b' s == c) _ _ _ _ (ap (λ d. d == c) (agree s (omega (arith, h))))
        (λ e. starts-agree (s + 1) literal (omega (arith, h))) (λ e. refl)

  equals-agree :
      (literal : List ℕ) (s n : ℕ)
      → NonZero literal
      → strlen_from b s n < n
      → s + n ≤ size
      → equals b s literal ≡ equals b' s literal
  unfolding equals strlen_from
  equals-agree literal s zero z ends h = elim ends [ ]
  equals-agree [] s (suc n) z ends h = ap (λ c. c == 0) (agree s (omega (arith, h)))
  equals-agree (c ∷ literal) s (suc n) z ends h =
      if_cong (b s == c) (b' s == c) _ _ _ _ (ap (λ d. d == c) (agree s (omega (arith, h))))
        (λ e. equals-agree literal (s + 1) n z.1 (ground (arith, e, z.0, ends)) (omega (arith, h)))
        (λ e. refl)

  cells-agree : (at n value : ℕ) → at + 4 * n ≤ size → cells b at n value ≡ cells b' at n value
  unfolding cells
  cells-agree at zero value h = refl
  cells-agree at (suc n) value h =
      ap (λ v. cells b (at + 4) n (value * 2 ^ 32 % 2 ^ 64 + v)) (rd32-agree at (omega (arith, h)))
      ∙ cells-agree (at + 4) n _ (omega (arith, h))

  is_memory-agree : (s nlen : ℕ) → s + nlen ≤ size → is_memory b s nlen ≡ is_memory b' s nlen
  unfolding is_memory
  is_memory-agree s nlen h = elim (Bool-cases (leb 6 nlen)) [
    | inr short ↦ rw short refl
    | inl long ↦
        rw (long, starts-agree s memory_text (ground (arith, long, h)))
          (elim (Bool-cases (nlen == 6)) [
            | inl six ↦ rw six refl
            | inr more ↦ rw (agree (s + 6) (ground (arith, long, more, h))) refl
          ])
  ]

  module _ (lim : Limits) (inside : lim.send ≤ size) (strings : lim.strings_end ≤ size) where
    strlen_le : (s n : ℕ) → strlen_from b s n ≤ n
    unfolding strlen_from
    strlen_le s zero = omega arith
    strlen_le s (suc n) = ground (arith, strlen_le (s + 1) n)

    begin_round-agree : (w : State) → w.sp ≤ lim.send → begin_round b lim w ≡ begin_round b' lim w
    begin_round-agree w h =
        let same = strlen_from-agree w.sp (lim.send - w.sp) (omega (arith, inside, h)) in
        rw (sym same) (
          ap
            (λ m.
              if ltb lim.send (w.sp + padded (strlen b w.sp lim.send + 1))
              then stop none
              else next (record w {
                sp = w.sp + padded (strlen b w.sp lim.send + 1);
                depth = w.depth + 1;
                node = w.depth == 1 && m;
              }))
            (is_memory-agree w.sp (strlen b w.sp lim.send)
              (omega (arith, strlen_le w.sp (lim.send - w.sp), inside, h))))

    read_reg-agree :
        (w : State) (len val : ℕ) → val + len ≤ size → read_reg b w len val ≡ read_reg b' w len val
    read_reg-agree w len val h =
        if_cong bad bad _ _ _ _ refl (λ e. refl)
          (λ good.
            ap₂ (λ x y. stop (some (x, y)))
              (cells-agree val w.addr_cells 0 (ground (arith, good, h)))
              (cells-agree (val + 4 * w.addr_cells) w.size_cells 0 (ground (arith, good, h))))
      where
        bad : Bool
        bad =
            (ltb w.addr_cells 1 || ltb 2 w.addr_cells)
            || ((ltb w.size_cells 1 || ltb 2 w.size_cells)
                || not (len == (w.addr_cells + w.size_cells) * 4))

    -- A name of the strings that ends before they do
    Ended : ℕ → Type 0
    Ended s = strlen_from b s (lim.strings_end - s) < lim.strings_end - s

    name-agree :
        (s : ℕ) (literal : List ℕ)
        → Ended s
        → NonZero literal
        → equals b s literal ≡ equals b' s literal
    unfolding Ended
    name-agree s literal ends z =
        equals-agree literal s (lim.strings_end - s) z ends (omega (arith, strings, ends))

    fdt_string-agree : (off : ℕ) → fdt_string b lim off ≡ fdt_string b' lim off
    unfolding fdt_string
    fdt_string-agree off =
        let s = lim.strings + off in
        if_cong (leb lim.strings_end s) (leb lim.strings_end s) _ _ _ _ refl (λ e. refl)
          (λ e.
            ap (λ n. if n == lim.strings_end - s then none else some s)
              (strlen_from-agree s (lim.strings_end - s) (ground (arith, e, strings))))

    fdt_string-Ended : (off s : ℕ) → fdt_string b lim off ≡ some s → Ended s
    unfolding fdt_string Ended
    fdt_string-Ended off s e =
        ground (arith, e, strlen_le (lim.strings + off) (lim.strings_end - (lim.strings + off)))

    root_prop-agree :
        (w : State) (val pname : ℕ)
        → Ended pname
        → val + 4 ≤ size
        → root_prop b w val pname ≡ root_prop b' w val pname
    root_prop-agree w val pname ends h =
        rw
          (
            name-agree pname address_cells_text ends (omega arith),
            name-agree pname size_cells_text ends (omega arith),
            rd32-agree val h,
          )
          refl

    named_prop-agree :
        (w : State) (len val : ℕ) (name : Option ℕ)
        → ((s : ℕ) → name ≡ some s → Ended s)
        → val + len ≤ size
        → named_prop b w len val name ≡ named_prop b' w len val name
    named_prop-agree w len val none ends h = refl
    named_prop-agree w len val (some pname) ends h =
        rw (name-agree pname reg_text (ends pname refl) (omega arith), read_reg-agree w len val h)
          (if_cong (w.node && equals b' pname reg_text) (w.node && equals b' pname reg_text) _ _ _ _
            refl (λ e. refl)
            (λ e.
              if_cong (not w.node && (w.depth == 1 && len == 4))
                (not w.node && (w.depth == 1 && len == 4)) _ _ _ _ refl
                (λ f. root_prop-agree w val pname (ends pname refl) (ground (arith, f, h)))
                (λ f. refl)))

    prop_value-agree :
        (w : State) (len nameoff val : ℕ)
        → prop_value b lim w len nameoff val ≡ prop_value b' lim w len nameoff val
    prop_value-agree w len nameoff val =
        let out = ltb lim.send (val + len) || ltb lim.send (val + padded len) in
        if_cong out out _ _ _ _ refl (λ e. refl)
          (λ fits.
            named_prop-agree (record w { sp = val + padded len }) len val (fdt_string b lim nameoff)
              (λ s e. fdt_string-Ended nameoff s e) (ground (arith, fits, inside))
            ∙ ap (named_prop b' (record w { sp = val + padded len }) len val)
                (fdt_string-agree nameoff))

    prop_round-agree : (w : State) → prop_round b lim w ≡ prop_round b' lim w
    prop_round-agree w =
        if_cong (ltb lim.send (w.sp + 8)) (ltb lim.send (w.sp + 8)) _ _ _ _ refl (λ e. refl)
          (λ fits.
            prop_value-agree w (rd32 b w.sp) (rd32 b (w.sp + 4)) (w.sp + 8)
            ∙ ap₂ (λ len off. prop_value b' lim w len off (w.sp + 8))
                (rd32-agree w.sp (ground (arith, fits, inside)))
                (rd32-agree (w.sp + 4) (ground (arith, fits, inside))))

    memory_round-agree :
        (w : State) → w.sp + 4 ≤ lim.send → memory_round b lim w ≡ memory_round b' lim w
    unfolding memory_round
    memory_round-agree w h =
        let w' : State = record w { sp = w.sp + 4 } in
        rw (rd32-agree w.sp (omega (arith, h, inside)), begin_round-agree w' h, prop_round-agree w')
          refl

    loop-agree :
        (fuel : ℕ) (w : State)
        → loop lim.send (memory_round b lim) (λ v. none) fuel w
          ≡ loop lim.send (memory_round b' lim) (λ v. none) fuel w
    unfolding loop
    loop-agree zero w = refl
    loop-agree (suc fuel) w =
        if_cong (leb (w.sp + 4) lim.send) (leb (w.sp + 4) lim.send) _ _ _ _ refl
          (λ more.
            ap (after_round (loop lim.send (memory_round b lim) (λ v. none) fuel) (λ v. none) w)
              (memory_round-agree w (ground (arith, more)))
            ∙ after-agree (λ v. none) w (memory_round b' lim w) (λ w'. loop-agree fuel w'))
          (λ e. refl)

  header-agree :
      40 ≤ size
      → (struct_off b ≡ struct_off b')
        × ((strings_off b ≡ strings_off b')
            × ((strings_size b ≡ strings_size b') × (struct_size b ≡ struct_size b')))
  header-agree h = (
    rd32-agree 8 (omega (arith, h)),
    (
      rd32-agree 12 (omega (arith, h)),
      (rd32-agree 32 (omega (arith, h)), rd32-agree 36 (omega (arith, h))),
    ),
  )

-- If two memories agree on the `size` bytes of the blob, which hold the header, `dtb_memory` gives the same on both: no byte behind the blob is looked at.
pub dtb_memory-agree :
    (b b' : Bytes) (size : ℕ)
    → ((i : ℕ) → i < size → b i ≡ b' i)
    → 40 ≤ size
    → dtb_memory b size ≡ dtb_memory b' size
unfolding dtb_memory
dtb_memory-agree b b' size agree header =
    let same = header-agree b b' size agree header in
    if_cong (has_blocks b size) (has_blocks b' size) _ _ _ _
      (rw (same.0, same.1.0, same.1.1.0, same.1.1.1) refl)
      (λ blocks.
        loop-agree b b' size agree (limits b) (ground (arith, blocks)) (ground (arith, blocks)) _
          (start b)
        ∙ rw (same.0, same.1.0, same.1.1.0, same.1.1.1) refl)
      (λ e. refl)
