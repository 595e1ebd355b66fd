-- ===== src/Dtb/Memory.antt =====
-- `dtb_memory` of boot/aarch64/loader.c.
use aeos.Base.{
  ℕ, ◌+◌, ◌-◌, ◌*◌, ◌/◌, Bool, false, not, ◌&&◌, ◌||◌, Option, none, some, List, [], ◌∷◌,
  if◌then◌else◌, ltb, leb, ◌==◌,
}
use aeos.Dtb.{
  Bytes, Limits, State, Round, stop, leave, next, rd32, strlen, equals, starts, padded, fdt_string,
  cells, begin_node, end_node, prop_token, nop_token, end_token, loop, limits, start, struct_off,
  strings_off, strings_size, struct_size,
}

-- "memory", "reg", "#address-cells" and "#size-cells"
abbrev pub memory_text : List ℕ
memory_text = 109 ∷ 101 ∷ 109 ∷ 111 ∷ 114 ∷ 121 ∷ []

abbrev pub reg_text : List ℕ
reg_text = 114 ∷ 101 ∷ 103 ∷ []

abbrev pub address_cells_text : List ℕ
address_cells_text =
    35 ∷ 97 ∷ 100 ∷ 100 ∷ 114 ∷ 101 ∷ 115 ∷ 115 ∷ 45 ∷ 99 ∷ 101 ∷ 108 ∷ 108 ∷ 115 ∷ []

abbrev pub size_cells_text : List ℕ
size_cells_text = 35 ∷ 115 ∷ 105 ∷ 122 ∷ 101 ∷ 45 ∷ 99 ∷ 101 ∷ 108 ∷ 108 ∷ 115 ∷ []

abbrev pub Found : Type 0
Found = Option (ℕ × ℕ)

unfoldable pub is_memory : Bytes → ℕ → ℕ → Bool
is_memory b name nlen =
    leb 6 nlen && (starts b name memory_text && (nlen == 6 || b (name + 6) == 64))

-- The three tokens that carry something, from the offset after the token
abbrev pub begin_round : Bytes → Limits → State → Round Found
begin_round b lim w =
    let nlen = strlen b w.sp lim.send in
    let sp' = w.sp + padded (nlen + 1) in
    if ltb lim.send sp'
    then stop none
    else next
        (record w { sp = sp'; depth = w.depth + 1; node = w.depth == 1 && is_memory b w.sp nlen })

abbrev pub end_round : State → Round Found
end_round w = next (record w { depth = w.depth - 1; node = false })

-- The `reg` of a memory node
abbrev pub read_reg : Bytes → State → ℕ → ℕ → Round Found
read_reg b w len val =
    if (ltb w.addr_cells 1 || ltb 2 w.addr_cells)
      || ((ltb w.size_cells 1 || ltb 2 w.size_cells)
          || not (len == (w.addr_cells + w.size_cells) * 4))
    then stop none
    else stop (some (cells b val w.addr_cells 0, cells b (val + 4 * w.addr_cells) w.size_cells 0))

-- A property of the root
abbrev pub root_prop : Bytes → State → ℕ → ℕ → Round Found
root_prop b w val pname =
    if equals b pname address_cells_text
    then next (record w { addr_cells = rd32 b val })
    else if equals b pname size_cells_text
    then next (record w { size_cells = rd32 b val })
    else next w

abbrev pub named_prop : Bytes → State → ℕ → ℕ → Option ℕ → Round Found
named_prop b w len val none = next w
named_prop b w len val (some pname) =
    if w.node && equals b pname reg_text
    then read_reg b w len val
    else if not w.node && (w.depth == 1 && len == 4)
    then root_prop b w val pname
    else next w

abbrev pub prop_value : Bytes → Limits → State → ℕ → ℕ → ℕ → Round Found
prop_value b lim w len nameoff val =
    if ltb lim.send (val + len) || ltb lim.send (val + padded len)
    then stop none
    else named_prop b (record w { sp = val + padded len }) len val (fdt_string b lim nameoff)

abbrev pub prop_round : Bytes → Limits → State → Round Found
prop_round b lim w =
    if ltb lim.send (w.sp + 8)
    then stop none
    else prop_value b lim w (rd32 b w.sp) (rd32 b (w.sp + 4)) (w.sp + 8)

-- One round of the loop
unfoldable pub memory_round : Bytes → Limits → State → Round Found
memory_round b lim w0 =
    let tok = rd32 b w0.sp in
    let w : State = record w0 { sp = w0.sp + 4 } in
    if tok == end_token
    then leave
    else if tok == nop_token
    then next w
    else if tok == begin_node
    then begin_round b lim w
    else if tok == end_node
    then end_round w
    else if tok == prop_token
    then prop_round b lim w
    else stop none

-- The test before the loop
abbrev pub has_blocks : Bytes → ℕ → Bool
has_blocks b size = not (
    struct_size b == 0
    || (ltb size (struct_off b)
        || (ltb size (strings_off b)
            || (ltb (size - struct_off b) (struct_size b)
                || ltb (size - strings_off b) (strings_size b)))))

-- `dtb_memory`: base and size of the memory
unfoldable pub dtb_memory : Bytes → ℕ → Option Found
dtb_memory b size =
    let walked =
      loop (limits b).send (memory_round b (limits b)) (λ w. none) (struct_size b / 4 + 1)
        (start b) in
    if has_blocks b size then walked else some none
