-- ===== src/Dtb/Uart.antt =====
-- `dtb_find_uart` of boot/aarch64/loader.c.
use aeos.Base.{
  ℕ, ◌+◌, ◌-◌, ◌/◌, Bool, false, not, ◌&&◌, ◌||◌, Option, none, some, List, [], ◌∷◌, if◌then◌else◌,
  ltb, leb, ◌==◌,
}
use aeos.Dtb.{
  Bytes, Limits, State, Round, stop, leave, next, rd32, strlen, equals, starts, padded, fdt_string,
  cells, begin_node, end_node, prop_token, nop_token, end_token, loop, limits, start, struct_off,
  strings_off, struct_size,
}
use aeos.Dtb.Memory.{address_cells_text, reg_text}

-- "serial@", "uart@", "pl011@" and "ns16550"
abbrev pub serial_text : List ℕ
serial_text = 115 ∷ 101 ∷ 114 ∷ 105 ∷ 97 ∷ 108 ∷ 64 ∷ []

abbrev pub uart_text : List ℕ
uart_text = 117 ∷ 97 ∷ 114 ∷ 116 ∷ 64 ∷ []

abbrev pub pl011_text : List ℕ
pl011_text = 112 ∷ 108 ∷ 48 ∷ 49 ∷ 49 ∷ 64 ∷ []

abbrev pub ns16550_text : List ℕ
ns16550_text = 110 ∷ 115 ∷ 49 ∷ 54 ∷ 53 ∷ 53 ∷ 48 ∷ []

unfoldable pub is_uart : Bytes → ℕ → ℕ → Bool
is_uart b name nlen =
    (leb 7 nlen && starts b name serial_text)
    || ((leb 5 nlen && starts b name uart_text)
        || ((leb 6 nlen && starts b name pl011_text)
            || (leb 7 nlen && (starts b name ns16550_text && (nlen == 7 || b (name + 7) == 64)))))

abbrev pub begin_round : Bytes → Limits → State → Round ℕ
begin_round b lim w =
    let nlen = strlen b w.sp lim.send in
    let sp' = w.sp + padded (nlen + 1) in
    if ltb lim.send sp'
    then stop 0
    else next
        (record w { sp = sp'; depth = w.depth + 1; node = w.depth == 1 && is_uart b w.sp nlen })

abbrev pub end_round : State → Round ℕ
end_round w = next (record w { depth = w.depth - 1; node = false })

-- The `reg` of a candidate, whose length is not looked at
abbrev pub read_base : Bytes → State → ℕ → Round ℕ
read_base b w val =
    if ltb w.addr_cells 1 || ltb 2 w.addr_cells
    then stop 0
    else next (record w { found = cells b val w.addr_cells 0 })

abbrev pub named_prop : Bytes → State → ℕ → ℕ → Option ℕ → Round ℕ
named_prop b w len val none = next w
named_prop b w len val (some pname) =
    if w.depth == 1 && (not w.node && (len == 4 && equals b pname address_cells_text))
    then next (record w { addr_cells = rd32 b val })
    else if w.node && (w.found == 0 && equals b pname reg_text)
    then read_base b w val
    else next w

abbrev pub prop_value : Bytes → Limits → State → ℕ → ℕ → ℕ → Round ℕ
prop_value b lim w len nameoff val =
    if ltb lim.send (val + len) || ltb lim.send (val + padded len)
    then stop 0
    else named_prop b (record w { sp = val + padded len }) len val (fdt_string b lim nameoff)

abbrev pub prop_round : Bytes → Limits → State → Round ℕ
prop_round b lim w =
    if ltb lim.send (w.sp + 8)
    then stop 0
    else prop_value b lim w (rd32 b w.sp) (rd32 b (w.sp + 4)) (w.sp + 8)

-- One round of the loop
unfoldable pub uart_round : Bytes → Limits → State → Round ℕ
uart_round b lim w0 =
    let tok = rd32 b w0.sp in
    let w : State = record w0 { sp = w0.sp + 4 } in
    if tok == end_token
    then leave
    else if tok == nop_token
    then next w
    else if tok == begin_node
    then begin_round b lim w
    else if tok == end_node
    then end_round w
    else if tok == prop_token
    then prop_round b lim w
    else stop 0

-- The test before the loop, which leaves out the size of the strings
abbrev pub has_struct : Bytes → ℕ → Bool
has_struct b size = not (
    struct_size b == 0
    || (ltb size (struct_off b)
        || (ltb size (strings_off b) || ltb (size - struct_off b) (struct_size b))))

-- `dtb_find_uart`: the address of the first UART, or 0
unfoldable pub dtb_find_uart : Bytes → ℕ → Option ℕ
dtb_find_uart b size =
    let walked =
      loop (limits b).send (uart_round b (limits b)) (λ w. w.found) (struct_size b / 4 + 1)
        (start b) in
    if has_struct b size then walked else some 0
