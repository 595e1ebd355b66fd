-- ===== src/Dtb.antt =====
-- The device tree reader of boot/aarch64/loader.c. The memory at the blob is a function of the offset;
-- a pointer into it is its offset, and a string is compared with the literal's characters.
pub mod Walk
pub mod Reads
pub mod Memory
pub mod Uart
mod Tests
pub mod Loader
pub mod Handover
use aeos.Base.{
  ℕ, zero, suc, ◌+◌, ◌-◌, ◌*◌, ◌/◌, ◌%◌, ◌^◌, Bool, true, false, not, ◌&&◌, ◌||◌, Option, none,
  some, List, [], ◌∷◌, if◌then◌else◌, ltb, leb, ◌==◌,
}

abbrev pub Bytes : Type 0
Bytes = ℕ → ℕ

-- `rd32`, and the same load by `be32` of a word in memory
unfoldable pub rd32 : Bytes → ℕ → ℕ
rd32 b i = ((b i * 256 + b (i + 1)) * 256 + b (i + 2)) * 256 + b (i + 3)

-- `lstrlen(s, end)` with `n` bytes before the end
unfoldable pub strlen_from : Bytes → ℕ → ℕ → ℕ
strlen_from b s zero = 0
strlen_from b s (suc n) = let rest = suc (strlen_from b (s + 1) n) in if b s == 0 then 0 else rest

abbrev pub strlen : Bytes → ℕ → ℕ → ℕ
strlen b s end = strlen_from b s (end - s)

-- `lstrcmp(s, literal) == 0`
unfoldable pub equals : Bytes → ℕ → List ℕ → Bool
equals b s [] = b s == 0
equals b s (c ∷ literal) = let rest = equals b (s + 1) literal in if b s == c then rest else false

-- `lstrcmp_n(s, literal, n) == 0` for the literal's length `n`
unfoldable pub starts : Bytes → ℕ → List ℕ → Bool
starts b s [] = true
starts b s (c ∷ literal) = let rest = starts b (s + 1) literal in if b s == c then rest else false

-- `(n + 3u) & ~3u`
abbrev pub padded : ℕ → ℕ
padded n = (n + 3) % 2 ^ 32 / 4 * 4

-- Where the structure block and the strings end, and the strings start
pub record Limits : Type 0 where
  pub send : ℕ
  pub strings : ℕ
  pub strings_end : ℕ

-- `fdt_string`
unfoldable pub fdt_string : Bytes → Limits → ℕ → Option ℕ
fdt_string b lim off =
    let s = lim.strings + off in
    if leb lim.strings_end s
    then none
    else if strlen b s lim.strings_end == lim.strings_end - s
    then none
    else some s

-- `value = (value << 32) | rd32(at)` over `n` cells
unfoldable pub cells : Bytes → ℕ → ℕ → ℕ → ℕ
cells b at zero value = value
cells b at (suc n) value = cells b (at + 4) n (value * 2 ^ 32 % 2 ^ 64 + rd32 b at)

-- The tokens
abbrev pub begin_node : ℕ
begin_node = 1

abbrev pub end_node : ℕ
end_node = 2

abbrev pub prop_token : ℕ
prop_token = 3

abbrev pub nop_token : ℕ
nop_token = 4

abbrev pub end_token : ℕ
end_token = 9

-- The local variables of the two walkers; `node` is `mem_node` or `candidate`.
pub record State : Type 0 where
  pub sp : ℕ
  pub depth : ℕ
  pub node : Bool
  pub addr_cells : ℕ
  pub size_cells : ℕ
  pub found : ℕ

-- How a round of a walker ends: with a result, by leaving the loop, or in a next round
pub data Round {ℓ} (A : Type ℓ) : Type ℓ where
  stop : A → Round A
  leave : Round A
  next : State → Round A

abbrev pub after_round {ℓ} :
    {A : Type ℓ} → (State → Option A) → (State → A) → State → Round A → Option A
after_round again exit w (stop r) = some r
after_round again exit w leave = some (exit w)
after_round again exit w (next w') = again w'

-- `while (sp + 4 <= send)`; `none` is fuel run out.
unfoldable pub loop {ℓ} : {A : Type ℓ} → ℕ → (State → Round A) → (State → A) → ℕ → State → Option A
loop send round exit zero w = none
loop send round exit (suc fuel) w =
    let again = after_round (loop send round exit fuel) exit w (round w) in
    if leb (w.sp + 4) send then again else some (exit w)

-- `off_dt_struct`, `off_dt_strings`, `size_dt_strings` and `size_dt_struct` of the header
abbrev pub struct_off : Bytes → ℕ
struct_off b = rd32 b 8

abbrev pub strings_off : Bytes → ℕ
strings_off b = rd32 b 12

abbrev pub strings_size : Bytes → ℕ
strings_size b = rd32 b 32

abbrev pub struct_size : Bytes → ℕ
struct_size b = rd32 b 36

abbrev pub limits : Bytes → Limits
limits b = record {
  send = struct_off b + struct_size b;
  strings = strings_off b;
  strings_end = strings_off b + strings_size b;
}

-- The variables before the loop
abbrev pub start : Bytes → State
start b = record {
  sp = struct_off b;
  depth = 0;
  node = false;
  addr_cells = 2;
  size_cells = 1;
  found = 0;
}
