-- ===== src/Pmm/Bits.antt =====
-- Single bits of the bitmap of boot/aarch64/pmm.c: what a write of one bit does to every other.
use aeos.Base.{
  Bool, ltb, ℕ, ◌≡◌, if◌then◌else◌, not, ◌<◌, true, ◌&&◌, arith, refl, ◌==◌, false, suc, zero,
  ℕ_discrete,
}
use aeos.Pmm.{byte_test, byte_set, byte_clear}

-- The test passes on each of 0, …, `bound` - 1, by running it.
unfoldable pub passes : (ℕ → Bool) → ℕ → Bool
passes test zero = true
passes test (suc k) = let before = passes test k in if test k then before else false

pub passes_at :
    (test : ℕ → Bool) (bound i : ℕ) → i < bound → passes test bound ≡ true → test i ≡ true
unfolding passes
passes_at test zero i l e = elim l [ ]
passes_at test (suc k) i l e = elim (ℕ_discrete i k) [
  | yes same ↦ rw same (ground (arith, e))
  | no ne ↦ passes_at test k i (omega (arith, l, ne)) (ground (arith, e))
]

bool_eq : Bool → Bool → Bool
bool_eq true b = b
bool_eq false b = not b

bool_eq-eq : (a b : Bool) → bool_eq a b ≡ true → a ≡ b
unfolding bool_eq
bool_eq-eq a b e = ground arith

-- All bytes, all bits written, all bits read.
abbrev of_byte : (ℕ → ℕ → Bool) → Bool
of_byte test = passes (λ k. passes (test k) 8) 8

abbrev table : (ℕ → ℕ → ℕ → Bool) → Bool
table test = passes (λ b. of_byte (test b)) 256

table_sound :
    (test : ℕ → ℕ → ℕ → Bool)
    → table test ≡ true
    → (b k j : ℕ) → b < 256
    → k < 8
    → j < 8
    → test b k j ≡ true
table_sound test h b k j hb hk hj =
    let row = passes_at (λ b. of_byte (test b)) 256 b hb h in
    passes_at (test b k) 8 j hj (passes_at (λ k. passes (test b k) 8) 8 k hk row)

abbrev set_case : ℕ → ℕ → ℕ → Bool
set_case b k j = bool_eq (byte_test (byte_set b k) j) (if k == j then true else byte_test b j)

abbrev clear_case : ℕ → ℕ → ℕ → Bool
clear_case b k j = bool_eq (byte_test (byte_clear b k) j) (if k == j then false else byte_test b j)

set_table : table set_case ≡ true
unfolding passes bool_eq
set_table = refl

clear_table : table clear_case ≡ true
unfolding passes bool_eq
clear_table = refl

range_table : table (λ b k j. ltb (byte_set b k) 256 && ltb (byte_clear b k) 256) ≡ true
unfolding passes
range_table = refl

pub test-set :
    (b k j : ℕ)
    → b < 256
    → k < 8
    → j < 8
    → byte_test (byte_set b k) j ≡ (if k == j then true else byte_test b j)
test-set b k j hb hk hj = bool_eq-eq _ _ (table_sound set_case set_table b k j hb hk hj)

pub test-clear :
    (b k j : ℕ)
    → b < 256
    → k < 8
    → j < 8
    → byte_test (byte_clear b k) j ≡ (if k == j then false else byte_test b j)
test-clear b k j hb hk hj = bool_eq-eq _ _ (table_sound clear_case clear_table b k j hb hk hj)

byte_cases : (b k : ℕ) → b < 256 → k < 8 → (byte_set b k < 256) × (byte_clear b k < 256)
byte_cases b k hb hk = ground (
  arith,
  table_sound (λ b k j. ltb (byte_set b k) 256 && ltb (byte_clear b k) 256) range_table b k 0 hb hk
      (omega arith),
)

pub byte_set-lt : (b k : ℕ) → b < 256 → k < 8 → byte_set b k < 256
byte_set-lt b k hb hk = (byte_cases b k hb hk).0

pub byte_clear-lt : (b k : ℕ) → b < 256 → k < 8 → byte_clear b k < 256
byte_clear-lt b k hb hk = (byte_cases b k hb hk).1
