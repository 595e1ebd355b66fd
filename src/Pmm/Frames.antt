-- ===== src/Pmm/Frames.antt =====
-- The bitmap of boot/aarch64/pmm.c as a set of frames: a write of one bit changes that frame only.
use mathlib.Core.Path.{ap₂}
use aeos.Pmm.Bits.{byte_set-lt, test-set, byte_clear-lt, test-clear}
use aeos.Base.{
  List, ℕ, length, Bool, ◌<◌, ◌/◌, ◌≡◌, arith, get_or, ◌*◌, if◌then◌else◌, All-get_or, ◌%◌,
  length-set, All, ◌==◌, false, true, set, All-set, ℕ_discrete, ap, sym, ◌∙◌, get_or-set_self,
  not_==_of_ne, get_or-set_ne,
}
use aeos.Pmm.{set_bit, test_bit, clear_bit, byte_test, byte_set, byte_clear}

-- The map has a bit for each of `n` frames, in bytes.
abbrev pub IsBitmap : ℕ → List ℕ → Type 0
IsBitmap n bitmap = (length bitmap * 8 ≡ n) × All (λ b. b < 256) bitmap

byte_lt : (bitmap : List ℕ) (n f : ℕ) → IsBitmap n bitmap → f < n → get_or bitmap (f / 8) 0 < 256
byte_lt bitmap n f b h = All-get_or (λ b. b < 256) bitmap (f / 8) 0 b.1 (omega (arith, b.0))

same_bit : (f g : ℕ) → f / 8 ≡ g / 8 → (f % 8 == g % 8) ≡ (f == g)
same_bit f g e = ground arith

module _ (w : ℕ → ℕ → ℕ) (v : Bool)
    (law : (b k j : ℕ)
      → b < 256
      → k < 8
      → j < 8
      → byte_test (w b k) j ≡ (if k == j then v else byte_test b j)) where
  test_write :
      (bitmap : List ℕ) (n f g : ℕ)
      → IsBitmap n bitmap
      → f < n
      → byte_test
          (get_or (set bitmap (f / 8) (w (get_or bitmap (f / 8) 0) (f % 8))) (g / 8) 0)
          (g % 8)
        ≡ (if f == g then v else byte_test (get_or bitmap (g / 8) 0) (g % 8))
  test_write bitmap n f g b h = elim (ℕ_discrete (f / 8) (g / 8)) [
    | yes e ↦
        ap
          (λ i.
            byte_test (get_or (set bitmap (f / 8) (w (get_or bitmap (f / 8) 0) (f % 8))) i 0)
              (g % 8))
          (sym e)
        ∙ ap (λ x. byte_test x (g % 8))
            (get_or-set_self bitmap (f / 8) (w (get_or bitmap (f / 8) 0) (f % 8)) 0
              (omega (arith, b.0)))
        ∙ law (get_or bitmap (f / 8) 0) (f % 8) (g % 8) (byte_lt bitmap n f b h) (omega arith)
            (omega arith)
        ∙ ap₂ (λ c i. if c then v else byte_test (get_or bitmap i 0) (g % 8)) (same_bit f g e) e
    | no ne ↦ rw (not_==_of_ne f g (λ e. ne (ap (λ x. x / 8) e))) (
        ap (λ x. byte_test x (g % 8))
          (get_or-set_ne bitmap (f / 8) (g / 8) (w (get_or bitmap (f / 8) 0) (f % 8)) 0 ne))
  ]

pub test_bit-set_bit :
    (bitmap : List ℕ) (n f g : ℕ)
    → IsBitmap n bitmap
    → f < n
    → test_bit (set_bit bitmap f) g ≡ (if f == g then true else test_bit bitmap g)
unfolding test_bit set_bit
test_bit-set_bit bitmap n f g b h = test_write byte_set true test-set bitmap n f g b h

pub test_bit-clear_bit :
    (bitmap : List ℕ) (n f g : ℕ)
    → IsBitmap n bitmap
    → f < n
    → test_bit (clear_bit bitmap f) g ≡ (if f == g then false else test_bit bitmap g)
unfolding test_bit clear_bit
test_bit-clear_bit bitmap n f g b h = test_write byte_clear false test-clear bitmap n f g b h

pub set_bit-IsBitmap :
    (bitmap : List ℕ) (n f : ℕ) → IsBitmap n bitmap → f < n → IsBitmap n (set_bit bitmap f)
unfolding set_bit
set_bit-IsBitmap bitmap n f b h = (
  omega (arith, b.0, length-set bitmap (f / 8) (byte_set (get_or bitmap (f / 8) 0) (f % 8))),
  All-set (λ b. b < 256) bitmap (f / 8) _ b.1
      (byte_set-lt _ (f % 8) (byte_lt bitmap n f b h) (omega arith)),
)

pub clear_bit-IsBitmap :
    (bitmap : List ℕ) (n f : ℕ) → IsBitmap n bitmap → f < n → IsBitmap n (clear_bit bitmap f)
unfolding clear_bit
clear_bit-IsBitmap bitmap n f b h = (
  omega (arith, b.0, length-set bitmap (f / 8) (byte_clear (get_or bitmap (f / 8) 0) (f % 8))),
  All-set (λ b. b < 256) bitmap (f / 8) _ b.1
      (byte_clear-lt _ (f % 8) (byte_lt bitmap n f b h) (omega arith)),
)
