-- ===== src/Ramfs/Copy.antt =====
-- The byte loops of kernel/ramfs.c, read back.
use aeos.Ramfs.{copy}
use aeos.Base.{
  find_index, Bool, List, ℕ, ◌<◌, ◌+◌, length, ◌≤◌, ◌≡◌, get_or, if◌then◌else◌, set, leb, ◌&&◌, ltb,
  ◌-◌, arith, suc, ◌∷◌, ◌∙◌, ◌==◌, length-set, ap, get_or-set, ℕ_discrete, zero, [], refl, true,
}

pub copy_lem :
    (dst : List ℕ) (d : ℕ) (src : List ℕ) (s j n g : ℕ)
    → d + j + n ≤ length dst
    → get_or (copy dst d src s j n) g 0
      ≡ (if leb (d + j) g && ltb g (d + j + n) then get_or src (s + (g - d)) 0 else get_or dst g 0)
unfolding copy
copy_lem dst d src s j zero g h = ground arith
copy_lem dst d src s j (suc n) g h =
    copy_lem (set dst (d + j) (get_or src (s + j) 0)) d src s (suc j) n g
      (omega (arith, h, length-set dst (d + j) (get_or src (s + j) 0)))
    ∙ ap (λ x. if leb (d + suc j) g && ltb g (d + suc j + n) then get_or src (s + (g - d)) 0 else x)
        (get_or-set dst (d + j) g (get_or src (s + j) 0) 0 (omega (arith, h)))
    ∙ elim (ℕ_discrete (d + j) g) [ yes e ↦ merge e | no ne ↦ ground (arith, ne) ]
  where
    merge :
        d + j ≡ g
        → (if leb (d + suc j) g && ltb g (d + suc j + n)
            then get_or src (s + (g - d)) 0
            else if d + j == g
            then get_or src (s + j) 0
            else get_or dst g 0)
          ≡ (if leb (d + j) g && ltb g (d + j + suc n)
              then get_or src (s + (g - d)) 0
              else get_or dst g 0)
    merge e = rw (← e) (let same : d + j - d ≡ j = omega arith in rw same (ground arith))

-- The bytes copied are those of the source.
pub copy_read :
    (dst : List ℕ) (d : ℕ) (src : List ℕ) (s n j g i : ℕ)
    → d + n ≤ length dst
    → j < n
    → g ≡ d + j
    → i ≡ s + j
    → get_or (copy dst d src s 0 n) g 0 ≡ get_or src i 0
copy_read dst d src s n j g i h l at_g at_i =
    let within : ((leb (d + 0) g && ltb g (d + 0 + n)) ≡ true) = ground (arith, l, at_g) in
    let same : s + (g - d) ≡ i = omega (arith, at_g, at_i) in
    copy_lem dst d src s 0 n g (omega (arith, h)) ∙ rw (within, same) refl

pub length-copy :
    (dst : List ℕ) (d : ℕ) (src : List ℕ) (s j n : ℕ) → length (copy dst d src s j n) ≡ length dst
unfolding copy
length-copy dst d src s j zero = refl
length-copy dst d src s j (suc n) =
    length-copy (set dst (d + j) (get_or src (s + j) 0)) d src s (suc j) n
    ∙ length-set dst (d + j) (get_or src (s + j) 0)

-- A write to a cell that keeps what the search tests keeps the search's result.
pub find_index-set {ℓ} :
    {A : Type ℓ} (test : A → Bool) (xs : List A) (k : ℕ) (v d : A)
    → k < length xs
    → test v ≡ test (get_or xs k d)
    → find_index test (set xs k v) ≡ find_index test xs
unfolding find_index
find_index-set test [] k v d h e = refl
find_index-set test (x ∷ xs) zero v d h e = rw e refl
find_index-set test (x ∷ xs) (suc k) v d h e =
    rw (find_index-set test xs k v d (omega arith) e) refl
