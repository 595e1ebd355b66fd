-- ===== src/Base/Window.antt =====
-- A ring buffer's live part: cells of an array from index `h` on, going round at `cap`.
use native.Mathlib.Nat.{mod-add-mod, mod-eq_of_lt, mod-eq-sub-mod}
use Prim.Native.Nat.{ℕ, zero, suc, ◌+◌, ◌-◌, ◌%◌, ◌≤◌, ◌<◌}
use mathlib.Core.Path.{◌≡◌, refl, sym, ap, ap₂, ◌∙◌}
use mathlib.Core.Logic.{◌≢◌}
use mathlib.Core.List.{List, [], ◌∷◌, ◌++◌}
use native.Mathlib.Decide.{dec_lt}
use native.Mathlib.Omega.{arith}
use aeos.Base.Lists.{length, get_or, set, get_or-set_self, get_or-set_ne}

-- Two different offsets below `cap` never name the same cell.
mod_offset-ne : (cap h j k : ℕ) → h < cap → j < k → k < cap → (h + j) % cap ≢ (h + k) % cap
mod_offset-ne cap h j k hh jk kc = elim (dec_lt (h + k) cap) [
  | yes p ↦ omega (arith, mod-eq_of_lt p, mod-eq_of_lt {n = h + j} {m = cap} (omega arith))
  | no p ↦ elim (dec_lt (h + j) cap) [
    | yes q ↦ omega (
      arith,
      mod-eq_of_lt q,
      mod-eq-sub-mod {n = h + k} {m = cap} (omega arith),
      mod-eq_of_lt {n = h + k - cap} {m = cap} (omega arith),
    )
    | no q ↦ omega (
      arith,
      mod-eq-sub-mod {n = h + j} {m = cap} (omega arith),
      mod-eq_of_lt {n = h + j - cap} {m = cap} (omega arith),
      mod-eq-sub-mod {n = h + k} {m = cap} (omega arith),
      mod-eq_of_lt {n = h + k - cap} {m = cap} (omega arith),
    )
  ]
]

module _ {ℓ} {A : Type ℓ} (d : A) where
  -- The `n` cells at the offsets `j`, `j + 1`, … from `h`.
  abbrev pub window : List A → ℕ → ℕ → ℕ → ℕ → List A
  window arr cap h j zero = []
  window arr cap h j (suc n) = get_or arr ((h + j) % cap) d ∷ window arr cap h (suc j) n

  pub length-window : (arr : List A) (cap h j n : ℕ) → length (window arr cap h j n) ≡ n
  length-window arr cap h j zero = refl
  length-window arr cap h j (suc n) = ap suc (length-window arr cap h (suc j) n)

  -- The last cell of a longer window.
  pub window-suc :
      (arr : List A) (cap h j n : ℕ)
      → window arr cap h j (suc n)
        ≡ window arr cap h j n ++ (get_or arr ((h + (j + n)) % cap) d ∷ [])
  window-suc arr cap h j zero = ap (λ k. get_or arr ((h + k) % cap) d ∷ []) (omega arith)
  window-suc arr cap h j (suc n) =
      ap (λ l. get_or arr ((h + j) % cap) d ∷ l)
        (window-suc arr cap h (suc j) n
          ∙ ap (λ k. window arr cap h (suc j) n ++ (get_or arr ((h + k) % cap) d ∷ []))
              (omega arith))

  -- Moving the head by one cell drops the first offset.
  pub window_shift :
      (arr : List A) (cap h j n : ℕ)
      → window arr cap h (suc j) n ≡ window arr cap ((h + 1) % cap) j n
  window_shift arr cap h j zero = refl
  window_shift arr cap h j (suc n) =
      ap₂ (λ k l. get_or arr k d ∷ l) here (window_shift arr cap h (suc j) n)
    where
      here : (h + suc j) % cap ≡ ((h + 1) % cap + j) % cap
      here = rw mod-add-mod (ap (λ k. k % cap) (omega arith))

  -- A write at an offset past the window leaves the window alone.
  pub window-set_past :
      (arr : List A) (cap h j n k : ℕ) (v : A)
      → h < cap
      → j + n ≤ k
      → k < cap
      → window (set arr ((h + k) % cap) v) cap h j n ≡ window arr cap h j n
  window-set_past arr cap h j zero k v hh le kc = refl
  window-set_past arr cap h j (suc n) k v hh le kc =
      ap₂ ◌∷◌
        (get_or-set_ne arr ((h + k) % cap) ((h + j) % cap) v d
          (λ e. mod_offset-ne cap h j k hh (omega arith) kc (sym e)))
        (window-set_past arr cap h (suc j) n k v hh (omega arith) kc)

  -- A write just past the window extends it by the value.
  pub window-set_end :
      (arr : List A) (cap h n : ℕ) (v : A)
      → cap ≤ length arr
      → h < cap
      → n < cap
      → window (set arr ((h + n) % cap) v) cap h 0 (suc n) ≡ window arr cap h 0 n ++ (v ∷ [])
  window-set_end arr cap h n v len hh nc =
      window-suc (set arr ((h + n) % cap) v) cap h 0 n
      ∙ ap₂ (λ l x. l ++ (x ∷ [])) (window-set_past arr cap h 0 n n v hh (omega arith) nc)
          (ap (λ k. get_or (set arr ((h + n) % cap) v) ((h + k) % cap) d) (omega arith)
            ∙ get_or-set_self arr ((h + n) % cap) v d (omega arith))
