-- ===== src/Log/Turn.antt =====
-- What a write does to the live part of the ring of kernel/log.c.

use native.Mathlib.Nat.{add-mod_right, mod-add-mod, mod-eq-sub-mod}
use mathlib.Core.Path.{ap₂}
use aeos.Base.{
  List, ℕ, drop, ◌≤◌, suc, length, ◌++◌, ◌≡◌, arith, ◌-◌, ◌+◌, ◌<◌, window, [], set, ◌%◌, min, ◌∷◌,
  refl, zero, dec_lt, length-set, get_or, ◌∙◌, ap, sym, window-set_end, window_shift, length-append,
}
use aeos.Log.Ring.{Entry, empty_entry}

drop-append {ℓ} :
    {A : Type ℓ} (n : ℕ) (xs ys : List A) → n ≤ length xs → drop n (xs ++ ys) ≡ drop n xs ++ ys
drop-append zero xs ys h = refl
drop-append (suc n) [] ys h = elim h [ ]
drop-append (suc n) (x ∷ xs) ys h = drop-append n xs ys (omega (arith, h))

drop-suc {ℓ} : {A : Type ℓ} (n : ℕ) (xs : List A) → drop (suc n) xs ≡ drop 1 (drop n xs)
drop-suc zero [] = refl
drop-suc zero (x ∷ xs) = refl
drop-suc (suc n) [] = refl
drop-suc (suc n) (x ∷ xs) = drop-suc n xs

module _ (arr : List Entry) (k : ℕ) (v : Entry) (len : suc k ≤ length arr) where
  window_mod :
      (h j n : ℕ)
      → window empty_entry arr (suc k) h j n ≡ window empty_entry arr (suc k) (h % suc k) j n
  window_mod h j zero = refl
  window_mod h j (suc n) =
      ap₂ (λ i l. get_or arr i empty_entry ∷ l) (sym (mod-add-mod h (suc k) j))
        (window_mod h (suc j) n)

  wrapped : (h : ℕ) → ((h + 1) % suc k + k) % suc k ≡ h % suc k
  wrapped h =
      mod-add-mod (h + 1) (suc k) k
      ∙ ap (λ n. n % suc k) {x = h + 1 + k} (omega arith)
      ∙ add-mod_right h (suc k)

-- The whole ring after one more entry, when it is full: the oldest goes
ring_turn :
    (arr : List Entry) (k h : ℕ) (v : Entry)
    → suc k ≤ length arr
    → window empty_entry (set arr (h % suc k) v) (suc k) (h + 1) 0 (suc k)
      ≡ drop 1 (window empty_entry arr (suc k) h 0 (suc k)) ++ (v ∷ [])
ring_turn arr k h v len =
    window_mod (set arr (h % suc k) v) k v (omega (arith, len, length-set arr (h % suc k) v))
      (h + 1) 0 (suc k)
    ∙ ap (λ i. window empty_entry (set arr i v) (suc k) ((h + 1) % suc k) 0 (suc k))
        (sym (wrapped arr k v len h))
    ∙ window-set_end empty_entry arr (suc k) ((h + 1) % suc k) k v len (omega arith) (omega arith)
    ∙ ap (λ l. l ++ (v ∷ [])) (sym (window_shift empty_entry arr (suc k) h 0 k))

live-room :
    (hist : List Entry) (arr : List Entry) (k : ℕ) (v : Entry)
    → suc k ≤ length arr
    → length hist < suc k
    → window empty_entry arr (suc k) 0 0 (length hist) ≡ hist
    → window empty_entry (set arr (length hist % suc k) v) (suc k) 0 0 (suc (length hist))
      ≡ hist ++ (v ∷ [])
live-room hist arr k v len room live =
    ap (λ i. window empty_entry (set arr (i % suc k) v) (suc k) 0 0 (suc (length hist)))
      (omega arith)
    ∙ window-set_end empty_entry arr (suc k) 0 (length hist) v len (omega arith) room
    ∙ ap (λ l. l ++ (v ∷ [])) live

live-full :
    (hist : List Entry) (arr : List Entry) (k : ℕ) (v : Entry)
    → suc k ≤ length arr
    → suc k ≤ length hist
    → window empty_entry arr (suc k) (length hist - suc k) 0 (suc k)
      ≡ drop (length hist - suc k) hist
    → window empty_entry
        (set arr (length hist % suc k) v)
        (suc k)
        (length hist - suc k + 1)
        0
        (suc k)
      ≡ drop (length hist - suc k + 1) (hist ++ (v ∷ []))
live-full hist arr k v len full live =
    ap (λ i. window empty_entry (set arr i v) (suc k) (length hist - suc k + 1) 0 (suc k))
      (mod-eq-sub-mod {n = length hist} {m = suc k} full)
    ∙ ring_turn arr k (length hist - suc k) v len
    ∙ ap (λ l. drop 1 l ++ (v ∷ [])) live
    ∙ ap (λ l. l ++ (v ∷ [])) (sym (drop-suc (length hist - suc k) hist))
    ∙ sym (drop-append (suc (length hist - suc k)) hist (v ∷ []) (omega (arith, full)))
    ∙ ap (λ n. drop n (hist ++ (v ∷ []))) {x = suc (length hist - suc k)} (omega arith)

unfoldable pub Live : ℕ → List Entry → List Entry → Type 0
Live cap hist arr =
    window empty_entry arr cap (length hist - cap) 0 (min cap (length hist))
    ≡ drop (length hist - cap) hist

pub Live-set :
    (hist : List Entry) (arr : List Entry) (k : ℕ) (v : Entry)
    → suc k ≤ length arr
    → Live (suc k) hist arr
    → Live (suc k) (hist ++ (v ∷ [])) (set arr (length hist % suc k) v)
unfolding Live
Live-set hist arr k v len live = elim (dec_lt (length hist) (suc k)) [
  | yes room ↦
      rw
        (
          longer,
          none_gone (suc (length hist)) (omega arith),
          all_there (suc (length hist)) (omega arith),
        )
        (live-room hist arr k v len room (
          rw (none_gone (length hist) (omega arith), all_there (length hist) (omega arith)) at
            live))
  | no full ↦
      rw (longer, one_gone (omega arith), ring_full (suc (length hist)) (omega arith))
        (live-full hist arr k v len (omega arith)
          (rw (ring_full (length hist) (omega arith)) at live))
]
  where
    longer : length (hist ++ (v ∷ [])) ≡ suc (length hist)
    longer = omega (arith, length-append hist (v ∷ []))

    none_gone : (n : ℕ) → n ≤ suc k → n - suc k ≡ 0
    none_gone n h = omega (arith, h)

    all_there : (n : ℕ) → n ≤ suc k → min (suc k) n ≡ n
    all_there n h = omega (arith, h)

    ring_full : (n : ℕ) → suc k ≤ n → min (suc k) n ≡ suc k
    ring_full n h = omega (arith, h)

    one_gone : suc k ≤ length hist → suc (length hist) - suc k ≡ length hist - suc k + 1
    one_gone h = omega (arith, h)
