-- ===== src/Ai/Cmt/Levels.antt =====
-- Which levels kernel/cmt_core.c can derive.
use aeos.Ai.Cmt.{history_len}
use aeos.Ai.Cmt.{infer, perceive, Moment, Report}
use aeos.Ai.Core.{body_input, nil}
use aeos.Fp.Bounds.{IsInt32, i32-IsInt32, fp_softsign_bound}
use aeos.Fp.{fp_mul, fp_softsign, fp_abs, fp_from_ratio}
use aeos.Ai.Cmt.{
  total_energy, derive_level, transform, hidden_layer, Embedding, embed, b1, w1, Cmt, record_moment,
}
use aeos.Base.{
  ◌∷◌, suc, ℤ, i32, List, All, ◌+ℤ◌, ℕ, ◌*ℤ◌, magnitude, ◌≤◌, pos, ◌+◌, map, ◌<◌, length, ◌≡◌,
  replicate, ◌^◌, ◌*◌, arith, ap, add_i32, ◌∙◌, zero, [], refl, quot, ltb_ℤ, true, get_or, ◌-ℤ◌,
  ltb, negsuc, Bool-cases, inl, inr,
}
use aeos.Ai.{sums, dot, Readings}

-- A sum in a layer is an `int32_t`.
dot-IsInt32 : (s : ℤ) (w x : List ℤ) → IsInt32 s → IsInt32 (dot s w x)
unfolding dot
dot-IsInt32 s [] x h = h
dot-IsInt32 s (w ∷ ws) [] h = h
dot-IsInt32 s (w ∷ ws) (x ∷ xs) h =
    dot-IsInt32 (add_i32 s (fp_mul w x)) ws xs (i32-IsInt32 (s +ℤ fp_mul w x))

sums-IsInt32 :
    (b : List ℤ) (w : List (List ℤ)) (x : List ℤ) → All IsInt32 b → All IsInt32 (sums b w x)
unfolding sums
sums-IsInt32 [] w x h = tt
sums-IsInt32 (b ∷ bs) [] x h = tt
sums-IsInt32 (b ∷ bs) (row ∷ w) x h = (dot-IsInt32 b row x h.0, sums-IsInt32 bs w x h.1)

abbrev Small : ℤ → Type 0
Small h = magnitude h ≤ 65540

softsign-Small : (s : List ℤ) → All IsInt32 s → All Small (map fp_softsign s)
softsign-Small [] h = tt
softsign-Small (x ∷ xs) h = (fp_softsign_bound x h.0, softsign-Small xs h.1)

-- A neuron with no weights and no bias stays at 0.
fp_mul_zero : (x : ℤ) → fp_mul (pos 0) x ≡ pos 0
unfolding fp_mul i32 ◌*ℤ◌
fp_mul_zero x = ground arith

dot_zero : (n : ℕ) (x : List ℤ) → dot (pos 0) (replicate n (pos 0)) x ≡ pos 0
unfolding dot i32 ◌+ℤ◌
dot_zero zero x = refl
dot_zero (suc n) [] = refl
dot_zero (suc n) (x ∷ xs) =
    ap (λ t. dot (add_i32 (pos 0) t) (replicate n (pos 0)) xs) (fp_mul_zero x) ∙ dot_zero n xs

abbrev magnitudes : List ℤ → ℕ
magnitudes [] = 0
magnitudes (h ∷ hs) = magnitude h + magnitudes hs

add-Small :
    (te : ℕ) (h : ℤ)
    → Small h
    → te + 65540 < 2 ^ 31
    → add_i32 (pos te) (fp_abs h) ≡ pos (te + magnitude h)
unfolding i32 ◌+ℤ◌
add-Small te h s b = ground (arith, s, b)

total_energy_lem :
    (te : ℕ) (hs : List ℤ)
    → All Small hs
    → te + length hs * 65540 < 2 ^ 31
    → total_energy (pos te) hs ≡ pos (te + magnitudes hs)
unfolding total_energy
total_energy_lem te [] s b = ap pos (omega arith)
total_energy_lem te (h ∷ hs) s b =
    ap (λ t. total_energy t hs) (add-Small te h s.0 (omega (arith, b)))
    ∙ total_energy_lem (te + magnitude h) hs s.1 (omega (arith, b, s.0))
    ∙ ap pos (omega arith)

softsign_zero : magnitude (fp_softsign (pos 0)) ≡ 0
unfolding fp_softsign quot i32 ◌+ℤ◌ ◌*ℤ◌
softsign_zero = refl

hidden-Small : (x : List ℤ) → All Small (hidden_layer x)
hidden-Small x = softsign-Small (sums b1 w1 x) (sums-IsInt32 b1 w1 x (omega arith))

-- Eleven neurons of the twelve can be other than 0.
hidden_magnitudes :
    (x : List ℤ) → (length (hidden_layer x) ≡ 12) × (magnitudes (hidden_layer x) ≤ 720940)
unfolding sums
hidden_magnitudes x = omega (arith, hidden-Small x, idle)
  where
    idle : magnitude (fp_softsign (dot nil (nil ∷ nil ∷ nil ∷ nil ∷ nil ∷ nil ∷ []) x)) ≡ 0
    idle = ap (λ s. magnitude (fp_softsign s)) (dot_zero 6 x) ∙ softsign_zero

level_le : (e : Embedding) → ltb_ℤ e.energy (pos 65536) ≡ true → derive_level e ≤ 2
unfolding derive_level
level_le e h = ground (arith, h)

mean_lt : (t : ℕ) → t ≤ 720940 → ltb_ℤ (quot (pos t) (pos 12)) (pos 65536) ≡ true
unfolding quot
mean_lt t h = ground (arith, h)

energy_lt :
    (hs : List ℤ)
    → All Small hs
    → length hs ≡ 12
    → magnitudes hs ≤ 720940
    → ltb_ℤ (embed hs).energy (pos 65536) ≡ true
energy_lt hs s l m =
    ap (λ t. ltb_ℤ (quot t (pos 12)) (pos 65536)) (total_energy_lem 0 hs s (omega (arith, l)))
    ∙ mean_lt (0 + magnitudes hs) (omega (arith, m))

-- The level never reaches 3, whatever the inputs: the hidden layer has a neuron that is always 0, so the mean energy stays below 1.
derive_level-transform : (x : List ℤ) → derive_level (transform x).1 ≤ 2
unfolding transform
derive_level-transform x =
    level_le (embed (hidden_layer x))
      (energy_lt (hidden_layer x) (hidden-Small x) (hidden_magnitudes x).0 (hidden_magnitudes x).1)

-- The history leaves the inputs alone.
record_moment-last_input : (c : Cmt) (m : Moment) → (record_moment c m).last_input ≡ c.last_input
unfolding record_moment
record_moment-last_input c m = elim (Bool-cases (ltb c.hist_count history_len)) [
  | inl e ↦ rw e refl
  | inr e ↦ rw e refl
]

body_input_zero : body_input 0 ≡ negsuc 65535
unfolding fp_from_ratio i32 ◌-ℤ◌
body_input_zero = refl

-- At every inference the body input is -1, since the count of ticks is reset before the inputs are taken: the network never sees the timer.
infer_body :
    (c : Cmt) (r : Readings) (ai : Report)
    → get_or (infer c r ai).last_input 2 (pos 0) ≡ negsuc 65535
unfolding infer perceive
infer_body c r ai = ap (λ x. get_or x 2 (pos 0)) (record_moment-last_input _ _) ∙ body_input_zero
