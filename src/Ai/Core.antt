-- ===== src/Ai/Core.antt =====
-- The policy network and its action on the timer rate, kernel/ai_core.c.
use aeos.Ai.{Readings, sums, boost, period, best_of, rest}
use aeos.Fp.{fp_clamp, fp_softsign, fp_from_ratio, fp_one}
use aeos.Base.{
  ℤ, List, ℕ, pos, if◌then◌else◌, ◌∷◌, map, negsuc, leb, [], sub_i32, ◌==◌, sub32, add32, ◌+◌, ◌-◌,
}
pub mod Rates

-- 2, 1, 1/2 and 1/4 in Q16.16, and their negations
abbrev pub two : ℤ
two = pos 131072

abbrev pub one : ℤ
one = pos 65536

abbrev pub half : ℤ
half = pos 32768

abbrev pub minus_two : ℤ
minus_two = negsuc 131071

abbrev pub minus_one : ℤ
minus_one = negsuc 65535

abbrev pub minus_half : ℤ
minus_half = negsuc 32767

abbrev pub minus_quarter : ℤ
minus_quarter = negsuc 16383

abbrev pub nil : ℤ
nil = pos 0

abbrev w1 : List (List ℤ)
w1 =
    (nil ∷ nil ∷ two ∷ [])
    ∷ (nil ∷ nil ∷ minus_two ∷ [])
    ∷ (two ∷ nil ∷ nil ∷ [])
    ∷ (nil ∷ two ∷ nil ∷ [])
    ∷ (half ∷ half ∷ nil ∷ [])
    ∷ (minus_one ∷ minus_one ∷ minus_one ∷ [])
    ∷ (one ∷ nil ∷ one ∷ [])
    ∷ (nil ∷ nil ∷ nil ∷ [])
    ∷ []

abbrev b1 : List ℤ
b1 = nil ∷ nil ∷ minus_one ∷ minus_one ∷ nil ∷ half ∷ nil ∷ nil ∷ []

abbrev w2 : List (List ℤ)
w2 =
    (minus_quarter ∷ minus_quarter ∷ minus_quarter ∷ minus_quarter ∷ half ∷ half ∷ minus_quarter
      ∷ half ∷ [])
    ∷ (two ∷ minus_two ∷ nil ∷ nil ∷ minus_half ∷ minus_half ∷ two ∷ nil ∷ [])
    ∷ (nil ∷ two ∷ two ∷ two ∷ half ∷ nil ∷ minus_half ∷ nil ∷ [])
    ∷ []

abbrev b2 : List ℤ
b2 = nil ∷ nil ∷ nil ∷ []

-- The body input of both engines: `fp_clamp(ratio of the ticks - FP_ONE, -2, 2)`
abbrev pub body_input : ℕ → ℤ
body_input ticks_since = fp_clamp (sub_i32 (fp_from_ratio ticks_since period) fp_one) minus_two two

-- `ai_perceive`
pub perceive : ℕ → Readings → List ℤ
perceive ticks_since r =
    fp_from_ratio r.heap_used r.heap_cap
    ∷ fp_from_ratio (sub32 r.pages_total r.pages_free) r.pages_total
    ∷ body_input ticks_since
    ∷ []

-- `ai_decide`
unfoldable pub decide : List ℤ → ℕ
decide x =
    let hidden = map fp_softsign (sums b1 w1 x) in
    let out = map (λ o. fp_clamp o (negsuc 262143) (pos 262144)) (sums b2 w2 hidden) in
    best_of out 0 0 3

-- The step and the bounds that the level of the second network sets in `ai_act`.
abbrev pub step_of : ℕ → ℕ
step_of level = if leb level 1 then 12 else if leb 3 level then 50 else 25

abbrev pub min_of : ℕ → ℕ
min_of level = if leb level 1 then 80 else if leb 3 level then 50 else 20

abbrev pub max_of : ℕ → ℕ
max_of level = if leb level 1 then 120 else 200

-- `ai_act` on the rate `hz`
unfoldable pub act : ℕ → ℕ → ℕ → ℕ
act action level hz =
    if action == boost
    then (if leb (add32 hz (step_of level)) (max_of level) then add32 hz (step_of level) else hz)
    else if action == rest
    then (if leb (min_of level + step_of level) hz then hz - step_of level else hz)
    else hz
