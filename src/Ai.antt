-- ===== src/Ai.antt =====
-- The decision engine of the kernel (kernel/ai.h): what its parts share. An engine decides on a
-- timer rate from the pressure on memory; Core has the policy network, Learn the Q table, Debug the
-- self diagnosis, Cmt the second network, and Engine the tick that runs them all.
use aeos.Fp.{fp_mul}
use aeos.Base.{ℤ, List, ℕ, ◌∷◌, suc, add_i32, if◌then◌else◌, ltb_ℤ, get_or, pos, [], zero}
pub mod Core
pub mod Learn
pub mod Debug
pub mod Cmt
pub mod Engine
pub mod Tests

-- `AI_ACT_SUSTAIN`, `AI_ACT_BOOST`, `AI_ACT_REST`
abbrev pub sustain : ℕ
sustain = 0

abbrev pub boost : ℕ
boost = 1

abbrev pub rest : ℕ
rest = 2

-- `AI_PERIOD_TICKS`, and the same number as `CMT_PERIOD`
abbrev pub period : ℕ
period = 50

-- What the memory modules report at a tick: heap_get_used, heap_get_capacity, pmm_get_free_pages,
-- pmm_get_total_pages, as the `uint32_t` that the callers keep; and timer_get_ticks.
pub record Readings : Type 0 where
  pub heap_used : ℕ
  pub heap_cap : ℕ
  pub pages_free : ℕ
  pub pages_total : ℕ
  pub ticks : ℕ

-- `s += fp_mul(w[j], x[j])` over a row of weights
unfoldable pub dot : ℤ → List ℤ → List ℤ → ℤ
dot s [] x = s
dot s (w ∷ ws) [] = s
dot s (w ∷ ws) (x ∷ xs) = dot (add_i32 s (fp_mul w x)) ws xs

-- The sums of a layer: one for each row of weights and its bias.
unfoldable pub sums : List ℤ → List (List ℤ) → List ℤ → List ℤ
sums [] w x = []
sums (b ∷ bs) [] x = []
sums (b ∷ bs) (row ∷ w) x = dot b row x ∷ sums bs w x

-- `if (v[j] > v[best]) best = j;` for `n` indices from `j` on
unfoldable pub best_of : List ℤ → ℕ → ℕ → ℕ → ℕ
best_of v j best zero = best
best_of v j best (suc n) =
    best_of v (suc j) (if ltb_ℤ (get_or v best (pos 0)) (get_or v j (pos 0)) then j else best) n
