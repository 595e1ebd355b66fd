-- ===== src/Sched/Select.antt =====
-- `next_ready` of kernel/sched.c: which task the scheduler picks.
use aeos.Base.{
  ℕ, zero, suc, ◌+◌, ◌%◌, ◌≤◌, ◌<◌, ◌≡◌, refl, Option, none, some, inl, inr, List, arith, true,
  false, Bool-cases, ℕ_discrete, ◌-◌,
}
use aeos.Sched.{Task, task, is_ready, scan, next_ready}

abbrev pub ReadyAt : List Task → ℕ → ℕ → Type 0
ReadyAt tasks from k = is_ready (task tasks ((from + k) % 16)).state ≡ true

abbrev pub IdleAt : List Task → ℕ → ℕ → Type 0
IdleAt tasks from k = is_ready (task tasks ((from + k) % 16)).state ≡ false

-- Among the offsets `i` to `i + n` from task `from`, the result is at the first that is ready.
abbrev pub Picks : List Task → ℕ → ℕ → ℕ → Option ℕ → Type 0
Picks tasks from i n none = (k : ℕ) → i ≤ k → k < i + n → IdleAt tasks from k
Picks tasks from i n (some idx) =
    (k : ℕ) × (i ≤ k)
    × (k < i + n)
    × (idx ≡ (from + k) % 16)
    × ReadyAt tasks from k
    × ((j : ℕ) → i ≤ j → j < k → IdleAt tasks from j)

-- The round of the loop that visits task `j`.
abbrev offset : ℕ → ℕ → ℕ
offset from j = (j + 15 - from % 16) % 16 + 1

offset_of : (from j : ℕ) → j < 16 → (from + offset from j) % 16 ≡ j
offset_of from j h = omega arith

module _ (tasks : List Task) (from : ℕ) where
  extend :
      (i k : ℕ)
      → IdleAt tasks from i
      → i ≤ k
      → (suc i ≤ k → IdleAt tasks from k)
      → IdleAt tasks from k
  extend i k e le rest = elim (ℕ_discrete i k) [ yes p ↦ rw (← p) e | no p ↦ rest (omega arith) ]

  Picks-suc :
      (i n : ℕ) (r : Option ℕ)
      → IdleAt tasks from i
      → Picks tasks from (suc i) n r
      → Picks tasks from i (suc n) r
  Picks-suc i n none e p = λ k le lt. extend i k e le (λ le'. p k le' (omega arith))
  Picks-suc i n (some idx) e (k, le, lt, eq, rdy, before) = (
    k,
    omega arith,
    omega arith,
    eq,
    rdy,
    λ j le' lt'. extend i j e le' (λ le''. before j le'' lt'),
  )

  pub scan-Picks : (i n : ℕ) → Picks tasks from i n (scan tasks from i n)
  unfolding scan
  scan-Picks i zero = λ k le lt. absurd (omega arith)
  scan-Picks i (suc n) = elim (Bool-cases (is_ready (task tasks ((from + i) % 16)).state)) [
    | inl e ↦ rw e (i, omega arith, omega arith, refl, e, λ j le lt. absurd (omega arith))
    | inr e ↦ rw e (Picks-suc i n (scan tasks from (suc i) n) e (scan-Picks (suc i) n))
  ]

  -- The loop of `next_ready` visits the fifteen other tasks in cyclic order and then `from` itself,
  -- and returns the first that is READY; when it returns -1 none of the sixteen is.
  pub next_ready-Picks : Picks tasks from 1 16 (next_ready tasks from)
  unfolding next_ready
  next_ready-Picks = scan-Picks 1 16

  pub next_ready-none :
      next_ready tasks from ≡ none → (j : ℕ) → j < 16 → is_ready (task tasks j).state ≡ false
  next_ready-none e j h =
      rw (offset_of from j h) at (all (offset from j) (omega arith) (omega arith))
    where
      all : Picks tasks from 1 16 none
      all = rw e at next_ready-Picks

  pub next_ready-some :
      (idx : ℕ) → next_ready tasks from ≡ some idx → Picks tasks from 1 16 (some idx)
  next_ready-some idx e = rw e at next_ready-Picks
