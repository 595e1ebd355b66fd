-- ===== src/Ai/Core/Rates.antt =====
-- The timer rate under any sequence of decisions of kernel/ai_core.c.
use aeos.Base.{ℕ, arith, ◌≤◌}
use aeos.Ai.Core.{act}

abbrev pub InRate : ℕ → Type 0
InRate hz = (20 ≤ hz) × (hz ≤ 200)

pub act-InRate : (action level hz : ℕ) → InRate hz → InRate (act action level hz)
unfolding act
act-InRate action level hz h = ground (arith, h)
