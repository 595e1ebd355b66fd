-- ===== src/Sched/Fair.antt =====
-- Fairness of the round robin of kernel/sched.c: a READY task gets the processor.
use mathlib.Core.Path.{subst}
use aeos.Sched.Ends.{Picks-lt, finish-IsValid, rest-IsValid, yield_cpu-Ends, Ends}
use aeos.Sched.Valid.{IsValid, task-update_ne, Runs, size-update, state-switch_to}
use aeos.Base.{
  ℕ, List, ◌+◌, ◌-◌, ◌<◌, ◌%◌, ◌≢◌, ◌≡◌, true, ap, none, some, arith, sym, ◌∙◌, ◌⊎◌, inl, inr,
  dec_lt, ℕ_discrete, length, ◌≤◌, Option, suc, zero, if_ind, refl,
}
use aeos.Sched.{
  Sched, is_ready, Outcome, Task, task, hand_over, update, next_ready, switch_to, promote,
  turn_over, rotate_to, returns, yield_cpu, kill_to, start, switches, yield_from, finish, kill,
  parks, requeue, rest, count_yield, rotate,
}
use aeos.Sched.Select.{ReadyAt, IdleAt, next_ready-none, next_ready-some}

-- How many tasks the loop of `next_ready` passes from `c` until it looks at `j`.
abbrev pub distance : ℕ → ℕ → ℕ
distance c j = (j + 16 - c) % 16

abbrev IsReady : Sched → ℕ → Type 0
IsReady s j = is_ready (task s.tasks j).state ≡ true

module _ (tasks : List Task) (c j : ℕ) (hc : c < 16) (hj : j < 16) (ne : j ≢ c) where
  ready_offset : is_ready (task tasks j).state ≡ true → ReadyAt tasks c (distance c j)
  ready_offset r = ap (λ i. is_ready (task tasks i).state) (omega arith) ∙ r

  pick_nearer :
      (next : ℕ)
      → is_ready (task tasks j).state ≡ true
      → next_ready tasks c ≡ some next
      → (next ≡ j) ⊎ (distance next j < distance c j)
  pick_nearer next r e =
      let (k, lo, hi, at, rdy, before) = next_ready-some tasks c next e in
      elim (dec_lt (distance c j) k) [
        | yes lt ↦ absurd (clash (before (distance c j) (omega arith) lt))
        | no nlt ↦ elim (ℕ_discrete next j) [ yes eq ↦ inl eq | no neq ↦ inr (omega arith) ]
      ]
    where
      clash : IdleAt tasks c (distance c j) → ⊥
      clash i = cc (sym i ∙ ready_offset r)

  some_ready : is_ready (task tasks j).state ≡ true → next_ready tasks c ≢ none
  some_ready r e = cc (sym (next_ready-none tasks c e j hj) ∙ r)

-- After a call of task `c` another task runs: `j` itself, or one nearer to `j`, which is READY still.
abbrev pub Nearer : ℕ → ℕ → Sched × Outcome → Type 0
Nearer c j r = elim r.1 [
  | returns ↦ ⊥
  | parks ↦ ⊥
  | switches next ↦ (next ≡ j) ⊎ (IsReady r.0 j × (distance next j < distance c j))
]

-- A task other than `next`, or one that is READY already, is READY after `promote` if before.
promote-IsReady : (s : Sched) (next j : ℕ) → next ≢ j → IsReady s j → IsReady (promote s next) j
promote-IsReady s next j n r = ap (λ t. is_ready t.state) (task-update_ne s next start j n) ∙ r

near_of :
    (next c j : ℕ)
    → next ≢ j
    → (next ≡ j) ⊎ (distance next j < distance c j)
    → distance next j < distance c j
near_of next c j n (inl p) = absurd (n p)
near_of next c j n (inr lt) = lt

module _ (s : Sched) (c j : ℕ) (v : IsValid s c) (hj : j < 16) (ne : j ≢ c) where
  open v use {size, current_in}

  -- An assignment to the entry of `c` leaves `j` READY.
  update-IsReady : (f : Task → Task) → IsReady s j → IsReady (update s c f) j
  update-IsReady f r = ap (λ t. is_ready t.state) (task-update_ne s c f j (λ e. ne (sym e))) ∙ r

  hand_over-Nearer :
      (next : ℕ) → next_ready s.tasks c ≡ some next → IsReady s j → Nearer c j (hand_over s c next)
  unfolding hand_over
  hand_over-Nearer next e r = elim (ℕ_discrete next j) [
    | yes p ↦ inl p
    | no n ↦ inr (
      ap is_ready (state-switch_to (promote s next) c next promoted current_in j)
          ∙ promote-IsReady s next j n r,
      near_of next c j n (pick_nearer s.tasks c j current_in hj ne next r e),
    )
  ]
    where
      promoted : length (promote s next).tasks ≡ 16
      promoted = size-update s next start size (Picks-lt s.tasks c next e)

  turn_over-Nearer :
      (next : ℕ)
      → next_ready s.tasks c ≡ some next
      → IsReady s j
      → Nearer c j (switch_to (turn_over s c next) c next, switches next)
  turn_over-Nearer next e r = elim (ℕ_discrete next j) [
    | yes p ↦ inl p
    | no n ↦ inr (
      ap is_ready (state-switch_to (turn_over s c next) c next size3 current_in j)
          ∙ ap (λ t. is_ready t.state) (task-update_ne s2 c count_yield j (λ e. ne (sym e)))
          ∙ promote-IsReady (update s c requeue) next j n (update-IsReady requeue r),
      near_of next c j n (pick_nearer s.tasks c j current_in hj ne next r e),
    )
  ]
    where
      s2 : Sched
      s2 = promote (update s c requeue) next

      size3 : length (turn_over s c next).tasks ≡ 16
      size3 =
          size-update s2 c count_yield
            (size-update (update s c requeue) next start (size-update s c requeue size current_in)
              (Picks-lt s.tasks c next e))
            current_in

module _ (s : Sched) (c j : ℕ) (v : IsValid s c) (hj : j < 16) (ne : j ≢ c) (r : IsReady s j) where
  kill_to-Nearer :
      (o : Option ℕ)
      → next_ready (update s c finish).tasks c ≡ o
      → Nearer c j (kill_to (update s c finish) c o)
  unfolding kill_to
  kill_to-Nearer none e = absurd (
      some_ready (update s c finish).tasks c j v.current_in hj ne
        (update-IsReady s c j v hj ne finish r) e)
  kill_to-Nearer (some next) e =
      hand_over-Nearer (update s c finish) c j (finish-IsValid s c v) hj ne next e
        (update-IsReady s c j v hj ne finish r)

  rotate_to-Nearer :
      (o : Option ℕ)
      → next_ready (update s c rest).tasks c ≡ o
      → Nearer c j (rotate_to (update s c rest) c o)
  unfolding rotate_to
  rotate_to-Nearer none e = absurd (
      some_ready (update s c rest).tasks c j v.current_in hj ne
        (update-IsReady s c j v hj ne rest r) e)
  rotate_to-Nearer (some next) e =
      turn_over-Nearer (update s c rest) c j (rest-IsValid s c v) hj ne next e
        (update-IsReady s c j v hj ne rest r)

  yield_cpu-Nearer : Nearer c j (yield_cpu s)
  unfolding yield_cpu yield_from kill rotate
  yield_cpu-Nearer = subst (Nearer c j) (sym at_current) (
      if_ind (Nearer c j) (task s.tasks c).kill_pending _ _
        (λ _. kill_to-Nearer (next_ready (update s c finish).tasks c) refl)
        (λ _. rotate_to-Nearer (next_ready (update s c rest).tasks c) refl))
    where
      at_current : yield_cpu s ≡ yield_from s c
      at_current = rw v.current_is

-- `n` calls of `sched_yield`, each by the task that runs at that moment.
unfoldable pub yields : ℕ → Sched → Sched
yields zero s = s
yields (suc n) s = yields n (yield_cpu s).0

abbrev Reaches : ℕ → ℕ → Sched → Type 0
Reaches bound j s = (n : ℕ) × (n ≤ bound) × ((yields n s).current ≡ some j)

Reaches-here : (s : Sched) (j bound : ℕ) → s.current ≡ some j → Reaches bound j s
unfolding yields
Reaches-here s j bound e = (0, omega arith, e)

Reaches-suc : (s : Sched) (j bound : ℕ) → Reaches bound j (yield_cpu s).0 → Reaches (suc bound) j s
unfolding yields
Reaches-suc s j bound (n, le, e) = (suc n, omega arith, e)

advance :
    (b c j : ℕ)
    → ((s : Sched) (c' : ℕ)
        → IsValid s c'
        → Runs s c'
        → IsReady s j
        → distance c' j ≤ b
        → Reaches b j s)
    → (r : Sched × Outcome) → Ends c r
    → Nearer c j r
    → distance c j ≤ suc b
    → Reaches b j r.0
advance b c j rec (s, returns) e n d = absurd n
advance b c j rec (s, parks) e n d = absurd n
advance b c j rec (s, switches next) e (inl p) d = Reaches-here s j b (e.0.current_is ∙ ap some p)
advance b c j rec (s, switches next) e (inr n) d = rec s next e.0 e.1 n.0 (omega (arith, n.1))

reach :
    (j : ℕ)
    → j < 16
    → (b : ℕ) (s : Sched) (c : ℕ) → IsValid s c
    → Runs s c
    → IsReady s j
    → distance c j ≤ b
    → Reaches b j s
reach j hj zero s c v runs r d =
    Reaches-here s j 0 (v.current_is ∙ ap some (omega (arith, v.current_in)))
reach j hj (suc b) s c v runs r d = elim (ℕ_discrete j c) [
  | yes p ↦ Reaches-here s j (suc b) (v.current_is ∙ ap some (sym p))
  | no ne ↦ Reaches-suc s j b (
      advance b c j (reach j hj b) (yield_cpu s) (yield_cpu-Ends s c v runs)
        (yield_cpu-Nearer s c j v hj ne r) d)
]

-- No READY task starves: if every task that gets the processor yields it, task `j` runs after at
-- most fifteen calls of `sched_yield`.
pub ready_gets_cpu :
    (s : Sched) (c j : ℕ)
    → IsValid s c
    → Runs s c
    → j < 16
    → is_ready (task s.tasks j).state ≡ true
    → (n : ℕ) × (n ≤ 15) × ((yields n s).current ≡ some j)
ready_gets_cpu s c j v runs hj r = reach j hj 15 s c v runs r (omega arith)
