-- ===== src/Sched/Ends.antt =====
-- Every way through `sched_yield` and `sched_exit` keeps the invariant of the scheduler's table.
use aeos.Base.{◌≢◌, refl, if_ind, none, ℕ_discrete, ◌<◌, arith}
use mathlib.Core.Path.{subst, ◌≡◌, ◌∙◌, ap, sym}
use aeos.Sched.Select.{next_ready-some}
use aeos.Sched.Valid.{
  IsValid, Runs, size-update, field-update, task-update_self, task-update_ne, hand_over-IsValid,
  turn_over-IsValid,
}
use aeos.Sched.{
  Task, Sched, finished, task, is_ready, is_running, next_ready, Outcome, returns, switches, parks,
  update, finish, rest, hand_over, exit_to, exit_from, exit, kill_to, kill, rotate_to, rotate,
  yield_from, yield_cpu, ℕ, List, Option, some, false, true,
}

-- How a call by task `c` may end: it returns and `c` still runs; another task runs instead; or no
-- task can run, `c` is FINISHED, and the processor waits for interrupts for ever.
abbrev pub Ends : ℕ → Sched × Outcome → Type 0
Ends c r = elim r.1 [
  | returns ↦ IsValid r.0 c × Runs r.0 c
  | switches next ↦ IsValid r.0 next × Runs r.0 next
  | parks ↦ IsValid r.0 c × ((task r.0.tasks c).state ≡ finished)
]

pub Picks-lt : (tasks : List Task) (from idx : ℕ) → next_ready tasks from ≡ some idx → idx < 16
Picks-lt tasks from idx e = omega (arith, (next_ready-some tasks from idx e).3)

pub Picks-ready :
    (tasks : List Task) (from idx : ℕ)
    → next_ready tasks from ≡ some idx
    → is_ready (task tasks idx).state ≡ true
Picks-ready tasks from idx e =
    let p = next_ready-some tasks from idx e in ap (λ i. is_ready (task tasks i).state) p.3 ∙ p.4

module _ (s : Sched) (c : ℕ) (v : IsValid s c) where
  open v use {size, current_is, current_in, others, space_is}

  finished_self : (task (update s c finish).tasks c).state ≡ finished
  finished_self = ap (λ t. t.state) (task-update_self s c finish size current_in)

  finish_idle : (j : ℕ) → is_running (task (update s c finish).tasks j).state ≡ false
  finish_idle j = elim (ℕ_discrete c j) [
    | yes e ↦ rw (← e) (ap is_running finished_self)
    | no n ↦
        ap (λ t. is_running t.state) (task-update_ne s c finish j n) ∙ others j (λ e. n (sym e))
  ]

  pub finish-IsValid : IsValid (update s c finish) c
  finish-IsValid = record {
    size = size-update s c finish size current_in;
    current_is = current_is;
    current_in = current_in;
    others = λ j ne. finish_idle j;
    space_is =
        space_is ∙ sym (field-update s c finish size current_in (λ t. t.space) (λ t. refl) c);
  }

  finish-hand_over :
      (next : ℕ)
      → next_ready (update s c finish).tasks c ≡ some next
      → Ends c (hand_over (update s c finish) c next)
  unfolding hand_over
  finish-hand_over next e =
      hand_over-IsValid (update s c finish) c next finish-IsValid.size current_in
        (Picks-lt (update s c finish).tasks c next e) finish-IsValid.space_is finish_idle

  exit_to-Ends :
      (o : Option ℕ)
      → next_ready (update s c finish).tasks c ≡ o
      → Ends c (exit_to (update s c finish) c o)
  unfolding exit_to
  exit_to-Ends none e = (finish-IsValid, finished_self)
  exit_to-Ends (some next) e = finish-hand_over next e

  exit_from-Ends : Ends c (exit_from s c)
  unfolding exit_from
  exit_from-Ends = exit_to-Ends (next_ready (update s c finish).tasks c) refl

module _ (s : Sched) (c : ℕ) (v : IsValid s c) where
  open v use {size, current_is, current_in, others, space_is}

  kill_to-Ends :
      (o : Option ℕ)
      → next_ready (update s c finish).tasks c ≡ o
      → Ends c (kill_to (update s c finish) c o)
  unfolding kill_to
  kill_to-Ends none e = exit_from-Ends (update s c finish) c (finish-IsValid s c v)
  kill_to-Ends (some next) e = finish-hand_over s c v next e

  kill-Ends : Ends c (kill s c)
  unfolding kill
  kill-Ends = kill_to-Ends (next_ready (update s c finish).tasks c) refl

  rest-state : (j : ℕ) → (task (update s c rest).tasks j).state ≡ (task s.tasks j).state
  rest-state j = field-update s c rest size current_in (λ t. t.state) (λ t. refl) j

  rest-space : s.active_space ≡ (task (update s c rest).tasks c).space
  rest-space = space_is ∙ sym (field-update s c rest size current_in (λ t. t.space) (λ t. refl) c)

  rest_idle : (j : ℕ) → j ≢ c → is_running (task (update s c rest).tasks j).state ≡ false
  rest_idle j ne = ap is_running (rest-state j) ∙ others j ne

  pub rest-IsValid : IsValid (update s c rest) c
  rest-IsValid = record {
    size = size-update s c rest size current_in;
    current_is = current_is;
    current_in = current_in;
    others = rest_idle;
    space_is = rest-space;
  }

  module _ (runs : Runs s c) where
    -- The task that runs is not READY, so it is not its own successor.
    next-ne : (next : ℕ) → next_ready (update s c rest).tasks c ≡ some next → next ≢ c
    next-ne next e p = cc (
        sym (ap is_ready (rest-state c ∙ runs))
        ∙ ap (λ i. is_ready (task (update s c rest).tasks i).state) (sym p)
        ∙ Picks-ready (update s c rest).tasks c next e)

    rotate_to-Ends :
        (o : Option ℕ)
        → next_ready (update s c rest).tasks c ≡ o
        → Ends c (rotate_to (update s c rest) c o)
    unfolding rotate_to
    rotate_to-Ends none e = (rest-IsValid, rest-state c ∙ runs)
    rotate_to-Ends (some next) e =
        turn_over-IsValid (update s c rest) c next rest-IsValid.size current_in
          (Picks-lt (update s c rest).tasks c next e) (next-ne next e) rest-space rest_idle

    yield_from-Ends : Ends c (yield_from s c)
    unfolding yield_from rotate
    yield_from-Ends =
        if_ind (Ends c) (task s.tasks c).kill_pending _ _ (λ _. kill-Ends)
          (λ _. rotate_to-Ends (next_ready (update s c rest).tasks c) refl)

    -- From a valid table whose current task runs, `sched_yield` ends in one of three ways: it returns
    -- and the task still runs, another task runs, or the task is FINISHED and the processor parks. In
    -- each the table is valid again: at most the current task is RUNNING and the active address space
    -- is the current task's.
    pub yield_cpu-Ends : Ends c (yield_cpu s)
    unfolding yield_cpu
    yield_cpu-Ends = subst (Ends c) (sym at_current) yield_from-Ends
      where
        at_current : yield_cpu s ≡ yield_from s c
        at_current = rw current_is

    -- The same of `sched_exit`.
    pub exit-Ends : Ends c (exit s)
    unfolding exit
    exit-Ends = subst (Ends c) (sym at_current) (exit_from-Ends s c v)
      where
        at_current : exit s ≡ exit_from s c
        at_current = rw current_is
