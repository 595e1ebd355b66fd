-- ===== src/Sched/Context.antt =====
-- What happens to the saved register files when kernel/sched.c switches.
use mathlib.Core.Path.{subst}
use aeos.Sched.Ends.{Picks-lt, Picks-ready}
use aeos.Base.{
  ℕ, length, ◌≢◌, ◌≡◌, refl, ◌<◌, List, ◌∙◌, false, some, ap, sym, take, take-memcpy, arith,
  take_all, Option, none, if_ind,
}
use aeos.Sched.{
  Sched, task, Task, Outcome, update, returns, hand_over, is_ready, switch_to, finish, next_ready,
  switches, save, kill_to, promote, rest, rotate_to, yield_cpu, parks, yield_from, start, exit_from,
  exit_to, requeue, kill, turn_over, rotate, count_yield,
}
use aeos.Sched.Valid.{IsValid, Runs, field-update, task-update_ne, task-update_self, size-update}

-- No call of `c` touches the saved context of another task. If it switches, the registers of `c` are
-- saved in its entry, and the live ones become those that the next task had saved.
abbrev pub Keeps : Sched → ℕ → Sched × Outcome → Type 0
Keeps s c r = ((j : ℕ) → j ≢ c → (task r.0.tasks j).regs ≡ (task s.tasks j).regs) × (elim r.1 [
  | returns ↦ r.0.live ≡ s.live
  | parks ↦ r.0.live ≡ s.live
  | switches next ↦
      (r.0.live ≡ take 13 (task s.tasks next).regs) × (take 13 (task r.0.tasks c).regs ≡ s.live)
])

-- `t` has the saved contexts and the live registers of `s`.
record SameRegs (s t : Sched) : Type 0 where
  regs : (j : ℕ) → (task t.tasks j).regs ≡ (task s.tasks j).regs
  live : t.live ≡ s.live

module _ (s t : Sched) (c next : ℕ) (size : length t.tasks ≡ 16) (hc : c < 16) where
  switch_to-Keeps :
      SameRegs s t → length s.live ≡ 13 → next ≢ c → Keeps s c (switch_to t c next, switches next)
  unfolding switch_to
  switch_to-Keeps same len ne = (
    (λ j nj. ap (λ x. x.regs) (task-update_ne t c (save t.live) j (λ e. nj (sym e))) ∙ same.regs j),
    (
      ap (λ x. take 13 x.regs) (task-update_ne t c (save t.live) next (λ e. ne (sym e)))
          ∙ ap (take 13) (same.regs next),
      ap (λ x. take 13 x.regs) (task-update_self t c (save t.live) size hc)
          ∙ take-memcpy (task t.tasks c).regs t.live 13 (omega (arith, ap length same.live))
          ∙ ap (take 13) same.live
          ∙ take_all s.live 13 (omega arith),
    ),
  )

SameRegs-update :
    (s t : Sched) (i : ℕ) (f : Task → Task)
    → length t.tasks ≡ 16
    → i < 16
    → ((x : Task) → (f x).regs ≡ x.regs)
    → SameRegs s t
    → SameRegs s (update t i f)
SameRegs-update s t i f size hi e same = record {
  regs = λ j. field-update t i f size hi (λ x. x.regs) e j ∙ same.regs j;
  live = same.live;
}

SameRegs-promote :
    (s t : Sched) (next : ℕ)
    → length t.tasks ≡ 16
    → next < 16
    → SameRegs s t
    → SameRegs s (promote t next)
SameRegs-promote s t next size hn same = record {
  regs = λ j. field-update t next start size hn (λ x. x.regs) (λ x. refl) j ∙ same.regs j;
  live = same.live;
}

module _ (s : Sched) (c : ℕ) (v : IsValid s c) (len : length s.live ≡ 13) where
  open v use {size, current_in}

  own : SameRegs s s
  own = record { regs = λ j. refl; live = refl }

  finished-SameRegs : SameRegs s (update s c finish)
  finished-SameRegs = SameRegs-update s s c finish size current_in (λ x. refl) own

  -- A task that is not READY is not chosen.
  not_self :
      (tasks : List Task) (next : ℕ)
      → is_ready (task tasks c).state ≡ false
      → next_ready tasks c ≡ some next
      → next ≢ c
  not_self tasks next idle e p =
      cc (sym idle ∙ ap (λ i. is_ready (task tasks i).state) (sym p) ∙ Picks-ready tasks c next e)

  finish-size : length (update s c finish).tasks ≡ 16
  finish-size = size-update s c finish size current_in

  finish_idle : is_ready (task (update s c finish).tasks c).state ≡ false
  finish_idle = ap (λ x. is_ready x.state) (task-update_self s c finish size current_in)

  module _ (t : Sched) (same : SameRegs s t) (sized : length t.tasks ≡ 16)
      (idle : is_ready (task t.tasks c).state ≡ false) where
    hand_over-Keeps : (next : ℕ) → next_ready t.tasks c ≡ some next → Keeps s c (hand_over t c next)
    unfolding hand_over
    hand_over-Keeps next e =
        switch_to-Keeps s (promote t next) c next (size-update t next start sized hn) current_in
          (SameRegs-promote s t next sized hn same) len (not_self t.tasks next idle e)
      where
        hn : next < 16
        hn = Picks-lt t.tasks c next e

    exit_to-Keeps : (o : Option ℕ) → next_ready t.tasks c ≡ o → Keeps s c (exit_to t c o)
    unfolding exit_to
    exit_to-Keeps none e = (λ j ne. same.regs j, same.live)
    exit_to-Keeps (some next) e = hand_over-Keeps next e

  -- Marking `c` FINISHED once more changes nothing that matters here.
  finished_twice : Keeps s c (exit_from (update s c finish) c)
  unfolding exit_from
  finished_twice =
      exit_to-Keeps t
        (SameRegs-update s (update s c finish) c finish finish-size current_in (λ x. refl)
          finished-SameRegs)
        (size-update (update s c finish) c finish finish-size current_in)
        (ap (λ x. is_ready x.state)
          (task-update_self (update s c finish) c finish finish-size current_in))
        (next_ready t.tasks c) refl
    where
      t : Sched
      t = update (update s c finish) c finish

  kill_to-Keeps :
      (o : Option ℕ)
      → next_ready (update s c finish).tasks c ≡ o
      → Keeps s c (kill_to (update s c finish) c o)
  unfolding kill_to
  kill_to-Keeps none e = finished_twice
  kill_to-Keeps (some next) e =
      hand_over-Keeps (update s c finish) finished-SameRegs finish-size finish_idle next e

  module _ (runs : Runs s c) where
    rested-SameRegs : SameRegs s (update s c rest)
    rested-SameRegs = SameRegs-update s s c rest size current_in (λ x. refl) own

    rest_idle : is_ready (task (update s c rest).tasks c).state ≡ false
    rest_idle =
        ap (λ x. is_ready x.state) (task-update_self s c rest size current_in) ∙ ap is_ready runs

    rotate_to-Keeps :
        (o : Option ℕ)
        → next_ready (update s c rest).tasks c ≡ o
        → Keeps s c (rotate_to (update s c rest) c o)
    unfolding rotate_to
    rotate_to-Keeps none e = (λ j ne. rested-SameRegs.regs j, refl)
    rotate_to-Keeps (some next) e =
        switch_to-Keeps s (turn_over (update s c rest) c next) c next
          (size-update s2 c count_yield size2 current_in) current_in
          (SameRegs-update s s2 c count_yield size2 current_in (λ x. refl)
            (SameRegs-promote s s1 next size1 hn (
              SameRegs-update s (update s c rest) c requeue size0 current_in (λ x. refl)
                rested-SameRegs)))
          len (not_self (update s c rest).tasks next rest_idle e)
      where
        hn : next < 16
        hn = Picks-lt (update s c rest).tasks c next e

        s1 : Sched
        s1 = update (update s c rest) c requeue

        s2 : Sched
        s2 = promote s1 next

        size0 : length (update s c rest).tasks ≡ 16
        size0 = size-update s c rest size current_in

        size1 : length s1.tasks ≡ 16
        size1 = size-update (update s c rest) c requeue size0 current_in

        size2 : length s2.tasks ≡ 16
        size2 = size-update s1 next start size1 hn

    -- `sched_yield` of the running task `c`, whether it returns, switches or kills the task, leaves
    -- the saved contexts of all other tasks alone; if it switches, the live registers are saved in
    -- the entry of `c`, and the next task goes on with exactly the thirteen registers that it had
    -- saved; otherwise the live registers stay.
    pub yield_cpu-Keeps : Keeps s c (yield_cpu s)
    unfolding yield_cpu yield_from kill rotate
    yield_cpu-Keeps = subst (Keeps s c) (sym at_current) (
        if_ind (Keeps s c) (task s.tasks c).kill_pending _ _
          (λ _. kill_to-Keeps (next_ready (update s c finish).tasks c) refl)
          (λ _. rotate_to-Keeps (next_ready (update s c rest).tasks c) refl))
      where
        at_current : yield_cpu s ≡ yield_from s c
        at_current = rw v.current_is
