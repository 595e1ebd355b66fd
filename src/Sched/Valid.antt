-- ===== src/Sched/Valid.antt =====
-- The invariant of the scheduler's table: at most the current task is RUNNING, the active address
-- space is that of the current task, and the arrays have their sizes. Every entry point keeps it.
use aeos.Base.{
  ℕ, ◌<◌, ◌≡◌, ◌≢◌, refl, some, arith, false, length, length-set, get_or-set_field, ◌∙◌,
  get_or-set_self, get_or-set_ne, ap, sym, ℕ_discrete,
}
use aeos.Sched.{
  Task, Sched, running, task, zero_task, is_running, switch_to, hand_over, update, save, promote,
  turn_over, start, requeue, count_yield,
}

-- `c` is the current task and no other task is RUNNING.
pub record IsValid (s : Sched) (c : ℕ) : Type 0 where
  pub size : length s.tasks ≡ 16
  pub current_is : s.current ≡ some c
  pub current_in : c < 16
  pub others : (j : ℕ) → j ≢ c → is_running (task s.tasks j).state ≡ false
  pub space_is : s.active_space ≡ (task s.tasks c).space

-- The current task runs, so its context is the one in the registers.
abbrev pub Runs : Sched → ℕ → Type 0
Runs s c = (task s.tasks c).state ≡ running

module _ (s : Sched) (i : ℕ) (f : Task → Task) (size : length s.tasks ≡ 16) (hi : i < 16) where
  pub size-update : length (update s i f).tasks ≡ 16
  size-update = length-set s.tasks i (f (task s.tasks i)) ∙ size

  pub field-update {ℓ} :
      {B : Type ℓ} (g : Task → B)
      → ((t : Task) → g (f t) ≡ g t)
      → (j : ℕ) → g (task (update s i f).tasks j) ≡ g (task s.tasks j)
  field-update g e j =
      get_or-set_field g s.tasks i j (f (task s.tasks i)) zero_task (omega (arith, size))
        (e (task s.tasks i))

  pub task-update_self : task (update s i f).tasks i ≡ f (task s.tasks i)
  task-update_self = get_or-set_self s.tasks i (f (task s.tasks i)) zero_task (omega (arith, size))

pub task-update_ne :
    (s : Sched) (i : ℕ) (f : Task → Task) (j : ℕ)
    → i ≢ j
    → task (update s i f).tasks j ≡ task s.tasks j
task-update_ne s i f j ne = get_or-set_ne s.tasks i j (f (task s.tasks i)) zero_task ne

module _ (s : Sched) (c next : ℕ) (size : length s.tasks ≡ 16) (hc : c < 16) where
  pub state-switch_to : (j : ℕ) → (task (switch_to s c next).tasks j).state ≡ (task s.tasks j).state
  unfolding switch_to
  state-switch_to j = field-update s c (save s.live) size hc (λ t. t.state) (λ t. refl) j

  space-switch_to :
      s.active_space ≡ (task s.tasks c).space
      → (switch_to s c next).active_space ≡ (task s.tasks next).space
  unfolding switch_to
  space-switch_to sp = ground arith

  switch_to-IsValid :
      s.current ≡ some next
      → next < 16
      → s.active_space ≡ (task s.tasks c).space
      → ((j : ℕ) → j ≢ next → is_running (task s.tasks j).state ≡ false)
      → IsValid (switch_to s c next) next
  unfolding switch_to
  switch_to-IsValid cur hn sp idle = record {
    size = size-update s c (save s.live) size hc;
    current_is = cur;
    current_in = hn;
    others = λ j ne. ap is_running (state-switch_to j) ∙ idle j ne;
    space_is =
        space-switch_to sp
        ∙ sym (field-update s c (save s.live) size hc (λ t. t.space) (λ t. refl) next);
  }

module _ (s : Sched) (c next : ℕ) (size : length s.tasks ≡ 16) (hc : c < 16) (hn : next < 16) where
  -- A task that is done hands the processor to `next`, which then runs alone.
  pub hand_over-IsValid :
      s.active_space ≡ (task s.tasks c).space
      → ((j : ℕ) → is_running (task s.tasks j).state ≡ false)
      → IsValid (hand_over s c next).0 next × Runs (hand_over s c next).0 next
  unfolding hand_over
  hand_over-IsValid sp idle = (
    switch_to-IsValid (promote s next) c next (size-update s next start size hn) hc refl hn
        (sp ∙ sym (field-update s next start size hn (λ t. t.space) (λ t. refl) c))
        (λ j ne.
          ap (λ t. is_running t.state) (task-update_ne s next start j (λ e. ne (sym e))) ∙ idle j),
    state-switch_to (promote s next) c next (size-update s next start size hn) hc next
        ∙ ap (λ t. t.state) (task-update_self s next start size hn),
  )

  -- A task that yields goes back to READY, and `next` runs alone.
  pub turn_over-IsValid :
      next ≢ c
      → s.active_space ≡ (task s.tasks c).space
      → ((j : ℕ) → j ≢ c → is_running (task s.tasks j).state ≡ false)
      → IsValid (switch_to (turn_over s c next) c next) next
        × Runs (switch_to (turn_over s c next) c next) next
  turn_over-IsValid ne sp idle = (
    switch_to-IsValid s3 c next size3 hc refl hn
        (sp
          ∙ sym (field-update s c requeue size hc (λ t. t.space) (λ t. refl) c)
          ∙ sym (field-update s1 next start size1 hn (λ t. t.space) (λ t. refl) c)
          ∙ sym (field-update s2 c count_yield size2 hc (λ t. t.space) (λ t. refl) c))
        (λ j nj.
          ap is_running (state3 j)
          ∙ ap (λ t. is_running t.state) (task-update_ne s1 next start j (λ e. nj (sym e)))
          ∙ others j (ℕ_discrete c j)),
    state-switch_to s3 c next size3 hc next
        ∙ state3 next
        ∙ ap (λ t. t.state) (task-update_self s1 next start size1 hn),
  )
    where
      s1 : Sched
      s1 = update s c requeue

      s2 : Sched
      s2 = promote s1 next

      s3 : Sched
      s3 = turn_over s c next

      size1 : length s1.tasks ≡ 16
      size1 = size-update s c requeue size hc

      size2 : length s2.tasks ≡ 16
      size2 = size-update s1 next start size1 hn

      size3 : length s3.tasks ≡ 16
      size3 = size-update s2 c count_yield size2 hc

      state3 : (j : ℕ) → (task s3.tasks j).state ≡ (task s2.tasks j).state
      state3 j = field-update s2 c count_yield size2 hc (λ t. t.state) (λ t. refl) j

      others : (j : ℕ) → Dec (c ≡ j) → is_running (task s1.tasks j).state ≡ false
      others j (yes e) =
          rw (← e) (ap (λ t. is_running t.state) (task-update_self s c requeue size hc))
      others j (no n) =
          ap (λ t. is_running t.state) (task-update_ne s c requeue j n) ∙ idle j (λ e. n (sym e))
